-- ===== src/LruCache/Repeats.antt =====
-- Reading the same key of `LruCache` (common/cache/lrucache.go) again.
use rule_base_proxy.Common.{Eq, Option-cases, [], arith, false, inl, inr, some, ℕ, ◌++◌, ◌∷◌, ◌≡◌}
use rule_base_proxy.LruCache.Entries.{Entry, find, remove, find-key, find_touched}
use rule_base_proxy.LruCache.Cache.{Cache, get, get_entry, is_expired}
use rule_base_proxy.LruCache.Valid.{IsValid, element-find, get-IsValid}
use rule_base_proxy.LruCache.Reads.{get-find}

module _ {ℓ} {K V : Type ℓ} ⦃e : Eq K⦄ where
  -- A hit, where the age of an entry does not restart when it is read.
  cache-get :
      (now later : ℕ) (c : Cache K V) (k : K) {y : Entry K V}
      → IsValid c
      → c.update_age_on_get ≡ false
      → find k c.lru ≡ some y
      → is_expired now c y ≡ false
      → (get now later c k).0 ≡ record c { lru = remove k c.lru ++ y ∷ [] }
  unfolding get get_entry
  cache-get now later c k {y} v fixed h young = ground (arith, element-find c k v.coherent)

  -- A `Get` that hits leaves the value to be read again at the same time, unless the age of an
  -- entry is set to restart when it is read.
  pub get-get :
      (now later t : ℕ) (c : Cache K V) (k : K) {x : V}
      → IsValid c
      → c.update_age_on_get ≡ false
      → (get now later c k).1 ≡ some x
      → (get now t (get now later c k).0 k).1 ≡ some x
  unfolding is_expired
  get-get now later t c k {x} v fixed hit = elim (Option-cases (find k c.lru)) [
    | inl h ↦ absurd (ground (arith, get-find now later c k v))
    | inr (y, h) ↦
        let moved = find_touched k k c.lru y v.coherent.distinct (find-key k c.lru h) in
        let first = get-find now later c k v in
        let young : is_expired now c y ≡ false = ground arith in
        let after = cache-get now later c k v fixed h young in
        let at = get-find now t (get now later c k).0 k (get-IsValid now later c k v) in
        rw (at, after, moved) (ground (arith, e.beq_iff k k))
  ]
