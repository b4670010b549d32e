-- ===== src/LruCache/Expiry.antt =====
-- `SetWithExpire` and `GetWithExpire` of common/cache/lrucache.go on a cache without an age, as
-- the package dns uses it: the moments are only remembered.
use rule_base_proxy.Common.{Eq, Option-cases, arith, inl, inr, none, refl, some, ℕ, ◌>>=◌, ◌∙◌, ◌≡◌}
use rule_base_proxy.LruCache.Entries.{find}
use rule_base_proxy.LruCache.Cache.{
  Cache, set_with_expire, store_entry, get_entry, get_with_expire, is_expired,
}
use rule_base_proxy.LruCache.Settings.{store_entry-SameSettings}
use rule_base_proxy.LruCache.Valid.{IsValid, element-find}
use rule_base_proxy.LruCache.Reads.{find-store_entry}
use rule_base_proxy.LruCache.History.{lru-maybe_delete_oldest_ageless}

module _ {ℓ} {K V : Type ℓ} ⦃e : Eq K⦄ where
  pub get_with_expire-value :
      (now later : ℕ) (c : Cache K V) (k : K)
      → IsValid c
      → c.max_age ≡ 0
      → (get_with_expire now later c k).1 ≡ (find k c.lru >>= λ y. some (y.value, y.expires))
  unfolding get_with_expire get_entry is_expired
  get_with_expire-value now later c k v age = elim (Option-cases (find k c.lru)) [
    | inl h ↦ rw (h, get_with_expire, get_entry, element-find c k v.coherent ∙ h)
    | inr (y, h) ↦ ground (arith, element-find c k v.coherent)
  ]

  pub get_with_expire_miss :
      (now later : ℕ) (c : Cache K V) (k : K)
      → IsValid c
      → find k c.lru ≡ none
      → get_with_expire now later c k ≡ (c, none)
  unfolding get_with_expire get_entry
  get_with_expire_miss now later c k v h =
      rw (get_with_expire, get_entry, element-find c k v.coherent ∙ h) refl

  pub lru-set_with_expire_ageless :
      (now : ℕ) (c : Cache K V) (k : K) (x : V) (expires : ℕ)
      → c.max_age ≡ 0
      → (set_with_expire now c k x expires).lru ≡ (store_entry c k x expires).lru
  unfolding set_with_expire
  lru-set_with_expire_ageless now c k x expires age =
      lru-maybe_delete_oldest_ageless now (store_entry c k x expires)
        ((store_entry-SameSettings c k x expires).age ∙ age)

  pub find-set_with_expire :
      (now : ℕ) (c : Cache K V) (k : K) (x : V) (expires : ℕ)
      → IsValid c
      → c.max_age ≡ 0
      → find k (set_with_expire now c k x expires).lru
        ≡ some (record { key = k; value = x; expires = expires })
  find-set_with_expire now c k x expires v age =
      rw (lru-set_with_expire_ageless now c k x expires age) (find-store_entry c k x expires v)
