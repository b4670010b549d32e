-- ===== src/LruCache/Reads.antt =====
-- What is read from an `LruCache` (common/cache/lrucache.go) after a call, and what an age means.
use rule_base_proxy.Common.{
  Bool-cases, Eq, List, List-cases, Option-cases, [], ap, arith, drop, false, if◌then◌else◌, inl,
  inr, leb, length, length-append, ltb, none, not, refl, some, suc, true, zero, ℕ, ◌&&◌, ◌++◌, ◌+◌,
  ◌<◌, ◌>>=◌, ◌∙◌, ◌∷◌, ◌≡◌, ◌≤◌,
}
use rule_base_proxy.LruCache.Entries.{
  Entry, find, remove, find-pushed, find_absent-tail, find-key, find_touched, remove_front,
}
use rule_base_proxy.LruCache.Cache.{
  Cache, delete_element, delete_expired, maybe_delete_oldest, store_entry, set_with_expire, set,
  is_expired, get_entry, get,
}
use rule_base_proxy.LruCache.Settings.{store_entry-SameSettings, set-SameSettings}
use rule_base_proxy.LruCache.Valid.{IsValid, element-find, lru-delete_front, set-IsValid}

module _ {ℓ} {K V : Type ℓ} ⦃e : Eq K⦄ where
  -- The elements from the first one that is still young.
  abbrev pub drop_expired : ℕ → List (Entry K V) → List (Entry K V)
  drop_expired now [] = []
  drop_expired now (x ∷ l) = if leb x.expires now then drop_expired now l else x ∷ l

  -- The loop of `maybeDeleteOldest` ends by its test: it drops the longest expired prefix.
  lru-delete_expired :
      (fuel now : ℕ) (c : Cache K V)
      → length c.lru ≤ fuel
      → (delete_expired fuel now c).lru ≡ drop_expired now c.lru
  unfolding delete_expired
  lru-delete_expired zero now c h = elim (List-cases c.lru) [
    | inl e' ↦ rw e'
    | inr (x, l, e') ↦ absurd (omega (arith, ap length e'))
  ]
  lru-delete_expired (suc fuel) now c h = elim (List-cases c.lru) [
    | inl e' ↦ rw (e', delete_expired) e'
    | inr (x, l, e') ↦
        let gone : (delete_element c x).lru ≡ l =
          unfold delete_element in rw e' (remove_front x l) in
        let ih =
          lru-delete_expired fuel now (delete_element c x)
            (omega (arith, ap length gone, ap length e')) in
        elim (Bool-cases (leb x.expires now)) [
          | inl t ↦ rw (e', delete_expired, t) (ih ∙ ap (drop_expired now) gone)
          | inr f ↦ rw (e', delete_expired, f) e'
        ]
  ]

  -- With an age set and no stale returns, `maybeDeleteOldest` drops exactly the longest expired
  -- prefix of the list; otherwise it does nothing.
  pub lru-maybe_delete_oldest :
      (now : ℕ) (c : Cache K V)
      → (maybe_delete_oldest now c).lru
        ≡ (if not c.stale_return && ltb 0 c.max_age then drop_expired now c.lru else c.lru)
  unfolding maybe_delete_oldest
  lru-maybe_delete_oldest now c = elim (Bool-cases (not c.stale_return && ltb 0 c.max_age)) [
    | inl t ↦ rw t (lru-delete_expired (length c.lru) now c (omega arith))
    | inr f ↦ rw f
  ]

  find-drop_expired :
      (k : K) (now : ℕ) (l : List (Entry K V)) {y : Entry K V}
      → find k l ≡ some y
      → now < y.expires
      → find k (drop_expired now l) ≡ some y
  unfolding find
  find-drop_expired k now [] h p = h
  find-drop_expired k now (x ∷ l) {y} h p =
      let ih = find-drop_expired k now l {y = y} in
      elim (Bool-cases (leb x.expires now)) [ inl t ↦ ground (arith, ih) | inr f ↦ rw f h ]

  -- What a young entry's key maps to stays.
  find-maybe_delete_oldest :
      (k : K) (now : ℕ) (c : Cache K V) {y : Entry K V}
      → find k c.lru ≡ some y
      → (0 < c.max_age → now < y.expires)
      → find k (maybe_delete_oldest now c).lru ≡ some y
  find-maybe_delete_oldest k now c {y} h p =
      rw lru-maybe_delete_oldest (elim (Bool-cases (not c.stale_return && ltb 0 c.max_age)) [
        | inl t ↦ rw t (find-drop_expired k now c.lru h (p (ground arith)))
        | inr f ↦ rw f h
      ])

  -- A new key goes to the back; if that makes one element too many, the front goes.
  pub lru-store_entry_new :
      (c : Cache K V) (k : K) (x : V) (expires : ℕ)
      → find k c.lru ≡ none
      → IsValid c
      → (store_entry c k x expires).lru
        ≡ (if ltb 0 c.max_size && leb c.max_size (length c.lru) then drop 1 c.lru else c.lru)
          ++ record { key = k; value = x; expires = expires } ∷ []
  unfolding store_entry
  lru-store_entry_new c k x expires h v =
      let new : Entry K V = record { key = k; value = x; expires = expires } in
      let c' : Cache K V = record c { cache = k ∷ c.cache; lru = c.lru ++ new ∷ [] } in
      let grown : length c'.lru ≡ length c.lru + 1 =
        omega (arith, length-append c.lru (new ∷ [])) in
      rw (element-find c k v.coherent ∙ h, store_entry, grown)
        (elim (Bool-cases (ltb 0 c.max_size && leb c.max_size (length c.lru))) [
          | inl t ↦
              let t' : (ltb 0 c.max_size && ltb c.max_size (length c.lru + 1)) ≡ true =
                ground arith in
              rw (t, t')
                (elim (List-cases c.lru) [
                  | inl e' ↦ absurd (ground (arith, ap length e'))
                  | inr (y, l, e') ↦ lru-delete_front c' (ap (λ r. r ++ new ∷ []) e') ∙ rw e'
                ])
          | inr f ↦
              let f' : (ltb 0 c.max_size && ltb c.max_size (length c.lru + 1)) ≡ false =
                ground arith in
              rw (f, f')
        ])

  -- A known key moves to the back, with its new contents.
  pub lru-store_entry_known :
      (c : Cache K V) (k : K) (x : V) (expires : ℕ) {y : Entry K V}
      → find k c.lru ≡ some y
      → IsValid c
      → (store_entry c k x expires).lru
        ≡ remove k c.lru ++ record { key = k; value = x; expires = expires } ∷ []
  unfolding store_entry
  lru-store_entry_known c k x expires {y} h v =
      rw (element-find c k v.coherent ∙ h, store_entry)
        (ap (λ j. remove k c.lru ++ record { key = j; value = x; expires = expires } ∷ [])
          (find-key k c.lru h))

  -- The entry that `SetWithExpire` has stored, before the old ones go.
  pub find-store_entry :
      (c : Cache K V) (k : K) (x : V) (expires : ℕ)
      → IsValid c
      → find k (store_entry c k x expires).lru
        ≡ some (record { key = k; value = x; expires = expires })
  find-store_entry c k x expires v =
      let new : Entry K V = record { key = k; value = x; expires = expires } in
      elim (Option-cases (find k c.lru)) [
        | inl h ↦ rw (lru-store_entry_new c k x expires h v) (
            find-pushed
              (if ltb 0 c.max_size && leb c.max_size (length c.lru) then drop 1 c.lru else c.lru)
              new (kept c k h))
        | inr (y, h) ↦ rw (
          lru-store_entry_known c k x expires h v,
          find_touched k k c.lru new v.coherent.distinct refl,
          (e.beq_iff k k).1 refl,
        )
      ]
    where
      dropped : (k : K) (l : List (Entry K V)) → find k l ≡ none → find k (drop 1 l) ≡ none
      dropped k [] h = h
      dropped k (y ∷ l) h = find_absent-tail k y l h

      kept :
          (c : Cache K V) (k : K)
          → find k c.lru ≡ none
          → find k
              (if ltb 0 c.max_size && leb c.max_size (length c.lru) then drop 1 c.lru else c.lru)
            ≡ none
      kept c k h = ground (arith, dropped k c.lru h)

  -- What `Get` returns: the value of the key's element, unless that is too old.
  pub get-find :
      (now later : ℕ) (c : Cache K V) (k : K)
      → IsValid c
      → (get now later c k).1
        ≡ (find k c.lru >>= λ y. if is_expired now c y then none else some y.value)
  unfolding get get_entry
  get-find now later c k v = elim (Option-cases (find k c.lru)) [
    | inl h ↦ rw (h, get, get_entry, element-find c k v.coherent ∙ h)
    | inr (y, h) ↦ ground (arith, element-find c k v.coherent)
  ]

  young_entry :
      (t : ℕ) (c : Cache K V) (y : Entry K V)
      → (0 < c.max_age → t < y.expires)
      → is_expired t c y ≡ false
  unfolding is_expired
  young_entry t c y p = ground arith

  -- A `Get` after a `Set` of the same key returns the value, as long as the entry is young.
  pub get-set :
      (now later t t' : ℕ) (c : Cache K V) (k : K) (x : V)
      → IsValid c
      → (0 < c.max_age → (later < now + c.max_age) × (t < now + c.max_age))
      → (get t t' (set now later c k x) k).1 ≡ some x
  unfolding set set_with_expire
  get-set now later t t' c k x v young =
      let at : ℕ = if ltb 0 c.max_age then now + c.max_age else 0 in
      let entry : Entry K V = record { key = k; value = x; expires = at } in
      let found : find k (set now later c k x).lru ≡ some entry =
        find-maybe_delete_oldest k later (store_entry c k x at) (find-store_entry c k x at v)
          (λ p. ground (arith, store_entry-SameSettings c k x at)) in
      rw (
        get-find t t' (set now later c k x) k (set-IsValid now later c k x v),
        found,
        young_entry t (set now later c k x) entry
            (λ p. ground (arith, set-SameSettings now later c k x)),
      )
