-- ===== src/LruCache/Ageless.antt =====
-- `LruCache` (common/cache/lrucache.go) with no age set: what each call leaves of the entries.
use rule_base_proxy.Common.{
  <|>-eq-some, Bool-cases, Eq, List, List-cases, Option-cases, [], ap, arith, drop, if◌then◌else◌,
  inl, inr, leb, length, length-append, ltb, none, refl, some, sym, ℕ, ◌&&◌, ◌++◌, ◌+◌, ◌<|>◌,
  ◌>>=◌, ◌∙◌, ◌∷◌, ◌≡◌, ◌≢◌, ◌≤◌, ◌⊎◌,
}
use rule_base_proxy.LruCache.Entries.{
  Entry, find, remove, Distinct, find-key, find-append, find_touched, find_absent-tail,
  find-remove_self, find-remove,
}
use rule_base_proxy.LruCache.Cache.{
  Cache, store_entry, set_with_expire, set, is_expired, get_entry, get,
}
use rule_base_proxy.LruCache.Settings.{set-SameSettings, store_entry-SameSettings}
use rule_base_proxy.LruCache.Valid.{IsValid, element-find, set-IsValid}
use rule_base_proxy.LruCache.Reads.{
  lru-store_entry_new, lru-store_entry_known, find-store_entry, get-find,
}
use rule_base_proxy.LruCache.History.{lru-maybe_delete_oldest_ageless}

module _ {ℓ} {K V : Type ℓ} ⦃e : Eq K⦄ where
  lru-set_ageless :
      (now later : ℕ) (c : Cache K V) (k : K) (x : V)
      → c.max_age ≡ 0
      → (set now later c k x).lru ≡ (store_entry c k x 0).lru
  unfolding set set_with_expire
  lru-set_ageless now later c k x age =
      let at : (if ltb 0 c.max_age then now + c.max_age else 0) ≡ 0 = ground arith in
      rw at (
        lru-maybe_delete_oldest_ageless later (store_entry c k x 0)
          ((store_entry-SameSettings c k x 0).age ∙ age))

  -- The entry of the key that was set.
  pub find-set_self :
      (now later : ℕ) (c : Cache K V) (k : K) (x : V)
      → IsValid c
      → c.max_age ≡ 0
      → find k (set now later c k x).lru ≡ some (record { key = k; value = x; expires = 0 })
  find-set_self now later c k x v age =
      rw (lru-set_ageless now later c k x age) (find-store_entry c k x 0 v)

  find-drop :
      (j : K) (l : List (Entry K V)) {y : Entry K V}
      → Distinct l
      → find j (drop 1 l) ≡ some y
      → find j l ≡ some y
  unfolding find
  find-drop j [] d h = h
  find-drop j (z ∷ l) {y} d h = elim (Bool-cases (e.beq z.key j)) [
    | inl t ↦ let absent : find j l ≡ none = rw ((e.beq_iff z.key j).0 t) at d.0 in cc
    | inr f ↦ rw f h
  ]

  -- Right after a `Set` the entry stands at the back, with nothing of its key before it, and what
  -- stands before it was there before.
  lru-set_back :
      (now later : ℕ) (c : Cache K V) (k : K) (x : V)
      → IsValid c
      → c.max_age ≡ 0
      → (l : List (Entry K V)) × ((set now later c k x).lru
          ≡ l ++ record { key = k; value = x; expires = 0 } ∷ [])
        × (find k l ≡ none)
        × ((j : K) (y : Entry K V) → find j l ≡ some y → find j c.lru ≡ some y)
  lru-set_back now later c k x v age =
      let start = lru-set_ageless now later c k x age in
      elim (Option-cases (find k c.lru)) [
        | inl h ↦
            let kept = λ (j : K) (y : Entry K V). find-drop j c.lru {y = y} v.coherent.distinct in
            (
              if ltb 0 c.max_size && leb c.max_size (length c.lru) then drop 1 c.lru else c.lru,
              start ∙ lru-store_entry_new c k x 0 h v,
              ground (arith, absent k c.lru h),
              λ j y f. ground (arith, kept j y),
            )
        | inr (z, h) ↦ (
          remove k c.lru,
          start ∙ lru-store_entry_known c k x 0 h v,
          find-remove_self k c.lru v.coherent.distinct,
          λ j y f. ground (arith, find-remove k j c.lru v.coherent.distinct),
        )
      ]
    where
      absent : (k : K) (l : List (Entry K V)) → find k l ≡ none → find k (drop 1 l) ≡ none
      absent k [] h = h
      absent k (y ∷ l) h = find_absent-tail k y l h

  -- An entry found after a `Set` is the one that was set, or was there before.
  pub find-set_inv :
      (now later : ℕ) (c : Cache K V) (k j : K) (x : V) {y : Entry K V}
      → IsValid c
      → c.max_age ≡ 0
      → find j (set now later c k x).lru ≡ some y
      → ((k ≡ j) × (y.value ≡ x)) ⊎ (find j c.lru ≡ some y)
  unfolding find
  find-set_inv now later c k j x {y} v age h =
      let (l, back, _, before) = lru-set_back now later c k x v age in
      let new : Entry K V = record { key = k; value = x; expires = 0 } in
      let h' : (find j l <|> find j (new ∷ [])) ≡ some y =
        sym (find-append j l (new ∷ [])) ∙ rw back at h in
      elim (<|>-eq-some (find j l) (find j (new ∷ [])) h') [
        | inl f ↦ inr (before j y f)
        | inr (_, f) ↦ inl (ground (arith, e.beq_iff k j))
      ]

  -- A `Get` moves an entry and changes none.
  pub find-get :
      (now later : ℕ) (c : Cache K V) (k j : K)
      → IsValid c
      → c.max_age ≡ 0
      → find j (get now later c k).0.lru ≡ find j c.lru
  unfolding get get_entry is_expired
  find-get now later c k j v age = elim (Option-cases (find k c.lru)) [
    | inl h ↦ rw (element-find c k v.coherent ∙ h, get, get_entry)
    | inr (y, h) ↦
        let moved = find_touched k j c.lru y v.coherent.distinct (find-key k c.lru h) in
        ground (arith, element-find c k v.coherent, moved, e.beq_iff k j)
  ]

  -- What a `Get` returns.
  pub get-value :
      (now later : ℕ) (c : Cache K V) (k : K)
      → IsValid c
      → c.max_age ≡ 0
      → (get now later c k).1 ≡ (find k c.lru >>= λ y. some y.value)
  unfolding is_expired
  get-value now later c k v age =
      rw (get-find now later c k v)
        (elim (Option-cases (find k c.lru)) [ inl h ↦ rw h | inr (y, h) ↦ rw h (ground arith) ])

  find-dropped :
      (c : Cache K V) (k : K) (l : List (Entry K V)) {y : Entry K V}
      → 2 ≤ c.max_size
      → find k c.lru ≡ some y
      → c.lru ≡ l ++ y ∷ []
      → find k l ≡ none
      → find k (if ltb 0 c.max_size && leb c.max_size (length c.lru) then drop 1 c.lru else c.lru)
        ≡ some y
  find-dropped c k l {y} two here back alone =
      let last : find k (y ∷ []) ≡ some y =
        ap (λ o. o <|> find k (y ∷ [])) (sym alone)
        ∙ sym (find-append k l (y ∷ []))
        ∙ ap (find k) (sym back)
        ∙ here in
      elim (Bool-cases (ltb 0 c.max_size && leb c.max_size (length c.lru))) [
        | inl t ↦ elim (List-cases l) [
          | inl e' ↦ absurd (ground (arith, ap length back, ap length e', length-append l (y ∷ [])))
          | inr (w, r, e') ↦
              let cut : drop 1 c.lru ≡ r ++ y ∷ [] =
                ap (drop 1) (back ∙ ap (λ q. q ++ y ∷ []) e') in
              let gone : find k r ≡ none = find_absent-tail k w r (rw e' at alone) in
              rw (t, cut, find-append, gone) last
        ]
        | inr f ↦ rw f here
      ]

  lru-after :
      (t t' : ℕ) (c : Cache K V) (k j : K) (z : V) {y : Entry K V}
      → IsValid c
      → c.max_age ≡ 0
      → 2 ≤ c.max_size
      → k ≢ j
      → (l : List (Entry K V)) → find k c.lru ≡ some y
      → c.lru ≡ l ++ y ∷ []
      → find k l ≡ none
      → find k (set t t' c j z).lru ≡ some y
  lru-after t t' c k j z {y} v age two ne l here back alone =
      let new : Entry K V = record { key = j; value = z; expires = 0 } in
      rw (lru-set_ageless t t' c j z age) (elim (Option-cases (find j c.lru)) [
        | inl h ↦
            rw
              (lru-store_entry_new c j z 0 h v, find-append, find-dropped c k l two here back alone)
        | inr (w, h) ↦
            rw
              (
                lru-store_entry_known c j z 0 h v,
                find_touched j k c.lru new v.coherent.distinct refl,
              )
              (ground (arith, e.beq_iff j k))
      ])

  -- In a cache of two or more, a `Set` of another key keeps the entry that was set before it.
  pub find-set-set :
      (now later t t' : ℕ) (c : Cache K V) (k j : K) (x z : V)
      → IsValid c
      → c.max_age ≡ 0
      → 2 ≤ c.max_size
      → k ≢ j
      → find k (set t t' (set now later c k x) j z).lru
        ≡ some (record { key = k; value = x; expires = 0 })
  find-set-set now later t t' c k j x z v age two ne =
      let c₁ = set now later c k x in
      let v₁ = set-IsValid now later c k x v in
      let same = set-SameSettings now later c k x in
      let here = find-set_self now later c k x v age in
      let last : Entry K V = record { key = j; value = z; expires = 0 } in
      let (l, back, alone, _) = lru-set_back now later c k x v age in
      lru-after t t' c₁ k j z v₁ (same.age ∙ age) (rw same.size two) ne l here back alone
