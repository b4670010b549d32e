-- ===== src/LruCache/Valid.antt =====
-- The invariant of `LruCache` (common/cache/lrucache.go) and that every operation keeps it.
use rule_base_proxy.Common.{
  Bool-cases, Eq, List, List-cases, Option, Option-cases, [], ap, arith, false, if◌then◌else◌, inl,
  inr, is_some, leb, length, length-append, ltb, none, not, refl, some, suc, sym, zero, ℕ, ◌&&◌,
  ◌++◌, ◌+◌, ◌<◌, ◌∙◌, ◌∷◌, ◌≡◌, ◌≤◌,
}
use rule_base_proxy.LruCache.Entries.{
  Entry, find, remove, Distinct, find-key, find-append, find_touched, find-remove, touched-Distinct,
  append-Distinct, remove-Distinct, length-remove, length-remove-le, remove_front,
}
use rule_base_proxy.LruCache.Cache.{
  Cache, has_key, delete_key, element, delete_element, delete_front, delete_expired,
  maybe_delete_oldest, store_entry, set_with_expire, set, is_expired, get_entry, get, delete,
}

has_key-delete_key {ℓ} :
    {K : Type ℓ} ⦃e : Eq K⦄ (j k : K) (ks : List K)
    → has_key k (delete_key j ks) ≡ (if e.beq j k then false else has_key k ks)
unfolding has_key delete_key
has_key-delete_key j k [] = ground arith
has_key-delete_key ⦃e⦄ j k (i ∷ ks) =
    ground (arith, has_key-delete_key j k ks, e.beq_iff i j, e.beq_iff i k, e.beq_iff j k)

module _ {ℓ} {K V : Type ℓ} ⦃e : Eq K⦄ where
  -- The map and the list agree: no key has two elements, and the map has just the keys of the
  -- list.
  pub record IsCoherent (c : Cache K V) : Type ℓ where
    pub distinct : Distinct c.lru
    pub agree : (k : K) → has_key k c.cache ≡ is_some (find k c.lru)

  -- With a size set, there are never more elements than the size.
  abbrev pub IsBounded : Cache K V → Type 0
  IsBounded c = 0 < c.max_size → length c.lru ≤ c.max_size

  pub record IsValid (c : Cache K V) : Type ℓ where
    pub coherent : IsCoherent c
    pub bounded : IsBounded c

  pub element-find : (c : Cache K V) (k : K) → IsCoherent c → element c k ≡ find k c.lru
  unfolding element
  element-find c k v = rw (v.agree k) (go (find k c.lru))
    where
      go : (o : Option (Entry K V)) → (if is_some o then o else none) ≡ o
      go none = refl
      go (some x) = refl

  element-key :
      (c : Cache K V) (k : K) {x : Entry K V} → IsCoherent c → element c k ≡ some x → x.key ≡ k
  element-key c k v h = find-key k c.lru (sym (element-find c k v) ∙ h)

  delete_element-IsCoherent :
      (c : Cache K V) (x : Entry K V) → IsCoherent c → IsCoherent (delete_element c x)
  unfolding delete_element
  delete_element-IsCoherent c x v = record {
    distinct = remove-Distinct x.key c.lru v.distinct;
    agree = λ k.
        rw (has_key-delete_key, find-remove x.key k c.lru v.distinct) (ground (arith, v.agree k));
  }

  delete_element-IsValid :
      (c : Cache K V) (x : Entry K V) → IsValid c → IsValid (delete_element c x)
  delete_element-IsValid c x v = record {
    coherent = delete_element-IsCoherent c x v.coherent;
    bounded =
        unfold delete_element in λ p. omega (arith, length-remove-le x.key c.lru, v.bounded p);
  }

  delete_expired-IsValid :
      (fuel now : ℕ) (c : Cache K V) → IsValid c → IsValid (delete_expired fuel now c)
  unfolding delete_expired
  delete_expired-IsValid zero now c v = v
  delete_expired-IsValid (suc fuel) now c v = elim (List-cases c.lru) [
    | inl e ↦ rw (e, delete_expired) v
    | inr (x, l, e) ↦
        let ih =
          delete_expired-IsValid fuel now (delete_element c x) (delete_element-IsValid c x v) in
        elim (Bool-cases (leb x.expires now)) [
          | inl t ↦ rw (e, t, delete_expired) ih
          | inr f ↦ rw (e, f, delete_expired) v
        ]
  ]

  maybe_delete_oldest-IsValid :
      (now : ℕ) (c : Cache K V) → IsValid c → IsValid (maybe_delete_oldest now c)
  unfolding maybe_delete_oldest
  maybe_delete_oldest-IsValid now c v = elim (Bool-cases (not c.stale_return && ltb 0 c.max_age)) [
    | inl t ↦ rw t (delete_expired-IsValid (length c.lru) now c v)
    | inr f ↦ rw f v
  ]

  -- Moving the element of a key to the back, with new contents.
  touch-IsValid :
      (c : Cache K V) (k : K) {x : Entry K V} (y : Entry K V)
      → IsValid c
      → element c k ≡ some x
      → y.key ≡ k
      → IsValid (record c { lru = remove k c.lru ++ y ∷ [] })
  touch-IsValid c k {x} y v h same =
      let found : find k c.lru ≡ some x = sym (element-find c k v.coherent) ∙ h in
      record {
        coherent = record {
          distinct = touched-Distinct k c.lru y v.coherent.distinct same;
          agree = λ j.
              rw (find_touched k j c.lru y v.coherent.distinct same)
                (elim (Bool-cases (e.beq k j)) [
                  | inl t ↦ rw (t, ← (e.beq_iff k j).0 t, v.coherent.agree, found)
                  | inr f ↦ rw f (v.coherent.agree j)
                ]);
        };
        bounded = λ p. omega (
          arith,
          length-append (remove k c.lru) (y ∷ []),
          length-remove k c.lru found,
          v.bounded p,
        );
      }

  -- Pushing a new key's element at the back, and dropping the front if there is no room.
  pub push-IsCoherent :
      (c : Cache K V) (x : Entry K V)
      → IsCoherent c
      → element c x.key ≡ none
      → IsCoherent (record c { cache = x.key ∷ c.cache; lru = c.lru ++ x ∷ [] })
  push-IsCoherent c x v h =
      let absent : find x.key c.lru ≡ none = sym (element-find c x.key v) ∙ h in
      record {
        distinct = append-Distinct c.lru x v.distinct absent;
        agree = λ j.
            rw (find-append j c.lru (x ∷ [])) (unfold has_key find in ground (arith, v.agree j));
      }

  -- The front is the element that goes.
  pub lru-delete_front :
      (c : Cache K V) {x : Entry K V} {l : List (Entry K V)}
      → c.lru ≡ x ∷ l
      → (delete_front c).lru ≡ l
  unfolding delete_front delete_element
  lru-delete_front c {x} {l} h = rw (h, delete_front) (rw h (remove_front x l))

  max_size-delete_front : (c : Cache K V) → (delete_front c).max_size ≡ c.max_size
  unfolding delete_front delete_element
  max_size-delete_front c = elim (List-cases c.lru) [
    | inl h ↦ rw (h, delete_front)
    | inr (x, l, h) ↦ rw (h, delete_front)
  ]

  delete_front-IsCoherent : (c : Cache K V) → IsCoherent c → IsCoherent (delete_front c)
  unfolding delete_front
  delete_front-IsCoherent c v = elim (List-cases c.lru) [
    | inl h ↦ rw (h, delete_front) v
    | inr (x, l, h) ↦ rw (h, delete_front) (delete_element-IsCoherent c x v)
  ]

  length-delete_front :
      (c : Cache K V) → 0 < length c.lru → length (delete_front c).lru + 1 ≡ length c.lru
  length-delete_front c p = elim (List-cases c.lru) [
    | inl h ↦ absurd (omega (arith, ap length h))
    | inr (x, l, h) ↦ omega (arith, ap length (lru-delete_front c h), ap length h)
  ]

  fit-IsValid :
      (c : Cache K V)
      → IsCoherent c
      → (0 < c.max_size → length c.lru ≤ c.max_size + 1)
      → IsValid (if ltb 0 c.max_size && ltb c.max_size (length c.lru) then delete_front c else c)
  fit-IsValid c v room = elim (Bool-cases (ltb 0 c.max_size && ltb c.max_size (length c.lru))) [
    | inl t ↦ rw t (record {
      coherent = delete_front-IsCoherent c v;
      bounded = λ p. ground (arith, length-delete_front c, max_size-delete_front c);
    })
    | inr f ↦ rw f (record { coherent = v; bounded = λ p. ground arith })
  ]

  store_entry-IsValid :
      (c : Cache K V) (k : K) (x : V) (expires : ℕ)
      → IsValid c
      → IsValid (store_entry c k x expires)
  unfolding store_entry
  store_entry-IsValid c k x expires v = elim (Option-cases (element c k)) [
    | inl h ↦
        let new : Entry K V = record { key = k; value = x; expires = expires } in
        let c' : Cache K V = record c { cache = k ∷ c.cache; lru = c.lru ++ new ∷ [] } in
        rw (h, store_entry)
          (fit-IsValid c' (push-IsCoherent c new v.coherent h)
            (λ p. omega (arith, length-append c.lru (new ∷ []), v.bounded p)))
    | inr (le, h) ↦ rw (h, store_entry) (touch-IsValid c k _ v h (element-key c k v.coherent h))
  ]

  -- `Set` and `SetWithExpire` keep the invariant.
  pub set_with_expire-IsValid :
      (now : ℕ) (c : Cache K V) (k : K) (x : V) (expires : ℕ)
      → IsValid c
      → IsValid (set_with_expire now c k x expires)
  unfolding set_with_expire
  set_with_expire-IsValid now c k x expires v =
      maybe_delete_oldest-IsValid now _ (store_entry-IsValid c k x expires v)

  -- `Set` keeps the invariant: the list has the map's keys, in an order without repeats, and
  -- the number of entries is within the bound.
  pub set-IsValid :
      (now later : ℕ) (c : Cache K V) (k : K) (x : V) → IsValid c → IsValid (set now later c k x)
  unfolding set
  set-IsValid now later c k x v = set_with_expire-IsValid later c k x _ v

  -- `get` keeps the invariant, whether it hits, misses or finds the entry too old.
  get_entry-IsValid :
      (now later : ℕ) (c : Cache K V) (k : K) → IsValid c → IsValid (get_entry now later c k).0
  unfolding get_entry
  get_entry-IsValid now later c k v = elim (Option-cases (element c k)) [
    | inl h ↦ rw (h, get_entry) v
    | inr (le, h) ↦ elim (Bool-cases (is_expired now c le)) [
      | inl t ↦
          rw (h, get_entry, t) (maybe_delete_oldest-IsValid later _ (delete_element-IsValid c le v))
      | inr f ↦
          rw (h, get_entry, f)
            (touch-IsValid c k _ v h (ground (arith, element-key c k v.coherent h)))
    ]
  ]

  delete-IsValid : (c : Cache K V) (k : K) → IsValid c → IsValid (delete c k)
  unfolding delete
  delete-IsValid c k v = elim (Option-cases (element c k)) [
    | inl h ↦ rw (h, delete) v
    | inr (le, h) ↦ rw (h, delete) (delete_element-IsValid c le v)
  ]

  pub get-IsValid :
      (now later : ℕ) (c : Cache K V) (k : K) → IsValid c → IsValid (get now later c k).0
  unfolding get
  get-IsValid now later c k v = get_entry-IsValid now later c k v
