-- ===== src/LruCache/Entries.antt =====
-- The `entry` structs of common/cache/lrucache.go in the order of the list `lru` (front first).
-- A list element is named by its key: no two live elements have the same key.
use rule_base_proxy.Common.{
  Bool-cases, Eq, List, Option, [], arith, if◌then◌else◌, inl, inr, length, none, refl, some, ℕ,
  ◌++◌, ◌+◌, ◌<|>◌, ◌∙◌, ◌∷◌, ◌≡◌, ◌≢◌, ◌≤◌,
}

-- `expires` is in seconds of Unix time.
pub record Entry {ℓ} (K V : Type ℓ) : Type ℓ where
  pub key : K
  pub value : V
  pub expires : ℕ

module _ {ℓ} {K V : Type ℓ} ⦃e : Eq K⦄ where
  -- The element of a key.
  unfoldable pub find : K → List (Entry K V) → Option (Entry K V)
  find k [] = none
  find k (x ∷ l) = if e.beq x.key k then some x else find k l

  -- `list.Remove`
  unfoldable pub remove : K → List (Entry K V) → List (Entry K V)
  remove k [] = []
  remove k (x ∷ l) = if e.beq x.key k then l else x ∷ remove k l

  -- No key stands twice.
  abbrev pub Distinct : List (Entry K V) → Type ℓ
  Distinct [] = Unit
  Distinct (x ∷ l) = (find x.key l ≡ none) × Distinct l

  pub find-append : (k : K) (l r : List (Entry K V)) → find k (l ++ r) ≡ (find k l <|> find k r)
  unfolding find
  find-append k [] r = refl
  find-append k (x ∷ l) r = ground (arith, find-append k l r)

  pub find-key : (k : K) (l : List (Entry K V)) {x : Entry K V} → find k l ≡ some x → x.key ≡ k
  unfolding find
  find-key k [] h = cc
  find-key k (y ∷ l) {x} h = ground (arith, find-key k l {x = x}, e.beq_iff y.key k)

  find-remove_ne : (k j : K) (l : List (Entry K V)) → k ≢ j → find j (remove k l) ≡ find j l
  unfolding find remove
  find-remove_ne k j [] h = refl
  find-remove_ne k j (x ∷ l) h =
      ground (arith, find-remove_ne k j l, e.beq_iff x.key k, e.beq_iff x.key j)

  pub find-remove_self : (k : K) (l : List (Entry K V)) → Distinct l → find k (remove k l) ≡ none
  unfolding find remove
  find-remove_self k [] d = refl
  find-remove_self k (x ∷ l) d = elim (Bool-cases (e.beq x.key k)) [
    | inl t ↦ rw t (rw ((e.beq_iff x.key k).0 t) at d.0)
    | inr f ↦ rw (f, find) (rw f (find-remove_self k l d.1))
  ]

  pub remove_absent : (k : K) (l : List (Entry K V)) → find k l ≡ none → remove k l ≡ l
  unfolding find remove
  remove_absent k [] h = refl
  remove_absent k (x ∷ l) h = ground (arith, remove_absent k l)

  pub length-remove :
      (k : K) (l : List (Entry K V)) {x : Entry K V}
      → find k l ≡ some x
      → length (remove k l) + 1 ≡ length l
  unfolding find remove
  length-remove k [] h = cc
  length-remove k (y ∷ l) {x} h = ground (arith, length-remove k l {x = x})

  pub length-remove-le : (k : K) (l : List (Entry K V)) → length (remove k l) ≤ length l
  unfolding remove
  length-remove-le k [] = omega arith
  length-remove-le k (y ∷ l) = ground (arith, length-remove-le k l)

  pub remove-Distinct : (k : K) (l : List (Entry K V)) → Distinct l → Distinct (remove k l)
  unfolding remove
  remove-Distinct k [] d = tt
  remove-Distinct k (x ∷ l) d = elim (Bool-cases (e.beq x.key k)) [
    | inl t ↦ rw t (d.1)
    | inr f ↦ rw f (
      find-remove_ne k x.key l (λ p. ground (arith, e.beq_iff x.key k)) ∙ d.0,
      remove-Distinct k l d.1,
    )
  ]

  pub append-Distinct :
      (l : List (Entry K V)) (x : Entry K V)
      → Distinct l
      → find x.key l ≡ none
      → Distinct (l ++ x ∷ [])
  unfolding find
  append-Distinct [] x d h = (refl, tt)
  append-Distinct (y ∷ l) x d h = elim (Bool-cases (e.beq y.key x.key)) [
    | inl t ↦ absurd (ground arith)
    | inr f ↦ (
      find-append y.key l (x ∷ [])
          ∙ ground (arith, d.0, e.beq_iff y.key x.key, e.beq_iff x.key y.key),
      append-Distinct l x d.1 (ground arith),
    )
  ]

  -- Moving an element to the back, with new contents, is an update of the lookup.
  pub find_touched :
      (j k : K) (l : List (Entry K V)) (x : Entry K V)
      → Distinct l
      → x.key ≡ j
      → find k (remove j l ++ x ∷ []) ≡ (if e.beq j k then some x else find k l)
  unfolding find
  find_touched j k l x d h = elim (Bool-cases (e.beq j k)) [
    | inl t ↦
        rw
          (t, find-append, ← (e.beq_iff j k).0 t, find-remove_self j l d, h, (e.beq_iff j j).1 refl)
    | inr f ↦
        rw (f, find-append, find-remove_ne j k l (λ p. ground (arith, e.beq_iff j k)), h, f)
          (or_none (find k l))
  ]
    where
      or_none : (o : Option (Entry K V)) → (o <|> none) ≡ o
      or_none none = refl
      or_none (some y) = refl

  pub find-remove :
      (j k : K) (l : List (Entry K V))
      → Distinct l
      → find k (remove j l) ≡ (if e.beq j k then none else find k l)
  find-remove j k l d = elim (Bool-cases (e.beq j k)) [
    | inl t ↦ rw (t, ← (e.beq_iff j k).0 t) (find-remove_self j l d)
    | inr f ↦ rw f (find-remove_ne j k l (λ p. ground (arith, e.beq_iff j k)))
  ]

  pub touched-Distinct :
      (j : K) (l : List (Entry K V)) (x : Entry K V)
      → Distinct l
      → x.key ≡ j
      → Distinct (remove j l ++ x ∷ [])
  touched-Distinct j l x d h =
      append-Distinct (remove j l) x (remove-Distinct j l d) (rw h (find-remove_self j l d))

  pub remove_front : (x : Entry K V) (l : List (Entry K V)) → remove x.key (x ∷ l) ≡ l
  unfolding remove
  remove_front x l = rw ((e.beq_iff x.key x.key).1 refl)

  -- In a list of distinct keys, none of them stands in front of its element.
  pub Distinct-find_before :
      (l : List (Entry K V)) (x : Entry K V) (r : List (Entry K V))
      → Distinct (l ++ x ∷ r)
      → find x.key l ≡ none
  unfolding find
  Distinct-find_before [] x r d = refl
  Distinct-find_before (y ∷ l) x r d =
      let later = Distinct-find_before l x r d.1 in
      let here = find-append y.key l (x ∷ r) in
      ground (
        arith,
        d.0,
        e.beq_iff y.key x.key,
        e.beq_iff x.key y.key,
        or_none (find y.key l) (find y.key (x ∷ r)),
      )
    where
      or_none : (a b : Option (Entry K V)) → (a <|> b) ≡ none → b ≡ none
      or_none none b h = h
      or_none (some z) b h = cc

  pub find_absent-tail :
      (k : K) (x : Entry K V) (l : List (Entry K V)) → find k (x ∷ l) ≡ none → find k l ≡ none
  unfolding find
  find_absent-tail k x l h = ground arith

  pub find-pushed :
      (l : List (Entry K V)) (x : Entry K V)
      → find x.key l ≡ none
      → find x.key (l ++ x ∷ []) ≡ some x
  unfolding find
  find-pushed l x h = rw (find-append, h, (e.beq_iff x.key x.key).1 refl)
