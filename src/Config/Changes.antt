-- ===== src/Config/Changes.antt =====
-- What the changes of one node do to the graph of `proxyGroupsDagSort` (config/utils.go).
use rule_base_proxy.Common.{
  Bool-cases, Text, [], ap, arith, false, if◌then◌else◌, inl, inr, length, none, refl, some,
  some_inj, subst, suc, sym, text_eq, text_eq_iff, text_eq_refl, true, ℕ, ◌+◌, ◌∙◌, ◌∷◌, ◌≡◌,
}
use rule_base_proxy.Config.Graph.{
  GraphNode, Graph, occurrences, get_node, change, delete_node, members, references, grouped,
  weight, Distinct,
}

module _ {ℓ} {M : Type ℓ} where
  pub get-change :
      (s t : Text) (f : GraphNode M → GraphNode M) (g : Graph M)
      → get_node t (change s f g) ≡ (
          if text_eq s t
          then elim (get_node t g) [ none ↦ none | some n ↦ some (f n) ]
          else get_node t g)
  unfolding get_node change
  get-change s t f [] = ground arith
  get-change s t f ((k, n) ∷ g) =
      ground (arith, get-change s t f g, text_eq_iff k s, text_eq_iff s t, text_eq_iff k t)

  pub get-change_self :
      (s : Text) (f : GraphNode M → GraphNode M) (g : Graph M) {n : GraphNode M}
      → get_node s g ≡ some n
      → get_node s (change s f g) ≡ some (f n)
  get-change_self s f g h = rw (get-change s s f g, h, text_eq_refl s) refl

  pub get-change_other :
      (s t : Text) (f : GraphNode M → GraphNode M) (g : Graph M)
      → text_eq s t ≡ false
      → get_node t (change s f g) ≡ get_node t g
  get-change_other s t f g ne = rw (get-change s t f g, ne) refl

  pub get-delete_other :
      (s t : Text) (g : Graph M) → text_eq s t ≡ false → get_node t (delete_node s g) ≡ get_node t g
  unfolding get_node delete_node
  get-delete_other s t [] ne = refl
  get-delete_other s t ((k, n) ∷ g) ne =
      ground (arith, get-delete_other s t g ne, text_eq_iff k s, text_eq_iff k t, text_eq_iff s t)

  pub get-delete_self : (s : Text) (g : Graph M) → Distinct g → get_node s (delete_node s g) ≡ none
  unfolding get_node delete_node
  get-delete_self s [] d = refl
  get-delete_self s ((k, n) ∷ g) d = elim (Bool-cases (text_eq k s)) [
    | inl t ↦ rw t (subst (λ x. get_node x g ≡ none) ((text_eq_iff k s).0 t) d.0)
    | inr f ↦ rw (f, delete_node, get_node) (rw f (get-delete_self s g d.1))
  ]

  -- Changes that leave the group leave the references and the count of groups.
  pub references-change :
      (s t : Text) (f : GraphNode M → GraphNode M) (g : Graph M)
      → ((n : GraphNode M) → (f n).group ≡ n.group)
      → references t (change s f g) ≡ references t g
  unfolding references change
  references-change s t f [] keeps = refl
  references-change s t f ((k, n) ∷ g) keeps = elim (Bool-cases (text_eq k s)) [
    | inl e ↦ rw e (rw (keeps n) refl)
    | inr e ↦ rw e (ap (λ x. occurrences t (members n) + x) (references-change s t f g keeps))
  ]

  pub references-delete :
      (s t : Text) (g : Graph M) {n : GraphNode M}
      → get_node s g ≡ some n
      → references t (delete_node s g) + occurrences t (members n) ≡ references t g
  unfolding references delete_node get_node
  references-delete s t [] h = cc
  references-delete s t ((k, m) ∷ g) {n} h = elim (Bool-cases (text_eq k s)) [
    | inl e ↦
        let same : m ≡ n = some_inj (rw e at h) in
        rw e (omega (arith, ap (λ x. occurrences t (members x)) same))
    | inr e ↦ rw e (omega (arith, references-delete s t g (rw e at h)))
  ]

  pub weight-change :
      (c : M → ℕ) (s : Text) (f : GraphNode M → GraphNode M) (g : Graph M)
      → ((n : GraphNode M) → (f n).group ≡ n.group)
      → weight c (change s f g) ≡ weight c g
  unfolding weight change
  weight-change c s f [] keeps = refl
  weight-change c s f ((k, n) ∷ g) keeps = elim (Bool-cases (text_eq k s)) [
    | inl e ↦ rw e (rw (keeps n) refl)
    | inr e ↦ rw e (omega (arith, weight-change c s f g keeps))
  ]

  pub weight-delete :
      (c : M → ℕ) (s : Text) (g : Graph M) {n : GraphNode M}
      → get_node s g ≡ some n
      → weight c (delete_node s g) + grouped c n ≡ weight c g
  unfolding weight delete_node get_node
  weight-delete c s [] h = cc
  weight-delete c s ((k, m) ∷ g) {n} h = elim (Bool-cases (text_eq k s)) [
    | inl e ↦ let same : m ≡ n = some_inj (rw e at h) in rw e (omega (arith, ap (grouped c) same))
    | inr e ↦ rw e (omega (arith, weight-delete c s g (rw e at h)))
  ]

  pub Distinct-change :
      (s : Text) (f : GraphNode M → GraphNode M) (g : Graph M)
      → Distinct g
      → Distinct (change s f g)
  unfolding change
  Distinct-change s f [] d = tt
  Distinct-change s f ((k, n) ∷ g) d = elim (Bool-cases (text_eq k s)) [
    | inl e ↦ rw e d
    | inr e ↦
        let other : get_node k (change s f g) ≡ none =
          rw (get-change s k f g, d.0) (ground arith) in
        rw e (other, Distinct-change s f g d.1)
  ]

  pub Distinct-delete : (s : Text) (g : Graph M) → Distinct g → Distinct (delete_node s g)
  unfolding delete_node
  Distinct-delete s [] d = tt
  Distinct-delete s ((k, n) ∷ g) d = elim (Bool-cases (text_eq k s)) [
    | inl e ↦ rw e d.1
    | inr e ↦
        let other : get_node k (delete_node s g) ≡ none =
          get-delete_other s k g (ground (arith, text_eq_iff k s, text_eq_iff s k)) ∙ d.0 in
        rw e (other, Distinct-delete s g d.1)
  ]

  -- A change of one name and the removal of another can be done in either order.
  pub change-delete :
      (s t : Text) (f : GraphNode M → GraphNode M) (g : Graph M)
      → text_eq s t ≡ false
      → delete_node t (change s f g) ≡ change s f (delete_node t g)
  unfolding change delete_node
  change-delete s t f [] ne = refl
  change-delete s t f ((k, n) ∷ g) ne =
      let differs : text_eq k s ≡ true → text_eq k t ≡ false =
        λ e. subst (λ x. text_eq x t ≡ false) (sym ((text_eq_iff k s).0 e)) ne in
      elim (Bool-cases (text_eq k s)) [
        | inl e ↦ rw (e, change, delete_node, differs e) (rw e refl)
        | inr e ↦ elim (Bool-cases (text_eq k t)) [
          | inl e' ↦ rw (e, e', delete_node) refl
          | inr e' ↦ ground (arith, change-delete s t f g ne)
        ]
      ]

  pub length-change :
      (s : Text) (f : GraphNode M → GraphNode M) (g : Graph M) → length (change s f g) ≡ length g
  unfolding change
  length-change s f [] = refl
  length-change s f ((k, n) ∷ g) = ground (arith, length-change s f g)

  pub length-delete :
      (s : Text) (g : Graph M) {n : GraphNode M}
      → get_node s g ≡ some n
      → suc (length (delete_node s g)) ≡ length g
  unfolding delete_node get_node
  length-delete s [] h = cc
  length-delete s ((k, m) ∷ g) h = elim (Bool-cases (text_eq k s)) [
    | inl e ↦ rw e refl
    | inr e ↦ rw e (ap suc (length-delete s g (rw e at h)))
  ]

  -- A node that gets a group has the members of the new one in place of those of the old one.
  pub references-change_group :
      (s t : Text) (f : GraphNode M → GraphNode M) (g : Graph M) {n : GraphNode M}
      → get_node s g ≡ some n
      → references t (change s f g) + occurrences t (members n)
        ≡ references t g + occurrences t (members (f n))
  unfolding references change get_node
  references-change_group s t f [] h = cc
  references-change_group s t f ((k, m) ∷ g) {n} h = elim (Bool-cases (text_eq k s)) [
    | inl e ↦
        let same : m ≡ n = some_inj (rw e at h) in
        rw e (
          omega (
            arith,
            ap (λ x. occurrences t (members x)) same,
            ap (λ x. occurrences t (members (f x))) same,
          ))
    | inr e ↦ rw e (omega (arith, references-change_group s t f g (rw e at h)))
  ]

  pub weight-change_group :
      (c : M → ℕ) (s : Text) (f : GraphNode M → GraphNode M) (g : Graph M) {n : GraphNode M}
      → get_node s g ≡ some n
      → weight c (change s f g) + grouped c n ≡ weight c g + grouped c (f n)
  unfolding weight change get_node
  weight-change_group c s f [] h = cc
  weight-change_group c s f ((k, m) ∷ g) {n} h = elim (Bool-cases (text_eq k s)) [
    | inl e ↦
        let same : m ≡ n = some_inj (rw e at h) in
        rw e (omega (arith, ap (grouped c) same, ap (λ x. grouped c (f x)) same))
    | inr e ↦ rw e (omega (arith, weight-change_group c s f g (rw e at h)))
  ]
