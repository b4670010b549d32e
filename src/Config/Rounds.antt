-- ===== src/Config/Rounds.antt =====
-- The loop of the topological sort (`proxyGroupsDagSort` of config/utils.go): what a round keeps,
-- and that at its end each name left is a member of a group left.
use rule_base_proxy.Common.{
  All, All-map, Bool-cases, List, Option, Option-cases, Text, [], ap, arith, false, inl, inr,
  length, none, refl, some, some_inj, subst, sym, text_eq, text_eq_iff, text_eq_refl, true, ℕ, ◌+◌,
  ◌∙◌, ◌∷◌, ◌≡◌,
}
use rule_base_proxy.Config.Graph.{
  Group, GraphNode, Graph, has_name, occurrences, get_node, delete_node, members, references,
  indegree_of, is_source, grouped, weight,
}
use rule_base_proxy.Config.Changes.{
  get-delete_other, get-delete_self, references-delete, Distinct-delete, weight-delete,
}
use rule_base_proxy.Config.Sorting.{Walk}
use rule_base_proxy.Config.Balance.{IsBalanced}
use rule_base_proxy.Config.Members.{IsKept}

occurrences-has_name : (s : Text) (l : List Text) → occurrences s l ≡ 0 → has_name s l ≡ false
unfolding occurrences has_name
occurrences-has_name s [] h = refl
occurrences-has_name s (x ∷ l) h = ground (arith, occurrences-has_name s l)

-- The weight of a list of configurations.
unfoldable pub total_weight {ℓ} : {M : Type ℓ} → (M → ℕ) → List M → ℕ
total_weight c [] = 0
total_weight c (m ∷ l) = c m + total_weight c l

module _ {ℓ} {M : Type ℓ} (decode : M → Option Group) where
  -- No group of `y` names a group of `x` as its member.
  abbrev pub Unreferred : M → M → Type 0
  Unreferred x y =
      (o o' : Group) → decode x ≡ some o → decode y ≡ some o' → has_name o'.name o.proxies ≡ false

  -- No group names itself or one that stands after it.
  abbrev pub IsOrdered : List M → Type ℓ
  IsOrdered [] = Unit
  IsOrdered (x ∷ l) = All (λ y. Unreferred x y) (x ∷ l) × IsOrdered l

  -- The groups of a graph stand under their names.
  abbrev pub IsNamed : Graph M → Type ℓ
  IsNamed g =
      (s : Text) (n : GraphNode M) (m : M) (o : Group)
      → get_node s g ≡ some n
      → n.group ≡ some (m, o)
      → (decode m ≡ some o) × (o.name ≡ s)

  -- A group that no group of the graph names.
  abbrev pub IsFree : Graph M → M → Type 0
  IsFree g m = (o : Group) → decode m ≡ some o → references o.name g ≡ 0

  pub record IsWalk (groups : List M) (w : Walk M) : Type ℓ where
    pub balanced : IsBalanced w.graph w.queue []
    pub named : IsNamed w.graph
    pub weighed : (c : M → ℕ) → total_weight c w.written + weight c w.graph ≡ total_weight c groups
    pub ordered : IsOrdered w.written
    pub free : All (IsFree w.graph) w.written

  module _ (g : Graph M) (name : Text) (q : List Text) (b : IsBalanced g (name ∷ q) []) where
    -- The first name of the queue has a node, and without it the rest is balanced.
    pub head_node : (n : GraphNode M) × (get_node name g ≡ some n) × (references name g ≡ 0)
    unfolding has_name is_source indegree_of occurrences
    head_node = elim (Option-cases (get_node name g)) [
      | inl e ↦ absurd (ground (arith, b.queued name, text_eq_refl name, e))
      | inr (n, e) ↦ (n, e, ground (arith, b.queued name, b.counted name, text_eq_refl name, e))
    ]

    gone : get_node name (delete_node name g) ≡ none
    gone = get-delete_self name g b.distinct

    at_name : (s : Text) → text_eq name s ≡ true → get_node s (delete_node name g) ≡ none
    at_name s t =
        subst (λ x. get_node x (delete_node name g) ≡ none) ((text_eq_iff name s).0 t) gone

    counts :
        (s : Text) (n : GraphNode M)
        → get_node name g ≡ some n
        → references s (delete_node name g) + occurrences s (members n)
          ≡ indegree_of s (delete_node name g)
    unfolding indegree_of occurrences
    counts s n e = elim (Bool-cases (text_eq name s)) [
      | inl t ↦
          let zero_refs : references s g ≡ 0 =
            subst (λ x. references x g ≡ 0) ((text_eq_iff name s).0 t) head_node.2 in
          ground (arith, references-delete name s g e, at_name s t, zero_refs)
      | inr f ↦
          ground (arith, references-delete name s g e, get-delete_other name s g f, b.counted s)
    ]

    queues : (s : Text) → has_name s q ≡ is_source s (delete_node name g)
    unfolding is_source has_name
    queues s = elim (Bool-cases (text_eq name s)) [
      | inl t ↦
          let away : has_name s q ≡ false =
            subst (λ x. has_name x q ≡ false) ((text_eq_iff name s).0 t) b.once.0 in
          ground (arith, away, at_name s t)
      | inr f ↦ ground (arith, b.queued s, get-delete_other name s g f)
    ]

    pub removed-IsBalanced :
        (n : GraphNode M) → get_node name g ≡ some n → IsBalanced (delete_node name g) q (members n)
    removed-IsBalanced n e = record {
      distinct = Distinct-delete name g b.distinct;
      counted = λ s. counts s n e;
      queued = λ s. queues s;
      once = b.once.1;
    }

  pub total_weight-one : (l : List M) → total_weight (λ m. 1) l ≡ length l
  unfolding total_weight
  total_weight-one [] = refl
  total_weight-one (m ∷ l) = omega (arith, total_weight-one l)

  -- What a round needs to know of a node that it removes.
  module _ (groups : List M) (w : Walk M) (name : Text) (q : List Text) (k : IsWalk groups w)
      (b : IsBalanced w.graph (name ∷ q) []) (n : GraphNode M)
      (e : get_node name w.graph ≡ some n) where
    abbrev pub rest : Graph M
    rest = delete_node name w.graph

    pub fewer :
        (s : Text)
        → references s w.graph ≡ 0
        → (references s rest ≡ 0) × (occurrences s (members n) ≡ 0)
    fewer s h = omega (arith, references-delete name s w.graph e)

    pub IsNamed-removed : {g' : Graph M} → IsKept rest g' → IsNamed g'
    IsNamed-removed kept s n' m o at has =
        let (n₀, at₀, same) = kept.groups s n' at in
        let ne : text_eq name s ≡ false = ground (arith, at_name w.graph name q b s, at₀) in
        k.named s n₀ m o (sym (get-delete_other name s w.graph ne) ∙ at₀) (sym same ∙ has)

    -- The options of the group of the node.
    pub is_own :
        (m : M) (o o₁ : Group)
        → n.group ≡ some (m, o)
        → decode m ≡ some o₁
        → (members n ≡ o₁.proxies) × (o₁.name ≡ name)
    is_own m o o₁ has d =
        let (decoded, named) = k.named name n m o e has in
        let same : o ≡ o₁ = some_inj (sym decoded ∙ d) in
        let own : members n ≡ o.proxies =
          ap (λ (x : Option (M × Group)). elim x [ none ↦ [] | some y ↦ y.1.proxies ]) has in
        (own ∙ ap (λ (x : Group). x.proxies) same, ap (λ (x : Group). x.name) (sym same) ∙ named)

    pub own_weight : (c : M → ℕ) (m : M) (o : Group) → n.group ≡ some (m, o) → grouped c n ≡ c m
    own_weight c m o has = ap (λ (x : Option (M × Group)). elim x [ none ↦ 0 | some y ↦ c y.0 ]) has

    pub written-IsWalk :
        (g' : Graph M) (q' : List Text) (m : M) (o : Group)
        → n.group ≡ some (m, o)
        → IsBalanced g' q' []
        → IsKept rest g'
        → IsWalk groups (record { graph = g'; queue = q'; written = m ∷ w.written })
    unfolding total_weight
    written-IsWalk g' q' m o has b' kept = record {
      balanced = b';
      named = IsNamed-removed kept;
      weighed = λ c.
          omega (
            arith,
            weight-delete c name w.graph e,
            kept.weighs c,
            k.weighed c,
            own_weight c m o has,
          );
      ordered = (
        (
          λ o₁ o₂ d₁ d₂.
              let at_own : occurrences o₂.name (members n) ≡ 0 =
                rw (is_own m o o₂ has d₂).1 (fewer name (head_node w.graph name q b).2).1 in
              occurrences-has_name o₂.name o₁.proxies
                (subst (λ l. occurrences o₂.name l ≡ 0) (is_own m o o₁ has d₁).0 at_own),
          All-map w.written
              (λ y free o₁ o₂ d₁ d₂. occurrences-has_name o₂.name o₁.proxies (
                subst (λ l. occurrences o₂.name l ≡ 0) (is_own m o o₁ has d₁).0
                  (fewer o₂.name (free o₂ d₂)).1))
              k.free,
        ),
        k.ordered,
      );
      free = (
        λ o₁ d.
            kept.refers o₁.name
            ∙ rw (is_own m o o₁ has d).1 (fewer name (head_node w.graph name q b).2).0,
        All-map w.written (λ y free o₁ d. kept.refers o₁.name ∙ (fewer o₁.name (free o₁ d)).0)
            k.free,
      );
    }
