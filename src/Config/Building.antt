-- ===== src/Config/Building.antt =====
-- The graph that step 1.1 of `proxyGroupsDagSort` (config/utils.go) builds: its indegrees count the
-- references, and its groups are those of the configuration.
use rule_base_proxy.Common.{
  Bool-cases, List, Option, Option-cases, Text, [], ap, arith, inl, inr, none, refl, some, some_inj,
  subst, sym, text_eq, text_eq_iff, ℕ, ◌+◌, ◌∙◌, ◌∷◌, ◌≡◌,
}
use rule_base_proxy.Config.Graph.{
  Group, GraphNode, Graph, occurrences, get_node, change, members, references, indegree_of, grouped,
  weight, Distinct,
}
use rule_base_proxy.Config.Changes.{
  get-change, get-change_self, get-change_other, references-change, Distinct-change, weight-change,
  references-change_group, weight-change_group,
}
use rule_base_proxy.Config.Sorting.{
  sorted, one_more, with_group, new_graph_node, add_edges, add_group, build,
}
use rule_base_proxy.Config.Members.{change-IsKept}
use rule_base_proxy.Config.Rounds.{total_weight, IsNamed}

module _ {ℓ} {M : Type ℓ} (decode : M → Option Group) where
  -- A graph with the weights `weights`, where the members `ps` have not got their edge yet.
  pub record IsBuilt (weights : (M → ℕ) → ℕ) (g : Graph M) (ps : List Text) : Type ℓ where
    pub distinct : Distinct g
    pub counted : (s : Text) → references s g ≡ indegree_of s g + occurrences s ps
    pub named : IsNamed decode g
    pub weighed : (c : M → ℕ) → weight c g ≡ weights c

  same_node : {n n' : GraphNode M} → some n ≡ some n' → n.group ≡ n'.group
  same_node h = ap (λ (x : GraphNode M). x.group) (some_inj h)

  -- A member that is new to the graph.
  new_member :
      (weights : (M → ℕ) → ℕ) (p : Text) (ps : List Text) (g : Graph M)
      → get_node p g ≡ none
      → IsBuilt weights g (p ∷ ps)
      → IsBuilt weights ((p, new_graph_node 1 none) ∷ g) ps
  unfolding references indegree_of occurrences weight get_node
  new_member weights p ps g e b = record {
    distinct = (e, b.distinct);
    counted = λ s. elim (Bool-cases (text_eq p s)) [
      | inl t ↦
          let e' : get_node s g ≡ none =
            subst (λ x. get_node x g ≡ none) ((text_eq_iff p s).0 t) e in
          ground (arith, b.counted s, e')
      | inr f ↦ ground (arith, b.counted s)
    ];
    named = λ s n m o at has. elim (Bool-cases (text_eq p s)) [
      | inl t ↦ absurd (ground (arith, same_node (rw t at at), has))
      | inr f ↦ b.named s n m o (rw f at at) has
    ];
    weighed = λ c. omega (arith, b.weighed c);
  }

  -- A member that has a node.
  known_member :
      (weights : (M → ℕ) → ℕ) (p : Text) (ps : List Text) (g : Graph M) (n : GraphNode M)
      → get_node p g ≡ some n
      → IsBuilt weights g (p ∷ ps)
      → IsBuilt weights (change p one_more g) ps
  unfolding indegree_of occurrences
  known_member weights p ps g n e b = record {
    distinct = Distinct-change p one_more g b.distinct;
    counted = λ s. elim (Bool-cases (text_eq p s)) [
      | inl t ↦
          let e' : get_node s g ≡ some n =
            subst (λ x. get_node x g ≡ some n) ((text_eq_iff p s).0 t) e in
          ground (
            arith,
            b.counted s,
            e',
            get-change p s one_more g,
            references-change p s one_more g (λ x. refl),
          )
      | inr f ↦ ground (
        arith,
        b.counted s,
        get-change_other p s one_more g f,
        references-change p s one_more g (λ x. refl),
      )
    ];
    named = λ s n' m o at has.
        let (n₀, at₀, same) = (change-IsKept p one_more (λ x. refl) g).groups s n' at in
        b.named s n₀ m o at₀ (sym same ∙ has);
    weighed = λ c. weight-change c p one_more g (λ x. refl) ∙ b.weighed c;
  }

  add_edges-IsBuilt :
      (weights : (M → ℕ) → ℕ) (ps : List Text) (g : Graph M)
      → IsBuilt weights g ps
      → IsBuilt weights (add_edges ps g) []
  unfolding add_edges
  add_edges-IsBuilt weights [] g b = b
  add_edges-IsBuilt weights (p ∷ ps) g b = elim (Option-cases (get_node p g)) [
    | inl e ↦ rw (e, add_edges) (add_edges-IsBuilt weights ps _ (new_member weights p ps g e b))
    | inr (n, e) ↦
        rw (e, add_edges) (add_edges-IsBuilt weights ps _ (known_member weights p ps g n e b))
  ]

  -- A group whose name is new.
  new_group :
      (weights : (M → ℕ) → ℕ) (m : M) (o : Group) (g : Graph M)
      → decode m ≡ some o
      → get_node o.name g ≡ none
      → IsBuilt weights g []
      → IsBuilt (λ c. c m + weights c) ((o.name, new_graph_node 0 (some (m, o))) ∷ g) o.proxies
  unfolding references indegree_of occurrences weight get_node
  new_group weights m o g d e b = record {
    distinct = (e, b.distinct);
    counted = λ s. elim (Bool-cases (text_eq o.name s)) [
      | inl t ↦
          let e' : get_node s g ≡ none =
            subst (λ x. get_node x g ≡ none) ((text_eq_iff o.name s).0 t) e in
          ground (arith, b.counted s, e')
      | inr f ↦ ground (arith, b.counted s)
    ];
    named = λ s n m' o' at has. elim (Bool-cases (text_eq o.name s)) [
      | inl t ↦
          let own : ◌≡◌ {A = M × Group} (m, o) (m', o') = some_inj (same_node (rw t at at) ∙ has) in
          (
            subst (λ (x : M × Group). decode x.0 ≡ some x.1) own d,
            ap (λ (x : M × Group). x.1.name) (sym own) ∙ (text_eq_iff o.name s).0 t,
          )
      | inr f ↦ b.named s n m' o' (rw f at at) has
    ];
    weighed = λ c. omega (arith, b.weighed c);
  }

  -- A group whose name has been a member before.
  known_group :
      (weights : (M → ℕ) → ℕ) (m : M) (o : Group) (g : Graph M) (n : GraphNode M)
      → decode m ≡ some o
      → get_node o.name g ≡ some n
      → n.group ≡ none
      → IsBuilt weights g []
      → IsBuilt (λ c. c m + weights c) (change o.name (with_group m o) g) o.proxies
  unfolding indegree_of occurrences
  known_group weights m o g n d e fresh b =
      let no_members : members n ≡ [] =
        ap (λ (x : Option (M × Group)). elim x [ none ↦ [] | some y ↦ y.1.proxies ]) fresh in
      record {
        distinct = Distinct-change o.name (with_group m o) g b.distinct;
        counted = λ s.
            let moved = references-change_group o.name s (with_group m o) g e in
            let nobody : occurrences s (members n) ≡ 0 = ap (occurrences s) no_members in
            elim (Bool-cases (text_eq o.name s)) [
              | inl t ↦
                  let e' : get_node s g ≡ some n =
                    subst (λ x. get_node x g ≡ some n) ((text_eq_iff o.name s).0 t) e in
                  ground
                    (arith, moved, nobody, b.counted s, e', get-change o.name s (with_group m o) g)
              | inr f ↦ ground (
                arith,
                moved,
                nobody,
                b.counted s,
                get-change_other o.name s (with_group m o) g f,
              )
            ];
        named = λ s n' m' o' at has. elim (Bool-cases (text_eq o.name s)) [
          | inl t ↦
              let there : get_node s (change o.name (with_group m o) g) ≡ some (with_group m o n) =
                subst (λ x. get_node x (change o.name (with_group m o) g) ≡ some (with_group m o n))
                  ((text_eq_iff o.name s).0 t) (get-change_self o.name (with_group m o) g e) in
              let own : ◌≡◌ {A = M × Group} (m, o) (m', o') =
                some_inj (same_node (sym there ∙ at) ∙ has) in
              (
                subst (λ (x : M × Group). decode x.0 ≡ some x.1) own d,
                ap (λ (x : M × Group). x.1.name) (sym own) ∙ (text_eq_iff o.name s).0 t,
              )
          | inr f ↦
              b.named s n' m' o' (sym (get-change_other o.name s (with_group m o) g f) ∙ at) has
        ];
        weighed = λ c.
            let no_weight : grouped c n ≡ 0 =
              ap {B = ℕ} (λ (x : Option (M × Group)). elim x [ none ↦ 0 | some y ↦ c y.0 ]) fresh in
            omega
              (arith, weight-change_group c o.name (with_group m o) g e, no_weight, b.weighed c);
      }

  add_group-IsBuilt :
      (weights : (M → ℕ) → ℕ) (m : M) (o : Group) (g g' : Graph M)
      → decode m ≡ some o
      → add_group m o g ≡ some g'
      → IsBuilt weights g []
      → IsBuilt (λ c. c m + weights c) g' []
  unfolding add_group
  add_group-IsBuilt weights m o g g' d h b = elim (Option-cases (get_node o.name g)) [
    | inl e ↦
        subst (λ x. IsBuilt (λ c. c m + weights c) x []) (some_inj (rw (e, add_group) at h))
          (add_edges-IsBuilt _ o.proxies _ (new_group weights m o g d e b))
    | inr (n, e) ↦ elim (Option-cases n.group) [
      | inl fresh ↦
          subst (λ x. IsBuilt (λ c. c m + weights c) x [])
            (some_inj (rw (e, add_group, fresh) at h))
            (add_edges-IsBuilt _ o.proxies _ (known_group weights m o g n d e fresh b))
      | inr (own, has) ↦ absurd (ground (arith, h, e, has))
    ]
  ]

  reweigh :
      {w w' : (M → ℕ) → ℕ} {g : Graph M}
      → ((c : M → ℕ) → w c ≡ w' c)
      → IsBuilt w g []
      → IsBuilt w' g []
  reweigh same b = record {
    distinct = b.distinct;
    counted = b.counted;
    named = b.named;
    weighed = λ c. b.weighed c ∙ same c;
  }

  sorted_inj : {g g' : Graph M} → sorted g ≡ sorted g' → g ≡ g'
  sorted_inj h = cc

  pub build-IsBuilt :
      (weights : (M → ℕ) → ℕ) (ms : List M) (g g' : Graph M)
      → build decode ms g ≡ sorted g'
      → IsBuilt weights g []
      → IsBuilt (λ c. weights c + total_weight c ms) g' []
  unfolding build total_weight
  build-IsBuilt weights [] g g' h b =
      reweigh (λ c. omega arith) (subst (λ x. IsBuilt weights x []) (sorted_inj h) b)
  build-IsBuilt weights (m ∷ ms) g g' h b = elim (Option-cases (decode m)) [
    | inl e ↦ absurd (ground (arith, h, e))
    | inr (o, d) ↦ elim (Option-cases (add_group m o g)) [
      | inl e ↦ absurd (ground (arith, h, d, e))
      | inr (g₁, e) ↦
          let rest : build decode ms g₁ ≡ sorted g' = rw (d, build, e) at h in
          reweigh (λ c. omega arith)
            (build-IsBuilt (λ c. c m + weights c) ms g₁ g' rest
              (add_group-IsBuilt weights m o g g₁ d e b))
    ]
  ]
