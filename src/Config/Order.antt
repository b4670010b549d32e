-- ===== src/Config/Order.antt =====
-- What `proxyGroupsDagSort` (config/utils.go) returns: the groups in an order in which each one
-- comes after its members, or an error.
use rule_base_proxy.Common.{
  Bool-cases, List, List-cases, Option, Option-cases, Text, [], ap, arith, false, inl, inr, is_some,
  length, refl, some, subst, text_eq, text_eq_iff, ℕ, ◌&&◌, ◌+◌, ◌-◌, ◌<◌, ◌∙◌, ◌∷◌, ◌≡◌, ◌⊎◌,
}
use rule_base_proxy.Config.Graph.{
  Group, GraphNode, Graph, has_name, occurrences, get_node, references, indegree_of, is_source,
  weight, Distinct,
}
use rule_base_proxy.Config.Sorting.{
  Outcome, sorted, bad_options, duplicate_name, loop_detected, Walk, walk, names, sources,
  start_walk, loop_elements, build, proxy_groups_dag_sort,
}
use rule_base_proxy.Config.Balance.{AllNew}
use rule_base_proxy.Config.Rounds.{total_weight, total_weight-one, IsWalk, IsOrdered}
use rule_base_proxy.Config.Building.{IsBuilt, build-IsBuilt}
use rule_base_proxy.Config.Walks.{walk-IsWalk}

-- Go walks a map in some order: every name, and none twice.
abbrev pub Walks : (List Text → List Text) → Type 0
Walks order =
    (l : List Text)
    → ((s : Text) → has_name s (order l) ≡ has_name s l) × (AllNew l → AllNew (order l))

pub Outcome-cases {ℓ} :
    {A : Type ℓ} (x : Outcome A)
    → ((a : A) × (x ≡ sorted a))
      ⊎ ((x ≡ bad_options)
          ⊎ (((s : Text) × (x ≡ duplicate_name s)) ⊎ ((l : List Text) × (x ≡ loop_detected l))))
Outcome-cases (sorted a) = inl (a, refl)
Outcome-cases bad_options = inr (inl refl)
Outcome-cases (duplicate_name s) = inr (inr (inl (s, refl)))
Outcome-cases (loop_detected l) = inr (inr (inr (l, refl)))

module _ {ℓ} {M : Type ℓ} where
  has_name-names : (s : Text) (g : Graph M) → has_name s (names g) ≡ is_some (get_node s g)
  unfolding has_name get_node
  has_name-names s [] = refl
  has_name-names s ((k, n) ∷ g) = ground (arith, has_name-names s g)

  names-AllNew : (g : Graph M) → Distinct g → AllNew (names g)
  names-AllNew [] d = tt
  names-AllNew ((k, n) ∷ g) d = (has_name-names k g ∙ rw d.0, names-AllNew g d.1)

  has_name-sources :
      (s : Text) (g : Graph M) (ks : List Text)
      → has_name s (sources g ks) ≡ (has_name s ks && is_source s g)
  unfolding has_name sources
  has_name-sources s g [] = refl
  has_name-sources s g (k ∷ ks) = elim (Bool-cases (text_eq k s)) [
    | inl t ↦
        let same : is_source k g ≡ is_source s g =
          ap (λ x. is_source x g) ((text_eq_iff k s).0 t) in
        ground (arith, has_name-sources s g ks, same)
    | inr f ↦ ground (arith, has_name-sources s g ks)
  ]

  sources-AllNew : (g : Graph M) (ks : List Text) → AllNew ks → AllNew (sources g ks)
  unfolding sources
  sources-AllNew g [] a = tt
  sources-AllNew g (k ∷ ks) a = elim (Bool-cases (is_source k g)) [
    | inl t ↦ rw t (has_name-sources k g ks ∙ rw a.0, sources-AllNew g ks a.1)
    | inr f ↦ rw f (sources-AllNew g ks a.1)
  ]

  counts_only :
      (s : Text) (g : Graph M)
      → references s g ≡ indegree_of s g + occurrences s []
      → references s g + occurrences s [] ≡ indegree_of s g
  unfolding occurrences
  counts_only s g h = omega arith

  empty-IsBuilt : (decode : M → Option Group) → IsBuilt decode (λ c. 0) [] []
  unfolding references indegree_of occurrences weight get_node
  empty-IsBuilt decode = record {
    distinct = tt;
    counted = λ s. refl;
    named = λ s n m o at has. cc;
    weighed = λ c. refl;
  }

  is_source-present :
      (s : Text) (g : Graph M) → (is_some (get_node s g) && is_source s g) ≡ is_source s g
  unfolding is_source
  is_source-present s g = ground arith

  left_over :
      (decode : M → Option Group) (groups : List M) (w : Walk M) (s : Text) (n : GraphNode M)
      → IsWalk decode groups w
      → w.queue ≡ []
      → get_node s w.graph ≡ some n
      → 0 < references s w.graph
  unfolding has_name occurrences indegree_of is_source
  left_over decode groups w s n k done at =
      let missing : has_name s w.queue ≡ false = rw done refl in
      ground (arith, k.balanced.queued s, k.balanced.counted s, missing, at)

  sorted_inj : {x y : List M} → some (sorted x) ≡ some (sorted y) → x ≡ y
  sorted_inj h = cc

  -- With no node left, every group is written.
  all_written :
      (decode : M → Option Group) (groups : List M) (w : Walk M)
      → IsWalk decode groups w
      → w.graph ≡ []
      → ((c : M → ℕ) → total_weight c w.written ≡ total_weight c groups)
        × (length w.written ≡ length groups)
  unfolding weight
  all_written decode groups w k none_left =
      let none_weighs = λ (c : M → ℕ). ap (weight c) none_left in
      (
        λ c. omega (arith, k.weighed c, none_weighs c),
        omega (
          arith,
          k.weighed (λ m. 1),
          none_weighs (λ m. 1),
          total_weight-one decode groups,
          total_weight-one decode w.written,
        ),
      )

  module _ (decode : M → Option Group) (order : List Text → List Text) (walks : Walks order) where
    start-IsWalk :
        (groups : List M) (g : Graph M)
        → build decode groups [] ≡ sorted g
        → IsWalk decode groups (start_walk order g)
    unfolding total_weight
    start-IsWalk groups g h =
        let b = build-IsBuilt decode (λ c. 0) groups [] g h (empty-IsBuilt decode) in
        record {
          balanced = record {
            distinct = b.distinct;
            counted = λ s. counts_only s g (b.counted s);
            queued = λ s.
                has_name-sources s g (order (names g))
                ∙ ap (λ x. x && is_source s g) ((walks (names g)).0 s ∙ has_name-names s g)
                ∙ is_source-present s g;
            once =
                sources-AllNew g (order (names g))
                  ((walks (names g)).1 (names-AllNew g b.distinct));
          };
          named = b.named;
          weighed = λ c. omega (arith, b.weighed c);
          ordered = tt;
          free = tt;
        }

    -- The walk over a graph that was built, which takes the groups that no group that is left names
    -- as a member, round by round, does not panic, and it ends within as many rounds as the graph
    -- has names. It ends in a state of the sort, and each name that is then left in the graph is
    -- named as a member by a group that is left.
    pub walk_total :
        (groups : List M) (g : Graph M)
        → build decode groups [] ≡ sorted g
        → (w : Walk M) × (walk (length g) (length groups) (start_walk order g) ≡ some w)
          × IsWalk decode groups w
          × ((s : Text) (n : GraphNode M) → get_node s w.graph ≡ some n → 0 < references s w.graph)
    walk_total groups g h =
        let (w, run, k, done) =
          walk-IsWalk decode groups (length g) (start_walk order g) (start-IsWalk groups g h)
            (omega arith) in
        (w, run, k, λ s n at. left_over decode groups w s n k done at)

    sort_done :
        (groups out : List M) (g : Graph M) (w : Walk M)
        → build decode groups [] ≡ sorted g
        → walk (length g) (length groups) (start_walk order g) ≡ some w
        → w.graph ≡ []
        → length w.written ≡ length groups
        → proxy_groups_dag_sort decode order groups ≡ some (sorted out)
        → w.written ≡ out
    unfolding proxy_groups_dag_sort
    sort_done groups out g w e run none_left as_many h =
        let got = rw (proxy_groups_dag_sort, e, run, none_left) at h in
        let no_more : length groups - length w.written ≡ 0 = omega arith in
        sorted_inj (rw no_more at got)

    sort_stuck :
        (groups out : List M) (g : Graph M) (w : Walk M) (x : Text × GraphNode M) (l : Graph M)
        → build decode groups [] ≡ sorted g
        → walk (length g) (length groups) (start_walk order g) ≡ some w
        → w.graph ≡ x ∷ l
        → ¬ (proxy_groups_dag_sort decode order groups ≡ some (sorted out))
    unfolding proxy_groups_dag_sort
    sort_stuck groups out g w x l e run some_left h =
        let got = rw (proxy_groups_dag_sort, e, run) at h in
        elim (Option-cases (loop_elements order w.graph)) [
          | inl none_found ↦ absurd (ground (arith, got, some_left, none_found))
          | inr (names_found, found) ↦ absurd (ground (arith, got, some_left, found))
        ]

    -- A sorted result is the given groups in another order: every weight of groups adds up to the
    -- same. And each group stands after all its members, so none of its members is the group
    -- itself or one that comes later.
    pub proxy_groups_dag_sort-IsOrdered :
        (groups out : List M)
        → proxy_groups_dag_sort decode order groups ≡ some (sorted out)
        → IsOrdered decode out × ((c : M → ℕ) → total_weight c out ≡ total_weight c groups)
    unfolding proxy_groups_dag_sort
    proxy_groups_dag_sort-IsOrdered groups out h = elim (Outcome-cases (build decode groups [])) [
      | inr (inl e) ↦ absurd (ground (arith, h, e))
      | inr (inr (inl (s, e))) ↦ absurd (ground (arith, h, e))
      | inr (inr (inr (l, e))) ↦ absurd (ground (arith, h, e))
      | inl (g, e) ↦
          let (w, run, k, _) = walk_total groups g e in
          elim (List-cases w.graph) [
            | inl none_left ↦
                let (all, as_many) = all_written decode groups w k none_left in
                let same = sort_done groups out g w e run none_left as_many h in
                (
                  subst (IsOrdered decode) same k.ordered,
                  λ c. subst (λ x. total_weight c x ≡ total_weight c groups) same (all c),
                )
            | inr (x, l, some_left) ↦ absurd (sort_stuck groups out g w x l e run some_left h)
          ]
    ]
