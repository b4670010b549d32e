-- ===== src/Config/Balance.antt =====
-- What the graph of `proxyGroupsDagSort` (config/utils.go) keeps: every indegree is the number of
-- times that the groups still there name the node, and the queue holds the nodes without edges
-- into them.
use rule_base_proxy.Common.{
  Bool-cases, List, Option-cases, Text, [], arith, false, if◌then◌else◌, inl, inr, refl, some,
  subst, text_eq, text_eq_iff, text_eq_refl, true, ◌++◌, ◌+◌, ◌-◌, ◌==◌, ◌||◌, ◌∷◌, ◌≡◌, ◌≤◌,
}
use rule_base_proxy.Config.Graph.{
  GraphNode, Graph, has_name, occurrences, get_node, change, references, indegree_of, is_source,
  Distinct,
}
use rule_base_proxy.Config.Changes.{
  get-change_self, get-change_other, references-change, Distinct-change,
}
use rule_base_proxy.Config.Sorting.{one_less}

abbrev pub AllNew : List Text → Type 0
AllNew [] = Unit
AllNew (x ∷ xs) = (has_name x xs ≡ false) × AllNew xs

has_name-append :
    (s p : Text) (q : List Text) → has_name s (q ++ p ∷ []) ≡ (has_name s q || text_eq p s)
unfolding has_name
has_name-append s p [] = ground arith
has_name-append s p (x ∷ q) = ground (arith, has_name-append s p q)

AllNew-append : (p : Text) (q : List Text) → AllNew q → has_name p q ≡ false → AllNew (q ++ p ∷ [])
unfolding has_name
AllNew-append p [] a h = (refl, tt)
AllNew-append p (x ∷ q) a h = (
  ground (arith, has_name-append x p q, text_eq_iff x p, text_eq_iff p x),
  AllNew-append p q a.1 (ground arith),
)

module _ {ℓ} {M : Type ℓ} where
  -- A graph whose indegrees count the references, and a queue of its sources, where the members
  -- `ps` are still to be taken off.
  pub record IsBalanced (g : Graph M) (q ps : List Text) : Type ℓ where
    pub distinct : Distinct g
    pub counted : (s : Text) → references s g + occurrences s ps ≡ indegree_of s g
    pub queued : (s : Text) → has_name s q ≡ is_source s g
    pub once : AllNew q

  -- The node of a name, before and after it loses an edge.
  one_less_at :
      (p s : Text) (g : Graph M) {n : GraphNode M}
      → get_node p g ≡ some n
      → text_eq p s ≡ true
      → (get_node s g ≡ some n) × (get_node s (change p one_less g) ≡ some (one_less n))
  one_less_at p s g {n} h e =
      subst (λ t. (get_node t g ≡ some n) × (get_node t (change p one_less g) ≡ some (one_less n)))
        ((text_eq_iff p s).0 e) (h, get-change_self p one_less g h)

  indegree-one_less :
      (p s : Text) (g : Graph M) {n : GraphNode M}
      → get_node p g ≡ some n
      → indegree_of s (change p one_less g)
        ≡ (if text_eq p s then n.indegree - 1 else indegree_of s g)
  unfolding indegree_of
  indegree-one_less p s g {n} h = elim (Bool-cases (text_eq p s)) [
    | inl e ↦ rw (e, (one_less_at p s g h e).1, indegree_of) refl
    | inr e ↦ rw (e, indegree_of, get-change_other p s one_less g e) refl
  ]

  is_source-one_less :
      (p s : Text) (g : Graph M) {n : GraphNode M}
      → get_node p g ≡ some n
      → is_source s (change p one_less g)
        ≡ (if text_eq p s then n.indegree - 1 == 0 else is_source s g)
  unfolding is_source
  is_source-one_less p s g {n} h = elim (Bool-cases (text_eq p s)) [
    | inl e ↦ rw (e, (one_less_at p s g h e).1, is_source) refl
    | inr e ↦ rw (e, is_source, get-change_other p s one_less g e) refl
  ]

  counts :
      (p : Text) (ps q : List Text) (g : Graph M) {n : GraphNode M}
      → IsBalanced g q (p ∷ ps)
      → get_node p g ≡ some n
      → (s : Text)
      → references s (change p one_less g) + occurrences s ps ≡ indegree_of s (change p one_less g)
  unfolding occurrences indegree_of
  counts p ps q g {n} b e s = elim (Bool-cases (text_eq p s)) [
    | inl t ↦ ground (
      arith,
      b.counted s,
      references-change p s one_less g (λ x. refl),
      indegree-one_less p s g e,
      one_less_at p s g e t,
    )
    | inr f ↦ ground (
      arith,
      b.counted s,
      references-change p s one_less g (λ x. refl),
      indegree-one_less p s g e,
    )
  ]

  queues :
      (p : Text) (ps q : List Text) (g : Graph M) {n : GraphNode M}
      → IsBalanced g q (p ∷ ps)
      → get_node p g ≡ some n
      → 1 ≤ n.indegree
      → (s : Text)
      → has_name s (if n.indegree == 1 then q ++ p ∷ [] else q) ≡ is_source s (change p one_less g)
  unfolding is_source
  queues p ps q g {n} b e positive s = elim (Bool-cases (text_eq p s)) [
    | inl t ↦ ground (
      arith,
      b.queued s,
      has_name-append s p q,
      is_source-one_less p s g e,
      one_less_at p s g e t,
    )
    | inr f ↦ ground (arith, b.queued s, has_name-append s p q, is_source-one_less p s g e)
  ]

  -- A member of a group that is taken off has a node, which it loses an edge into.
  pub decrement_step :
      (p : Text) (ps q : List Text) (g : Graph M)
      → IsBalanced g q (p ∷ ps)
      → (n : GraphNode M) × (get_node p g ≡ some n)
        × IsBalanced (change p one_less g) (if n.indegree == 1 then q ++ p ∷ [] else q) ps
  unfolding occurrences indegree_of is_source
  decrement_step p ps q g b = elim (Option-cases (get_node p g)) [
    | inl e ↦ absurd (ground (arith, b.counted p, e, text_eq_refl p))
    | inr (n, e) ↦
        let positive : 1 ≤ n.indegree = ground (arith, b.counted p, e, text_eq_refl p) in
        let away : has_name p q ≡ false = ground (arith, b.queued p, e) in
        (
          n,
          e,
          record {
            distinct = Distinct-change p one_less g b.distinct;
            counted = λ s. counts p ps q g b e s;
            queued = λ s. queues p ps q g b e positive s;
            once = elim (Bool-cases (n.indegree == 1)) [
              | inl t ↦ rw t (AllNew-append p q b.once away)
              | inr f ↦ rw f b.once
            ];
          },
        )
  ]
