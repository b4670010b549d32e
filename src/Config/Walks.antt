-- ===== src/Config/Walks.antt =====
-- The loop of the topological sort (`proxyGroupsDagSort` of config/utils.go) as a whole: no round
-- panics, the number of nodes is fuel enough, and what is left is named by a group that is left.
use rule_base_proxy.Common.{
  All-map, List, List-cases, Option, Option-cases, Text, [], ap, arith, false, inl, inr, leb,
  length, none, refl, some, subst, suc, zero, ℕ, ◌∙◌, ◌∷◌, ◌≡◌, ◌≤◌,
}
use rule_base_proxy.Config.Graph.{Group, GraphNode, Graph, get_node, delete_node, members, grouped}
use rule_base_proxy.Config.Changes.{weight-delete, length-delete}
use rule_base_proxy.Config.Sorting.{Walk, decrement, visit, walk}
use rule_base_proxy.Config.Balance.{IsBalanced}
use rule_base_proxy.Config.Members.{IsKept-refl, decrement-IsBalanced}
use rule_base_proxy.Config.Rounds.{
  total_weight-one, IsWalk, head_node, removed-IsBalanced, fewer, IsNamed-removed, own_weight,
  written-IsWalk,
}

module _ {ℓ} {M : Type ℓ} (decode : M → Option Group) (groups : List M) where
  module _ (w : Walk M) (name : Text) (q : List Text) (k : IsWalk decode groups w)
      (b : IsBalanced w.graph (name ∷ q) []) (n : GraphNode M)
      (e : get_node name w.graph ≡ some n) where
    visit_members :
        (m : M) (o : Group) (p : Text) (ps q' : List Text) (g' : Graph M)
        → n.group ≡ some (m, o)
        → leb (length groups) (length w.written) ≡ false
        → o.proxies ≡ p ∷ ps
        → decrement o.proxies w.graph q ≡ some (g', q')
        → visit (length groups) name q w
          ≡ some (record { graph = delete_node name g'; queue = q'; written = m ∷ w.written })
    unfolding visit
    visit_members m o p ps q' g' has room some_members run =
        rw (e, visit, has, room) (ground (arith, some_members, run))

    -- A round at a node that is no group.
    visit_leaf :
        n.group ≡ none
        → (w' : Walk M) × (visit (length groups) name q w ≡ some w')
          × IsWalk decode groups w'
          × (suc (length w'.graph) ≡ length w.graph)
    unfolding visit
    visit_leaf has =
        let none_in : members n ≡ [] =
          ap (λ (x : Option (M × Group)). elim x [ none ↦ [] | some y ↦ y.1.proxies ]) has in
        let no_weight : (c : M → ℕ) → grouped c n ≡ 0 =
          λ c. ap {B = ℕ} (λ (x : Option (M × Group)). elim x [ none ↦ 0 | some y ↦ c y.0 ]) has in
        let fewer' = fewer decode groups w name q k b n e in
        (
          record w { graph = delete_node name w.graph; queue = q },
          rw (e, visit, has) refl,
          record {
            balanced =
                subst (IsBalanced (delete_node name w.graph) q) none_in
                  (removed-IsBalanced decode w.graph name q b n e);
            named = IsNamed-removed decode groups w name q k b n e (IsKept-refl _);
            weighed = λ c. omega (arith, weight-delete c name w.graph e, k.weighed c, no_weight c);
            ordered = k.ordered;
            free = All-map w.written (λ y free o d. (fewer' o.name (free o d)).0) k.free;
          },
          length-delete name w.graph e,
        )

    -- A round at a group.
    visit_group :
        (m : M) (o : Group)
        → n.group ≡ some (m, o)
        → (w' : Walk M) × (visit (length groups) name q w ≡ some w')
          × IsWalk decode groups w'
          × (suc (length w'.graph) ≡ length w.graph)
    unfolding visit
    visit_group m o has =
        let gone = removed-IsBalanced decode w.graph name q b n e in
        let own : members n ≡ o.proxies =
          ap (λ (x : Option (M × Group)). elim x [ none ↦ [] | some y ↦ y.1.proxies ]) has in
        let room : leb (length groups) (length w.written) ≡ false = ground (
          arith,
          weight-delete (λ x. 1) name w.graph e,
          k.weighed (λ x. 1),
          own_weight decode groups w name q k b n e (λ x. 1) m o has,
          total_weight-one decode groups,
          total_weight-one decode w.written,
        ) in
        let next = written-IsWalk decode groups w name q k b n e in
        elim (List-cases o.proxies) [
          | inl no_members ↦ (
            record { graph = delete_node name w.graph; queue = q; written = m ∷ w.written },
            rw (e, visit, has, room, no_members) refl,
            next (delete_node name w.graph) q m o has
                (subst (IsBalanced (delete_node name w.graph) q) (own ∙ no_members) gone)
                (IsKept-refl _),
            length-delete name w.graph e,
          )
          | inr (p, ps, some_members) ↦
              let (g', q', run, b', kept) =
                decrement-IsBalanced name o.proxies q w.graph k.balanced.distinct
                  (subst (IsBalanced (delete_node name w.graph) q) own gone) in
              (
                record { graph = delete_node name g'; queue = q'; written = m ∷ w.written },
                visit_members m o p ps q' g' has room some_members run,
                next (delete_node name g') q' m o has b' kept,
                omega (arith, kept.measures, length-delete name w.graph e),
              )
        ]

  visit-IsWalk :
      (w : Walk M) (name : Text) (q : List Text)
      → w.queue ≡ name ∷ q
      → IsWalk decode groups w
      → (w' : Walk M) × (visit (length groups) name q w ≡ some w')
        × IsWalk decode groups w'
        × (suc (length w'.graph) ≡ length w.graph)
  visit-IsWalk w name q at k =
      let b = subst (λ l. IsBalanced w.graph l []) at k.balanced in
      let (n, e, _) = head_node decode w.graph name q b in
      elim (Option-cases n.group) [
        | inl has ↦ visit_leaf w name q k b n e has
        | inr (own, has) ↦ visit_group w name q k b n e own.0 own.1 has
      ]

  pub walk-IsWalk :
      (fuel : ℕ) (w : Walk M)
      → IsWalk decode groups w
      → length w.graph ≤ fuel
      → (w' : Walk M) × (walk fuel (length groups) w ≡ some w')
        × IsWalk decode groups w'
        × (w'.queue ≡ [])
  unfolding walk
  walk-IsWalk zero w k enough = elim (List-cases w.queue) [
    | inl done ↦ (w, ground (arith, done), k, done)
    | inr (name, q, at) ↦ let (w₁, _, _, less) = visit-IsWalk w name q at k in absurd (omega arith)
  ]
  walk-IsWalk (suc fuel) w k enough = elim (List-cases w.queue) [
    | inl done ↦ (w, ground (arith, done), k, done)
    | inr (name, q, at) ↦
        let (w₁, run, k₁, less) = visit-IsWalk w name q at k in
        let (w', runs, k', done) = walk-IsWalk fuel w₁ k₁ (omega arith) in
        (w', rw (at, walk, run) runs, k', done)
  ]
