-- ===== src/Config/Members.antt =====
-- The loop of `proxyGroupsDagSort` (config/utils.go) over the members of a group that is taken
-- from the queue.
use rule_base_proxy.Common.{
  Bool-cases, List, Option-cases, Text, [], ap, arith, false, if◌then◌else◌, inl, inr, length, refl,
  some, some_inj, subst, sym, text_eq, text_eq_iff, ℕ, ◌++◌, ◌==◌, ◌∙◌, ◌∷◌, ◌≡◌,
}
use rule_base_proxy.Config.Graph.{
  weight, delete_node, GraphNode, Graph, get_node, change, delete_node, references, Distinct,
  weight,
}
use rule_base_proxy.Config.Changes.{
  get-change, get-delete_other, get-delete_self, change-delete, weight-change, length-change,
  get-delete_other, get-delete_self, references-change, Distinct-change, change-delete,
  weight-change, length-change,
}
use rule_base_proxy.Config.Sorting.{decrement, one_less}
use rule_base_proxy.Config.Balance.{IsBalanced, decrement_step}

module _ {ℓ} {M : Type ℓ} where
  -- The groups are the same.
  pub record IsKept (g g' : Graph M) : Type ℓ where
    pub refers : (s : Text) → references s g' ≡ references s g
    pub weighs : (c : M → ℕ) → weight c g' ≡ weight c g
    pub measures : length g' ≡ length g
    pub groups :
        (s : Text) (n' : GraphNode M)
        → get_node s g' ≡ some n'
        → (n : GraphNode M) × (get_node s g ≡ some n) × (n'.group ≡ n.group)

  pub IsKept-refl : (g : Graph M) → IsKept g g
  IsKept-refl g = record {
    refers = λ s. refl;
    weighs = λ c. refl;
    measures = refl;
    groups = λ s n h. (n, h, refl);
  }

  group-change :
      (p s : Text) (f : GraphNode M → GraphNode M) (g : Graph M) {n' : GraphNode M}
      → ((n : GraphNode M) → (f n).group ≡ n.group)
      → get_node s (change p f g) ≡ some n'
      → (n : GraphNode M) × (get_node s g ≡ some n) × (n'.group ≡ n.group)
  group-change p s f g {n'} keeps h =
      let h' = sym (get-change p s f g) ∙ h in
      elim (Option-cases (get_node s g)) [
        | inl e ↦ absurd (ground (arith, h', e))
        | inr (n, e) ↦ elim (Bool-cases (text_eq p s)) [
          | inl t ↦
              let same : f n ≡ n' = some_inj (rw (t, e) at h') in
              (n, e, ap (λ (x : GraphNode M). x.group) (sym same) ∙ keeps n)
          | inr f ↦
              let same : n ≡ n' = some_inj (rw (f, e) at h') in
              (n, e, ap (λ (x : GraphNode M). x.group) (sym same))
        ]
      ]

  -- A change that leaves the groups leaves what is read of them.
  pub change-IsKept :
      (p : Text) (f : GraphNode M → GraphNode M)
      → ((n : GraphNode M) → (f n).group ≡ n.group)
      → (g : Graph M) → IsKept g (change p f g)
  change-IsKept p f keeps g = record {
    refers = λ s. references-change p s f g keeps;
    weighs = λ c. weight-change c p f g keeps;
    measures = length-change p f g;
    groups = λ s n' h. group-change p s f g keeps h;
  }

  IsKept-trans : {f g h : Graph M} → IsKept f g → IsKept g h → IsKept f h
  IsKept-trans a b = record {
    refers = λ s. b.refers s ∙ a.refers s;
    weighs = λ c. b.weighs c ∙ a.weighs c;
    measures = b.measures ∙ a.measures;
    groups = λ s n'' h.
        let (n', at, same) = b.groups s n'' h in
        let (n, at', same') = a.groups s n' at in (n, at', same ∙ same');
  }

  -- The loop over the members of a group, for the graph without the name of the group.
  pub decrement-IsBalanced :
      (name : Text) (ps q : List Text) (g : Graph M)
      → Distinct g
      → IsBalanced (delete_node name g) q ps
      → (g' : Graph M) × (q' : List Text) × (decrement ps g q ≡ some (g', q'))
        × IsBalanced (delete_node name g') q' []
        × IsKept (delete_node name g) (delete_node name g')
  unfolding decrement
  decrement-IsBalanced name [] q g d b = (g, q, refl, b, IsKept-refl (delete_node name g))
  decrement-IsBalanced name (p ∷ ps) q g d b =
      let (n, e, b₁) = decrement_step p ps q (delete_node name g) b in
      let ne : text_eq name p ≡ false =
        ground (arith, text_eq_iff name p, get-delete_self name g d, e) in
      let at : get_node p g ≡ some n = sym (get-delete_other name p g ne) ∙ e in
      let same : delete_node name (change p one_less g) ≡ change p one_less (delete_node name g) =
        change-delete p name one_less g (ground (arith, text_eq_iff name p, text_eq_iff p name)) in
      let q₁ = if n.indegree == 1 then q ++ p ∷ [] else q in
      let (g', q', run, b', kept) =
        decrement-IsBalanced name ps q₁ (change p one_less g) (Distinct-change p one_less g d)
          (subst (λ x. IsBalanced x q₁ ps) (sym same) b₁) in
      (
        g',
        q',
        rw (at, decrement) run,
        b',
        IsKept-trans
            (subst (IsKept (delete_node name g)) (sym same)
              (change-IsKept p one_less (λ x. refl) (delete_node name g)))
            kept,
      )
