-- ===== src/Groups/Choosing.antt =====
-- What the groups of adapter/outboundgroup choose.
use mathlib.Core.List.{Mem, Mem-prop, mem-cons, mem-cons_self, mem-cons_of_mem}
use mathlib.Core.Logic.Or
use rule_base_proxy.Common.{
  All, Bool-cases, List, [], ap, arith, false, inl, inr, ltb, min, none, refl, some, subst, sym,
  true, ℕ, ◌++◌, ◌∷◌, ◌≡◌, ◌≤◌, ◌⊎◌,
}
use rule_base_proxy.Adapter.Proxy.{Proxy, last_delay}
use rule_base_proxy.Groups.Selection.{
  first_proxy, first_alive, find_alive_proxy, fastest, fast_node,
}

abbrev pub Dead : Proxy → Type 0
Dead p = p.alive ≡ false

first_alive-cases :
    (ps : List Proxy)
    → ((first_alive ps ≡ none) × All Dead ps)
      ⊎ ((l : List Proxy) × (p : Proxy) × (r : List Proxy) × (first_alive ps ≡ some p)
          × (ps ≡ l ++ p ∷ r)
          × All Dead l
          × (p.alive ≡ true))
unfolding first_alive
first_alive-cases [] = inl (refl, tt)
first_alive-cases (q ∷ ps) = elim (Bool-cases q.alive) [
  | inl up ↦ inr ([], q, ps, rw up refl, refl, tt, up)
  | inr down ↦ elim (first_alive-cases ps) [
    | inl (none_found, dead) ↦ inl (rw down none_found, (down, dead))
    | inr (l, p, r, found, parts, dead, up) ↦
        inr (q ∷ l, p, r, rw down found, ap (◌∷◌ q) parts, (down, dead), up)
  ]
]

-- `findAliveProxy` of a group with a member takes the first member that is alive, and the first
-- of all where none is.
pub find_alive_proxy-First :
    (q : Proxy) (qs : List Proxy)
    → ((l : List Proxy) × (p : Proxy) × (r : List Proxy) × (find_alive_proxy (q ∷ qs) ≡ some p)
        × (q ∷ qs ≡ l ++ p ∷ r)
        × All Dead l
        × (p.alive ≡ true))
      ⊎ ((find_alive_proxy (q ∷ qs) ≡ some q) × All Dead (q ∷ qs))
unfolding find_alive_proxy first_proxy
find_alive_proxy-First q qs = elim (first_alive-cases (q ∷ qs)) [
  | inl (none_found, dead) ↦ inr (rw none_found refl, dead)
  | inr (l, p, r, found, parts, dead, up) ↦ inl (l, p, r, rw found refl, parts, dead, up)
]

-- A proxy of a list that is no slower than any of its members that is alive.
abbrev pub IsFastest : Proxy → List Proxy → Type 0
IsFastest p ps = All (λ q. q.alive ≡ true → last_delay p ≤ last_delay q) ps

mem-skip : {x a : Proxy} (b : Proxy) {l : List Proxy} → Mem x (a ∷ l) → Mem x (a ∷ b ∷ l)
mem-skip {x} {a} b {l} m =
    Or.elim Mem-prop (mem-cons.0 m)
      (λ same. subst (λ y. Mem y (a ∷ b ∷ l)) (sym same) mem-cons_self)
      (λ later. mem-cons_of_mem a (mem-cons_of_mem b later))

abbrev IsChoice : Proxy → ℕ → List Proxy → Proxy → Type 0
IsChoice fast min ps x = Mem x (fast ∷ ps) × (last_delay x ≤ min) × IsFastest x ps

fastest-Least :
    (fast : Proxy) (min : ℕ) (ps : List Proxy)
    → min ≡ last_delay fast
    → Mem (fastest fast min ps) (fast ∷ ps)
      × (last_delay (fastest fast min ps) ≤ min)
      × IsFastest (fastest fast min ps) ps
unfolding fastest
fastest-Least fast min [] e = (mem-cons_self, omega (arith, e), tt)
fastest-Least fast min (p ∷ ps) e =
    let (there, less, least) = fastest-Least fast min ps e in
    let (there', less', least') = fastest-Least p (last_delay p) ps refl in
    elim (Bool-cases p.alive) [
      | inl up ↦ elim (Bool-cases (ltb (last_delay p) min)) [
        | inl faster ↦
            let step : fastest p (last_delay p) ps ≡ fastest fast min (p ∷ ps) =
              ground (arith, up, faster) in
            subst (IsChoice fast min (p ∷ ps)) step
              (mem-cons_of_mem fast there', ground (arith, less', faster), (λ x. less', least'))
        | inr slower ↦
            let step : fastest fast min ps ≡ fastest fast min (p ∷ ps) =
              ground (arith, up, slower) in
            subst (IsChoice fast min (p ∷ ps)) step
              (mem-skip p there, less, (λ x. ground (arith, less, slower), least))
      ]
      | inr down ↦
          let step : fastest fast min ps ≡ fastest fast min (p ∷ ps) = ground (arith, down) in
          subst (IsChoice fast min (p ∷ ps)) step (mem-skip p there, less, (λ x. cc, least))
    ]

-- A tick of a URL test group with a member chooses a member, and one that is no slower than any
-- member that is alive.
pub fast_node-IsFastest :
    (q : Proxy) (qs : List Proxy)
    → (p : Proxy) × (fast_node (q ∷ qs) ≡ some p) × Mem p (q ∷ qs) × IsFastest p (q ∷ qs)
unfolding fast_node
fast_node-IsFastest q qs =
    let (there, less, least) = fastest-Least q (last_delay q) qs refl in
    (fastest q (last_delay q) qs, refl, there, (λ up. less, least))
