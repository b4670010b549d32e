-- ===== src/Groups/RoundRobin.antt =====
-- What round robin in adapter/outboundgroup/loadbalance.go chooses.
use native.Mathlib.Nat.{mod-eq_of_lt}
use rule_base_proxy.Common.{
  ==_iff, Bool-cases, List, [], ap, arith, false, get_elem?, if◌then◌else◌, inl, inr, length, ltb,
  none, refl, some, some_inj, subst, suc, sym, true, zero, ℕ, ◌%◌, ◌+◌, ◌-◌, ◌<◌, ◌==◌, ◌∙◌, ◌∷◌,
  ◌≡◌, ◌≢◌, ◌≤◌, ◌⊎◌,
}
use rule_base_proxy.Adapter.Proxy.{Proxy}
use rule_base_proxy.Groups.Selection.{first_proxy, next_alive, round_robin}
use rule_base_proxy.Groups.Choosing.{Dead}

first_proxy-some : (ps : List Proxy) → 0 < length ps → (p : Proxy) × (first_proxy ps ≡ some p)
unfolding first_proxy
first_proxy-some [] h = absurd (omega arith)
first_proxy-some (p ∷ ps) h = (p, refl)

-- The number of steps from one index to another, around a list.
abbrev pub distance : ℕ → ℕ → ℕ → ℕ
distance len idx j = if ltb idx j then j - idx else j + len - idx

mod_self : (n : ℕ) → 0 < n → n % n ≡ 0
mod_self n h = grind arith

next_index : (idx len : ℕ) → idx < len → (idx + 1) % len ≡ (if idx + 1 == len then 0 else idx + 1)
next_index idx len h = elim (Bool-cases (idx + 1 == len)) [
  | inl e ↦
      let last : idx + 1 ≡ len = (==_iff (idx + 1) len).0 e in
      rw e (ap (λ x. x % len) last ∙ mod_self len (omega arith))
  | inr e ↦ rw e (mod-eq_of_lt (ground (arith, e)))
]

distance_step :
    (idx len j : ℕ)
    → idx < len
    → j < len
    → j ≢ (idx + 1) % len
    → suc (distance len ((idx + 1) % len) j) ≡ distance len idx j
distance_step idx len j h h' ne = ground (arith, next_index idx len h)

get_elem?-some : (ps : List Proxy) (i : ℕ) → i < length ps → (p : Proxy) × (get_elem? ps i ≡ some p)
get_elem?-some [] i h = absurd (omega arith)
get_elem?-some (p ∷ ps) zero h = (p, refl)
get_elem?-some (p ∷ ps) (suc i) h = get_elem?-some ps i (omega arith)

get_elem?-lt : (ps : List Proxy) (i : ℕ) {p : Proxy} → get_elem? ps i ≡ some p → i < length ps
get_elem?-lt [] i h = cc
get_elem?-lt (q ∷ ps) zero h = omega arith
get_elem?-lt (q ∷ ps) (suc i) h = omega (arith, get_elem?-lt ps i h)

-- The rounds of the loop: the index stays one of the list, and a proxy that is found is alive and
-- stands there; where none is found, those within reach are dead.
next_alive_lem :
    (rounds : ℕ) (ps : List Proxy) (idx : ℕ)
    → idx < length ps
    → ((idx' : ℕ) × (p : Proxy) × (next_alive rounds ps idx ≡ some (idx', some p))
        × (idx' < length ps)
        × (get_elem? ps idx' ≡ some p)
        × (p.alive ≡ true))
      ⊎ ((idx' : ℕ) × (next_alive rounds ps idx ≡ some (idx', none))
          × (idx' < length ps)
          × ((j : ℕ) (q : Proxy)
              → distance (length ps) idx j ≤ rounds
              → get_elem? ps j ≡ some q
              → q.alive ≡ false))
unfolding next_alive
next_alive_lem zero ps idx h = inr (idx, refl, h, λ j q near at. absurd (ground (arith, near, h)))
next_alive_lem (suc rounds) ps idx h =
    let inside : (idx + 1) % length ps < length ps = ground (arith, next_index idx (length ps) h) in
    let (p, at) = get_elem?-some ps ((idx + 1) % length ps) inside in
    elim (Bool-cases p.alive) [
      | inl up ↦ inl ((idx + 1) % length ps, p, rw (at, next_alive, up) refl, inside, at, up)
      | inr down ↦ elim (next_alive_lem rounds ps ((idx + 1) % length ps) inside) [
        | inl (i, r, found, low, there, up) ↦
            inl (i, r, rw (at, next_alive, down) found, low, there, up)
        | inr (i, none_found, low, dead) ↦ inr (
          i,
          rw (at, next_alive, down) none_found,
          low,
          λ j q near there. elim (Bool-cases (j == (idx + 1) % length ps)) [
            | inl same ↦
                let here : get_elem? ps j ≡ some p =
                  subst (λ k. get_elem? ps k ≡ some p)
                    (sym ((==_iff j ((idx + 1) % length ps)).0 same)) at in
                let one : p ≡ q = some_inj (sym here ∙ there) in subst Dead one down
            | inr other ↦
                dead j q
                  (ground (
                    arith,
                    distance_step idx (length ps) j h (get_elem?-lt ps j there)
                        (ground (arith, other)),
                    near,
                  ))
                  there
          ],
        )
      ]
    ]

-- Round robin over a group with members, from an index of the list: it does not panic, moves to an
-- index of the list, and takes a proxy that is alive whenever some member is, the one at the new
-- index; where none is it takes the first.
pub round_robin-alive :
    (ps : List Proxy) (idx : ℕ)
    → idx < length ps
    → (idx' : ℕ) × (p : Proxy) × (round_robin ps idx ≡ some (idx', p))
      × (idx' < length ps)
      × (((p.alive ≡ true) × (get_elem? ps idx' ≡ some p))
          ⊎ ((first_proxy ps ≡ some p)
              × ((j : ℕ) (q : Proxy) → get_elem? ps j ≡ some q → q.alive ≡ false)))
unfolding round_robin
round_robin-alive ps idx h = elim (next_alive_lem (length ps) ps idx h) [
  | inl (idx', p, found, low, at, up) ↦ (idx', p, rw (found, round_robin) refl, low, inl (up, at))
  | inr (idx', none_found, low, dead) ↦
      let (p, first) = first_proxy-some ps (omega arith) in
      (
        idx',
        p,
        rw (none_found, round_robin, first) refl,
        low,
        inr (first, λ j q at. dead j q (ground (arith, get_elem?-lt ps j at)) at),
      )
]
