-- ===== src/Tunnel/Choice.antt =====
-- What the rule that `match` (tunnel/tunnel.go) takes is like, and what becomes of the metadata.
use mathlib.Core.List.{Mem, mem-cons_of_mem, mem-cons_self}
use rule_base_proxy.Common.{
  Bool, Bool-cases, List, Option, Option-cases, Text, [], ap, arith, if◌then◌else◌, inl, inr, none,
  not, some, subst, sym, true, ◌&&◌, ◌<|>◌, ◌||◌, ◌∙◌, ◌∷◌, ◌≡◌, ◌⊎◌,
}
use rule_base_proxy.Net.{Ip}
use rule_base_proxy.Rule.Metadata.{Metadata, udp}
use rule_base_proxy.Rule.Kinds.{Rule}
use rule_base_proxy.Rule.Matching.{World, State, rule_match}
use rule_base_proxy.Tunnel.Dispatch.{
  Proxy, Matched, proxy_of, wants_ip, fill_dst_ip, resolve_into, usable, match_rules,
}

-- The rule is one of the list, it matches the metadata (with some process cache), its adapter is
-- found under its name, and the adapter does UDP where the connection needs it.
pub record IsSound (w : World) (proxies : List (Text × Proxy)) (m : Metadata) (rules : List Rule)
    (p : Proxy) (r : Rule) : Type 0 where
  pub member : Mem r rules
  pub matching : (t : State) × ((rule_match w r t m).1 ≡ true)
  pub found : proxy_of r.adapter proxies ≡ some p
  pub carries : m.network ≡ udp → p.support_udp ≡ true

-- `m'` is `m` with an address put in where `m` has none.
abbrev pub Fills : Metadata → Metadata → Type 0
Fills m m' = (found : Option Ip) × (m' ≡ record m { dst_ip = m.dst_ip <|> found })

Fills-trans : (a b c : Metadata) → Fills a b → Fills b c → Fills a c
Fills-trans a b c (f, p) (g, q) =
    (f <|> g, q ∙ ap (λ (x : Metadata). record x { dst_ip = x.dst_ip <|> g }) p ∙ ground arith)

usable_sound :
    (proxies : List (Text × Proxy)) (m : Metadata) (r : Rule) {p : Proxy}
    → usable proxies m r ≡ some p
    → (proxy_of r.adapter proxies ≡ some p) × (m.network ≡ udp → p.support_udp ≡ true)
unfolding usable
usable_sound proxies m r {p} h = elim (Option-cases (proxy_of r.adapter proxies)) [
  | inl missing ↦ absurd (ground arith)
  | inr (q, found) ↦ (ground arith, λ u. ground arith)
]

module _ (resolve : Text → Option Ip) (w : World) (proxies : List (Text × Proxy)) where
  -- The metadata that a rule is tried on.
  abbrev tried : Bool → Metadata → Rule → Metadata
  tried resolved m r = if not resolved && wants_ip r m then resolve_into resolve m else m

  -- One round of the loop: the rule is taken, or the rest is tried.
  one_round :
      (resolved : Bool) (m : Metadata) (s : State) (q : Rule) (rs : List Rule)
      → ((p : Proxy) × ((rule_match w q s (tried resolved m q)).1 ≡ true)
          × (usable proxies (tried resolved m q) q ≡ some p)
          × (match_rules resolve w proxies resolved m s (q ∷ rs) ≡ record {
            metadata = tried resolved m q;
            state = (rule_match w q s (tried resolved m q)).0;
            choice = some (p, q);
          }))
        ⊎ ((t : State) × (match_rules resolve w proxies resolved m s (q ∷ rs)
              ≡ match_rules resolve w proxies
                  (resolved || not resolved && wants_ip q m)
                  (tried resolved m q)
                  t
                  rs))
  unfolding match_rules
  one_round resolved m s q rs =
      let matched : State × Bool = rule_match w q s (tried resolved m q) in
      elim (Bool-cases matched.1) [
        | inl hit ↦ elim (Option-cases (usable proxies (tried resolved m q) q)) [
          | inl unusable ↦ inr (matched.0, rw (hit, unusable, match_rules))
          | inr (p, found) ↦ inl (p, hit, found, rw (hit, found, match_rules))
        ]
        | inr miss ↦ inr (matched.0, rw (miss, match_rules))
      ]

  -- The rule that the loop of `match` takes is sound for the metadata that `match` leaves.
  pub match_rules-IsSound :
      (resolved : Bool) (m : Metadata) (s : State) (rs : List Rule) {p : Proxy} {r : Rule}
      → (match_rules resolve w proxies resolved m s rs).choice ≡ some (p, r)
      → IsSound w proxies (match_rules resolve w proxies resolved m s rs).metadata rs p r
  unfolding match_rules
  match_rules-IsSound resolved m s [] h = cc
  match_rules-IsSound resolved m s (q ∷ rs) {p} {r} h = elim (one_round resolved m s q rs) [
    | inl (p', hit, found, e) ↦
        subst (λ (x : Matched). x.choice ≡ some (p, r) → IsSound w proxies x.metadata (q ∷ rs) p r)
          (sym e)
          (λ c.
            let same : q ≡ r = cc in
            let parts = usable_sound proxies (tried resolved m q) q found in
            record {
              member = subst (λ x. Mem x (q ∷ rs)) same mem-cons_self;
              matching =
                  subst (λ x. (t : State) × ((rule_match w x t (tried resolved m q)).1 ≡ true)) same
                    (s, hit);
              found = ground arith;
              carries = ground arith;
            })
          h
    | inr (t, e) ↦
        subst (λ (x : Matched). x.choice ≡ some (p, r) → IsSound w proxies x.metadata (q ∷ rs) p r)
          (sym e)
          (λ c.
            let sound =
              match_rules-IsSound (resolved || not resolved && wants_ip q m) (tried resolved m q) t
                rs c in
            record {
              member = mem-cons_of_mem q sound.member;
              matching = sound.matching;
              found = sound.found;
              carries = sound.carries;
            })
          h
  ]

  resolve_into-Fills : (m : Metadata) → Fills m (resolve_into resolve m)
  unfolding resolve_into fill_dst_ip
  resolve_into-Fills m = elim (Option-cases (resolve m.host)) [
    | inl unknown ↦ (none, ground arith)
    | inr (ip, found) ↦ (some ip, ground arith)
  ]

  tried-Fills : (resolved : Bool) (m : Metadata) (q : Rule) → Fills m (tried resolved m q)
  tried-Fills resolved m q = elim (Bool-cases (not resolved && wants_ip q m)) [
    | inl t ↦ rw t (resolve_into-Fills m)
    | inr f ↦ rw f (none, ground arith)
  ]

  -- `match` changes nothing of the metadata but the destination's address, and that only where it
  -- is nil.
  pub match_rules-Fills :
      (resolved : Bool) (m : Metadata) (s : State) (rs : List Rule)
      → Fills m (match_rules resolve w proxies resolved m s rs).metadata
  unfolding match_rules
  match_rules-Fills resolved m s [] = (none, ground arith)
  match_rules-Fills resolved m s (q ∷ rs) = elim (one_round resolved m s q rs) [
    | inl (p', hit, found, e) ↦
        subst (λ (x : Matched). Fills m x.metadata) (sym e) (tried-Fills resolved m q)
    | inr (t, e) ↦
        subst (λ (x : Matched). Fills m x.metadata) (sym e)
          (Fills-trans m (tried resolved m q) _ (tried-Fills resolved m q) (
            match_rules-Fills (resolved || not resolved && wants_ip q m) (tried resolved m q) t rs))
  ]
