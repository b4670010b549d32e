-- ===== src/Tunnel/Selection.antt =====
-- Which rule `match` (tunnel/tunnel.go) takes, and when it resolves a name.
use rule_base_proxy.Common.{
  Bool, Bool-cases, List, Option, Option-cases, Text, [], arith, false, if◌then◌else◌, inl, inr,
  none, refl, some, true, ◌∷◌, ◌≡◌,
}
use rule_base_proxy.Net.{Ip}
use rule_base_proxy.Rule.Metadata.{Metadata}
use rule_base_proxy.Rule.Kinds.{Rule}
use rule_base_proxy.Rule.Matching.{World, State, rule_match}
use rule_base_proxy.Tunnel.Dispatch.{Proxy, Matched, wants_ip, resolve_into, usable, match_rules}

module _ (w : World) (proxies : List (Text × Proxy)) where
  -- The first rule, in order, that matches and whose adapter can be used, with no look at names.
  unfoldable pub first_usable : Metadata → State → List Rule → Matched
  first_usable m s [] = record { metadata = m; state = s; choice = none }
  first_usable m s (r ∷ rs) =
      let matched : State × Bool = rule_match w r s m in
      elim (if matched.1 then usable proxies m r else none) [
        | some p ↦ record { metadata = m; state = matched.0; choice = some (p, r) }
        | none ↦ first_usable m matched.0 rs
      ]

  -- The rules before the first that wants an address, and the rules from there on.
  abbrev pub before_wanting : Metadata → List Rule → List Rule
  before_wanting m [] = []
  before_wanting m (r ∷ rs) = if wants_ip r m then [] else r ∷ before_wanting m rs

  abbrev pub from_wanting : Metadata → List Rule → List Rule
  from_wanting m [] = []
  from_wanting m (r ∷ rs) = if wants_ip r m then r ∷ rs else from_wanting m rs

  -- `first_usable` on the first rules, and when none of them applies, on the rest, by when the name
  -- is resolved.
  unfoldable pub in_two_phases : (Text → Option Ip) → Metadata → State → List Rule → Matched
  in_two_phases resolve m s rs =
      let first : Matched = first_usable m s (before_wanting m rs) in
      elim first.choice [
        | some c ↦ first
        | none ↦ elim (from_wanting m rs) [
          | [] ↦ first
          | r ∷ rest ↦ first_usable (resolve_into resolve m) first.state (r ∷ rest)
        ]
      ]

  match_rules-resolved :
      (resolve : Text → Option Ip) (m : Metadata) (s : State) (rs : List Rule)
      → match_rules resolve w proxies true m s rs ≡ first_usable m s rs
  unfolding match_rules first_usable
  match_rules-resolved resolve m s [] = refl
  match_rules-resolved resolve m s (r ∷ rs) =
      let rest = match_rules-resolved resolve m (rule_match w r s m).0 rs in ground arith

  -- The loop of `match`, for a name that the hosts table has not resolved: the rules are tried in
  -- order, the first that matches and has a usable adapter is taken, and the name is resolved at
  -- most once, when a rule that wants an address is reached with none taken, for that rule and
  -- those after it.
  pub match_rules-in_two_phases :
      (resolve : Text → Option Ip) (m : Metadata) (s : State) (rs : List Rule)
      → match_rules resolve w proxies false m s rs ≡ in_two_phases resolve m s rs
  unfolding match_rules in_two_phases first_usable
  match_rules-in_two_phases resolve m s [] = refl
  match_rules-in_two_phases resolve m s (r ∷ rs) = elim (Bool-cases (wants_ip r m)) [
    | inl wants ↦
        let rest =
          match_rules-resolved resolve (resolve_into resolve m)
            (rule_match w r s (resolve_into resolve m)).0 rs in
        ground arith
    | inr not_yet ↦
        let rest = match_rules-in_two_phases resolve m (rule_match w r s m).0 rs in
        elim (Option-cases (if (rule_match w r s m).1 then usable proxies m r else none)) [
          | inl skipped ↦ ground arith
          | inr (p, taken) ↦ ground arith
        ]
  ]
