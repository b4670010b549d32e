-- ===== src/Config/Served.antt =====
-- The rules that `parseRules` (config/config.go) returns, in `match` of tunnel/tunnel.go.
use rule_base_proxy.Common.{
  Bool-cases, List, Option, Option-cases, Text, [], ap, arith, if◌then◌else◌, inl, inr, is_some,
  none, not, refl, some, subst, suc, sym, true, ℕ, ◌&&◌, ◌++◌, ◌==◌, ◌∙◌, ◌∷◌, ◌≡◌, ◌⊎◌,
}
use mathlib.Core.List.{append-nil, append_assoc}
use rule_base_proxy.Net.Networks.{IpNet}
use rule_base_proxy.Rule.Metadata.{Metadata, udp}
use rule_base_proxy.Rule.Kinds.{Rule}
use rule_base_proxy.Rule.Parser.{RuleError, Outcome, parsed, parse_error, nil_pointer, index_panic}
use rule_base_proxy.Rule.Outcomes.{parse_rule-reported}
use rule_base_proxy.Tunnel.Dispatch.{Proxy, proxy_of, usable}
use rule_base_proxy.Groups.Parsing.{look_up}
use rule_base_proxy.Config.Rules.{
  Line, line_parts, trim_arr, split_comma, rules_made, parse_parts, parse_lines, parse_rules,
}

Outcome-cases :
    (x : Outcome)
    → ((r : Rule) × (x ≡ parsed r))
      ⊎ (((e : RuleError) × (x ≡ parse_error e)) ⊎ ((x ≡ nil_pointer) ⊎ (x ≡ index_panic)))
Outcome-cases (parsed r) = inl (r, refl)
Outcome-cases (parse_error e) = inr (inl (e, refl))
Outcome-cases nil_pointer = inr (inr (inl refl))
Outcome-cases index_panic = inr (inr (inr refl))

rules_inj : {x y : List (Option Rule)} → rules_made x ≡ rules_made y → x ≡ y
rules_inj h = cc

look_up-proxy_of :
    (name : Text) (proxies : List (Text × Proxy)) → look_up name proxies ≡ proxy_of name proxies
unfolding look_up proxy_of
look_up-proxy_of name [] = refl
look_up-proxy_of name ((k, p) ∷ ps) = ground (arith, look_up-proxy_of name ps)

module _ (cidr : Text → Option IpNet) (proxies : List (Text × Proxy)) where
  -- A rule from a line of the document, with its target as its adapter, which has a proxy: `match`
  -- passes over it for UDP alone, where the proxy has none.
  abbrev pub IsServed : Text → Option Rule → Type 0
  IsServed line none = Unit
  IsServed line (some r) =
      (l : Line) × (line_parts (trim_arr (split_comma line)) ≡ some l)
      × (r.adapter ≡ l.target)
      × (p : Proxy) × (proxy_of r.adapter proxies ≡ some p)
      × ((m : Metadata)
          → usable proxies m r ≡ (if m.network == udp && not p.support_udp then none else some p))

  -- One entry for each line, in the order of the lines.
  abbrev pub AllServed : List Text → List (Option Rule) → Type 0
  AllServed [] [] = Unit
  AllServed [] (r ∷ rs) = ⊥
  AllServed (line ∷ lines) [] = ⊥
  AllServed (line ∷ lines) (r ∷ rs) = IsServed line r × AllServed lines rs

  parsed-IsServed :
      (line : Text) (l : Line) (r : Rule)
      → line_parts (trim_arr (split_comma line)) ≡ some l
      → is_some (look_up l.target proxies) ≡ true
      → parse_parts cidr proxies l ≡ parsed r
      → IsServed line (some r)
  unfolding usable
  parsed-IsServed line l r e there h =
      let (_, same, _) = parse_rule-reported cidr _ l.payload l.target _ h in
      elim (Option-cases (look_up l.target proxies)) [
        | inl missing ↦ absurd (ground (arith, missing, there))
        | inr (p, found) ↦
            let found' : proxy_of r.adapter proxies ≡ some p =
              ap (λ s. proxy_of s proxies) same ∙ sym (look_up-proxy_of l.target proxies) ∙ found in
            (l, e, same, p, found', λ m. ground (arith, found'))
      ]

  extend :
      (x : Option Rule) (line : Text) (lines : List Text) (before rules : List (Option Rule))
      → IsServed line x
      → (rs : List (Option Rule)) × (rules ≡ (before ++ x ∷ []) ++ rs) × AllServed lines rs
      → (rs : List (Option Rule)) × (rules ≡ before ++ rs) × AllServed (line ∷ lines) rs
  extend x line lines before rules served (rs, e, all) =
      (x ∷ rs, e ∙ append_assoc before (x ∷ []) rs, (served, all))

  parse_lines-AllServed :
      (idx : ℕ) (lines : List Text) (before rules : List (Option Rule))
      → parse_lines cidr proxies idx lines before ≡ rules_made rules
      → (rs : List (Option Rule)) × (rules ≡ before ++ rs) × AllServed lines rs
  unfolding parse_lines
  parse_lines-AllServed idx [] before rules h =
      ([], sym (rules_inj h) ∙ sym (append-nil before), tt)
  parse_lines-AllServed idx (line ∷ lines) before rules h =
      elim (Option-cases (line_parts (trim_arr (split_comma line)))) [
        | inl e ↦ absurd (ground (arith, e, h))
        | inr (l, e) ↦ elim (Bool-cases (is_some (look_up l.target proxies))) [
          | inr f ↦ absurd (ground (arith, e, f, h))
          | inl t ↦ elim (Outcome-cases (parse_parts cidr proxies l)) [
            | inr (inl (err, o)) ↦ absurd (ground (arith, e, t, o, h))
            | inr (inr (inr o)) ↦ absurd (ground (arith, e, t, o, h))
            | inr (inr (inl o)) ↦ extend none line lines before rules tt (
                parse_lines-AllServed (suc idx) lines (before ++ none ∷ []) rules
                  (rw (parse_lines, e, t, o) at h))
            | inl (r, o) ↦
                extend (some r) line lines before rules (parsed-IsServed line l r e t o) (
                  parse_lines-AllServed (suc idx) lines (before ++ some r ∷ []) rules
                    (rw (parse_lines, e, t, o) at h))
          ]
        ]
      ]

  -- Where the rules parse, the list has one entry for each line, in their order. An entry that is
  -- not a nil pointer has the target of its line as its adapter, and an outbound proxy of that name
  -- is there, so that `match` passes over the rule, once it applies, for a UDP connection and a
  -- proxy without UDP alone.
  pub parse_rules-AllServed :
      (lines : List Text) (rules : List (Option Rule))
      → parse_rules cidr proxies lines ≡ rules_made rules
      → AllServed lines rules
  unfolding parse_rules
  parse_rules-AllServed lines rules h =
      let (rs, e, all) = parse_lines-AllServed 0 lines [] rules h in
      subst (AllServed lines) (sym e) all
