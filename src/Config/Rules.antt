-- ===== src/Config/Rules.antt =====
-- `parseRules` of config/config.go with `trimArr` of config/utils.go. `A` is the interface
-- `C.Proxy`; `net.ParseCIDR` is an argument.
use rule_base_proxy.Common.{
  List, Option, Text, [], empty, if◌then◌else◌, is_some, map, none, not, some, suc, ℕ, ◌&&◌, ◌++◌,
  ◌==◌, ◌∷◌,
}
use rule_base_proxy.Net.Networks.{IpNet}
use rule_base_proxy.Rule.Kinds.{Rule}
use rule_base_proxy.Rule.Parser.{
  RuleError, Outcome, parsed, parse_error, nil_pointer, index_panic, parse_rule,
}
use rule_base_proxy.Trie.Domain.{push_first}
use rule_base_proxy.Groups.Parsing.{look_up}

-- `strings.Split(s, ",")`
unfoldable pub split_comma : Text → List Text
split_comma [] = [] ∷ []
split_comma (c ∷ cs) = if c == b',' then [] ∷ split_comma cs else push_first c (split_comma cs)

unfoldable pub trim_left : Text → Text
trim_left [] = []
trim_left (c ∷ s) = if c == b' ' then trim_left s else c ∷ s

unfoldable pub trim_right : Text → Text
trim_right [] = []
trim_right (c ∷ s) = let rest = trim_right s in if c == b' ' && empty rest then [] else c ∷ rest

-- `strings.Trim(s, " ")`
abbrev pub trim : Text → Text
trim s = trim_right (trim_left s)

abbrev pub trim_arr : List Text → List Text
trim_arr = map trim

-- The parts of a line: type, payload, target and parameters.
pub record Line : Type 0 where
  pub kind : Text
  pub payload : Text
  pub target : Text
  pub params : List Text

-- The switch over the number of parts, or `none` for the invalid format.
unfoldable pub line_parts : List Text → Option Line
line_parts (tp ∷ target ∷ []) =
    some (record { kind = tp; payload = []; target = target; params = [] })
line_parts (tp ∷ payload ∷ target ∷ []) =
    some (record { kind = tp; payload = payload; target = target; params = [] })
line_parts (tp ∷ payload ∷ target ∷ p ∷ ps) =
    some (record { kind = tp; payload = payload; target = target; params = p ∷ ps })
line_parts _ = none

-- What the parsing comes to. A rule that is a nil pointer, which `ParseRule` returns without an
-- error, is `none` in the list.
pub data Rules : Type 0 where
  rules_made : List (Option Rule) → Rules
  format_invalid : ℕ → Text → Rules
  proxy_missing : ℕ → Text → Text → Rules
  rule_error : ℕ → Text → RuleError → Rules
  rules_panic : Rules

module _ {ℓ} {A : Type ℓ} (cidr : Text → Option IpNet) (proxies : List (Text × A)) where
  -- `ParseRule` for the parts of a line, which are trimmed once more.
  abbrev pub parse_parts : Line → Outcome
  parse_parts l = parse_rule cidr (trim l.kind) l.payload l.target (trim_arr l.params)

  -- The loop from the index `idx` on, with the rules so far.
  unfoldable pub parse_lines : ℕ → List Text → List (Option Rule) → Rules
  parse_lines idx [] rules = rules_made rules
  parse_lines idx (line ∷ lines) rules = elim (line_parts (trim_arr (split_comma line))) [
    | none ↦ format_invalid idx line
    | some l ↦
        let next = λ (r : Option Rule). parse_lines (suc idx) lines (rules ++ r ∷ []) in
        if not (is_some (look_up l.target proxies))
        then proxy_missing idx line l.target
        else elim (parse_parts l) [
          | parse_error e ↦ rule_error idx line e
          | index_panic ↦ rules_panic
          | nil_pointer ↦ next none
          | parsed r ↦ next (some r)
        ]
  ]

  unfoldable pub parse_rules : List Text → Rules
  parse_rules lines = parse_lines 0 lines []
