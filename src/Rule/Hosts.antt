-- ===== src/Rule/Hosts.antt =====
-- What a rule on the host name, as `ParseRule` (rule/parser.go) makes it, matches.
use rule_base_proxy.Common.{
  ==_iff, List, Option, Text, and_iff, codes, or_iff, or_swap, subst, text_eq, text_eq_iff,
  to_lower, true, ◌++◌, ◌==◌, ◌↔◌, ◌∷◌, ◌≡◌, ◌⊎◌,
}
use rule_base_proxy.Net.Networks.{IpNet}
use rule_base_proxy.Rule.Metadata.{Metadata, atyp_domain_name}
use rule_base_proxy.Rule.Strings.{has_suffix, has_suffix_iff, contains_iff}
use rule_base_proxy.Rule.Kinds.{Rule}
use rule_base_proxy.Rule.Parser.{
  new_domain_suffix, new_domain_keyword, parsed, case_of, parse_case, parse_rule, plain_rule,
  parsed_inj,
}
use rule_base_proxy.Rule.Matching.{
  World, State, match_condition, match_keyword, rule_match, match_suffix,
}

module _ (cidr : Text → Option IpNet) (w : World) (target : Text) (params : List Text) where
  -- A `DOMAIN-SUFFIX` rule matches a connection to a name that is the suffix in lower case or ends
  -- in a dot and it, and no other connection.
  pub rule_match-suffix :
      (suffix : Text) (s : State) (m : Metadata) {r : Rule}
      → parse_rule cidr (codes "DOMAIN-SUFFIX") suffix target params ≡ parsed r
      → ((rule_match w r s m).1 ≡ true) ↔ (
          (m.addr_type ≡ atyp_domain_name)
          × ((m.host ≡ to_lower suffix) ⊎ ((t : Text) × (m.host ≡ t ++ b'.' ∷ to_lower suffix))))
  unfolding parse_rule case_of parse_case new_domain_suffix new_domain_keyword plain_rule text_eq
      match_condition match_suffix
  rule_match-suffix suffix s m {r} h =
      subst
        (λ q. ((rule_match w q s m).1 ≡ true) ↔ (
          (m.addr_type ≡ atyp_domain_name)
          × ((m.host ≡ to_lower suffix) ⊎ ((t : Text) × (m.host ≡ t ++ b'.' ∷ to_lower suffix)))))
        (parsed_inj h)
        (and_iff (m.addr_type == atyp_domain_name) _ (==_iff m.addr_type atyp_domain_name) (
          or_swap (
            or_iff (has_suffix m.host (b'.' ∷ to_lower suffix)) _
              (has_suffix_iff m.host (b'.' ∷ to_lower suffix))
              (text_eq_iff m.host (to_lower suffix)))))

  -- A `DOMAIN-KEYWORD` rule matches a connection to a name that has the keyword in lower case
  -- somewhere in it, and no other connection.
  pub rule_match-keyword :
      (keyword : Text) (s : State) (m : Metadata) {r : Rule}
      → parse_rule cidr (codes "DOMAIN-KEYWORD") keyword target params ≡ parsed r
      → ((rule_match w r s m).1 ≡ true) ↔ (
          (m.addr_type ≡ atyp_domain_name)
          × ((t : Text) × (u : Text) × (m.host ≡ t ++ to_lower keyword ++ u)))
  unfolding parse_rule case_of parse_case new_domain_suffix new_domain_keyword plain_rule text_eq
      match_condition match_keyword
  rule_match-keyword keyword s m {r} h =
      subst
        (λ q. ((rule_match w q s m).1 ≡ true) ↔ (
          (m.addr_type ≡ atyp_domain_name)
          × ((t : Text) × (u : Text) × (m.host ≡ t ++ to_lower keyword ++ u))))
        (parsed_inj h)
        (and_iff (m.addr_type == atyp_domain_name) _ (==_iff m.addr_type atyp_domain_name)
          (contains_iff m.host (to_lower keyword)))
