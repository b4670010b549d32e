-- ===== src/Rule/Faults.antt =====
-- When `ParseRule` (rule/parser.go) panics, and when it returns a nil pointer with no error.
use rule_base_proxy.Common.{
  All, Bool, List, Option, Option-cases, Text, [], arith, codes, false, inl, inr, is_some, none,
  not, refl, text_eq, true, ◌&&◌, ◌||◌, ◌∷◌, ◌≡◌,
}
use rule_base_proxy.Net.Networks.{IpNet}
use rule_base_proxy.Net.Numbers.{atoi}
use rule_base_proxy.Rule.Kinds.{IpCidr}
use rule_base_proxy.Rule.Parser.{
  new_domain, new_domain_suffix, new_domain_keyword, new_geoip, new_process, new_match, new_all_ip,
  Outcome, nil_pointer, index_panic, Case, case_of, labels, parse_case, parse_rule,
  has_multi_domain_dial_ip, new_ip_cidr, new_port, new_domain_and_port, with_first_param,
  plain_rule, dst_ip_port_case, domain_src_port_case, domain_dst_port_case, ip_cidr_case,
  src_ip_cidr_case, src_port_case, dst_port_case,
}
use rule_base_proxy.Rule.Outcomes.{case_of-All}

abbrev pub panics : Outcome → Bool
panics index_panic = true
panics _ = false

abbrev pub is_nil : Outcome → Bool
is_nil nil_pointer = true
is_nil _ = false

-- The rule types that take a port as their first parameter.
unfoldable pub is_domain_port : Text → Bool
is_domain_port tp = text_eq tp (codes "DOMAIN-SRC-PORT") || text_eq tp (codes "DOMAIN-DST-PORT")

unfoldable pub takes_port : Text → Bool
takes_port tp = text_eq tp (codes "DST-IP-PORT") || is_domain_port tp

abbrev pub is_empty : List Text → Bool
is_empty [] = true
is_empty (p ∷ ps) = false

-- There is a first parameter and it is no number.
unfoldable pub starts_badly : List Text → Bool
starts_badly [] = false
starts_badly (p ∷ ps) = not (is_some (atoi p))

abbrev is_domain_port_case : Case → Bool
is_domain_port_case domain_src_port_case = true
is_domain_port_case domain_dst_port_case = true
is_domain_port_case _ = false

abbrev takes_port_case : Case → Bool
takes_port_case dst_ip_port_case = true
takes_port_case c = is_domain_port_case c

new_ip_cidr_lem :
    (cidr : Text → Option IpNet) (s target : Text) (multi : Bool) (o : IpNet → IpCidr)
    → (panics (new_ip_cidr cidr s target multi o) ≡ false)
      × (is_nil (new_ip_cidr cidr s target multi o) ≡ false)
unfolding new_ip_cidr
new_ip_cidr_lem cidr s target multi o = ground arith

new_port_lem :
    (port target : Text) (is_source multi : Bool)
    → (panics (new_port port target is_source multi) ≡ false)
      × (is_nil (new_port port target is_source multi) ≡ false)
unfolding new_port
new_port_lem port target is_source multi = ground arith

new_domain_and_port_lem :
    (domain target port : Text) (is_source multi : Bool)
    → (panics (new_domain_and_port domain target port is_source multi) ≡ false)
      × (is_nil (new_domain_and_port domain target port is_source multi)
          ≡ not (is_some (atoi port)))
unfolding new_domain_and_port
new_domain_and_port_lem domain target port is_source multi = ground arith

parse_case_lem :
    (cidr : Text → Option IpNet) (c : Case) (payload target : Text) (params : List Text)
    (multi : Bool)
    → (panics (parse_case cidr c payload target params multi)
        ≡ (takes_port_case c && is_empty params))
      × (is_nil (parse_case cidr c payload target params multi)
          ≡ (is_domain_port_case c && starts_badly params))
unfolding parse_case new_domain new_domain_suffix new_domain_keyword new_geoip new_process new_match
    new_all_ip plain_rule with_first_param starts_badly
parse_case_lem cidr ip_cidr_case payload target params multi =
    new_ip_cidr_lem cidr payload target multi _
parse_case_lem cidr src_ip_cidr_case payload target params multi =
    new_ip_cidr_lem cidr payload target multi _
parse_case_lem cidr src_port_case payload target params multi =
    new_port_lem payload target true multi
parse_case_lem cidr dst_port_case payload target params multi =
    new_port_lem payload target false multi
parse_case_lem cidr dst_ip_port_case payload target [] multi = (refl, refl)
parse_case_lem cidr dst_ip_port_case payload target (p ∷ ps) multi =
    new_ip_cidr_lem cidr payload target multi _
parse_case_lem cidr domain_src_port_case payload target [] multi = (refl, refl)
parse_case_lem cidr domain_src_port_case payload target (p ∷ ps) multi =
    new_domain_and_port_lem payload target p true multi
parse_case_lem cidr domain_dst_port_case payload target [] multi = (refl, refl)
parse_case_lem cidr domain_dst_port_case payload target (p ∷ ps) multi =
    new_domain_and_port_lem payload target p false multi
parse_case_lem cidr _ payload target params multi = (refl, refl)

labels_lem :
    All
      (λ l. (takes_port_case l.1 ≡ takes_port l.0) × (is_domain_port_case l.1 ≡ is_domain_port l.0))
      labels
unfolding takes_port is_domain_port text_eq
labels_lem = ground arith

-- A type that is no label takes no port.
unlabelled :
    (tp : Text) → case_of tp labels ≡ none → (takes_port tp ≡ false) × (is_domain_port tp ≡ false)
unfolding case_of takes_port is_domain_port
unlabelled tp h = ground arith

-- `ParseRule` panics exactly when the type takes a port and there is no parameter, and it returns
-- a nil pointer as a rule, and no error, exactly when the type is `DOMAIN-SRC-PORT` or
-- `DOMAIN-DST-PORT` and the first parameter is not a number.
pub parse_rule-panics :
    (cidr : Text → Option IpNet) (tp payload target : Text) (params : List Text)
    → (panics (parse_rule cidr tp payload target params) ≡ (takes_port tp && is_empty params))
      × (is_nil (parse_rule cidr tp payload target params)
          ≡ (is_domain_port tp && starts_badly params))
unfolding parse_rule
parse_rule-panics cidr tp payload target params = elim (Option-cases (case_of tp labels)) [
  | inl none_such ↦ ground (arith, unlabelled tp none_such)
  | inr (c, found) ↦
      let (takes, domain) =
        case_of-All
          (λ l d. (takes_port_case d ≡ takes_port l) × (is_domain_port_case d ≡ is_domain_port l))
          tp labels labels_lem found in
      let same = parse_case_lem cidr c payload target params (has_multi_domain_dial_ip params) in
      ground (arith)
]
