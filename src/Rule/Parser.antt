-- ===== src/Rule/Parser.antt =====
-- `ParseRule` of rule/parser.go and the constructors that it calls. `net.ParseCIDR` is an
-- argument: the network that a text stands for, or none.
use rule_base_proxy.Common.{
  Bool, List, Option, Text, [], codes, false, if◌then◌else◌, none, some, text_eq, to_lower, true,
  ◌||◌, ◌∷◌, ◌≡◌,
}
use rule_base_proxy.Net.Networks.{IpNet}
use rule_base_proxy.Net.Numbers.{atoi}
use rule_base_proxy.Rule.Kinds.{
  Rule, IpCidr, Condition, domain_rule, domain_suffix_rule, domain_keyword_rule, geoip_rule,
  ip_cidr_rule, port_rule, process_rule, match_rule, all_ip_rule, domain_and_port_rule,
}

pub data RuleError : Type 0 where
  payload_error : RuleError
  unsupported_rule_type : Text → RuleError

-- What `ParseRule` comes to: a rule, an error, a rule that is a nil pointer in an interface that
-- is not nil, with no error, or the panic of an index out of range.
pub data Outcome : Type 0 where
  parsed : Rule → Outcome
  parse_error : RuleError → Outcome
  nil_pointer : Outcome
  index_panic : Outcome

unfoldable pub has_param : Text → List Text → Bool
has_param name [] = false
has_param name (p ∷ ps) = text_eq p name || has_param name ps

abbrev pub has_no_resolve : List Text → Bool
has_no_resolve = has_param (codes "no-resolve")

abbrev pub has_multi_domain_dial_ip : List Text → Bool
has_multi_domain_dial_ip = has_param (codes "dial-ip")

-- `NewIPCIDR`, with its options applied.
unfoldable pub new_ip_cidr : (Text → Option IpNet) → Text → Text → Bool → (IpNet → IpCidr) → Outcome
new_ip_cidr parse_cidr s target multi options = elim (parse_cidr s) [
  | none ↦ parse_error payload_error
  | some n ↦ parsed (record {
    condition = ip_cidr_rule (options n);
    adapter = target;
    multi_domain_dial_ip = multi;
  })
]

-- `WithIPCIDRNoResolve`
unfoldable pub with_no_resolve : Bool → IpNet → IpCidr
with_no_resolve no_resolve n = record {
  ipnet = n;
  is_source_ip = false;
  no_resolve_ip = no_resolve;
  is_with_port = false;
  port = [];
}

-- `WithIPCIDRSourceIP(true), WithIPCIDRNoResolve(true)`
unfoldable pub with_source_ip : IpNet → IpCidr
unfolding with_no_resolve
with_source_ip n = record (with_no_resolve true n) { is_source_ip = true }

-- `WithDstPort(port), WithIPCIDRNoResolve(true)`
unfoldable pub with_dst_port : Text → IpNet → IpCidr
unfolding with_no_resolve
with_dst_port port n = record (with_no_resolve true n) { is_with_port = true; port = port }

unfoldable pub new_port : Text → Text → Bool → Bool → Outcome
new_port port target is_source multi = elim (atoi port) [
  | none ↦ parse_error payload_error
  | some n ↦ parsed (record {
    condition = port_rule port is_source;
    adapter = target;
    multi_domain_dial_ip = multi;
  })
]

-- `NewDomainAndPort`, whose nil becomes an interface that is not nil.
unfoldable pub new_domain_and_port : Text → Text → Text → Bool → Bool → Outcome
new_domain_and_port domain target port is_source multi = elim (atoi port) [
  | none ↦ nil_pointer
  | some n ↦ parsed (record {
    condition = domain_and_port_rule (to_lower domain) port is_source;
    adapter = target;
    multi_domain_dial_ip = multi;
  })
]

-- `params[0]`
unfoldable pub with_first_param : List Text → (Text → Outcome) → Outcome
with_first_param [] k = index_panic
with_first_param (p ∷ ps) k = k p

-- The cases of `ParseRule`'s switch, with `IP-CIDR` and `IP-CIDR6` in one.
pub data Case : Type 0 where
  domain_case domain_suffix_case domain_keyword_case geoip_case ip_cidr_case : Case
  src_ip_cidr_case dst_ip_port_case src_port_case dst_port_case process_case : Case
  match_case all_ip_case domain_src_port_case domain_dst_port_case : Case

-- The labels of the switch, in its order.
abbrev pub labels : List (Text × Case)
labels =
    (codes "DOMAIN", domain_case)
    ∷ (codes "DOMAIN-SUFFIX", domain_suffix_case)
    ∷ (codes "DOMAIN-KEYWORD", domain_keyword_case)
    ∷ (codes "GEOIP", geoip_case)
    ∷ (codes "IP-CIDR", ip_cidr_case)
    ∷ (codes "IP-CIDR6", ip_cidr_case)
    ∷ (codes "SRC-IP-CIDR", src_ip_cidr_case)
    ∷ (codes "DST-IP-PORT", dst_ip_port_case)
    ∷ (codes "SRC-PORT", src_port_case)
    ∷ (codes "DST-PORT", dst_port_case)
    ∷ (codes "PROCESS-NAME", process_case)
    ∷ (codes "MATCH", match_case)
    ∷ (codes "ALLIP", all_ip_case)
    ∷ (codes "DOMAIN-SRC-PORT", domain_src_port_case)
    ∷ (codes "DOMAIN-DST-PORT", domain_dst_port_case)
    ∷ []

-- The case whose label is `tp`.
unfoldable pub case_of : Text → List (Text × Case) → Option Case
case_of tp [] = none
case_of tp ((label, c) ∷ rest) = if text_eq tp label then some c else case_of tp rest

unfoldable pub plain_rule : Condition → Text → Bool → Outcome
plain_rule c target multi =
    parsed (record { condition = c; adapter = target; multi_domain_dial_ip = multi })

unfoldable pub new_domain : Text → Text → Bool → Outcome
unfolding plain_rule
new_domain domain target multi = plain_rule (domain_rule (to_lower domain)) target multi

unfoldable pub new_domain_suffix : Text → Text → Bool → Outcome
unfolding plain_rule
new_domain_suffix suffix target multi =
    plain_rule (domain_suffix_rule (to_lower suffix)) target multi

unfoldable pub new_domain_keyword : Text → Text → Bool → Outcome
unfolding plain_rule
new_domain_keyword keyword target multi =
    plain_rule (domain_keyword_rule (to_lower keyword)) target multi

unfoldable pub new_geoip : Text → Text → Bool → Bool → Outcome
unfolding plain_rule
new_geoip country target no_resolve multi = plain_rule (geoip_rule country no_resolve) target multi

unfoldable pub new_process : Text → Text → Bool → Outcome
unfolding plain_rule
new_process process target multi = plain_rule (process_rule process) target multi

unfoldable pub new_match : Text → Bool → Outcome
unfolding plain_rule
new_match target multi = plain_rule match_rule target multi

unfoldable pub new_all_ip : Text → Bool → Outcome
unfolding plain_rule
new_all_ip target multi = plain_rule all_ip_rule target multi

-- The body of each case.
unfoldable pub parse_case : (Text → Option IpNet) → Case → Text → Text → List Text → Bool → Outcome
unfolding new_domain new_domain_suffix new_domain_keyword new_geoip new_process new_match new_all_ip
parse_case cidr c payload target params multi = elim c [
  | domain_case ↦ new_domain payload target multi
  | domain_suffix_case ↦ new_domain_suffix payload target multi
  | domain_keyword_case ↦ new_domain_keyword payload target multi
  | geoip_case ↦ new_geoip payload target (has_no_resolve params) multi
  | ip_cidr_case ↦ new_ip_cidr cidr payload target multi (with_no_resolve (has_no_resolve params))
  | src_ip_cidr_case ↦ new_ip_cidr cidr payload target multi with_source_ip
  | dst_ip_port_case ↦
      with_first_param params (λ p. new_ip_cidr cidr payload target multi (with_dst_port p))
  | src_port_case ↦ new_port payload target true multi
  | dst_port_case ↦ new_port payload target false multi
  | process_case ↦ new_process payload target multi
  | match_case ↦ new_match target multi
  | all_ip_case ↦ new_all_ip target multi
  | domain_src_port_case ↦
      with_first_param params (λ p. new_domain_and_port payload target p true multi)
  | domain_dst_port_case ↦
      with_first_param params (λ p. new_domain_and_port payload target p false multi)
]

-- `ParseRule`
unfoldable pub parse_rule : (Text → Option IpNet) → Text → Text → Text → List Text → Outcome
parse_rule cidr tp payload target params = elim (case_of tp labels) [
  | none ↦ parse_error (unsupported_rule_type tp)
  | some c ↦ parse_case cidr c payload target params (has_multi_domain_dial_ip params)
]

pub parsed_inj : {q r : Rule} → parsed q ≡ parsed r → q ≡ r
parsed_inj h = cc
