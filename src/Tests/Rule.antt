-- ===== src/Tests/Rule.antt =====
-- The rules (rule, constant) on small configurations.
use rule_base_proxy.Common.{
  Option, Text, [], arith, codes, false, none, refl, some, text_eq, to_lower, true, ◌&&◌, ◌∷◌, ◌≡◌,
}
use rule_base_proxy.Net.{to4}
use rule_base_proxy.Net.Networks.{
  IpNet, contains_ip, same_prefix, network_number, is_private, is_private4, is_private6,
}
use rule_base_proxy.Net.Numbers.{
  digit, digits, itoa, digits_value, unsigned_value, atoi_signed, atoi,
}
use rule_base_proxy.Net.Printing.{
  dotted, groups, zeros, longest_run, colons, ip6_string, hex, ip_string,
}
use rule_base_proxy.LruCache.Cache.{
  apply_setting, apply_settings, new_lru_cache, with_age, with_size,
}
use rule_base_proxy.LruCache.Making.{new_lru_cache-IsValid}
use rule_base_proxy.Rule.Metadata.{
  Metadata, tcp, type_http, atyp_domain_name, info_key, address_string, type_string, network_string,
  remote_address, join_host_port, has_byte, metadata_string,
}
use rule_base_proxy.Rule.Strings.{has_prefix, has_suffix, contains, equal_fold}
use rule_base_proxy.Rule.Kinds.{
  Rule, domain_suffix_rule, domain_keyword_rule, domain_and_port_rule, rule_type, rule_type_string,
  payload,
}
use rule_base_proxy.Rule.Parser.{
  new_domain_suffix, new_domain_keyword, case_of, parse_case, plain_rule, parse_rule,
  new_domain_and_port, with_first_param, has_param, has_multi_domain_dial_ip,
}
use rule_base_proxy.Rule.Matching.{
  World, State, match_condition, match_suffix, rule_match, new_process_cache, text_Eq,
}
use rule_base_proxy.Rule.Outcomes.{reported, parse_rule-reported}
use rule_base_proxy.Rule.Faults.{
  panics, is_nil, takes_port, is_domain_port, is_empty, starts_badly, parse_rule-panics,
}
use rule_base_proxy.Rule.Hosts.{rule_match-keyword}
use rule_base_proxy.Rule.Processes.{IsReady}

program : Unit {0}
unfolding to4 new_domain_suffix new_domain_keyword contains_ip same_prefix network_number is_private
    is_private4 is_private6 digit digits itoa digits_value unsigned_value atoi_signed atoi dotted
    groups zeros longest_run colons ip6_string hex ip_string apply_setting apply_settings
    new_lru_cache info_key address_string type_string network_string remote_address join_host_port
    has_byte metadata_string has_prefix has_suffix contains equal_fold rule_type rule_type_string
    case_of parse_case plain_rule parse_rule new_domain_and_port with_first_param has_param
    match_condition match_suffix new_process_cache text_eq to_lower payload
program = tt

printing :
    (ip_string (192 ∷ 168 ∷ 0 ∷ 1 ∷ []) ≡ codes "192.168.0.1")
    × (ip_string (32 ∷ 1 ∷ 13 ∷ 184 ∷ 0 ∷ 0 ∷ 0 ∷ 0 ∷ 0 ∷ 0 ∷ 0 ∷ 0 ∷ 0 ∷ 0 ∷ 0 ∷ 1 ∷ [])
        ≡ codes "2001:db8::1")
unfolding program
printing = (refl, refl)

networks :
    (contains_ip
        (record { base = 10 ∷ 1 ∷ 0 ∷ 0 ∷ []; ones = 12; bits = 32 })
        (10 ∷ 15 ∷ 3 ∷ 4 ∷ [])
      ≡ true)
    × (contains_ip
          (record { base = 10 ∷ 1 ∷ 0 ∷ 0 ∷ []; ones = 12; bits = 32 })
          (10 ∷ 16 ∷ 3 ∷ 4 ∷ [])
        ≡ false)
    × (is_private (172 ∷ 31 ∷ 0 ∷ 1 ∷ []) ≡ true)
    × (is_private (172 ∷ 32 ∷ 0 ∷ 1 ∷ []) ≡ false)
unfolding program
networks = (refl, refl, refl, refl)

abbrev pub visit : Metadata
visit = record {
  network = tcp;
  kind = type_http;
  src_ip = some (127 ∷ 0 ∷ 0 ∷ 1 ∷ []);
  dst_ip = none;
  src_port = codes "4000";
  dst_port = codes "443";
  addr_type = atyp_domain_name;
  host = codes "www.example.com";
}

abbrev no_cidr : Text → Option IpNet
no_cidr s = none

abbrev world : World
world = record { country = λ ip. codes "NL"; process_name = λ n ip p. codes "curl" }

abbrev state : State
state = record { now = 10; later = 11; processes = new_process_cache }

abbrev swapped : Rule
swapped = record {
  condition = domain_and_port_rule (codes "a.com") (codes "80") true;
  adapter = codes "DIRECT";
  multi_domain_dial_ip = false;
}

-- A rule on a source port is shown as one on a destination port.
parse_rule-reported_example :
    (rule_type_string (rule_type swapped) ≡ reported (codes "DOMAIN-SRC-PORT"))
    × (swapped.adapter ≡ codes "DIRECT")
    × (swapped.multi_domain_dial_ip ≡ has_multi_domain_dial_ip (codes "80" ∷ []))
unfolding program
parse_rule-reported_example =
    parse_rule-reported no_cidr (codes "DOMAIN-SRC-PORT") (codes "A.com") (codes "DIRECT")
      (codes "80" ∷ []) refl

parse_rule-panics_example :
    (panics (parse_rule no_cidr (codes "DST-IP-PORT") (codes "1.1.1.1/32") (codes "DIRECT") [])
      ≡ (takes_port (codes "DST-IP-PORT") && is_empty []))
    × (is_nil (parse_rule no_cidr (codes "DST-IP-PORT") (codes "1.1.1.1/32") (codes "DIRECT") [])
        ≡ (is_domain_port (codes "DST-IP-PORT") && starts_badly []))
parse_rule-panics_example =
    parse_rule-panics no_cidr (codes "DST-IP-PORT") (codes "1.1.1.1/32") (codes "DIRECT") []

abbrev suffix : Rule
suffix = record {
  condition = domain_suffix_rule (codes "example.com");
  adapter = codes "DIRECT";
  multi_domain_dial_ip = false;
}

abbrev keyword : Rule
keyword = record {
  condition = domain_keyword_rule (codes "exam");
  adapter = codes "DIRECT";
  multi_domain_dial_ip = false;
}

state-IsReady : IsReady state
unfolding program
state-IsReady = record {
  valid = new_lru_cache-IsValid (with_age 2 ∷ with_size 64 ∷ []);
  fixed = refl;
  age = refl;
  soon = omega arith;
}

-- A keyword in another case than the rule's, as `ParseRule` lowers it.
keyword_matches : (rule_match world keyword state visit).1 ≡ true
unfolding program
keyword_matches =
    (rule_match-keyword no_cidr world (codes "DIRECT") [] (codes "EXAM") state visit {r = keyword}
        refl).1
      (refl, (codes "www.", codes "ple.com", refl))
