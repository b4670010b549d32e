-- ===== src/Rule/Kinds.antt =====
-- The rules of the package rule, and `RuleType` of constant/rule.go.
use rule_base_proxy.Common.{Bool, Text, [], codes, false, if◌then◌else◌, not, ◌++◌, ◌∷◌}
use rule_base_proxy.Net.Networks.{IpNet, ip_net_string}

pub data RuleType : Type 0 where
  domain domain_suffix domain_keyword geoip ip_cidr src_ip_cidr : RuleType
  src_port dst_port process match_all all_ip : RuleType
  domain_dst_port domain_src_port dst_ip_port : RuleType

-- `RuleType.String`
unfoldable pub rule_type_string : RuleType → Text
rule_type_string domain = codes "DOMAIN"
rule_type_string domain_suffix = codes "DOMAIN-SUFFIX"
rule_type_string domain_keyword = codes "DOMAIN-KEYWORD"
rule_type_string geoip = codes "GEOIP"
rule_type_string ip_cidr = codes "IP-CIDR"
rule_type_string src_ip_cidr = codes "SRC-IP-CIDR"
rule_type_string src_port = codes "SRC-PORT"
rule_type_string dst_port = codes "DST-PORT"
rule_type_string process = codes "PROCESS-NAME"
rule_type_string match_all = codes "MATCH"
rule_type_string all_ip = codes "ALLIP"
rule_type_string domain_dst_port = codes "DOMAIN-SRC-PORT"
rule_type_string domain_src_port = codes "DOMAIN-DST-PORT"
rule_type_string dst_ip_port = codes "DST-IP-PORT"

-- The structs that implement `Rule`, less the fields that all have.
pub record IpCidr : Type 0 where
  pub ipnet : IpNet
  pub is_source_ip : Bool
  pub no_resolve_ip : Bool
  pub is_with_port : Bool
  pub port : Text

pub data Condition : Type 0 where
  domain_rule : (domain : Text) → Condition
  domain_suffix_rule : (suffix : Text) → Condition
  domain_keyword_rule : (keyword : Text) → Condition
  geoip_rule : (country : Text) (no_resolve_ip : Bool) → Condition
  ip_cidr_rule : IpCidr → Condition
  port_rule : (port : Text) (is_source : Bool) → Condition
  process_rule : (process : Text) → Condition
  match_rule : Condition
  all_ip_rule : Condition
  domain_and_port_rule : (domain port : Text) (is_source : Bool) → Condition

-- Each struct has its adapter and the flag `multiDomainDialip`.
pub record Rule : Type 0 where
  pub condition : Condition
  pub adapter : Text
  pub multi_domain_dial_ip : Bool

-- The methods `RuleType`.
unfoldable pub rule_type : Rule → RuleType
rule_type r = elim r.condition [
  | domain_rule d ↦ domain
  | domain_suffix_rule s ↦ domain_suffix
  | domain_keyword_rule k ↦ domain_keyword
  | geoip_rule c n ↦ geoip
  | ip_cidr_rule i ↦
      if i.is_with_port then dst_ip_port else if i.is_source_ip then src_ip_cidr else ip_cidr
  | port_rule p is_source ↦ if is_source then src_port else dst_port
  | process_rule p ↦ process
  | match_rule ↦ match_all
  | all_ip_rule ↦ all_ip
  | domain_and_port_rule d p is_source ↦ if is_source then domain_src_port else domain_dst_port
]

-- The methods `Payload`.
unfoldable pub payload : Rule → Text
payload r = elim r.condition [
  | domain_rule d ↦ d
  | domain_suffix_rule s ↦ s
  | domain_keyword_rule k ↦ k
  | geoip_rule c n ↦ c
  | ip_cidr_rule i ↦
      if i.is_with_port
      then ip_net_string i.ipnet ++ codes " port: " ++ i.port
      else ip_net_string i.ipnet
  | port_rule p is_source ↦ p
  | process_rule p ↦ p
  | match_rule ↦ []
  | all_ip_rule ↦ []
  | domain_and_port_rule d p is_source ↦ d ++ b',' ∷ p
]

-- The methods `ShouldResolveIP`.
unfoldable pub should_resolve_ip : Rule → Bool
should_resolve_ip r = elim r.condition [
  | geoip_rule c no_resolve ↦ not no_resolve
  | ip_cidr_rule i ↦ not i.no_resolve_ip
  | _ ↦ false
]
