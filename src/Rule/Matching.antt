-- ===== src/Rule/Matching.antt =====
-- The methods `Match` of the rules. `Process.Match` reads and writes the global `processCache`,
-- so each match takes and returns it. The database of countries and the search for a process are
-- arguments.
use rule_base_proxy.Common.{
  Bool, Eq, Option, Text, [], codes, false, if◌then◌else◌, is_some, length, ltb, none, some,
  text_eq, text_eq_iff, true, ℕ, ◌&&◌, ◌++◌, ◌==◌, ◌>>=◌, ◌||◌, ◌∷◌,
}
use rule_base_proxy.Net.{Ip}
use rule_base_proxy.Net.Networks.{contains_ip, is_private}
use rule_base_proxy.Net.Numbers.{Int64, atoi}
use rule_base_proxy.LruCache.Cache.{Cache, new_lru_cache, with_age, with_size, get, set}
use rule_base_proxy.Rule.Metadata.{Metadata, network_string, address_string, atyp_domain_name}
use rule_base_proxy.Rule.Strings.{has_suffix, contains, equal_fold}
use rule_base_proxy.Rule.Kinds.{
  Rule, IpCidr, Condition, domain_rule, domain_suffix_rule, domain_keyword_rule, geoip_rule,
  ip_cidr_rule, port_rule, process_rule, match_rule, all_ip_rule, domain_and_port_rule,
}

instance abbrev pub text_Eq : Eq Text
text_Eq = record { beq = text_eq; beq_iff = text_eq_iff }

-- The code that the rules call outside the repository: the country of an address, and the name
-- of the process behind a network, an address and a port (empty where the search fails).
pub record World : Type 0 where
  pub country : Ip → Text
  pub process_name : Text → Option Ip → Int64 → Text

-- `processCache`, and the clock in seconds, read as `now` by `Get` and as `later` by `Set`.
pub record State : Type 0 where
  pub now : ℕ
  pub later : ℕ
  pub processes : Cache Text Text

unfoldable pub new_process_cache : Cache Text Text
new_process_cache = new_lru_cache (with_age 2 ∷ with_size 64 ∷ [])

-- `MatchDomain`, of `DomainAndPort` and of `DomainSuffix`.
unfoldable pub match_suffix : Text → Metadata → Bool
match_suffix suffix m =
    m.addr_type == atyp_domain_name && (has_suffix m.host (b'.' ∷ suffix) || text_eq m.host suffix)

unfoldable pub match_domain : Text → Metadata → Bool
match_domain domain m = m.addr_type == atyp_domain_name && text_eq m.host domain

unfoldable pub match_keyword : Text → Metadata → Bool
match_keyword keyword m = m.addr_type == atyp_domain_name && contains m.host keyword

unfoldable pub match_port : Bool → Text → Metadata → Bool
match_port is_source port m = if is_source then text_eq m.src_port port else text_eq m.dst_port port

unfoldable pub match_domain_and_port : Text → Text → Bool → Metadata → Bool
match_domain_and_port domain port is_source m = match_port is_source port m && match_suffix domain m

unfoldable pub match_geoip : World → Text → Metadata → Bool
match_geoip w country m = elim m.dst_ip [
  | none ↦ false
  | some ip ↦
      if equal_fold country (codes "LAN") then is_private ip else equal_fold (w.country ip) country
]

unfoldable pub match_ip_cidr : IpCidr → Metadata → Bool
match_ip_cidr i m = elim (if i.is_source_ip then m.src_ip else m.dst_ip) [
  | none ↦ false
  | some ip ↦
      if i.is_with_port
      then contains_ip i.ipnet ip && text_eq m.dst_port i.port
      else contains_ip i.ipnet ip
]

unfoldable pub match_all_ip : Metadata → Bool
match_all_ip m = if ltb 1 (length m.host) then false else is_some m.dst_ip || is_some m.src_ip

-- `fmt.Sprintf("%s:%s:%s", ...)`
unfoldable pub process_key : Metadata → Text
process_key m = network_string m.network ++ b':' ∷ address_string m.src_ip ++ b':' ∷ m.src_port

-- The name that a miss stores, or none when the port is no number.
unfoldable pub found_process : World → Metadata → Option Text
found_process w m =
    atoi m.src_port >>= λ port. some (w.process_name (network_string m.network) m.src_ip port)

unfoldable pub match_process : World → Text → State → Metadata → State × Bool
match_process w process s m =
    let key = process_key m in
    let looked = get s.now s.now s.processes key in
    elim looked.1 [
      | some cached ↦ (record s { processes = looked.0 }, equal_fold cached process)
      | none ↦ elim (found_process w m) [
        | none ↦ (record s { processes = set s.now s.later looked.0 key [] }, false)
        | some name ↦
            (record s { processes = set s.now s.later looked.0 key name }, equal_fold name process)
      ]
    ]

-- `rule.Match(metadata)`
unfoldable pub match_condition : World → Condition → State → Metadata → State × Bool
match_condition w c s m = elim c [
  | domain_rule domain ↦ (s, match_domain domain m)
  | domain_suffix_rule suffix ↦ (s, match_suffix suffix m)
  | domain_keyword_rule keyword ↦ (s, match_keyword keyword m)
  | geoip_rule country no_resolve ↦ (s, match_geoip w country m)
  | ip_cidr_rule i ↦ (s, match_ip_cidr i m)
  | port_rule port is_source ↦ (s, match_port is_source port m)
  | process_rule process ↦ match_process w process s m
  | match_rule ↦ (s, true)
  | all_ip_rule ↦ (s, match_all_ip m)
  | domain_and_port_rule domain port is_source ↦ (s, match_domain_and_port domain port is_source m)
]

abbrev pub rule_match : World → Rule → State → Metadata → State × Bool
rule_match w r s m = match_condition w r.condition s m
