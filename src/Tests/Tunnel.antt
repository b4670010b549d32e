-- ===== src/Tests/Tunnel.antt =====
-- The choice of a rule (tunnel) in a small configuration.
use rule_base_proxy.Common.{
  List, Option, Text, [], arith, codes, false, get_or_else, if◌then◌else◌, inr, none, refl, some,
  text_eq, text_eq_refl, to_lower, true, ◌∷◌, ◌≡◌,
}
use rule_base_proxy.Net.{Ip}
use rule_base_proxy.Trie.Domain.{
  split_dot, ends_with_dot, has_empty, check_parts, valid_and_split_domain,
}
use rule_base_proxy.Trie.Node.{
  Node, search_domain, search_parts, search_path, find_child, put_child, get_child, has_child,
  add_child, new_node, insert_path, insert_parts, insert_domain_parts, insert, new_trie,
}
use rule_base_proxy.Rule.Metadata.{Metadata, udp, type_http, atyp_domain_name}
use rule_base_proxy.Rule.Kinds.{
  Rule, Condition, geoip_rule, match_rule, port_rule, should_resolve_ip,
}
use rule_base_proxy.Rule.Strings.{equal_fold, contains, has_prefix}
use rule_base_proxy.Rule.Matching.{
  World, State, match_condition, match_geoip, match_port, new_process_cache,
}
use rule_base_proxy.Tunnel.Dispatch.{
  Proxy, Hosts, Config, proxy_of, wants_ip, fill_dst_ip, resolve_into, usable, match_rules,
  match_metadata, from_hosts,
}
use rule_base_proxy.Tunnel.Selection.{in_two_phases, match_rules-in_two_phases}
use rule_base_proxy.Tunnel.Choice.{IsSound, match_rules-IsSound}
use rule_base_proxy.Tunnel.RuleCache.{
  Lru, Cached, rule_value, Answer, network_fits, match_hash_map, match_and_cache,
  match_cached_proxy, rule_key,
}
use rule_base_proxy.Trie.Store.{path_eq}
use rule_base_proxy.Config.Hosts.{
  trim_space_left, trim_space_right, entry_ips, ip_texts, insert_entry, parse_entries, parse_hosts,
}
use rule_base_proxy.Config.Localhost.{writes_localhost, is_localhost, parse_hosts-match_metadata}
use rule_base_proxy.Tunnel.Sticky.{IsLru, match_hash_map-match_hash_map}
use rule_base_proxy.Tunnel.Modes.{global, parse_mode, mode_string, parse_mode-mode_string}

program : Unit {0}
unfolding path_eq trim_space_left trim_space_right entry_ips ip_texts insert_entry parse_entries
    parse_hosts writes_localhost is_localhost contains has_prefix split_dot ends_with_dot has_empty
    check_parts valid_and_split_domain find_child put_child get_child has_child add_child new_node
    insert_path insert_parts insert_domain_parts insert new_trie equal_fold should_resolve_ip
    match_condition match_geoip match_port proxy_of wants_ip fill_dst_ip resolve_into usable
    match_rules network_fits search_domain search_parts search_path match_hash_map
    match_cached_proxy match_and_cache match_metadata from_hosts mode_string text_eq to_lower
program = tt

abbrev visit : Metadata
visit = record {
  network = udp;
  kind = type_http;
  src_ip = some (127 ∷ 0 ∷ 0 ∷ 1 ∷ []);
  dst_ip = none;
  src_port = codes "4000";
  dst_port = codes "443";
  addr_type = atyp_domain_name;
  host = codes "localhost";
}

abbrev world : World
world = record { country = λ ip. codes "NL"; process_name = λ n ip p. [] }

abbrev state : State
state = record { now = 10; later = 10; processes = new_process_cache }

abbrev to_proxy : Condition → Text → Rule
to_proxy c adapter = record { condition = c; adapter = adapter; multi_domain_dial_ip = false }

-- The first adapter does no UDP.
abbrev proxies : List (Text × Proxy)
proxies =
    (codes "old", record { name = codes "old"; support_udp = false })
    ∷ (codes "new", record { name = codes "new"; support_udp = true })
    ∷ []

abbrev rules : List Rule
rules =
    to_proxy (port_rule (codes "4001") true) (codes "new")
    ∷ to_proxy match_rule (codes "old")
    ∷ to_proxy (geoip_rule (codes "nl") false) (codes "new")
    ∷ []

abbrev resolve : Text → Option Ip
resolve host = some (1 ∷ 2 ∷ 3 ∷ 4 ∷ [])

match_rules-in_two_phases_example :
    match_rules resolve world proxies false visit state rules
    ≡ in_two_phases world proxies resolve visit state rules
match_rules-in_two_phases_example =
    match_rules-in_two_phases world proxies resolve visit state rules

abbrev chosen : Rule
chosen = to_proxy (geoip_rule (codes "nl") false) (codes "new")

match_rules-IsSound_example :
    IsSound world proxies
      (match_rules resolve world proxies false visit state rules).metadata
      rules
      (record { name = codes "new"; support_udp = true })
      chosen
unfolding program
match_rules-IsSound_example = match_rules-IsSound resolve world proxies false visit state rules refl

abbrev empty_hosts : Node Hosts
empty_hosts = new_trie

abbrev one_one : Text → Option Ip
one_one s = some (1 ∷ 1 ∷ 1 ∷ 1 ∷ [])

abbrev entries : List (Text × Text)
entries = (codes "go.dev", codes "1.1.1.1") ∷ []

abbrev config : Config
config = record {
  rules = rules;
  proxies = proxies;
  hosts = get_or_else (parse_hosts one_one entries) empty_hosts;
}

parse_hosts-match_metadata_example : match_metadata resolve world config visit state ≡ none
unfolding program
parse_hosts-match_metadata_example =
    parse_hosts-match_metadata one_one resolve world config entries visit state refl (refl, tt) refl

-- A cache without a bound, as the list of its entries.
abbrev Store : Type 0
Store = List (Text × Cached)

abbrev get_from : Store → Text → Option Cached
get_from [] key = none
get_from ((k, x) ∷ l) key = if text_eq k key then some x else get_from l key

abbrev store : Lru Store
store = record { get_value = λ c k. (c, get_from c k); add = λ c k x. (k, x) ∷ c }

store-IsLru : IsLru store
store-IsLru = record { added = λ c k x. ground (arith, text_eq_refl k); kept = λ c k k'. refl }

abbrev dialled : Metadata
dialled = record visit { dst_ip = some (1 ∷ 2 ∷ 3 ∷ 4 ∷ []); host = codes "example.com" }

abbrev first : Answer Store
first = record {
  metadata = dialled;
  state = state;
  cache = (rule_key dialled, rule_value chosen) ∷ [];
  adapter = some (record { name = codes "new"; support_udp = true });
  rule = some chosen;
}

first_run : match_hash_map store resolve world config dialled state [] ≡ some first
unfolding program
first_run = refl

-- From port 4001 the first rule of the list is not taken, since the last was cached.
match_hash_map-match_hash_map_example :
    (b : Answer Store) × (match_hash_map store resolve world config
        (record dialled { src_port = codes "4001" })
        state
        first.cache
      ≡ some b)
    × (b.rule ≡ some chosen)
    × (b.adapter ≡ first.adapter)
    × (b.metadata ≡ record dialled { src_port = codes "4001" })
unfolding program
match_hash_map-match_hash_map_example =
    match_hash_map-match_hash_map store store-IsLru resolve world config dialled (inr refl) state
      state [] (codes "4001") first_run refl refl

global_mode : parse_mode (codes "Global") ≡ some global
unfolding program
global_mode = parse_mode-mode_string global (codes "Global") refl
