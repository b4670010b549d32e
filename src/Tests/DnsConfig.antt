-- ===== src/Tests/DnsConfig.antt =====
-- A configuration of the DNS server.
use rule_base_proxy.Common.{
  Option, Text, [], codes, drop, false, if◌then◌else◌, length, none, refl, some, text_eq, to_lower,
  true, ◌++◌, ◌<◌, ◌==◌, ◌∷◌, ◌≡◌,
}
use rule_base_proxy.Net.{Ip}
use rule_base_proxy.Rule.Strings.{contains, has_prefix}
use rule_base_proxy.Trie.Domain.{
  split_dot, ends_with_dot, has_empty, check_parts, valid_and_split_domain,
}
use rule_base_proxy.Trie.Node.{Node, new_node, new_trie}
use rule_base_proxy.FakeIp.Address.{ip_to_uint}
use rule_base_proxy.FakeIp.Pool.{new_pool, total_of}
use rule_base_proxy.Dns.Enhancer.{fake_ip}
use rule_base_proxy.Socks4.Handshake.{join_host_port}
use rule_base_proxy.Tunnel.Dispatch.{Hosts}
use rule_base_proxy.Config.NameServers.{
  NameServer, NetLib, valid, invalid, default_not_ip, host_with_default_port, server_of,
  parse_server, parse_servers, parse_name_server_policy, parse_fallback_ip_cidr,
}
use rule_base_proxy.Config.DnsSetup.{
  RawDns, Dns, insert_filters, all_ip, parse_pool, finish_dns, parse_dns,
}
use rule_base_proxy.Config.DnsChecks.{IsFinished, parse_dns-IsFinished}

-- The text from after the first colon, and the text before it.
after_colon : Text → Text
after_colon [] = []
after_colon (c ∷ s) = if c == b':' then s else after_colon s

before_colon : Text → Text
before_colon [] = []
before_colon (c ∷ s) = let rest = before_colon s in if c == b':' then [] else c ∷ rest

program : Unit {0}
unfolding contains has_prefix split_dot ends_with_dot has_empty check_parts valid_and_split_domain
    new_node new_trie new_pool total_of ip_to_uint join_host_port host_with_default_port server_of
    parse_server parse_servers parse_name_server_policy parse_fallback_ip_cidr insert_filters all_ip
    parse_pool finish_dns parse_dns text_eq to_lower after_colon before_colon
program = tt

-- The scheme is before the first colon and the host after the two slashes; an address splits at its
-- colon.
abbrev lib : Option Ip → NetLib
lib ip = record {
  parse_url =
      λ s. some (record { scheme = before_colon s; host = drop 2 (after_colon s); path = [] });
  url_string = λ u. u.scheme ++ codes "://" ++ u.host ++ u.path;
  split_host_port = λ s. some (before_colon s, after_colon s);
  parse_ip = λ s. ip;
  parse_cidr = λ s. some (record { base = 198 ∷ 18 ∷ 0 ∷ 1 ∷ []; ones = 16; bits = 32 });
}

abbrev raw : RawDns
raw = record {
  enable = true;
  ipv6 = false;
  use_hosts = false;
  name_server = codes "8.8.8.8" ∷ codes "tls://1.1.1.1" ∷ [];
  fallback = codes "tcp://9.9.9.9:54" ∷ [];
  geoip = true;
  geoip_code = codes "CN";
  ip_cidr = [];
  domain = [];
  listen = codes ":53";
  enhanced_mode = fake_ip;
  fake_ip_range = codes "198.18.0.1/16";
  fake_ip_filter = [];
  default_nameserver = codes "8.8.8.8" ∷ [];
  name_server_policy = (codes "go.dev", codes "1.1.1.1") ∷ [];
  adguard = [];
}

abbrev no_hosts : Node Hosts
no_hosts = new_trie

refuses_name : parse_dns (lib none) raw no_hosts ≡ invalid default_not_ip
unfolding program
refuses_name = refl

abbrev one : NetLib
one = lib (some (8 ∷ 8 ∷ 8 ∷ 8 ∷ []))

abbrev google : NameServer
google = record { net = []; addr = codes "8.8.8.8:53" }

abbrev over_tls : NameServer
over_tls = record { net = codes "tcp-tls"; addr = codes "1.1.1.1:853" }

abbrev setup : Dns
setup = record {
  enable = true;
  ipv6 = false;
  listen = codes ":53";
  enhanced_mode = fake_ip;
  name_server = google ∷ over_tls ∷ [];
  fallback = record { net = codes "tcp"; addr = codes "9.9.9.9:54" } ∷ [];
  name_server_policy = (codes "go.dev", record { net = []; addr = codes "1.1.1.1:53" }) ∷ [];
  default_nameserver = google ∷ [];
  fake_ip_range = elim (parse_pool one raw) [ valid pool ↦ pool | invalid e ↦ none ];
  geoip = true;
  geoip_code = codes "CN";
  ip_cidr = [];
  domain = [];
  hosts = none;
  adguard = [];
}

parses : parse_dns one raw no_hosts ≡ valid setup
unfolding program
parses = refl

parse_dns-IsFinished_example :
    (setup.enable ≡ true → 0 < length setup.name_server) × IsFinished one raw no_hosts setup
parse_dns-IsFinished_example = parse_dns-IsFinished one raw no_hosts setup parses
