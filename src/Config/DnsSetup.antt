-- ===== src/Config/DnsSetup.antt =====
-- `parseDNS` of config/config.go.
use rule_base_proxy.Common.{
  Bool, List, Option, Text, [], empty, false, get_or_else, if◌then◌else◌, is_some, none, not, some,
  true, ◌&&◌, ◌∷◌,
}
use rule_base_proxy.Net.Networks.{IpNet}
use rule_base_proxy.Trie.Node.{Node, insert, new_trie}
use rule_base_proxy.FakeIp.Pool.{Pool, new_pool}
use rule_base_proxy.Dns.Enhancer.{Mode, fake_ip}
use rule_base_proxy.Tunnel.Dispatch.{Hosts}
use rule_base_proxy.Config.NameServers.{
  NetLib, NameServer, no_nameserver, no_default_nameserver, default_not_ip, bad_range, bad_pool,
  Checked, valid, invalid, and_check, parse_name_server, parse_name_server_policy,
  parse_fallback_ip_cidr,
}

pub record RawDns : Type 0 where
  pub enable : Bool
  pub ipv6 : Bool
  pub use_hosts : Bool
  pub name_server : List Text
  pub fallback : List Text
  pub geoip : Bool
  pub geoip_code : Text
  pub ip_cidr : List Text
  pub domain : List Text
  pub listen : Text
  pub enhanced_mode : Mode
  pub fake_ip_range : Text
  pub fake_ip_filter : List Text
  pub default_nameserver : List Text
  pub name_server_policy : List (Text × Text)
  pub adguard : List Text

-- The struct `DNS` with its `FallbackFilter`; `none` is a nil pointer.
pub record Dns : Type 0 where
  pub enable : Bool
  pub ipv6 : Bool
  pub listen : Text
  pub enhanced_mode : Mode
  pub name_server : List NameServer
  pub fallback : List NameServer
  pub name_server_policy : List (Text × NameServer)
  pub default_nameserver : List NameServer
  pub fake_ip_range : Option Pool
  pub geoip : Bool
  pub geoip_code : Text
  pub ip_cidr : List IpNet
  pub domain : List Text
  pub hosts : Option (Node Hosts)
  pub adguard : List Text

-- The loop that fills the filter of the pool.
unfoldable pub insert_filters : List Text → Node Bool → Node Bool
insert_filters [] t = t
insert_filters (domain ∷ l) t = insert_filters l (get_or_else (insert domain (some true) t) t)

module _ (lib : NetLib) where
  -- The check of the default name servers.
  unfoldable pub all_ip : List NameServer → Bool
  all_ip [] = true
  all_ip (ns ∷ l) = elim (lib.split_host_port ns.addr) [
    | none ↦ false
    | some (host, port) ↦ is_some (lib.parse_ip host) && all_ip l
  ]

  unfoldable pub parse_pool : RawDns → Checked (Option Pool)
  parse_pool cfg = elim cfg.enhanced_mode [
    | fake_ip ↦ elim (lib.parse_cidr cfg.fake_ip_range) [
      | none ↦ invalid bad_range
      | some n ↦
          elim (new_pool n 1000 (
            if empty cfg.fake_ip_filter
            then none
            else some (insert_filters cfg.fake_ip_filter new_trie))) [
              | none ↦ invalid bad_pool
              | some pool ↦ valid (some pool)
            ]
    ]
    | _ ↦ valid none
  ]

  -- The networks of the fallback filter: on an error none of them is taken.
  abbrev pub fallback_networks : List Text → List IpNet
  fallback_networks ips = elim (parse_fallback_ip_cidr lib 0 ips) [ valid l ↦ l | invalid e ↦ [] ]

  -- `parseDNS` from the default name servers on.
  unfoldable pub finish_dns :
      RawDns
      → Node Hosts
      → List NameServer
      → List NameServer
      → List (Text × NameServer)
      → Checked Dns
  finish_dns cfg hosts servers fallback policy =
      if empty cfg.default_nameserver
      then invalid no_default_nameserver
      else and_check (parse_name_server lib cfg.default_nameserver) (λ defaults.
        if not (all_ip defaults)
        then invalid default_not_ip
        else and_check (parse_pool cfg) (λ pool. valid (record {
          enable = cfg.enable;
          ipv6 = cfg.ipv6;
          listen = cfg.listen;
          enhanced_mode = cfg.enhanced_mode;
          name_server = servers;
          fallback = fallback;
          name_server_policy = policy;
          default_nameserver = defaults;
          fake_ip_range = pool;
          geoip = cfg.geoip;
          geoip_code = cfg.geoip_code;
          ip_cidr = fallback_networks cfg.ip_cidr;
          domain = cfg.domain;
          hosts = if cfg.use_hosts then some hosts else none;
          adguard = cfg.adguard;
        })))

  unfoldable pub parse_dns : RawDns → Node Hosts → Checked Dns
  parse_dns cfg hosts =
      if cfg.enable && empty cfg.name_server
      then invalid no_nameserver
      else and_check (parse_name_server lib cfg.name_server) (λ servers.
        and_check (parse_name_server lib cfg.fallback) (λ fallback.
          and_check (parse_name_server_policy lib cfg.name_server_policy)
            (finish_dns cfg hosts servers fallback)))
