-- ===== src/Config/NameServers.antt =====
-- `parseNameServer`, `parseNameServerPolicy` and `parseFallbackIPCIDR` of config/config.go. The
-- functions of the packages net and net/url are arguments.
use rule_base_proxy.Common.{
  List, Option, Text, [], codes, empty, if◌then◌else◌, is_some, none, some, suc, text_eq, ℕ, ◌++◌,
  ◌>>=◌, ◌∷◌,
}
use rule_base_proxy.Net.{Ip}
use rule_base_proxy.Net.Networks.{IpNet}
use rule_base_proxy.Rule.Strings.{contains}
use rule_base_proxy.Trie.Domain.{valid_and_split_domain}
use rule_base_proxy.Socks4.Handshake.{join_host_port}

-- What is read of a `url.URL`.
pub record ServerUrl : Type 0 where
  pub scheme : Text
  pub host : Text
  pub path : Text

-- `url.Parse`, `URL.String`, `net.SplitHostPort`, `net.ParseIP` and `net.ParseCIDR`.
pub record NetLib : Type 0 where
  pub parse_url : Text → Option ServerUrl
  pub url_string : ServerUrl → Text
  pub split_host_port : Text → Option (Text × Text)
  pub parse_ip : Text → Option Ip
  pub parse_cidr : Text → Option IpNet

-- `dns.NameServer`
pub record NameServer : Type 0 where
  pub net : Text
  pub addr : Text

pub data DnsError : Type 0 where
  format_error unsupported_scheme fallback_error : ℕ → DnsError
  invalid_domain : Text → DnsError
  no_nameserver no_default_nameserver default_not_ip bad_range bad_pool : DnsError

pub data Checked {ℓ} (A : Type ℓ) : Type ℓ where
  valid : A → Checked A
  invalid : DnsError → Checked A

abbrev pub and_check {ℓ κ} : {A : Type ℓ} {B : Type κ} → Checked A → (A → Checked B) → Checked B
and_check m k = elim m [ valid a ↦ k a | invalid e ↦ invalid e ]

module _ (lib : NetLib) where
  unfoldable pub host_with_default_port : Text → Text → Option Text
  host_with_default_port host def_port =
      lib.split_host_port (if contains host (codes ":") then host else host ++ codes ":")
      >>= λ (hostname, port). some (join_host_port hostname (if empty port then def_port else port))

  -- The switch over the schemes: the kind of network and the address, which may have an error;
  -- `none` for another scheme.
  unfoldable pub server_of : ServerUrl → Option (Text × Option Text)
  server_of u =
      if text_eq u.scheme (codes "udp")
      then some ([], host_with_default_port u.host (codes "53"))
      else if text_eq u.scheme (codes "tcp")
      then some (codes "tcp", host_with_default_port u.host (codes "53"))
      else if text_eq u.scheme (codes "tls")
      then some (codes "tcp-tls", host_with_default_port u.host (codes "853"))
      else if text_eq u.scheme (codes "https")
      then some (
        codes "https",
        some (lib.url_string (record { scheme = codes "https"; host = u.host; path = u.path })),
      )
      else if text_eq u.scheme (codes "dhcp")
      then some (codes "dhcp", some u.host)
      else none

  -- One round of the loop of `parseNameServer`.
  unfoldable pub parse_server : ℕ → Text → Checked NameServer
  parse_server idx server =
      elim (lib.parse_url
        (if contains server (codes "://") then server else codes "udp://" ++ server)) [
          | none ↦ invalid (format_error idx)
          | some u ↦ elim (server_of u) [
            | none ↦ invalid (unsupported_scheme idx)
            | some (net, addr) ↦ elim addr [
              | none ↦ invalid (format_error idx)
              | some a ↦ valid (record { net = net; addr = a })
            ]
          ]
        ]

  -- `parseNameServer`, from the index `idx` on.
  unfoldable pub parse_servers : ℕ → List Text → Checked (List NameServer)
  parse_servers idx [] = valid []
  parse_servers idx (server ∷ servers) =
      and_check (parse_server idx server)
        (λ s. and_check (parse_servers (suc idx) servers) (λ rest. valid (s ∷ rest)))

  abbrev pub parse_name_server : List Text → Checked (List NameServer)
  parse_name_server = parse_servers 0

  -- The loop of `parseNameServerPolicy`, in the order in which Go walks the map.
  unfoldable pub parse_name_server_policy : List (Text × Text) → Checked (List (Text × NameServer))
  parse_name_server_policy [] = valid []
  parse_name_server_policy ((domain, server) ∷ l) = and_check (parse_server 0 server) (λ s.
      if is_some (valid_and_split_domain domain)
      then and_check (parse_name_server_policy l) (λ rest. valid ((domain, s) ∷ rest))
      else invalid (invalid_domain domain))

  unfoldable pub parse_fallback_ip_cidr : ℕ → List Text → Checked (List IpNet)
  parse_fallback_ip_cidr idx [] = valid []
  parse_fallback_ip_cidr idx (ip ∷ ips) = elim (lib.parse_cidr ip) [
    | none ↦ invalid (fallback_error idx)
    | some n ↦ and_check (parse_fallback_ip_cidr (suc idx) ips) (λ rest. valid (n ∷ rest))
  ]
