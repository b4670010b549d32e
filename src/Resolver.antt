-- ===== src/Resolver.antt =====
-- component/resolver/resolver.go: the hosts table, a literal address, the program's resolver or
-- the system's, in that order. The resolvers, `net.ParseIP` and the system's look-ups are
-- arguments; nil in a list of the hosts table is the empty address, and a look-up that draws an
-- answer at random is one of the arguments. `none` as a result is a panic.
pub mod Versions
use rule_base_proxy.Common.{
  Bool, List, Option, Text, [], get_or_else, if◌then◌else◌, is_some, length, none, not, some,
  text_eq, ◌&&◌, ◌==◌, ◌>>=◌, ◌∷◌,
}
use rule_base_proxy.Net.{Ip, to4}
use rule_base_proxy.Trie.Node.{Node, search_domain, content}
use rule_base_proxy.Rule.Metadata.{has_byte}
use rule_base_proxy.Tunnel.Dispatch.{Hosts, ip_list, single_ip}

pub data Error : Type 0 where
  ip_version ip_v6_disabled lookup_failed : Error

pub data Answer : Type 0 where
  found : Ip → Answer
  failed : Error → Answer

-- The interface `Resolver`.
pub record Resolver : Type 0 where
  pub any : Text → Answer
  pub ipv4 : Text → Answer
  pub ipv6 : Text → Answer

-- What the functions read: `DefaultHosts`, `DisableIPv6`, `DefaultResolver`, and the library.
pub record Env : Type 0 where
  pub hosts : Node Hosts
  pub disable_ipv6 : Bool
  pub default_resolver : Option Resolver
  pub parse_ip : Text → Option Ip
  pub system : Resolver

-- The first address of the list that passes the test.
unfoldable pub first_ip : (Ip → Bool) → List Ip → Option Ip
first_ip ok [] = none
first_ip ok (ip ∷ ips) = if ok ip then some ip else first_ip ok ips

abbrev pub is_ip4 : Ip → Bool
is_ip4 ip = is_some (to4 ip)

-- `ip != nil && ip.To4() == nil && ip.To16() != nil`
abbrev pub is_ip6 : Ip → Bool
is_ip6 ip = not (is_some (to4 ip)) && length ip == 16

abbrev pub is_ip : Ip → Bool
is_ip ip = not (text_eq ip [])

-- The look into the hosts table that the three functions start with.
unfoldable pub in_hosts : Env → (Ip → Bool) → Text → Option (Option Ip)
in_hosts env ok host = elim (search_domain host env.hosts >>= content) [
  | none ↦ some none
  | some (single_ip ip) ↦ none
  | some (ip_list ips) ↦ some (first_ip ok ips)
]

-- The program's resolver, or the system's.
unfoldable pub resolver_of : Env → Resolver
resolver_of env = get_or_else env.default_resolver env.system

-- `ResolveIPv4`
unfoldable pub resolve_ipv4 : Env → Text → Option Answer
resolve_ipv4 env host = in_hosts env is_ip4 host >>= λ known. some (elim known [
  | some ip ↦ found ip
  | none ↦ elim (env.parse_ip host) [
    | some ip ↦ if has_byte b':' host then failed ip_version else found ip
    | none ↦ (resolver_of env).ipv4 host
  ]
])

-- `ResolveIPv6`
unfoldable pub resolve_ipv6 : Env → Text → Option Answer
resolve_ipv6 env host =
    if env.disable_ipv6
    then some (failed ip_v6_disabled)
    else (in_hosts env is_ip6 host >>= λ known. some (elim known [
      | some ip ↦ found ip
      | none ↦ elim (env.parse_ip host) [
        | some ip ↦ if has_byte b':' host then found ip else failed ip_version
        | none ↦ (resolver_of env).ipv6 host
      ]
    ]))

-- `ResolveIPWithResolver`
unfoldable pub resolve_ip_with_resolver : Env → Text → Option Resolver → Option Answer
resolve_ip_with_resolver env host r = in_hosts env is_ip host >>= λ known. elim known [
  | some ip ↦ some (found ip)
  | none ↦ elim r [
    | some resolver ↦ some (if env.disable_ipv6 then resolver.ipv4 host else resolver.any host)
    | none ↦
        if env.disable_ipv6
        then resolve_ipv4 env host
        else some (elim (env.parse_ip host) [ some ip ↦ found ip | none ↦ env.system.any host ])
  ]
]

-- `ResolveIP`
unfoldable pub resolve_ip : Env → Text → Option Answer
resolve_ip env host = resolve_ip_with_resolver env host env.default_resolver
