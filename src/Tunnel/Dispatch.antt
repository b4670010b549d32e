-- ===== src/Tunnel/Dispatch.antt =====
-- `match` and `shouldResolveIP` of tunnel/tunnel.go, and `matchHashMap` of
-- tunnel/matchRuleCache.go. The rules, the adapters and the hosts are the package's variables,
-- here a `Config`; the answers of `resolver.ResolveIP` are an argument. `none` as a result is a
-- run-time panic: a failed type assertion, or an index out of range.
use rule_base_proxy.Common.{
  Bool, List, Option, Text, [], false, if◌then◌else◌, is_some, none, not, some, text_eq, true, ◌&&◌,
  ◌<|>◌, ◌==◌, ◌>>=◌, ◌||◌, ◌∷◌,
}
use rule_base_proxy.Net.{Ip}
use rule_base_proxy.Trie.Node.{Node, search_domain, content}
use rule_base_proxy.Rule.Metadata.{Metadata, udp}
use rule_base_proxy.Rule.Kinds.{Rule, should_resolve_ip}
use rule_base_proxy.Rule.Matching.{World, State, rule_match}

-- What is asked of an adapter.
pub record Proxy : Type 0 where
  pub name : Text
  pub support_udp : Bool

-- The data of the hosts' trie, by its dynamic type: `[]net.IP`, or the `net.IP` that
-- config/config.go inserts for localhost.
pub data Hosts : Type 0 where
  ip_list : List Ip → Hosts
  single_ip : Ip → Hosts

pub record Config : Type 0 where
  pub rules : List Rule
  pub proxies : List (Text × Proxy)
  pub hosts : Node Hosts

-- `adapter, ok := proxies[name]`
unfoldable pub proxy_of : Text → List (Text × Proxy) → Option Proxy
proxy_of name [] = none
proxy_of name ((k, p) ∷ ps) = if text_eq k name then some p else proxy_of name ps

-- `shouldResolveIP`
unfoldable pub wants_ip : Rule → Metadata → Bool
wants_ip r m = should_resolve_ip r && (not (text_eq m.host []) && not (is_some m.dst_ip))

-- `if metadata.DstIP == nil { metadata.DstIP = ip }`
unfoldable pub fill_dst_ip : Ip → Metadata → Metadata
fill_dst_ip ip m = record m { dst_ip = m.dst_ip <|> some ip }

-- The resolution of a name in `match`, on an error too.
unfoldable pub resolve_into : (Text → Option Ip) → Metadata → Metadata
resolve_into resolve m = elim (resolve m.host) [ none ↦ m | some ip ↦ fill_dst_ip ip m ]

-- The adapter of a rule that matched, unless there is none or it cannot do UDP.
unfoldable pub usable : List (Text × Proxy) → Metadata → Rule → Option Proxy
usable proxies m r = proxy_of r.adapter proxies >>= λ p.
    if m.network == udp && not p.support_udp then none else some p

-- A connection after the rules were tried: its metadata, and the adapter and rule if one applies.
pub record Matched : Type 0 where
  pub metadata : Metadata
  pub state : State
  pub choice : Option (Proxy × Rule)

-- The loop of `match` over the rules.
unfoldable pub match_rules :
    (Text → Option Ip) → World → List (Text × Proxy) → Bool → Metadata → State → List Rule → Matched
match_rules resolve w proxies resolved m s [] = record { metadata = m; state = s; choice = none }
match_rules resolve w proxies resolved m s (r ∷ rs) =
    let resolving : Bool = not resolved && wants_ip r m in
    let m' : Metadata = if resolving then resolve_into resolve m else m in
    let matched : State × Bool = rule_match w r s m' in
    let next : Matched = match_rules resolve w proxies (resolved || resolving) m' matched.0 rs in
    if matched.1
    then elim (usable proxies m' r) [
      | some p ↦ record { metadata = m'; state = matched.0; choice = some (p, r) }
      | none ↦ next
    ]
    else next

-- The start of `match`: the hosts give the address; the result tells whether they have the name.
unfoldable pub from_hosts : Node Hosts → Metadata → Option (Metadata × Bool)
from_hosts hosts m = elim (search_domain m.host hosts >>= content) [
  | none ↦ some (m, false)
  | some (single_ip ip) ↦ none
  | some (ip_list ips) ↦ elim m.dst_ip [
    | some ip ↦ some (m, true)
    | none ↦ elim ips [ [] ↦ none | ip ∷ rest ↦ some (fill_dst_ip ip m, true) ]
  ]
]

-- `match`
unfoldable pub match_metadata :
    (Text → Option Ip) → World → Config → Metadata → State → Option Matched
match_metadata resolve w c m s = from_hosts c.hosts m >>= λ started.
    some (match_rules resolve w c.proxies started.1 started.0 s c.rules)
