-- ===== src/Groups/Selection.antt =====
-- How the groups of adapter/outboundgroup choose a proxy: fallback.go, urltest.go, loadbalance.go
-- and selector.go. A provider is the list of proxies that it returns; `none` is the panic of an
-- index out of range, on a group without proxies.
use rule_base_proxy.Common.{
  List, Option, Text, [], empty, get_elem?, if◌then◌else◌, length, ltb, min, none, not, some, suc,
  text_eq, zero, ℕ, ◌%◌, ◌++◌, ◌+◌, ◌<|>◌, ◌>>=◌, ◌^◌, ◌∷◌,
}
use rule_base_proxy.Net.{Ip}
use rule_base_proxy.Rule.Metadata.{Metadata, address_string}
use rule_base_proxy.Adapter.Proxy.{Proxy, last_delay}

-- `getProvidersProxies`
unfoldable pub get_providers_proxies : List (List Proxy) → List Proxy
get_providers_proxies [] = []
get_providers_proxies (provider ∷ l) = provider ++ get_providers_proxies l

-- `proxies[0]`
unfoldable pub first_proxy : List Proxy → Option Proxy
first_proxy [] = none
first_proxy (p ∷ ps) = some p

-- The loop of `findAliveProxy`.
unfoldable pub first_alive : List Proxy → Option Proxy
first_alive [] = none
first_alive (p ∷ ps) = if p.alive then some p else first_alive ps

unfoldable pub find_alive_proxy : List Proxy → Option Proxy
find_alive_proxy ps = first_alive ps <|> first_proxy ps

-- The loop of the ticker in `NewURLTest`, for the best proxy and its delay so far.
unfoldable pub fastest : Proxy → ℕ → List Proxy → Proxy
fastest fast min [] = fast
fastest fast min (p ∷ ps) =
    let skip = fastest fast min ps in
    let take = fastest p (last_delay p) ps in
    if not p.alive then skip else if ltb (last_delay p) min then take else skip

-- `fastNode` after a tick.
unfoldable pub fast_node : List Proxy → Option Proxy
fast_node [] = none
fast_node (p ∷ ps) = some (fastest p (last_delay p) ps)

-- The loop of `strategyRoundRobin`, for the rounds that are left: the new index, and a proxy if
-- one is alive.
unfoldable pub next_alive : ℕ → List Proxy → ℕ → Option (ℕ × Option Proxy)
next_alive zero ps idx = some (idx, none)
next_alive (suc rounds) ps idx =
    let idx' = (idx + 1) % length ps in
    let rest = next_alive rounds ps idx' in
    (get_elem? ps idx' >>= λ p. if p.alive then some (idx', some p) else rest)

unfoldable pub round_robin : List Proxy → ℕ → Option (ℕ × Proxy)
round_robin ps idx = next_alive (length ps) ps idx >>= λ found. elim found.1 [
  | some p ↦ some (found.0, p)
  | none ↦ first_proxy ps >>= λ p. some (found.0, p)
]

-- What the load balancer calls outside the repository: `net.ParseIP`, the public suffix list, and
-- the hash functions, of which `jump` computes with floating point numbers.
pub record Hashing : Type 0 where
  pub parse_ip : Text → Option Ip
  pub effective_domain : Text → Option Text
  pub sum32 : Text → ℕ
  pub jump : ℕ → ℕ → ℕ

abbrev pub address_key : Metadata → Text
address_key m = elim m.dst_ip [ none ↦ [] | some ip ↦ address_string (some ip) ]

unfoldable pub get_key : Hashing → Metadata → Text
get_key h m = if empty m.host then address_key m else elim (h.parse_ip m.host) [
  | some ip ↦ m.host
  | none ↦ elim (h.effective_domain m.host) [ some etld ↦ etld | none ↦ address_key m ]
]

-- The loop of `strategyConsistentHashing`, for the tries that are left.
unfoldable pub try_keys : Hashing → ℕ → List Proxy → ℕ → Option (Option Proxy)
try_keys h zero ps key = some none
try_keys h (suc tries) ps key =
    let rest = try_keys h tries ps ((key + 1) % 2 ^ 64) in
    (get_elem? ps (h.jump key (length ps)) >>= λ p. if p.alive then some (some p) else rest)

unfoldable pub consistent_hashing : Hashing → List Proxy → Metadata → Option Proxy
consistent_hashing h ps m =
    try_keys h 5 ps (h.sum32 (get_key h m)) >>= λ found. found <|> first_proxy ps

-- `Selector`, with what its providers return.
pub record Selector : Type 0 where
  pub selected : Text
  pub sed_proxy : Proxy
  pub providers : List (List Proxy)

unfoldable pub find_named : Text → List Proxy → Option Proxy
find_named name [] = none
find_named name (p ∷ ps) = if text_eq p.name name then some p else find_named name ps

-- `Set`, or `none` for its error.
unfoldable pub set_selector : Selector → Text → Option Selector
set_selector s name = find_named name (get_providers_proxies s.providers) >>= λ p.
    some (record s { selected = name; sed_proxy = p })

-- `Now`
abbrev pub selector_now : Selector → Text
selector_now s = s.sed_proxy.name

-- The first proxy of the first provider, from `NewSelector`.
unfoldable pub new_selector : List (List Proxy) → Option Selector
new_selector [] = none
new_selector (provider ∷ l) = first_proxy provider >>= λ p.
    some (record { selected = p.name; sed_proxy = p; providers = provider ∷ l })
