-- ===== src/Dns/Exchange.antt =====
-- The resolver of dns/resolver.go with the filters of dns/filters.go. An upstream client is a
-- function from a query to its answer; `Env.order` is the order in which the answers of a batch
-- arrive. Clocks count nanoseconds. One flight of `group.Do` is one call.
use rule_base_proxy.Common.{
  Bool, List, Option, Text, [], codes, empty, false, get_elem?, get_or_else, if◌then◌else◌, is_some,
  length, ltb, map, none, not, some, true, ℕ, ◌%◌, ◌&&◌, ◌*◌, ◌++◌, ◌-◌, ◌/◌, ◌<|>◌, ◌==◌, ◌>>=◌,
  ◌^◌, ◌||◌, ◌∷◌,
}
use rule_base_proxy.Net.{Ip, to4}
use rule_base_proxy.Net.Networks.{IpNet, contains_ip, is_private}
use rule_base_proxy.Trie.Node.{Node, insert, search_domain, content, new_trie}
use rule_base_proxy.LruCache.Cache.{Cache, new_lru_cache, with_size, with_stale, get_with_expire}
use rule_base_proxy.Rule.Strings.{equal_fold}
use rule_base_proxy.Rule.Matching.{text_Eq}
use rule_base_proxy.Dns.Messages.{
  Lib, Msg, Question, Answer, reply, refused, type_a, type_aaaa, put_msg_to_cache, set_msg_ttl,
  is_ip_request, msg_to_ip, msg_to_domain,
}

-- What the resolver calls outside the repository.
pub record Env : Type 0 where
  pub lib : Lib
  pub order : List Answer → List Answer
  pub country : Ip → Text
  pub parse_ip : Text → Option Ip
  pub pick : ℕ → ℕ

abbrev pub Client : Type 0
Client = Msg → Answer

pub data IpFilter : Type 0 where
  geoip_filter : Text → IpFilter
  ipnet_filter : IpNet → IpFilter

unfoldable pub match_ip : Env → IpFilter → Ip → Bool
match_ip env (geoip_filter code) ip = not (equal_fold (env.country ip) code) && not (is_private ip)
match_ip env (ipnet_filter net) ip = contains_ip net ip

abbrev pub DomainFilter : Type 0
DomainFilter = Node Text

-- The loop of `NewDomainFilter`: a domain that is not valid is skipped.
unfoldable pub insert_domains : List Text → DomainFilter → DomainFilter
insert_domains [] tree = tree
insert_domains (domain ∷ l) tree =
    insert_domains l (get_or_else (insert domain (some []) tree) tree)

abbrev pub new_domain_filter : List Text → DomainFilter
new_domain_filter domains = insert_domains domains new_trie

unfoldable pub match_domain : DomainFilter → Text → Bool
match_domain tree domain = is_some (search_domain domain tree)

-- `refreshing` holds the queries that goroutines ask again, `saved` the queue `saveDnsQueue`.
pub record Resolver : Type 0 where
  pub ipv6 : Bool
  pub main : List Client
  pub fallback : Option (List Client)
  pub fallback_domain_filters : List DomainFilter
  pub fallback_ip_filters : List IpFilter
  pub policy : Option (Node (List Client))
  pub lru_cache : Cache Text Msg
  pub refreshing : List Msg
  pub saved : List (Text × Msg)

unfoldable pub any_ip : Env → List IpFilter → Ip → Bool
any_ip env [] ip = false
any_ip env (f ∷ l) ip = if match_ip env f ip then true else any_ip env l ip

abbrev pub should_ip_fallback : Env → Resolver → Ip → Bool
should_ip_fallback env r ip = any_ip env r.fallback_ip_filters ip

unfoldable pub any_domain : List DomainFilter → Text → Bool
any_domain [] domain = false
any_domain (f ∷ l) domain = if match_domain f domain then true else any_domain l domain

unfoldable pub should_only_query_fallback : Resolver → Msg → Bool
should_only_query_fallback r m =
    if not (is_some r.fallback) || empty r.fallback_domain_filters
    then false
    else (let domain = msg_to_domain m in
        if empty domain then false else any_domain r.fallback_domain_filters domain)

-- A policy without clients is one that does not match; a node without data is a panic that no
-- node of a search has.
unfoldable pub match_policy : Resolver → Msg → List Client
match_policy r m = elim r.policy [
  | none ↦ []
  | some tree ↦
      let domain = msg_to_domain m in
      if empty domain then [] else get_or_else (search_domain domain tree >>= content) []
]

-- What a goroutine of `batchExchange` makes of the answer of its client.
unfoldable pub accept : Answer → Answer
accept (refused e) = refused e
accept (reply msg) =
    if msg.rcode == 2 || (msg.rcode == 5 || msg.rcode == 3)
    then refused (codes "server failure")
    else reply msg

unfoldable pub first_reply : List Answer → Option Msg
first_reply [] = none
first_reply (reply msg ∷ l) = some msg
first_reply (refused e ∷ l) = first_reply l

unfoldable pub first_error : List Answer → Option Text
first_error [] = none
first_error (refused e ∷ l) = some e
first_error (reply msg ∷ l) = first_error l

unfoldable pub batch_exchange : Env → List Client → Msg → Answer
batch_exchange env clients m =
    let arrived = env.order (map (λ c. accept (c m)) clients) in
    elim (first_reply arrived) [
      | some msg ↦ reply msg
      | none ↦ refused (elim (first_error arrived) [
        | some e ↦ codes "all DNS requests failed, first error: " ++ e
        | none ↦ codes "all DNS requests failed"
      ])
    ]

-- `ips := msgToIP(res.Msg); len(ips) != 0` and no filter asks for the fallback.
unfoldable pub is_trusted : Env → Resolver → Answer → Bool
is_trusted env r (refused e) = false
is_trusted env r (reply msg) = elim (msg_to_ip msg) [
  | ip ∷ _ ↦ not (should_ip_fallback env r ip)
  | [] ↦ false
]

unfoldable pub ip_exchange : Env → Resolver → Msg → Answer
ip_exchange env r m = elim (match_policy r m) [
  | c ∷ cs ↦ batch_exchange env (c ∷ cs) m
  | [] ↦ elim r.fallback [
    | none ↦ batch_exchange env r.main m
    | some fallback ↦
        if should_only_query_fallback r m
        then batch_exchange env fallback m
        else (let res = batch_exchange env r.main m in
            if is_trusted env r res then res else batch_exchange env fallback m)
  ]
]

-- The clients that a query goes to, by its kind.
unfoldable pub query_clients : Env → Resolver → Question → Msg → Answer
query_clients env r q m = if is_ip_request q then ip_exchange env r m else elim (match_policy r m) [
  | c ∷ cs ↦ batch_exchange env (c ∷ cs) m
  | [] ↦ batch_exchange env r.main m
]

-- `DnsMsgAdd`: a full queue drops the message.
unfoldable pub dns_msg_add : Text → Msg → List (Text × Msg) → List (Text × Msg)
dns_msg_add key msg queue = if ltb (length queue) 500 then queue ++ (key, msg) ∷ [] else queue

abbrev pub giga : ℕ
giga = 1_000_000_000

unfoldable pub exchange_without_cache : Env → ℕ → Resolver → Question → Msg → Resolver × Answer
exchange_without_cache env now r q m = elim (query_clients env r q m) [
  | refused e ↦ (r, refused e)
  | reply msg ↦ (
    record r {
      lru_cache = put_msg_to_cache (now / giga) r.lru_cache (env.lib.key_of q) msg;
      saved = dns_msg_add (env.lib.key_of q) msg r.saved;
    },
    reply msg,
  )
]

-- `ExchangeContext`; `time.Now` and `time.Until` read one clock.
unfoldable pub exchange : Env → ℕ → Resolver → Msg → Resolver × Answer
exchange env now r m = elim m.question [
  | [] ↦ (r, refused (codes "should have one question at least"))
  | q ∷ _ ↦
      let found = get_with_expire (now / giga) (now / giga) r.lru_cache (env.lib.key_of q) in
      let r' : Resolver = record r { lru_cache = found.0 } in
      elim found.1 [
        | none ↦ exchange_without_cache env now r' q m
        | some (msg, expires) ↦
            if ltb (expires * giga) now
            then (record r' { refreshing = r'.refreshing ++ m ∷ [] }, reply (set_msg_ttl msg 2))
            else (r', reply (set_msg_ttl msg ((expires * giga - now) / giga % 2 ^ 32)))
      ]
]

-- An address, or `none` for an error.
unfoldable pub resolve_query : Env → ℕ → Resolver → Text → ℕ → Resolver × Option Ip
resolve_query env now r host dns_type = elim (env.parse_ip host) [
  | some ip ↦
      let is_ipv4 = is_some (to4 ip) in
      if (dns_type == type_aaaa && not is_ipv4) || (dns_type == type_a && is_ipv4)
      then (r, some ip)
      else (r, none)
  | none ↦
      let (r', res) = exchange env now r (env.lib.ask host dns_type) in
      elim res [
        | refused e ↦ (r', none)
        | reply msg ↦ (r', get_elem? (msg_to_ip msg) (env.pick (length (msg_to_ip msg))))
      ]
]

-- `ResolveIP`: the query for AAAA runs beside the one for A, here before it.
unfoldable pub resolve_any : Env → ℕ → Resolver → Text → Resolver × Option Ip
resolve_any env now r host =
    let (r₁, six) = resolve_query env now r host type_aaaa in
    let (r₂, four) = resolve_query env now r₁ host type_a in (r₂, four <|> six)

-- What `NewResolver` reads of a configuration, with the clients that `transform` makes.
pub record Settings : Type 0 where
  pub main : List Client
  pub fallback : List Client
  pub ipv6 : Bool
  pub geoip : Bool
  pub geoip_code : Text
  pub ip_cidr : List IpNet
  pub domain : List Text
  pub policy : List (Text × List Client)

unfoldable pub insert_policies : List (Text × List Client) → Node (List Client) → Node (List Client)
insert_policies [] tree = tree
insert_policies ((domain, clients) ∷ l) tree =
    insert_policies l (get_or_else (insert domain (some clients) tree) tree)

unfoldable pub new_resolver : Settings → Resolver
new_resolver config = record {
  ipv6 = config.ipv6;
  main = config.main;
  fallback = if empty config.fallback then none else some config.fallback;
  fallback_domain_filters =
      if empty config.domain then [] else new_domain_filter config.domain ∷ [];
  fallback_ip_filters =
      (if config.geoip then geoip_filter config.geoip_code ∷ [] else [])
      ++ map ipnet_filter config.ip_cidr;
  policy = if empty config.policy then none else some (insert_policies config.policy new_trie);
  lru_cache = new_lru_cache (with_size 4096 ∷ with_stale true ∷ []);
  refreshing = [];
  saved = [];
}
