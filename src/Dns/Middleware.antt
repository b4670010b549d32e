-- ===== src/Dns/Middleware.antt =====
-- The middlewares of the DNS server in dns/middleware.go that come before the fake IP pool and the
-- resolver, and the one that remembers the answers, with `ADGurdMatch` of dns/enhancer.go. A
-- middleware is a function from the next handler to a handler; `none` is a panic.
use rule_base_proxy.Common.{
  Bool, List, Option, Text, [], empty, false, if◌then◌else◌, length, ltb, none, not, some, text_eq,
  true, ℕ, ◌&&◌, ◌++◌, ◌+◌, ◌/◌, ◌==◌, ◌>>=◌, ◌∷◌,
}
use rule_base_proxy.Net.{Ip, to4}
use rule_base_proxy.Net.Printing.{ip_string}
use rule_base_proxy.LruCache.Cache.{Cache, get, set_with_expire}
use rule_base_proxy.Trie.Node.{Node, content, search_domain}
use rule_base_proxy.Rule.Metadata.{Metadata, atyp_domain_name}
use rule_base_proxy.Rule.Kinds.{Rule}
use rule_base_proxy.Rule.Matching.{World, State, rule_match, text_Eq}
use rule_base_proxy.Tunnel.Dispatch.{Hosts, ip_list, single_ip}
use rule_base_proxy.Dns.Enhancer.{Enhancer}
use rule_base_proxy.Dns.Messages.{
  Lib, Msg, Question, Header, Rr, rr_a, rr_aaaa, rr_other, Answer, reply, refused, type_a,
  type_aaaa, class_inet, rcode_success, is_ip_request, msg_to_ip, trim_right_dots,
}
use rule_base_proxy.Dns.Exchange.{Env, Resolver, giga}

-- `DNSContext`: the types are "host", "fakeip" and "raw".
pub data ContextType : Type 0 where
  unset_type host_type fake_ip_type raw_type : ContextType

pub record Context : Type 0 where
  pub kind : ContextType
  pub host : Text
  pub remote : Text

pub record DnsMap : Type 0 where
  pub ipstr : Text
  pub domain : Text
  pub ttl : ℕ
  pub raddr : Text

-- `blocked` is what the library's cache `ADGurdCache` holds, `told` the queue `saveMapQueue`.
pub record Server : Type 0 where
  pub resolver : Resolver
  pub mapper : Enhancer
  pub rules : State
  pub blocked : Text → Option Bool
  pub told : List DnsMap

-- What a handler calls outside the repository, and what it reads of the configuration: `add` is
-- `Add` of the library's cache and `now` the clock. Of the two queries of `dualQuery`, `schedule`
-- says which one takes the next step, `true` for AAAA, and `six_first` that the answer for AAAA
-- is the first to arrive.
pub record Setup : Type 0 where
  pub env : Env
  pub world : World
  pub add : (Text → Option Bool) → Text → Bool → Text → Option Bool
  pub now : ℕ
  pub schedule : List Bool
  pub six_first : Bool
  pub hosts : Option (Node Hosts)
  pub adguard_rules : List Rule

abbrev pub Result : Type 0
Result = Option (Server × Context × Answer)

abbrev pub Handler : Type 0
Handler = Server → Context → Msg → Result

abbrev pub Middleware : Type 0
Middleware = Handler → Handler

abbrev pub dns_default_ttl : ℕ
dns_default_ttl = 600

unfoldable pub with_pre_handle : Middleware
with_pre_handle next s ctx r = elim r.question [
  | [] ↦ none
  | q ∷ _ ↦ next s (record ctx { host = trim_right_dots q.name }) r
]

-- `msg.SetRcode(r, rcode)` and the two flags.
unfoldable pub finish : Lib → Msg → Msg → ℕ → Msg
finish lib msg r rcode = record (lib.set_rcode msg r rcode) {
  authoritative = true;
  recursion_available = true;
}

abbrev pub new_header : Question → ℕ → Header
new_header q type = record {
  name = q.name;
  rrtype = type;
  class = class_inet;
  ttl = dns_default_ttl;
}

-- The record of one address of the hosts, where the question asks for its kind.
unfoldable pub host_record : Bool → Question → Ip → Option Rr
host_record ipv6 q ip = elim (to4 ip) [
  | some v4 ↦ if q.qtype == type_a then some (rr_a (new_header q type_a) v4) else none
  | none ↦
      if ipv6 && (length ip == 16 && q.qtype == type_aaaa)
      then some (rr_aaaa (new_header q type_aaaa) ip)
      else none
]

unfoldable pub host_records : Bool → Question → List Ip → List Rr
host_records ipv6 q [] = []
host_records ipv6 q (ip ∷ ips) =
    let rest = host_records ipv6 q ips in
    elim (host_record ipv6 q ip) [ some rr ↦ rr ∷ rest | none ↦ rest ]

-- Data that is not a list of addresses is a panic of the type assertion.
unfoldable pub with_hosts : Lib → Node Hosts → Bool → Middleware
with_hosts lib hosts ipv6 next s ctx r = elim r.question [
  | [] ↦ none
  | q ∷ _ ↦
      if not (is_ip_request q)
      then next s ctx r
      else elim (search_domain (trim_right_dots q.name) hosts) [
        | none ↦ next s ctx r
        | some found ↦ elim (content found) [
          | none ↦ none
          | some (single_ip ip) ↦ none
          | some (ip_list ips) ↦ some (
            s,
            record ctx { kind = host_type },
            reply (finish lib (record r { answer = host_records ipv6 q ips }) r rcode_success),
          )
        ]
      ]
]

-- The loop of `ADGurdMatch`.
unfoldable pub any_rule : World → List Rule → State → Metadata → State × Bool
any_rule w [] s m = (s, false)
any_rule w (rule ∷ rules) s m =
    let (s', hit) = rule_match w rule s m in if hit then (s', true) else any_rule w rules s' m

abbrev pub of_host : Text → Metadata
of_host domain = record {
  network = 0;
  kind = 0;
  src_ip = none;
  dst_ip = none;
  src_port = [];
  dst_port = [];
  addr_type = atyp_domain_name;
  host = domain;
}

unfoldable pub adgurd_match : Setup → Server → Text → Server × Bool
adgurd_match u s domain = elim (s.blocked domain) [
  | some value ↦ (s, value)
  | none ↦
      let (rules', hit) = any_rule u.world u.adguard_rules s.rules (of_host domain) in
      (record s { rules = rules'; blocked = u.add s.blocked domain hit }, hit)
]

unfoldable pub with_adgurd : Setup → Middleware
with_adgurd u next s ctx r =
    let (s', hit) = adgurd_match u s ctx.host in
    if hit then some (s', ctx, reply r) else next s' ctx r

-- `DnsMapAdd`: a full queue drops the pair.
unfoldable pub dns_map_add : DnsMap → List DnsMap → List DnsMap
dns_map_add m queue = if ltb (length queue) 500 then queue ++ m ∷ [] else queue

-- One address of an answer in `withMapping`.
unfoldable pub map_address :
    ℕ → Context → Ip → ℕ → Cache Text Text × List DnsMap → Cache Text Text × List DnsMap
map_address now ctx ip ttl (mapping, told) =
    let (c, known) = get (now / giga) (now / giga) mapping (ip_string ip) in
    let all_eq : Bool = elim known [ some host ↦ text_eq host ctx.host | none ↦ false ] in
    let c' = set_with_expire (now / giga) c (ip_string ip) ctx.host (now / giga + ttl) in
    if all_eq then (c', told) else (
      c',
      dns_map_add
          (record { ipstr = ip_string ip; domain = ctx.host; ttl = ttl; raddr = ctx.remote }) told,
    )

unfoldable pub map_record :
    ℕ → Context → Rr → Cache Text Text × List DnsMap → Cache Text Text × List DnsMap
map_record now ctx (rr_a h ip) st = map_address now ctx ip h.ttl st
map_record now ctx (rr_aaaa h ip) st = map_address now ctx ip h.ttl st
map_record now ctx (rr_other h) st = st

unfoldable pub map_answers :
    ℕ → Context → List Rr → Cache Text Text × List DnsMap → Cache Text Text × List DnsMap
map_answers now ctx [] st = st
map_answers now ctx (x ∷ l) st = map_answers now ctx l (map_record now ctx x st)

-- What `withMapping` does with the answer of the next handler.
unfoldable pub remember : ℕ → Server → Context → Msg → Result
remember now s ctx msg = elim s.mapper.host_mapping [
  | none ↦ if empty (msg_to_ip msg) then some (s, ctx, reply msg) else none
  | some mapping ↦
      let (c, told') = map_answers now ctx msg.answer (mapping, s.told) in
      some (
        record s { mapper = record (s.mapper) { host_mapping = some c }; told = told' },
        ctx,
        reply msg,
      )
]

unfoldable pub with_mapping : ℕ → Middleware
with_mapping now next s ctx r = elim r.question [
  | [] ↦ none
  | q ∷ _ ↦
      if not (is_ip_request q)
      then next s ctx r
      else (next s ctx r >>= λ out. elim out.2 [
        | refused e ↦ some out
        | reply msg ↦ remember now out.0 out.1 msg
      ])
]
