-- ===== src/Tests/DnsServer.antt =====
-- The handler, the resolver and the cache of the DNS server on concrete messages.
use rule_base_proxy.Common.{
  List, Option, Text, [], arith, codes, false, get_or_else, if◌then◌else◌, none, refl, some,
  text_eq, true, ℕ, ◌*◌, ◌++◌, ◌+◌, ◌-◌, ◌/◌, ◌<◌, ◌==◌, ◌∷◌, ◌≡◌, ◌≤◌, ◌⊎◌,
}
use rule_base_proxy.Net.Networks.{contains_ip, same_prefix, network_number}
use rule_base_proxy.Net.{Ip, to4}
use rule_base_proxy.LruCache.Entries.{find, remove}
use rule_base_proxy.LruCache.Cache.{
  Cache, apply_setting, apply_settings, new_lru_cache, with_size, with_stale, has_key, delete_key,
  element, delete_element, delete_front, delete_expired, maybe_delete_oldest, store_entry,
  set_with_expire, set, is_expired, get_entry, get, get_with_expire,
}
use rule_base_proxy.LruCache.Valid.{IsValid}
use rule_base_proxy.LruCache.Making.{new_lru_cache-IsValid}
use rule_base_proxy.FakeIp.Pool.{lookup_host, new_pool}
use rule_base_proxy.Rule.Matching.{State, text_Eq, new_process_cache}
use rule_base_proxy.Dns.Enhancer.{Enhancer, mapping, find_in_mapping}
use rule_base_proxy.Dns.Messages.{
  Lib, Msg, Question, Rr, rr_a, rr_aaaa, Answer, reply, refused, type_a, type_aaaa, class_inet,
  trim_right_dots, set_msg_ttl, cache_ttl, is_ip_request, handle_msg_with_empty_answer, addresses,
  msg_to_domain, put_msg_to_cache,
}
use rule_base_proxy.Dns.Exchange.{
  Env, Client, Resolver, ipnet_filter, accept, first_reply, first_error, batch_exchange, any_ip,
  match_ip, is_trusted, ip_exchange, should_only_query_fallback, match_policy, query_clients,
  dns_msg_add, exchange, exchange_without_cache, giga,
}
use rule_base_proxy.Dns.Caching.{exchange-exchange}
use rule_base_proxy.Dns.Upstreams.{Trusted, ip_exchange-Trusted}
use rule_base_proxy.Dns.Middleware.{
  Server, Setup, Context, unset_type, raw_type, with_pre_handle, with_mapping, remember,
  map_answers, map_record, map_address, dns_map_add, finish,
}
use rule_base_proxy.Dns.Handlers.{
  dual_run, with_resolver, new_handler, handler_with_context, compose, middlewares,
}
use rule_base_proxy.Dns.Merging.{SetsCode, records, with_resolver-dual_query}
use rule_base_proxy.Dns.Parallel.{done, look_up, ask_upstream, step_exchange, step_pair, run_pair}
use rule_base_proxy.Dns.Chain.{new_handler-find_in_mapping}
use rule_base_proxy.Tunnel.Prehandle.{handled, names_target, pre_handle}
use rule_base_proxy.Tunnel.MappedTargets.{pre_handle-new_handler}
use rule_base_proxy.Rule.Metadata.{Metadata, tcp, type_redir, atyp_ipv4, atyp_domain_name}
use rule_base_proxy.Dns.Remembering.{IsKept}
use rule_base_proxy.Tests.Dns.{host}

program : Unit {0}
unfolding contains_ip same_prefix network_number find remove apply_setting apply_settings
    new_lru_cache has_key delete_key element delete_element delete_front delete_expired
    maybe_delete_oldest store_entry set_with_expire set is_expired get_entry get get_with_expire
    lookup_host new_pool to4 new_process_cache trim_right_dots set_msg_ttl cache_ttl is_ip_request
    handle_msg_with_empty_answer addresses msg_to_domain put_msg_to_cache accept first_reply
    first_error batch_exchange any_ip match_ip is_trusted ip_exchange should_only_query_fallback
    match_policy query_clients dns_msg_add exchange exchange_without_cache text_eq look_up
    ask_upstream step_exchange step_pair run_pair dual_run with_resolver new_handler
    handler_with_context compose middlewares with_pre_handle with_mapping remember map_answers
    map_record map_address dns_map_add finish
program = tt

-- "foo.com."
abbrev name : Text
name = host ++ b'.' ∷ []

abbrev for_a : Question
for_a = record { name = name; qtype = type_a; qclass = class_inet }

abbrev for_aaaa : Question
for_aaaa = record { name = name; qtype = type_aaaa; qclass = class_inet }

abbrev plain : Question → List Rr → Msg
plain q answer = record {
  question = q ∷ [];
  answer = answer;
  ns = [];
  extra = [];
  rcode = 0;
  authoritative = false;
  recursion_available = false;
}

-- A library that copies the return code and keys a question by its name and type.
abbrev lib : Lib
lib = record {
  set_rcode = λ m r code. record m { rcode = code };
  ask = λ s t. plain (record { name = s; qtype = t; qclass = class_inet }) [];
  key_of = λ q. q.qtype ∷ q.name;
}

abbrev env : Env
env = record { lib = lib; order = λ l. l; country = λ ip. []; parse_ip = λ s. none; pick = λ n. 0 }

abbrev at : Ip → Rr
at ip = rr_a (record { name = name; rrtype = type_a; class = class_inet; ttl = 60 }) ip

abbrev public_six : Ip
public_six = 32 ∷ 1 ∷ 13 ∷ 184 ∷ 0 ∷ 0 ∷ 0 ∷ 0 ∷ 0 ∷ 0 ∷ 0 ∷ 0 ∷ 0 ∷ 0 ∷ 0 ∷ 1 ∷ []

abbrev public : Ip
public = 1 ∷ 2 ∷ 3 ∷ 4 ∷ []

abbrev answered : Msg
answered = plain for_a (at public ∷ [])

abbrev knowing : Client
knowing = λ m. reply answered

abbrev failing : Client
failing = λ m. refused (codes "timeout")

abbrev resolver : List Client → Resolver
resolver clients = record {
  ipv6 = true;
  main = clients;
  fallback = some (knowing ∷ []);
  fallback_domain_filters = [];
  fallback_ip_filters =
      ipnet_filter (record { base = 127 ∷ 0 ∷ 0 ∷ 0 ∷ []; ones = 8; bits = 32 }) ∷ [];
  policy = none;
  lru_cache = new_lru_cache (with_size 4096 ∷ with_stale true ∷ []);
  refreshing = [];
  saved = [];
}

abbrev query : Msg
query = plain for_a []

cache-IsValid : IsValid (resolver []).lru_cache
cache-IsValid = new_lru_cache-IsValid (with_size 4096 ∷ with_stale true ∷ [])

abbrev second : ℕ
second = 1_000_000_000

abbrev first_run : Resolver × Answer
first_run = exchange env (7 * second) (resolver (failing ∷ knowing ∷ [])) query

exchange-exchange_example :
    (t : ℕ) × ((exchange env (27 * second) first_run.0 query).1 ≡ reply (set_msg_ttl answered t))
    × (27 * second ≤ (7 * second / giga + 60) * giga
        → (t ≤ 60) × (t ≡ ((7 * second / giga + 60) * giga - 27 * second) / giga))
    × ((7 * second / giga + 60) * giga < 27 * second → t ≡ 2)
unfolding program
exchange-exchange_example =
    exchange-exchange env (7 * second) (27 * second) (resolver (failing ∷ knowing ∷ [])) for_a query
      answered [] 60 (record { valid = cache-IsValid; ageless = refl }) refl refl refl refl
      (omega arith) (omega arith)

ip_exchange-Trusted_example :
    (batch_exchange env (knowing ∷ []) query ≡ reply answered)
    ⊎ ((batch_exchange env (knowing ∷ []) query ≡ reply answered)
        × Trusted env (resolver (knowing ∷ [])) answered)
unfolding program
ip_exchange-Trusted_example =
    ip_exchange-Trusted env (resolver (knowing ∷ [])) query answered (knowing ∷ []) refl refl refl

abbrev names : Cache Text Text
names = new_lru_cache (with_size 4096 ∷ with_stale true ∷ [])

abbrev mapper : Enhancer
mapper = record { mode = mapping; fake_pool = none; host_mapping = some names }

abbrev rules_state : State
rules_state = record { now = 0; later = 0; processes = new_process_cache }

abbrev server : List Client → Server
server clients = record {
  resolver = resolver clients;
  mapper = mapper;
  rules = rules_state;
  blocked = λ s. none;
  told = [];
}

abbrev setup : Setup
setup = record {
  env = env;
  world = record { country = λ ip. []; process_name = λ n ip p. [] };
  add = λ f k b s. if text_eq k s then some b else f s;
  now = 7 * second;
  schedule = [];
  six_first = false;
  hosts = none;
  adguard_rules = [];
}

abbrev remote : Text
remote = codes "10.0.0.9:5353"

abbrev six : Msg
six = plain for_aaaa (
    rr_aaaa (record { name = name; rrtype = type_aaaa; class = class_inet; ttl = 60 }) public_six
    ∷ [])

abbrev for_both : Client
for_both m = elim m.question [
  | [] ↦ refused []
  | q ∷ _ ↦ if q.qtype == type_a then reply answered else reply six
]

abbrev plain_resolver : Client → Resolver
plain_resolver c = record (resolver (c ∷ [])) { fallback = none }

-- The query for AAAA has two steps before the other one begins, and its result arrives first.
abbrev raced : Setup
raced = record setup { schedule = true ∷ true ∷ false ∷ []; six_first = true }

abbrev context : Context
context = record { kind = unset_type; host = host; remote = remote }

abbrev after_both : Resolver
after_both = (dual_run raced (plain_resolver for_both) query).0

sets-SetsCode : SetsCode lib
sets-SetsCode = λ msg r code. (refl, refl)

ran :
    dual_run raced (plain_resolver for_both) query
    ≡ (after_both, done (reply answered), done (reply six))
unfolding program
ran = refl

with_resolver-dual_query_example :
    (msg : Msg) × (with_resolver raced
        (record (server []) { resolver = plain_resolver for_both })
        context
        query
      ≡ some (
        record (server []) { resolver = after_both },
        record context { kind = raw_type },
        reply msg,
      ))
    × (msg.answer ≡ records (reply answered) ++ records (reply six))
    × (msg.rcode ≡ 0)
with_resolver-dual_query_example =
    with_resolver-dual_query raced (record (server []) { resolver = plain_resolver for_both })
      context query for_a [] after_both (reply answered) (reply six) sets-SetsCode refl refl refl
      ran (for_a, [], refl, refl, refl) (for_aaaa, [], refl, (λ h. cc), refl)

-- Where every upstream server fails, the two results are errors.
both_fail : dual_run raced (plain_resolver failing) query ≡ (
  plain_resolver failing,
  done (refused (codes "all DNS requests failed, first error: timeout")),
  done (refused (codes "all DNS requests failed, first error: timeout")),
)
unfolding program
both_fail = refl

names-IsKept : IsKept (names, [])
unfolding program
names-IsKept = record {
  valid = new_lru_cache-IsValid (with_size 4096 ∷ with_stale true ∷ []);
  ageless = refl;
  bounded = omega arith;
}

abbrev only_four : Server
only_four = record (server []) { resolver = record (plain_resolver for_both) { ipv6 = false } }

abbrev asked : Option (Server × Context × Answer)
asked = handler_with_context (new_handler setup only_four.resolver mapper) only_four remote query

abbrev outcome_of : Option (Server × Context × Answer) → Server × Context × Answer
outcome_of o = get_or_else o (only_four, context, refused [])

abbrev sent : Msg
sent = record answered { authoritative = true; recursion_available = true }

answers : asked ≡ some ((outcome_of asked).0, (outcome_of asked).1, reply sent)
unfolding program
answers = refl

new_handler-find_in_mapping_example :
    (c' : Cache Text Text) × ((outcome_of asked).0.mapper
      ≡ record mapper { host_mapping = some c' })
    × IsKept (c', (outcome_of asked).0.told)
    × ((find_in_mapping 9 (outcome_of asked).0.mapper public).1 ≡ some (trim_right_dots name))
unfolding program
new_handler-find_in_mapping_example =
    new_handler-find_in_mapping setup 9 only_four (outcome_of asked).0 (outcome_of asked).1 remote
      query sent for_a [] names [] (at public) public refl refl refl refl names-IsKept refl refl
      answers refl refl

abbrev connection : Metadata
connection = record {
  network = tcp;
  kind = type_redir;
  src_ip = some (127 ∷ 0 ∷ 0 ∷ 1 ∷ []);
  dst_ip = some public;
  src_port = codes "4000";
  dst_port = codes "443";
  addr_type = atyp_ipv4;
  host = [];
}

pre_handle-new_handler_example :
    (h : Enhancer) × (pre_handle
        (λ s. none)
        (λ s. none)
        9
        (some (outcome_of asked).0.mapper)
        connection
      ≡ some (
        some h,
        handled (record connection {
          host = trim_right_dots name;
          addr_type =
              if names_target connection.kind then connection.addr_type else atyp_domain_name;
        }),
      ))
unfolding program
pre_handle-new_handler_example =
    pre_handle-new_handler setup 9 only_four (outcome_of asked).0 (outcome_of asked).1 remote query
      sent for_a [] names [] (at public) public (λ s. none) (λ s. none) connection refl refl refl
      refl refl names-IsKept refl refl answers refl refl refl refl refl
