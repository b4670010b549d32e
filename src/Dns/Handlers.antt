-- ===== src/Dns/Handlers.antt =====
-- The handler of the DNS server: the middleware over the fake IP pool, the endpoint over the
-- resolver and their composition (dns/middleware.go), and `handlerWithContext` of dns/server.go.
use rule_base_proxy.Common.{
  Bool, List, Option, Text, [], codes, empty, false, if◌then◌else◌, none, not, some, true, ℕ, ◌&&◌,
  ◌++◌, ◌==◌, ◌>>=◌, ◌||◌, ◌∷◌,
}
use rule_base_proxy.Net.{Ip}
use rule_base_proxy.FakeIp.Pool.{lookup, lookup_host}
use rule_base_proxy.Dns.Enhancer.{Enhancer, fake_ip, is_normal}
use rule_base_proxy.Dns.Messages.{
  Lib, Msg, Question, rr_a, Answer, reply, refused, type_a, type_aaaa, type_svcb, type_https,
  rcode_success, set_msg_ttl, handle_msg_with_empty_answer,
}
use rule_base_proxy.Dns.Exchange.{Resolver, exchange}
use rule_base_proxy.Dns.Parallel.{Progress, started, missed, stored, done, Pair, run_pair}
use rule_base_proxy.Dns.Middleware.{
  Server, Setup, Context, Result, Handler, Middleware, unset_type, fake_ip_type, raw_type,
  with_pre_handle, with_hosts, with_adgurd, with_mapping, finish, new_header,
}

-- The answer that `withFakeIP` makes of an address of the pool.
unfoldable pub fake_answer : Lib → Msg → Question → Ip → Msg
fake_answer lib r q ip =
    finish lib (set_msg_ttl (record r { answer = rr_a (new_header q type_a) ip ∷ [] }) 1) r
      rcode_success

-- The pool is the one of the mapper; a nil one is a panic.
unfoldable pub with_fake_ip : Lib → Middleware
with_fake_ip lib next s ctx r = elim r.question [
  | [] ↦ none
  | q ∷ _ ↦ s.mapper.fake_pool >>= λ pool.
      if lookup_host pool ctx.host
      then next s ctx r
      else if q.qtype == type_aaaa || (q.qtype == type_svcb || q.qtype == type_https)
      then some (s, ctx, reply (handle_msg_with_empty_answer lib r))
      else if not (q.qtype == type_a)
      then next s ctx r
      else (lookup pool ctx.host >>= λ found. some (
        record s { mapper = record (s.mapper) { fake_pool = some found.0 } },
        record ctx { kind = fake_ip_type },
        reply (fake_answer lib r q found.1),
      ))
]

-- A query with the type of its first question changed.
abbrev pub as_type : ℕ → Msg → Msg
as_type type m = elim m.question [
  | [] ↦ m
  | q ∷ qs ↦ record m { question = record q { qtype = type } ∷ qs }
]

-- The message of a result, sorted by the type of its question: for A, or not.
abbrev pub answers_a : Answer → Bool
answers_a (refused e) = false
answers_a (reply msg) = elim msg.question [ q ∷ _ ↦ q.qtype == type_a | [] ↦ false ]

abbrev pub answers_other : Answer → Bool
answers_other (refused e) = false
answers_other (reply msg) = elim msg.question [ q ∷ _ ↦ not (q.qtype == type_a) | [] ↦ false ]

abbrev pub message : Answer → Option Msg
message (refused e) = none
message (reply msg) = some msg

-- The loop that collects two results: the later one of a kind stays.
unfoldable pub a_result : Answer → Answer → Option Msg
a_result one two =
    if answers_a two then message two else if answers_a one then message one else none

unfoldable pub aaaa_result : Answer → Answer → Option Msg
aaaa_result one two =
    if answers_other two then message two else if answers_other one then message one else none

abbrev pub succeeds : Option Msg → Bool
succeeds none = false
succeeds (some msg) = msg.rcode == rcode_success

-- `finalMsg`
unfoldable pub merge : Option Msg → Option Msg → Option Msg
merge four six =
    if succeeds four
    then elim four [
      | none ↦ none
      | some msg ↦ elim six [
        | none ↦ some msg
        | some more ↦
            if empty more.answer
            then some msg
            else some (record msg {
              answer = msg.answer ++ more.answer;
              ns = msg.ns ++ more.ns;
              extra = msg.extra ++ more.extra;
            })
      ]
    ]
    else if succeeds six
    then six
    else four

unfoldable pub merge_answers : Lib → Msg → Answer → Answer → Answer
merge_answers lib r one two = elim (merge (a_result one two) (aaaa_result one two)) [
  | none ↦ reply (handle_msg_with_empty_answer lib r)
  | some msg ↦ reply (finish lib msg r msg.rcode)
]

abbrev pub outcome : Progress → Answer
outcome started = refused []
outcome (missed q) = refused []
outcome (stored q msg) = refused []
outcome (done a) = a

-- The two calls of `dualQuery` after the schedule, which both end: the collecting loop waits for
-- both results, so that whatever the schedule has left of either still runs.
unfoldable pub dual_run : Setup → Resolver → Msg → Pair
dual_run u res r =
    run_pair u.env u.now r (as_type type_aaaa r)
      (u.schedule ++ false ∷ false ∷ false ∷ true ∷ true ∷ true ∷ []) (res, started, started)

-- `dualQuery`, with the results in the order in which they arrive.
unfoldable pub dual_query : Setup → Resolver → Msg → Resolver × Answer
dual_query u res r =
    let (res', four, six) = dual_run u res r in
    (
      res',
      if u.six_first
          then merge_answers u.env.lib r (outcome six) (outcome four)
          else merge_answers u.env.lib r (outcome four) (outcome six),
    )

-- The endpoint.
unfoldable pub with_resolver : Setup → Handler
with_resolver u s ctx r =
    let raw : Context = record ctx { kind = raw_type } in
    elim r.question [
      | [] ↦ none
      | q ∷ _ ↦
          if not s.resolver.ipv6 && q.qtype == type_aaaa
          then some (s, raw, reply (handle_msg_with_empty_answer u.env.lib r))
          else if s.resolver.ipv6 && q.qtype == type_a
          then (let (res, answer) = dual_query u s.resolver r in
              some (record s { resolver = res }, raw, answer))
          else (let (res, answer) = exchange u.env u.now s.resolver r in
              some (
                record s { resolver = res },
                raw,
                elim answer [
                  | refused e ↦ refused e
                  | reply msg ↦ reply (finish u.env.lib msg r msg.rcode)
                ],
              ))
    ]

unfoldable pub compose : List Middleware → Handler → Handler
compose [] endpoint = endpoint
compose (m ∷ ms) endpoint = m (compose ms endpoint)

-- The middlewares of `newHandler`, from the outermost to the innermost.
unfoldable pub middlewares : Setup → Resolver → Enhancer → List Middleware
middlewares u res mapper =
    with_pre_handle
    ∷ (elim u.hosts [ some hosts ↦ with_hosts u.env.lib hosts res.ipv6 ∷ [] | none ↦ [] ]
        ++ ((if empty u.adguard_rules then [] else with_adgurd u ∷ [])
            ++ (elim mapper.mode [ fake_ip ↦ with_fake_ip u.env.lib ∷ [] | _ ↦ [] ]
                ++ (if is_normal mapper.mode then [] else with_mapping u.now ∷ []))))

unfoldable pub new_handler : Setup → Resolver → Enhancer → Handler
new_handler u res mapper = compose (middlewares u res mapper) (with_resolver u)

-- `handlerWithContext`: no question is an error, not a panic.
unfoldable pub handler_with_context : Handler → Server → Text → Msg → Result
handler_with_context h s remote msg =
    let ctx : Context = record { kind = unset_type; host = []; remote = remote } in
    if empty msg.question
    then some (s, ctx, refused (codes "at least one question is required"))
    else h s ctx msg
