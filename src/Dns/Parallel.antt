-- ===== src/Dns/Parallel.antt =====
-- Two calls of `ExchangeContext` (dns/resolver.go) that run side by side, as `dualQuery` of
-- dns/middleware.go starts them. A call takes a step for each access to what they share: the cache,
-- which has a lock of its own, and the queue of answers to save.
use rule_base_proxy.Common.{
  Bool, List, [], codes, if◌then◌else◌, ltb, none, some, ℕ, ◌%◌, ◌*◌, ◌++◌, ◌-◌, ◌/◌, ◌^◌, ◌∷◌,
}
use rule_base_proxy.LruCache.Cache.{get_with_expire}
use rule_base_proxy.Rule.Matching.{text_Eq}
use rule_base_proxy.Dns.Messages.{
  Msg, Question, Answer, reply, refused, put_msg_to_cache, set_msg_ttl,
}
use rule_base_proxy.Dns.Exchange.{Env, Resolver, query_clients, dns_msg_add, giga}

-- How far a call has come: not begun, not found in the cache, put into the cache, returned.
pub data Progress : Type 0 where
  started : Progress
  missed : Question → Progress
  stored : Question → Msg → Progress
  done : Answer → Progress

-- The look-up of `ExchangeContext`.
unfoldable pub look_up : Env → ℕ → Msg → Resolver → Resolver × Progress
look_up env now m r = elim m.question [
  | [] ↦ (r, done (refused (codes "should have one question at least")))
  | q ∷ _ ↦
      let found = get_with_expire (now / giga) (now / giga) r.lru_cache (env.lib.key_of q) in
      let r' : Resolver = record r { lru_cache = found.0 } in
      elim found.1 [
        | none ↦ (r', missed q)
        | some (msg, expires) ↦
            if ltb (expires * giga) now
            then (
              record r' { refreshing = r'.refreshing ++ m ∷ [] },
              done (reply (set_msg_ttl msg 2)),
            )
            else (r', done (reply (set_msg_ttl msg ((expires * giga - now) / giga % 2 ^ 32))))
      ]
]

-- `exchangeWithoutCache` up to `putMsgToCache`.
unfoldable pub ask_upstream : Env → ℕ → Msg → Question → Resolver → Resolver × Progress
ask_upstream env now m q r = elim (query_clients env r q m) [
  | refused e ↦ (r, done (refused e))
  | reply msg ↦ (
    record r { lru_cache = put_msg_to_cache (now / giga) r.lru_cache (env.lib.key_of q) msg },
    stored q msg,
  )
]

unfoldable pub step_exchange : Env → ℕ → Msg → Resolver → Progress → Resolver × Progress
step_exchange env now m r started = look_up env now m r
step_exchange env now m r (missed q) = ask_upstream env now m q r
step_exchange env now m r (stored q msg) =
    (record r { saved = dns_msg_add (env.lib.key_of q) msg r.saved }, done (reply msg))
step_exchange env now m r (done a) = (r, done a)

-- The resolver with the two calls on it, and a step of the second of them or of the first.
abbrev pub Pair : Type 0
Pair = Resolver × Progress × Progress

unfoldable pub step_pair : Env → ℕ → Msg → Msg → Bool → Pair → Pair
step_pair env now m m' second (r, p, p') =
    if second
    then (let (r', after) = step_exchange env now m' r p' in (r', p, after))
    else (let (r', after) = step_exchange env now m r p in (r', after, p'))

unfoldable pub run_pair : Env → ℕ → Msg → Msg → List Bool → Pair → Pair
run_pair env now m m' [] st = st
run_pair env now m m' (second ∷ l) st = run_pair env now m m' l (step_pair env now m m' second st)
