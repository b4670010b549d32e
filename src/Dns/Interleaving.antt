-- ===== src/Dns/Interleaving.antt =====
-- The two calls of `ExchangeContext` that `dualQuery` (dns/middleware.go) runs side by side: each
-- ends, whatever the order of their steps.
use rule_base_proxy.Common.{
  Bool, Bool-cases, List, List-cases, Option-cases, [], arith, false, inl, inr, ltb, refl, suc,
  true, ℕ, ◌*◌, ◌/◌, ◌∷◌, ◌≡◌,
}
use rule_base_proxy.LruCache.Cache.{get_with_expire}
use rule_base_proxy.Rule.Matching.{text_Eq}
use rule_base_proxy.Dns.Messages.{Msg}
use rule_base_proxy.Dns.Exchange.{
  Env, Resolver, exchange, exchange_without_cache, query_clients, giga,
}
use rule_base_proxy.Dns.Caching.{Answer-cases}
use rule_base_proxy.Dns.Parallel.{
  Progress, started, missed, stored, done, look_up, ask_upstream, step_exchange, step_pair,
  run_pair,
}

-- The steps that a call still takes, at most.
unfoldable left : Progress → ℕ
left started = 3
left (missed q) = 2
left (stored q msg) = 1
left (done a) = 0

-- How many steps a schedule gives to one of the calls.
unfoldable turns : Bool → List Bool → ℕ
turns who [] = 0
turns true (true ∷ l) = suc (turns true l)
turns true (false ∷ l) = turns true l
turns false (true ∷ l) = turns false l
turns false (false ∷ l) = suc (turns false l)

-- A call with no other beside it.
exchange_alone :
    (env : Env) (now : ℕ) (m m' : Msg) (r : Resolver) (p' : Progress)
    → run_pair env now m m' (false ∷ false ∷ false ∷ []) (r, started, p')
      ≡ ((exchange env now r m).0, done (exchange env now r m).1, p')
unfolding run_pair step_pair step_exchange look_up ask_upstream exchange exchange_without_cache
exchange_alone env now m m' r p' = elim (List-cases m.question) [
  | inl e ↦ rw (e, run_pair, exchange) refl
  | inr (q, qs, e) ↦
      let found = get_with_expire (now / giga) (now / giga) r.lru_cache (env.lib.key_of q) in
      let r' : Resolver = record r { lru_cache = found.0 } in
      elim (Option-cases found.1) [
        | inl e' ↦ elim (Answer-cases (query_clients env r' q m)) [
          | inl (x, h) ↦ ground (arith, e, e', h)
          | inr (msg, h) ↦ ground (arith, e, e', h)
        ]
        | inr ((msg, expires), e') ↦ elim (Bool-cases (ltb (expires * giga) now)) [
          | inl t ↦ ground (arith, e, e', t)
          | inr f ↦ ground (arith, e, e', f)
        ]
      ]
]
