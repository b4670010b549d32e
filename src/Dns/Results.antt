-- ===== src/Dns/Results.antt =====
-- What the two calls of `ExchangeContext` (dns/resolver.go) that `dualQuery` of dns/middleware.go
-- runs side by side come to.
use rule_base_proxy.Common.{
  Bool, Bool-cases, List, List-cases, Option-cases, Text, [], ap, false, inl, inr, ltb, refl, sym,
  true, ℕ, ◌%◌, ◌*◌, ◌++◌, ◌-◌, ◌/◌, ◌^◌, ◌∙◌, ◌∷◌, ◌≡◌, ◌⊎◌,
}
use rule_base_proxy.LruCache.Cache.{Cache, get_with_expire}
use rule_base_proxy.Rule.Matching.{text_Eq}
use rule_base_proxy.Dns.Messages.{put_msg_to_cache, reply, set_msg_ttl, Msg, Question, Answer}
use rule_base_proxy.Dns.Exchange.{
  dns_msg_add, ip_exchange, match_policy, should_only_query_fallback, is_trusted, Env, Resolver,
  query_clients, giga,
}
use rule_base_proxy.Dns.Caching.{Answer-cases}
use rule_base_proxy.Dns.Parallel.{
  Progress, started, missed, stored, done, look_up, ask_upstream, step_exchange, step_pair,
  run_pair,
}

-- The resolver with another cache and other queues.
abbrev SameClients : Resolver → Resolver → Type 0
SameClients r r' =
    (cache : Cache Text Msg) × (refreshing : List Msg) × (saved : List (Text × Msg)) × (r'
      ≡ record r { lru_cache = cache; refreshing = refreshing; saved = saved })

query_clients-SameClients :
    (env : Env) (r r' : Resolver) (q : Question) (m : Msg)
    → SameClients r r'
    → query_clients env r' q m ≡ query_clients env r q m
unfolding query_clients ip_exchange match_policy should_only_query_fallback is_trusted
query_clients-SameClients env r r' q m (cache, refreshing, saved, is) =
    ap (λ x. query_clients env x q m) is

module _ (env : Env) (now : ℕ) (r : Resolver) where
  -- A result for a query: an error only if there is no question or the upstream servers gave it, a
  -- message of the upstream servers, or one of the cache with another time to live.
  abbrev pub IsResult : Msg → Answer → Type 0
  IsResult m a =
      (m.question ≡ [])
      ⊎ ((q : Question) × (qs : List Question) × (m.question ≡ q ∷ qs)
          × ((a ≡ query_clients env r q m)
              ⊎ ((msg : Msg) × (t : ℕ) × (a ≡ reply (set_msg_ttl msg t)))))

  abbrev pub IsOnWay : Msg → Progress → Type 0
  IsOnWay m started = Unit
  IsOnWay m (missed q) = (qs : List Question) × (m.question ≡ q ∷ qs)
  IsOnWay m (stored q msg) =
      (qs : List Question) × (m.question ≡ q ∷ qs) × (query_clients env r q m ≡ reply msg)
  IsOnWay m (done a) = IsResult m a

  look_up-IsOnWay :
      (m : Msg) (r' : Resolver)
      → SameClients r r'
      → SameClients r (look_up env now m r').0 × IsOnWay m (look_up env now m r').1
  unfolding look_up
  look_up-IsOnWay m r' (c, f, v, is) = elim (List-cases m.question) [
    | inl e ↦ rw (look_up, e) ((c, f, v, is), inl refl)
    | inr (q, qs, e) ↦
        let got = get_with_expire (now / giga) (now / giga) r'.lru_cache (env.lib.key_of q) in
        elim (Option-cases got.1) [
          | inl away ↦
              rw (look_up, e, away)
                (
                  (got.0, f, v, ap (λ (x : Resolver). record x { lru_cache = got.0 }) is),
                  (qs, refl),
                )
          | inr ((msg, expires), at) ↦ elim (Bool-cases (ltb (expires * giga) now)) [
            | inl t ↦
                rw (look_up, e, at, t)
                  (
                    (
                      got.0,
                      r'.refreshing ++ m ∷ [],
                      v,
                      ap
                          (λ (x : Resolver). record x {
                            lru_cache = got.0;
                            refreshing = r'.refreshing ++ m ∷ [];
                          })
                          is,
                    ),
                    inr (q, qs, refl, inr (msg, 2, refl)),
                  )
            | inr t ↦
                rw (look_up, e, at, t)
                  (
                    (got.0, f, v, ap (λ (x : Resolver). record x { lru_cache = got.0 }) is),
                    inr (q, qs, refl, inr (msg, (expires * giga - now) / giga % 2 ^ 32, refl)),
                  )
          ]
        ]
  ]

  ask_upstream-IsOnWay :
      (m : Msg) (q : Question) (qs : List Question) (r' : Resolver)
      → m.question ≡ q ∷ qs
      → SameClients r r'
      → SameClients r (ask_upstream env now m q r').0 × IsOnWay m (ask_upstream env now m q r').1
  unfolding ask_upstream
  ask_upstream-IsOnWay m q qs r' e (c, f, v, is) =
      let same : query_clients env r' q m ≡ query_clients env r q m =
        query_clients-SameClients env r r' q m (c, f, v, is) in
      elim (Answer-cases (query_clients env r' q m)) [
        | inl (x, h) ↦ rw (ask_upstream, h) ((c, f, v, is), inr (q, qs, e, inl (sym h ∙ same)))
        | inr (msg, h) ↦
            let c' = put_msg_to_cache (now / giga) r'.lru_cache (env.lib.key_of q) msg in
            rw (ask_upstream, h)
              (
                (c', f, v, ap (λ (x : Resolver). record x { lru_cache = c' }) is),
                (qs, e, sym same ∙ h),
              )
      ]

  step_exchange-IsOnWay :
      (m : Msg) (r' : Resolver) (p : Progress)
      → SameClients r r'
      → IsOnWay m p
      → SameClients r (step_exchange env now m r' p).0 × IsOnWay m (step_exchange env now m r' p).1
  unfolding step_exchange
  step_exchange-IsOnWay m r' started same k = look_up-IsOnWay m r' same
  step_exchange-IsOnWay m r' (missed q) same (qs, e) = ask_upstream-IsOnWay m q qs r' e same
  step_exchange-IsOnWay m r' (stored q msg) (c, f, v, is) (qs, e, got) =
      let v' = dns_msg_add (env.lib.key_of q) msg r'.saved in
      ((c, f, v', ap (λ (x : Resolver). record x { saved = v' }) is), inr (q, qs, e, inl (sym got)))
  step_exchange-IsOnWay m r' (done a) same k = (same, k)

  pub run_pair-IsOnWay :
      (m m' : Msg) (l : List Bool) (r' : Resolver) (p p' : Progress)
      → SameClients r r'
      → IsOnWay m p
      → IsOnWay m' p'
      → IsOnWay m (run_pair env now m m' l (r', p, p')).1
        × IsOnWay m' (run_pair env now m m' l (r', p, p')).2
  unfolding run_pair step_pair
  run_pair-IsOnWay m m' [] r' p p' same k k' = (k, k')
  run_pair-IsOnWay m m' (true ∷ l) r' p p' same k k' =
      let (same', after) = step_exchange-IsOnWay m' r' p' same k' in
      run_pair-IsOnWay m m' l _ p _ same' k after
  run_pair-IsOnWay m m' (false ∷ l) r' p p' same k k' =
      let (same', after) = step_exchange-IsOnWay m r' p same k in
      run_pair-IsOnWay m m' l _ _ p' same' after k'
