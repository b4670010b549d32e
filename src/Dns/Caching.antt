-- ===== src/Dns/Caching.antt =====
-- What the resolver (dns/resolver.go) keeps of an answer, and how long.
use rule_base_proxy.Common.{
  List, Text, ap, arith, if◌then◌else◌, inl, inr, ltb, none, refl, some, sym, ℕ, ◌%◌, ◌*◌, ◌+◌, ◌-◌,
  ◌/◌, ◌<◌, ◌^◌, ◌∙◌, ◌∷◌, ◌≡◌, ◌≤◌, ◌⊎◌,
}
use rule_base_proxy.LruCache.Entries.{find}
use rule_base_proxy.LruCache.Cache.{set_with_expire, get_with_expire}
use rule_base_proxy.LruCache.Expiry.{
  get_with_expire_miss, find-set_with_expire, get_with_expire-value,
}
use rule_base_proxy.LruCache.Settings.{set_with_expire-SameSettings}
use rule_base_proxy.LruCache.Valid.{set_with_expire-IsValid, IsValid}
use rule_base_proxy.Rule.Matching.{text_Eq}
use rule_base_proxy.Dns.Messages.{
  Answer, refused, cache_ttl, put_msg_to_cache, Msg, Question, reply, set_msg_ttl,
}
use rule_base_proxy.Dns.Exchange.{
  query_clients, exchange_without_cache, Env, Resolver, exchange, giga,
}

-- The cache of a resolver: valid, with no age.
pub record IsStore (r : Resolver) : Type 0 where
  pub valid : IsValid r.lru_cache
  pub ageless : r.lru_cache.max_age ≡ 0

-- A query whose answer is in the cache with its end.
exchange_hit :
    (env : Env) (now : ℕ) (r : Resolver) (q : Question) (m msg : Msg) (qs : List Question)
    (expires : ℕ)
    → IsStore r
    → m.question ≡ q ∷ qs
    → find (env.lib.key_of q) r.lru_cache.lru
      ≡ some (record { key = env.lib.key_of q; value = msg; expires = expires })
    → (exchange env now r m).1
      ≡ reply (
          set_msg_ttl msg
            (if ltb (expires * giga) now then 2 else (expires * giga - now) / giga % 2 ^ 32))
unfolding exchange
exchange_hit env now r q m msg qs expires s asks at =
    let key = env.lib.key_of q in
    let got : (get_with_expire (now / giga) (now / giga) r.lru_cache key).1 ≡ some (msg, expires) =
      rw (get_with_expire-value (now / giga) (now / giga) r.lru_cache key s.valid s.ageless, at) in
    rw (asks, exchange, got) (ground arith)

exchange_miss :
    (env : Env) (now : ℕ) (r : Resolver) (q : Question) (m : Msg) (qs : List Question)
    → IsStore r
    → m.question ≡ q ∷ qs
    → find (env.lib.key_of q) r.lru_cache.lru ≡ none
    → exchange env now r m ≡ exchange_without_cache env now r q m
unfolding exchange
exchange_miss env now r q m qs s asks away =
    let gone =
      get_with_expire_miss (now / giga) (now / giga) r.lru_cache (env.lib.key_of q) s.valid away in
    ground (arith, asks, gone)

pub Answer-cases : (x : Answer) → ((e : Text) × (x ≡ refused e)) ⊎ ((msg : Msg) × (x ≡ reply msg))
Answer-cases (refused e) = inl (e, refl)
Answer-cases (reply msg) = inr (msg, refl)

-- A fresh answer is put into the cache until the moment that its time to live names.
exchange_stored :
    (env : Env) (now : ℕ) (r : Resolver) (q : Question) (m msg : Msg) (ttl : ℕ)
    → IsStore r
    → cache_ttl msg ≡ some ttl
    → (exchange_without_cache env now r q m).1 ≡ reply msg
    → IsStore (exchange_without_cache env now r q m).0
      × (find (env.lib.key_of q) (exchange_without_cache env now r q m).0.lru_cache.lru
          ≡ some (record { key = env.lib.key_of q; value = msg; expires = now / giga + ttl }))
unfolding exchange_without_cache put_msg_to_cache
exchange_stored env now r q m msg ttl s lives got = elim (Answer-cases (query_clients env r q m)) [
  | inl (e, x) ↦ absurd (ground (arith, x, got))
  | inr (msg', x) ↦
      let same : msg' ≡ msg = ground (arith, x, got) in
      let c = set_with_expire (now / giga) r.lru_cache (env.lib.key_of q) msg (now / giga + ttl) in
      let at = now / giga + ttl in
      let key = env.lib.key_of q in
      rw (x ∙ ap reply same, lives, exchange_without_cache, put_msg_to_cache)
        (
          record {
            valid = set_with_expire-IsValid (now / giga) r.lru_cache key msg at s.valid;
            ageless =
                (set_with_expire-SameSettings (now / giga) r.lru_cache key msg at).age ∙ s.ageless;
          },
          find-set_with_expire (now / giga) r.lru_cache key msg at s.valid s.ageless,
        )
]

-- A fresh answer to a question is what a later query for it gets from the cache, every time to
-- live replaced. Until the first record's time to live is over, counted from the full second of
-- the answer, the new one is what is left of it in full seconds, so never more than the first;
-- after that it is 2.
pub exchange-exchange :
    (env : Env) (now later : ℕ) (r : Resolver) (q : Question) (m msg : Msg) (qs : List Question)
    (ttl : ℕ)
    → IsStore r
    → m.question ≡ q ∷ qs
    → find (env.lib.key_of q) r.lru_cache.lru ≡ none
    → (exchange env now r m).1 ≡ reply msg
    → cache_ttl msg ≡ some ttl
    → ttl < 2 ^ 32
    → now ≤ later
    → (t : ℕ) × ((exchange env later (exchange env now r m).0 m).1 ≡ reply (set_msg_ttl msg t))
      × (later ≤ (now / giga + ttl) * giga
          → (t ≤ ttl) × (t ≡ ((now / giga + ttl) * giga - later) / giga))
      × ((now / giga + ttl) * giga < later → t ≡ 2)
exchange-exchange env now later r q m msg qs ttl s asks away got lives word after =
    let missed = exchange_miss env now r q m qs s asks away in
    let (s', at) =
      exchange_stored env now r q m msg ttl s lives
        (sym (ap (λ (x : Resolver × Answer). x.1) missed) ∙ got) in
    let hit =
      exchange_hit env later (exchange_without_cache env now r q m).0 q m msg qs (now / giga + ttl)
        s' asks at in
    rw missed (_, hit, λ h. ground arith, λ h. ground arith)
