-- ===== src/Dns/Upstreams.antt =====
-- Whose answer the resolver (dns/resolver.go) returns: of a batch of clients, and of the main and
-- the fallback servers.
use mathlib.Core.List.{Mem, mem-cons, mem-cons_self, mem-cons_of_mem, not-mem-nil}
use mathlib.Core.Logic.Or
use rule_base_proxy.Common.{
  All, Bool-cases, List, List-cases, Option-cases, Text, [], arith, codes, false, inl, inr, map,
  none, some, some_inj, subst, true, ◌++◌, ◌↔◌, ◌∷◌, ◌≡◌, ◌⊎◌,
}
use rule_base_proxy.Net.{Ip}
use rule_base_proxy.Dns.Messages.{Msg, Answer, reply, refused, msg_to_ip}
use rule_base_proxy.Dns.Exchange.{
  Env, Client, IpFilter, Resolver, match_ip, any_ip, accept, first_reply, first_error,
  batch_exchange, match_policy, is_trusted, ip_exchange, should_only_query_fallback,
}

-- Every answer of a batch arrives, and no other.
abbrev pub Arrives : Env → Type 0
Arrives env = (l : List Answer) (x : Answer) → Mem x (env.order l) ↔ Mem x l

-- What the clients of a batch answer, the refusals among them as errors.
abbrev pub answers : List Client → Msg → List Answer
answers clients m = map (λ c. accept (c m)) clients

first_reply_sound : (l : List Answer) {msg : Msg} → first_reply l ≡ some msg → Mem (reply msg) l
unfolding first_reply
first_reply_sound [] h = cc
first_reply_sound (reply m ∷ l) h =
    subst (λ x. Mem (reply x) (reply m ∷ l)) (some_inj h) mem-cons_self
first_reply_sound (refused e ∷ l) h = mem-cons_of_mem (refused e) (first_reply_sound l h)

first_reply_complete : (l : List Answer) {msg : Msg} → first_reply l ≡ none → ¬ Mem (reply msg) l
unfolding first_reply
first_reply_complete [] h m = not-mem-nil m
first_reply_complete (reply x ∷ l) h m = cc
first_reply_complete (refused e ∷ l) h m =
    Or.elim (λ x y. absurd x) (mem-cons.0 m) (λ same. cc) (first_reply_complete l h)

-- What `batchExchange` says where no client has answered.
abbrev pub failure : List Answer → Text
failure arrived = elim (first_error arrived) [
  | some e ↦ codes "all DNS requests failed, first error: " ++ e
  | none ↦ codes "all DNS requests failed"
]

-- A batch answers with one of the answers of its clients, whatever the order in which they
-- arrive, and it fails only where every client has failed or been turned down.
pub batch_exchange-answers :
    (env : Env) (clients : List Client) (m : Msg)
    → Arrives env
    → ((msg : Msg) × (batch_exchange env clients m ≡ reply msg)
        × Mem (reply msg) (answers clients m))
      ⊎ (((e : Text) × (batch_exchange env clients m ≡ refused e))
          × ((msg : Msg) → ¬ Mem (reply msg) (answers clients m)))
unfolding batch_exchange
batch_exchange-answers env clients m arrives =
    let arrived = env.order (answers clients m) in
    elim (Option-cases (first_reply arrived)) [
      | inr (msg, h) ↦ inl (
        msg,
        ground (arith, h),
        (arrives (answers clients m) (reply msg)).0 (first_reply_sound arrived h),
      )
      | inl h ↦ inr (
        (failure arrived, ground (arith, h)),
        λ msg there.
            first_reply_complete arrived h ((arrives (answers clients m) (reply msg)).1 there),
      )
    ]

any_ip-false :
    (env : Env) (l : List IpFilter) (ip : Ip)
    → any_ip env l ip ≡ false
    → All (λ f. match_ip env f ip ≡ false) l
unfolding any_ip
any_ip-false env [] ip h = tt
any_ip-false env (f ∷ l) ip h = ground (arith, any_ip-false env l ip)

-- An answer whose first address no filter of the fallback matches.
abbrev pub Trusted : Env → Resolver → Msg → Type 0
Trusted env r msg =
    (ip : Ip) × (ips : List Ip) × (msg_to_ip msg ≡ ip ∷ ips)
    × All (λ f. match_ip env f ip ≡ false) r.fallback_ip_filters

is_trusted_sound :
    (env : Env) (r : Resolver) (msg : Msg) → is_trusted env r (reply msg) ≡ true → Trusted env r msg
unfolding is_trusted
is_trusted_sound env r msg h = elim (List-cases (msg_to_ip msg)) [
  | inl e ↦ absurd (ground (arith, e))
  | inr (ip, ips, e) ↦ (ip, ips, e, any_ip-false env r.fallback_ip_filters ip (ground (arith, e)))
]

-- With fallback servers and no policy for the name, an address query is answered by what the
-- fallback servers say, or by what the main servers say and then the first address is one that
-- no filter of the configuration matches.
pub ip_exchange-Trusted :
    (env : Env) (r : Resolver) (m msg : Msg) (fallback : List Client)
    → match_policy r m ≡ []
    → r.fallback ≡ some fallback
    → ip_exchange env r m ≡ reply msg
    → (batch_exchange env fallback m ≡ reply msg)
      ⊎ ((batch_exchange env r.main m ≡ reply msg) × Trusted env r msg)
unfolding ip_exchange
ip_exchange-Trusted env r m msg fallback free second h =
    elim (Bool-cases (should_only_query_fallback r m)) [
      | inl only ↦ inl (ground (arith, free, second, only))
      | inr mixed ↦ elim (Bool-cases (is_trusted env r (batch_exchange env r.main m))) [
        | inl t ↦
            let main : batch_exchange env r.main m ≡ reply msg =
              ground (arith, free, second, mixed, t) in
            inr (main, is_trusted_sound env r msg (subst (λ x. is_trusted env r x ≡ true) main t))
        | inr f ↦ inl (ground (arith, free, second, mixed, f))
      ]
    ]
