-- ===== src/Dns/Chain.antt =====
-- A query through the chain of middlewares that `newHandler` (dns/middleware.go) makes in the mode
-- that keeps the names of addresses, and back by `FindHostByIP` of dns/enhancer.go.
use rule_base_proxy.Common.{
  Bool, Bool-cases, List, Option-cases, Text, [], ap, arith, inl, inr, none, not, some, some_inj,
  sym, true, ℕ, ◌&&◌, ◌++◌, ◌==◌, ◌>>=◌, ◌∙◌, ◌∷◌, ◌≡◌,
}
use rule_base_proxy.Net.{Ip}
use rule_base_proxy.LruCache.Cache.{Cache}
use rule_base_proxy.Trie.Node.{Node, search_domain}
use rule_base_proxy.Tunnel.Dispatch.{Hosts}
use rule_base_proxy.Dns.Enhancer.{mapping, find_in_mapping}
use rule_base_proxy.Dns.Messages.{
  Lib, Msg, Question, Rr, Answer, reply, refused, address, is_ip_request,
  handle_msg_with_empty_answer, trim_right_dots, type_a, type_aaaa,
}
use rule_base_proxy.Dns.Exchange.{Resolver, exchange}
use rule_base_proxy.Dns.Middleware.{
  finish, Server, Setup, Context, Handler, unset_type, raw_type, with_pre_handle, with_hosts,
  with_mapping, remember,
}
use rule_base_proxy.Dns.Handlers.{
  compose, middlewares, new_handler, handler_with_context, with_resolver, dual_query,
}
use rule_base_proxy.Dns.Remembering.{IsKept, remember-find_in_mapping}

-- The hosts do not know the name.
abbrev pub OffHosts : Setup → Text → Type 0
OffHosts u host = (u.hosts >>= search_domain host) ≡ none

with_hosts_miss :
    (lib : Lib) (hosts : Node Hosts) (ipv6 : Bool) (next : Handler) (s : Server) (ctx : Context)
    (r : Msg) (q : Question) (qs : List Question)
    → r.question ≡ q ∷ qs
    → search_domain (trim_right_dots q.name) hosts ≡ none
    → with_hosts lib hosts ipv6 next s ctx r ≡ next s ctx r
unfolding with_hosts
with_hosts_miss lib hosts ipv6 next s ctx r q qs asks miss = ground (arith, asks, miss)

-- The chain comes to the mapping where the hosts and the rules pass the query on.
chain_mapping :
    (u : Setup) (s : Server) (remote : Text) (r : Msg) (q : Question) (qs : List Question)
    → r.question ≡ q ∷ qs
    → OffHosts u (trim_right_dots q.name)
    → u.adguard_rules ≡ []
    → s.mapper.mode ≡ mapping
    → handler_with_context (new_handler u s.resolver s.mapper) s remote r
      ≡ with_mapping u.now
          (with_resolver u)
          s
          (record { kind = unset_type; host = trim_right_dots q.name; remote = remote })
          r
unfolding handler_with_context new_handler compose middlewares with_pre_handle
chain_mapping u s remote r q qs asks off none_blocked mode = elim (Option-cases u.hosts) [
  | inl e ↦ ground (arith, asks, none_blocked, mode, e)
  | inr (hosts, e) ↦
      let miss : search_domain (trim_right_dots q.name) hosts ≡ none = ground (arith, off, e) in
      ground (
        arith,
        asks,
        none_blocked,
        mode,
        e,
        with_hosts_miss u.env.lib hosts s.resolver.ipv6 (with_mapping u.now (with_resolver u)) s
            (record { kind = unset_type; host = trim_right_dots q.name; remote = remote }) r q qs
            asks miss,
      )
]

-- The endpoint changes the resolver and the kind of the context.
with_resolver_shape :
    (u : Setup) (s : Server) (ctx : Context) (r : Msg) (q : Question) (qs : List Question)
    → r.question ≡ q ∷ qs
    → (res : Resolver) × (a : Answer) × (with_resolver u s ctx r
        ≡ some (record s { resolver = res }, record ctx { kind = raw_type }, a))
unfolding with_resolver
with_resolver_shape u s ctx r q qs asks =
    elim (Bool-cases (not s.resolver.ipv6 && q.qtype == type_aaaa)) [
      | inl t ↦
          (s.resolver, reply (handle_msg_with_empty_answer u.env.lib r), ground (arith, asks, t))
      | inr f ↦ elim (Bool-cases (s.resolver.ipv6 && q.qtype == type_a)) [
        | inl t ↦ (
          (dual_query u s.resolver r).0,
          (dual_query u s.resolver r).1,
          ground (arith, asks, f, t),
        )
        | inr f' ↦ (
          (exchange u.env u.now s.resolver r).0,
          elim (exchange u.env u.now s.resolver r).1 [
            | refused e ↦ refused e
            | reply msg ↦ reply (finish u.env.lib msg r msg.rcode)
          ],
          ground (arith, asks, f, f'),
        )
      ]
    ]

refused_reply : {e : Text} {msg : Msg} → refused e ≡ reply msg → ⊥
refused_reply h = cc

-- What is remembered where the endpoint answers.
with_mapping_remembers :
    (now : ℕ) (next : Handler) (s s₁ s' : Server) (ctx ctx₁ ctx' : Context) (r msg' : Msg)
    (q : Question) (qs : List Question) (a : Answer)
    → r.question ≡ q ∷ qs
    → is_ip_request q ≡ true
    → next s ctx r ≡ some (s₁, ctx₁, a)
    → with_mapping now next s ctx r ≡ some (s', ctx', reply msg')
    → (msg : Msg) × (remember now s₁ ctx₁ msg ≡ some (s', ctx', reply msg'))
unfolding with_mapping
with_mapping_remembers now next s s₁ s' ctx ctx₁ ctx' r msg' q qs (reply msg) asks kind got h =
    (msg, ground (arith, asks, kind, got, h))
with_mapping_remembers now next s s₁ s' ctx ctx₁ ctx' r msg' q qs (refused e) asks kind got h =
    let out : with_mapping now next s ctx r ≡ some (s₁, ctx₁, refused e) =
      ground (arith, asks, kind, got) in
    absurd (refused_reply (ap (λ o. o.2) (some_inj (sym out ∙ h))))

-- In the mode that keeps a mapping, where the handler of the server answers a query for an address
-- with a message, the mapping then gives the name of the query, without its last dots, for the
-- address in the last record of that message; the cache of the mapping stays valid, and the queue of
-- pairs to save within its 500 places. This where the hosts do not know the name and there are no
-- blocking rules.
pub new_handler-find_in_mapping :
    (u : Setup) (later : ℕ) (s s' : Server) (ctx' : Context) (remote : Text) (r msg : Msg)
    (q : Question) (qs : List Question) (c : Cache Text Text) (l : List Rr) (x : Rr) (ip : Ip)
    → OffHosts u (trim_right_dots q.name)
    → u.adguard_rules ≡ []
    → s.mapper.mode ≡ mapping
    → s.mapper.host_mapping ≡ some c
    → IsKept (c, s.told)
    → r.question ≡ q ∷ qs
    → is_ip_request q ≡ true
    → handler_with_context (new_handler u s.resolver s.mapper) s remote r
      ≡ some (s', ctx', reply msg)
    → msg.answer ≡ l ++ x ∷ []
    → address x ≡ some ip
    → (c' : Cache Text Text) × (s'.mapper ≡ record (s.mapper) { host_mapping = some c' })
      × IsKept (c', s'.told)
      × ((find_in_mapping later s'.mapper ip).1 ≡ some (trim_right_dots q.name))
new_handler-find_in_mapping u later s s' ctx' remote r msg q qs c l x ip off none_blocked mode maps
      kept asks kind h parts at =
    let ctx : Context = record {
      kind = unset_type;
      host = trim_right_dots q.name;
      remote = remote;
    } in
    let (res, a, got) = with_resolver_shape u s ctx r q qs asks in
    let s₁ : Server = record s { resolver = res } in
    let ctx₁ : Context = record ctx { kind = raw_type } in
    let (msg', ran) =
      with_mapping_remembers u.now (with_resolver u) s s₁ s' ctx ctx₁ ctx' r msg q qs a asks kind
        got (sym (chain_mapping u s remote r q qs asks off none_blocked mode) ∙ h) in
    remember-find_in_mapping u.now later s₁ s' ctx₁ ctx' msg' msg c l x ip maps kept ran parts at
