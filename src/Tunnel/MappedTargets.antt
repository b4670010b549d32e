-- ===== src/Tunnel/MappedTargets.antt =====
-- The target of a connection to an address that the DNS server has answered (`preHandleMetadata`
-- of tunnel/tunnel.go over the handler of dns/middleware.go), in the mode that keeps a mapping.
use rule_base_proxy.Common.{
  List, Option, Option-cases, Text, [], ap, arith, if◌then◌else◌, inl, inr, none, refl, some,
  text_eq, true, ℕ, ◌++◌, ◌∙◌, ◌∷◌, ◌≡◌,
}
use rule_base_proxy.Net.{Ip}
use rule_base_proxy.LruCache.Cache.{Cache}
use rule_base_proxy.Rule.Metadata.{Metadata, atyp_domain_name}
use rule_base_proxy.Dns.Enhancer.{
  Enhancer, mapping, find_in_mapping, find_host_by_ip, fake_ip_enabled, mapping_enabled,
}
use rule_base_proxy.Dns.Messages.{Msg, Question, Rr, reply, address, is_ip_request, trim_right_dots}
use rule_base_proxy.Dns.Middleware.{Server, Setup, Context}
use rule_base_proxy.Dns.Handlers.{new_handler, handler_with_context}
use rule_base_proxy.Dns.Remembering.{IsKept}
use rule_base_proxy.Dns.Chain.{OffHosts, new_handler-find_in_mapping}
use rule_base_proxy.Tunnel.Prehandle.{
  handled, names_target, take_ip_host, put_host, pre_handle_with, pre_handle,
}

find_in_mapping-mode :
    (now : ℕ) (h : Enhancer) (ip : Ip) → (find_in_mapping now h ip).0.mode ≡ h.mode
unfolding find_in_mapping
find_in_mapping-mode now h ip = elim (Option-cases h.host_mapping) [
  | inl e ↦ ground (arith, e)
  | inr (c, e) ↦ ground (arith, e)
]

put_host-mapping :
    (h : Enhancer) (host : Text) (m : Metadata)
    → h.mode ≡ mapping
    → put_host h host m ≡ record m {
      host = host;
      addr_type = if names_target m.kind then m.addr_type else atyp_domain_name;
    }
unfolding put_host fake_ip_enabled
put_host-mapping h host m e = ground (arith, e)

pre_handle_found :
    (parse_ip : Text → Option Ip) (dm : Text → Option Text) (now : ℕ) (h : Enhancer) (m : Metadata)
    (ip : Ip) (host : Text)
    → parse_ip m.host ≡ none
    → m.host ≡ []
    → m.dst_ip ≡ some ip
    → h.mode ≡ mapping
    → h.fake_pool ≡ none
    → (find_in_mapping now h ip).1 ≡ some host
    → pre_handle parse_ip dm now (some h) m
      ≡ some (
        some (find_in_mapping now h ip).0,
        handled (put_host (find_in_mapping now h ip).0 host m),
      )
unfolding pre_handle pre_handle_with take_ip_host find_host_by_ip mapping_enabled text_eq
pre_handle_found parse_ip dm now h m ip host no_ip unnamed target mode no_pool found =
    let plain : take_ip_host parse_ip m ≡ m = ground (arith, no_ip) in
    let blank : text_eq m.host [] ≡ true = rw unnamed refl in
    let at : pre_handle_with dm now h m
        ≡ some
            ((find_in_mapping now h ip).0, handled (put_host (find_in_mapping now h ip).0 host m)) =
      ground (arith, target, blank, mode, no_pool, found) in
    ground (arith, plain, at)

-- After the DNS server has answered a query for a name with an address, `preHandleMetadata` gives a
-- connection to that address the name, without its last dots, and leaves it the address. This in the mode that keeps a mapping, without a fake IP pool, where the
-- handler of the server answered a query for an address and that address is in the last record of
-- its message, the hosts do not know the name, there are no blocking rules, and the connection has
-- no host; the empty text is no address.
pub pre_handle-new_handler :
    (u : Setup) (later : ℕ) (s s' : Server) (ctx' : Context) (remote : Text) (r msg : Msg)
    (q : Question) (qs : List Question) (c : Cache Text Text) (l : List Rr) (x : Rr) (ip : Ip)
    (parse_ip : Text → Option Ip) (dm : Text → Option Text) (m : Metadata)
    → OffHosts u (trim_right_dots q.name)
    → u.adguard_rules ≡ []
    → s.mapper.mode ≡ mapping
    → s.mapper.fake_pool ≡ none
    → s.mapper.host_mapping ≡ some c
    → IsKept (c, s.told)
    → r.question ≡ q ∷ qs
    → is_ip_request q ≡ true
    → handler_with_context (new_handler u s.resolver s.mapper) s remote r
      ≡ some (s', ctx', reply msg)
    → msg.answer ≡ l ++ x ∷ []
    → address x ≡ some ip
    → parse_ip [] ≡ none
    → m.host ≡ []
    → m.dst_ip ≡ some ip
    → (h : Enhancer) × (pre_handle parse_ip dm later (some s'.mapper) m
        ≡ some (
          some h,
          handled (record m {
            host = trim_right_dots q.name;
            addr_type = if names_target m.kind then m.addr_type else atyp_domain_name;
          }),
        ))
pre_handle-new_handler u later s s' ctx' remote r msg q qs c l x ip parse_ip dm m off none_blocked
      mode no_pool maps kept asks kind h parts at no_ip unnamed target =
    let (c', is, _, found) =
      new_handler-find_in_mapping u later s s' ctx' remote r msg q qs c l x ip off none_blocked mode
        maps kept asks kind h parts at in
    let mode' : s'.mapper.mode ≡ mapping = ap (λ (e : Enhancer). e.mode) is ∙ mode in
    let no_pool' : s'.mapper.fake_pool ≡ none = ap (λ (e : Enhancer). e.fake_pool) is ∙ no_pool in
    let handled_so =
      pre_handle_found parse_ip dm later s'.mapper m ip (trim_right_dots q.name)
        (ap parse_ip unnamed ∙ no_ip) unnamed target mode' no_pool' found in
    let keeps : (find_in_mapping later s'.mapper ip).0.mode ≡ mapping =
      find_in_mapping-mode later s'.mapper ip ∙ mode' in
    let after : Enhancer = (find_in_mapping later s'.mapper ip).0 in
    (
      after,
      handled_so
          ∙ ap (λ v. some (some after, handled v))
              (put_host-mapping after (trim_right_dots q.name) m keeps),
    )
