-- ===== src/Resolver/Versions.antt =====
-- The addresses that component/resolver/resolver.go answers with are of the version asked for.
use rule_base_proxy.Common.{
  Bool, Bool-cases, List, Option-cases, Text, [], arith, false, inl, inr, none, some, some_inj,
  subst, true, ◌>>=◌, ◌∷◌, ◌≡◌,
}
use rule_base_proxy.Net.{Ip}
use rule_base_proxy.Trie.Node.{search_domain, content}
use rule_base_proxy.Rule.Metadata.{has_byte}
use rule_base_proxy.Tunnel.Dispatch.{ip_list, single_ip}
use rule_base_proxy.Resolver.{
  Env, Resolver, found, first_ip, is_ip4, in_hosts, resolver_of, resolve_ipv4,
  resolve_ip_with_resolver, resolve_ip,
}

-- What the answers of the resolvers and of `net.ParseIP` are documented to be: addresses of
-- version 4 for a look-up of version 4, and for a text without a colon.
pub record Answers4 (env : Env) : Type 0 where
  pub by_default :
      {r : Resolver} (host : Text) {ip : Ip}
      → env.default_resolver ≡ some r
      → r.ipv4 host ≡ found ip
      → is_ip4 ip ≡ true
  pub by_system : (host : Text) {ip : Ip} → env.system.ipv4 host ≡ found ip → is_ip4 ip ≡ true
  pub by_text :
      (host : Text) {ip : Ip}
      → has_byte b':' host ≡ false
      → env.parse_ip host ≡ some ip
      → is_ip4 ip ≡ true

first_ip-passes :
    (ok : Ip → Bool) (ips : List Ip) {ip : Ip} → first_ip ok ips ≡ some ip → ok ip ≡ true
unfolding first_ip
first_ip-passes ok [] h = cc
first_ip-passes ok (q ∷ ips) h = elim (Bool-cases (ok q)) [
  | inl t ↦ subst (λ x. ok x ≡ true) (some_inj (rw (t, first_ip) at h)) t
  | inr f ↦ first_ip-passes ok ips (rw (f, first_ip) at h)
]

in_hosts-passes :
    (env : Env) (ok : Ip → Bool) (host : Text) {ip : Ip}
    → in_hosts env ok host ≡ some (some ip)
    → ok ip ≡ true
unfolding in_hosts
in_hosts-passes env ok host {ip} h =
    elim (Option-cases (search_domain host env.hosts >>= content)) [
      | inl unknown ↦ absurd (ground arith)
      | inr (single_ip x, known) ↦ absurd (ground arith)
      | inr (ip_list ips, known) ↦ first_ip-passes ok ips (ground arith)
    ]

-- `ResolveIPv4` answers with addresses of version 4 only, whether the hosts table, the host itself
-- or a resolver gives them, when the resolvers do.
pub resolve_ipv4-Answers4 :
    (env : Env) (host : Text) {ip : Ip}
    → Answers4 env
    → resolve_ipv4 env host ≡ some (found ip)
    → is_ip4 ip ≡ true
unfolding resolve_ipv4 resolver_of
resolve_ipv4-Answers4 env host {ip} v h = elim (Option-cases (in_hosts env is_ip4 host)) [
  | inl panics ↦ absurd (ground arith)
  | inr (some x, known) ↦
      let same : x ≡ ip = ground arith in
      subst (λ y. is_ip4 y ≡ true) same (in_hosts-passes env is_ip4 host known)
  | inr (none, unknown) ↦ elim (Option-cases (env.parse_ip host)) [
    | inr (x, literal) ↦ elim (Bool-cases (has_byte b':' host)) [
      | inl colon ↦ absurd (ground arith)
      | inr plain ↦
          let same : x ≡ ip = ground arith in
          subst (λ y. is_ip4 y ≡ true) same (v.by_text host plain literal)
    ]
    | inl name ↦ elim (Option-cases env.default_resolver) [
      | inl system ↦ v.by_system host (ground arith)
      | inr (r, set) ↦ v.by_default host set (ground arith)
    ]
  ]
]

-- With IPv6 disabled, `ResolveIP` answers with addresses of version 4, except for those that the
-- hosts table has for the host.
pub resolve_ip-Answers4 :
    (env : Env) (host : Text) {ip : Ip}
    → Answers4 env
    → env.disable_ipv6 ≡ true
    → search_domain host env.hosts ≡ none
    → resolve_ip env host ≡ some (found ip)
    → is_ip4 ip ≡ true
unfolding resolve_ip resolve_ip_with_resolver in_hosts
resolve_ip-Answers4 env host {ip} v off unknown h = elim (Option-cases env.default_resolver) [
  | inl system ↦ resolve_ipv4-Answers4 env host v (ground arith)
  | inr (r, set) ↦ v.by_default host set (ground arith)
]
