-- ===== src/Tunnel/Sticky.antt =====
-- A rule that the cache of tunnel/matchRuleCache.go keeps for the next connection.
use rule_base_proxy.Common.{
  Bool, Bool-cases, Option, Option-cases, Text, [], ap, arith, codes, inl, inr, refl, some,
  some_inj, subst, sym, to_lower, true, ◌&&◌, ◌>>=◌, ◌∙◌, ◌∷◌, ◌≡◌, ◌⊎◌,
}
use rule_base_proxy.Net.{Ip}
use rule_base_proxy.Trie.Node.{Node, search_domain, content}
use rule_base_proxy.Trie.Domain.{
  valid_and_split_domain, check_parts, split_dot, ends_with_dot, has_empty,
}
use rule_base_proxy.Rule.Metadata.{info_key, Metadata, tcp, udp}
use rule_base_proxy.Rule.Kinds.{Rule}
use rule_base_proxy.Rule.Matching.{rule_match, World, State}
use rule_base_proxy.Tunnel.Dispatch.{
  Proxy, Config, Hosts, Matched, proxy_of, match_metadata, from_hosts, single_ip, ip_list,
  fill_dst_ip, match_rules,
}
use rule_base_proxy.Tunnel.Choice.{match_rules-IsSound, match_rules-Fills}
use rule_base_proxy.Tunnel.RuleCache.{
  match_cached_proxy, match_hash_map, Lru, Cached, rule_value, proxy_value, nil_value, Answer,
  rule_key, proxy_key, network_fits, match_and_cache,
}

-- A cache gives what was last put under a key, and a look-up leaves what it holds.
pub record IsLru {C : Type 0} (lru : Lru C) : Type 0 where
  pub added : (c : C) (k : Text) (x : Cached) → (lru.get_value (lru.add c k x) k).1 ≡ some x
  pub kept :
      (c : C) (k k' : Text) → (lru.get_value (lru.get_value c k).0 k').1 ≡ (lru.get_value c k').1

from_hosts-network :
    (hosts : Node Hosts) (m : Metadata) {started : Metadata × Bool}
    → from_hosts hosts m ≡ some started
    → started.0.network ≡ m.network
unfolding from_hosts fill_dst_ip
from_hosts-network hosts m h = elim (Option-cases (search_domain m.host hosts >>= content)) [
  | inl e ↦ ground (arith, e, h)
  | inr (single_ip ip, e) ↦ absurd (ground (arith, e, h))
  | inr (ip_list [], e) ↦ elim (Option-cases m.dst_ip) [
    | inl e' ↦ absurd (ground (arith, e, e', h))
    | inr (ip, e') ↦ ground (arith, e, e', h)
  ]
  | inr (ip_list (x ∷ l), e) ↦ elim (Option-cases m.dst_ip) [
    | inl e' ↦ ground (arith, e, e', h)
    | inr (ip, e') ↦ ground (arith, e, e', h)
  ]
]

fits_lem :
    (m : Metadata) (p : Proxy)
    → (m.network ≡ tcp) ⊎ (m.network ≡ udp)
    → (m.network ≡ udp → p.support_udp ≡ true)
    → network_fits m p ≡ true
unfolding network_fits
fits_lem m p (inl e) carries = ground (arith, e)
fits_lem m p (inr e) carries = ground (arith, e, carries e)

module _ {C : Type 0} (lru : Lru C) (laws : IsLru lru) (resolve : Text → Option Ip) (w : World)
    (c : Config) (m : Metadata) (known : (m.network ≡ tcp) ⊎ (m.network ≡ udp)) where
  -- The rule and its adapter, which fits the connection, and the rule is in the cache.
  abbrev Taken : Rule → Answer C → Type 0
  Taken r a =
      (p : Proxy) × (a.adapter ≡ some p)
      × (proxy_of r.adapter c.proxies ≡ some p)
      × (network_fits m p ≡ true)
      × ((lru.get_value a.cache (rule_key m)).1 ≡ some (rule_value r))

  match_metadata-fits :
      (s : State) {found : Matched} {p : Proxy} {r : Rule}
      → match_metadata resolve w c m s ≡ some found
      → found.choice ≡ some (p, r)
      → (proxy_of r.adapter c.proxies ≡ some p) × (network_fits m p ≡ true)
  unfolding match_metadata
  match_metadata-fits s {found} {p} {r} h e = elim (Option-cases (from_hosts c.hosts m)) [
    | inl none_there ↦ absurd (ground (arith, none_there, h))
    | inr (started, there) ↦
        let is : match_rules resolve w c.proxies started.1 started.0 s c.rules ≡ found =
          some_inj (rw (match_metadata, there) at h) in
        let sound =
          match_rules-IsSound resolve w c.proxies started.1 started.0 s c.rules
            (ap (λ (x : Matched). x.choice) is ∙ e) in
        let (_, fills) = match_rules-Fills resolve w c.proxies started.1 started.0 s c.rules in
        let same = ap (λ (x : Metadata). x.network) fills ∙ from_hosts-network c.hosts m there in
        (sound.found, fits_lem m p known (λ u. sound.carries (same ∙ u)))
  ]

  match_and_cache-Taken :
      (s : State) (cm : C) {a : Answer C} {r : Rule}
      → match_and_cache lru resolve w c (rule_key m) (proxy_key m) m s cm ≡ some a
      → a.rule ≡ some r
      → Taken r a
  unfolding match_and_cache
  match_and_cache-Taken s cm {a} {r} h e = elim (Option-cases (match_metadata resolve w c m s)) [
    | inl none_there ↦ absurd (ground (arith, none_there, h))
    | inr (found, there) ↦ elim (Option-cases found.choice) [
      | inl none_taken ↦ absurd (ground (arith, there, none_taken, h, e))
      | inr ((p, q), taken) ↦
          let a' : Answer C = record {
            metadata = found.metadata;
            state = found.state;
            cache = lru.add cm (rule_key m) (rule_value q);
            adapter = some p;
            rule = some q;
          } in
          let is : a' ≡ a = some_inj (rw (match_and_cache, there, taken) at h) in
          let same : q ≡ r = some_inj (ap (λ (x : Answer C). x.rule) is ∙ e) in
          let (found_adapter, fits) = match_metadata-fits s there taken in
          subst (Taken r) is (
            subst (λ x. Taken x a') same
              (p, refl, found_adapter, fits, laws.added cm (rule_key m) (rule_value q)))
    ]
  ]

  match_cached_proxy-Taken :
      (s : State) (cm : C) {a : Answer C} {r : Rule}
      → match_cached_proxy lru resolve w c m s cm ≡ some a
      → a.rule ≡ some r
      → Taken r a
  unfolding match_cached_proxy
  match_cached_proxy-Taken s cm {a} {r} h e =
      let cm' = (lru.get_value cm (proxy_key m)).0 in
      elim (Option-cases (lru.get_value cm (proxy_key m)).1) [
        | inl away ↦ match_and_cache-Taken s cm' (rw (match_cached_proxy, away) at h) e
        | inr (nil_value, at) ↦ match_and_cache-Taken s cm' (rw (match_cached_proxy, at) at h) e
        | inr (rule_value q, at) ↦ absurd (ground (arith, at, h))
        | inr (proxy_value p, at) ↦ absurd (ground (arith, at, h, e))
      ]

  match_hash_map-Taken :
      (s : State) (cm : C) {a : Answer C} {r : Rule}
      → match_hash_map lru resolve w c m s cm ≡ some a
      → a.rule ≡ some r
      → Taken r a
  unfolding match_hash_map
  match_hash_map-Taken s cm {a} {r} h e =
      let cm' = (lru.get_value cm (rule_key m)).0 in
      elim (Option-cases (lru.get_value cm (rule_key m)).1) [
        | inl away ↦ match_cached_proxy-Taken s cm' (rw (match_hash_map, away) at h) e
        | inr (nil_value, at) ↦ match_cached_proxy-Taken s cm' (rw (match_hash_map, at) at h) e
        | inr (proxy_value p, at) ↦ match_cached_proxy-Taken s cm' (rw (match_hash_map, at) at h) e
        | inr (rule_value q, at) ↦
            let s' = (rule_match w q s m).0 in
            elim (Option-cases (proxy_of q.adapter c.proxies)) [
              | inl missing ↦
                  match_cached_proxy-Taken s' cm' (rw (match_hash_map, at, missing) at h) e
              | inr (p, there) ↦ elim (Bool-cases ((rule_match w q s m).1 && network_fits m p)) [
                | inr f ↦ match_cached_proxy-Taken s' cm' (rw (match_hash_map, at, there, f) at h) e
                | inl t ↦
                    let a' : Answer C = record {
                      metadata = m;
                      state = s';
                      cache = cm';
                      adapter = some p;
                      rule = some q;
                    } in
                    let is : a' ≡ a = some_inj (rw (match_hash_map, at, there, t) at h) in
                    let same : q ≡ r = some_inj (ap (λ (x : Answer C). x.rule) is ∙ e) in
                    let fits : network_fits m p ≡ true = ground (arith, t) in
                    let stays = laws.kept cm (rule_key m) (rule_key m) ∙ at in
                    subst (Taken r) is (subst (λ x. Taken x a') same (p, refl, there, fits, stays))
              ]
            ]
      ]

  -- Once `matchHashMap` has taken a rule for a connection, it takes that rule and its adapter for
  -- the next one with the same addresses, destination port, host, types and network, from any
  -- source port, as long as the rule matches that one too: no rule that stands before it in the
  -- list is looked at. The network is TCP or UDP; the cache gives what was last put under a key,
  -- and a look-up leaves what it holds.
  pub match_hash_map-match_hash_map :
      (s t : State) (cm : C) (port : Text) {a : Answer C} {r : Rule}
      → match_hash_map lru resolve w c m s cm ≡ some a
      → a.rule ≡ some r
      → (rule_match w r t (record m { src_port = port })).1 ≡ true
      → (b : Answer C) × (match_hash_map lru resolve w c (record m { src_port = port }) t a.cache
          ≡ some b)
        × (b.rule ≡ some r)
        × (b.adapter ≡ a.adapter)
        × (b.metadata ≡ record m { src_port = port })
  unfolding match_hash_map network_fits info_key
  match_hash_map-match_hash_map s t cm port {a} {r} h e hit =
      let m' : Metadata = record m { src_port = port } in
      let (p, adapter, found, fits, cached) = match_hash_map-Taken s cm h e in
      (
        record {
          metadata = m';
          state = (rule_match w r t m').0;
          cache = (lru.get_value a.cache (rule_key m)).0;
          adapter = some p;
          rule = some r;
        },
        rw (cached, found, hit, fits, match_hash_map),
        refl,
        sym adapter,
        refl,
      )

pub localhost_parts : valid_and_split_domain (codes "localhost") ≡ some (codes "localhost" ∷ [])
unfolding valid_and_split_domain check_parts split_dot ends_with_dot has_empty to_lower
localhost_parts = refl
