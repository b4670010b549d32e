-- ===== src/Tunnel/RuleCache.antt =====
-- `matchHashMap` of tunnel/matchRuleCache.go, over the cache `Cm` of the package golang-lru.
use rule_base_proxy.Common.{
  Bool, Option, Text, codes, if◌then◌else◌, none, some, ◌&&◌, ◌++◌, ◌==◌, ◌>>=◌, ◌||◌,
}
use rule_base_proxy.Net.{Ip}
use rule_base_proxy.Rule.Metadata.{Metadata, tcp, udp, info_key}
use rule_base_proxy.Rule.Kinds.{Rule}
use rule_base_proxy.Rule.Matching.{World, State, rule_match}
use rule_base_proxy.Tunnel.Dispatch.{Proxy, Config, proxy_of, match_metadata}

-- What the cache holds, by its dynamic type; a missing adapter is stored as nil.
pub data Cached : Type 0 where
  rule_value : Rule → Cached
  proxy_value : Proxy → Cached
  nil_value : Cached

-- The cache of the package, by its operations: a `Get` may move entries.
pub record Lru (C : Type 0) : Type 0 where
  pub get_value : C → Text → C × Option Cached
  pub add : C → Text → Cached → C

pub record Answer (C : Type 0) : Type 0 where
  pub metadata : Metadata
  pub state : State
  pub cache : C
  pub adapter : Option Proxy
  pub rule : Option Rule

abbrev pub rule_key : Metadata → Text
rule_key m = info_key m ++ codes "_rule"

abbrev pub proxy_key : Metadata → Text
proxy_key m = info_key m ++ codes "_proxy"

-- Whether a cached rule's adapter can be used for the connection's network.
unfoldable pub network_fits : Metadata → Proxy → Bool
network_fits m p = m.network == tcp || (m.network == udp && p.support_udp)

module _ {C : Type 0} (lru : Lru C) (resolve : Text → Option Ip) (w : World) (c : Config) where
  -- `match`, and its answer put into the cache; `none` is a panic of `match`.
  unfoldable pub match_and_cache : Text → Text → Metadata → State → C → Option (Answer C)
  match_and_cache of_rule of_proxy m s cm = match_metadata resolve w c m s >>= λ found.
      elim found.choice [
        | some (p, r) ↦ some (record {
          metadata = found.metadata;
          state = found.state;
          cache = lru.add cm of_rule (rule_value r);
          adapter = some p;
          rule = some r;
        })
        | none ↦
            let direct : Option Proxy = proxy_of (codes "DIRECT") c.proxies in
            some (record {
              metadata = found.metadata;
              state = found.state;
              cache =
                  lru.add cm of_proxy (elim direct [ none ↦ nil_value | some p ↦ proxy_value p ]);
              adapter = direct;
              rule = none;
            })
      ]

  -- The second look into the cache, for a connection that no rule was found for before.
  unfoldable pub match_cached_proxy : Metadata → State → C → Option (Answer C)
  match_cached_proxy m s cm =
      let looked : C × Option Cached = lru.get_value cm (proxy_key m) in
      elim looked.1 [
        | some (proxy_value p) ↦
            some
              (record { metadata = m; state = s; cache = looked.0; adapter = some p; rule = none })
        | some (rule_value r) ↦ none
        | some nil_value ↦ match_and_cache (rule_key m) (proxy_key m) m s looked.0
        | none ↦ match_and_cache (rule_key m) (proxy_key m) m s looked.0
      ]

  -- `matchHashMap`
  unfoldable pub match_hash_map : Metadata → State → C → Option (Answer C)
  match_hash_map m s cm =
      let looked : C × Option Cached = lru.get_value cm (rule_key m) in
      elim looked.1 [
        | some (rule_value r) ↦
            let matched : State × Bool = rule_match w r s m in
            let otherwise : Option (Answer C) = match_cached_proxy m matched.0 looked.0 in
            elim (proxy_of r.adapter c.proxies) [
              | none ↦ otherwise
              | some p ↦
                  if matched.1 && network_fits m p
                  then some (record {
                    metadata = m;
                    state = matched.0;
                    cache = looked.0;
                    adapter = some p;
                    rule = some r;
                  })
                  else otherwise
            ]
        | some (proxy_value p) ↦ match_cached_proxy m s looked.0
        | some nil_value ↦ match_cached_proxy m s looked.0
        | none ↦ match_cached_proxy m s looked.0
      ]
