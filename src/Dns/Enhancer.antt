-- ===== src/Dns/Enhancer.antt =====
-- `ResolverEnhancer` of dns/enhancer.go, over the fake IP pool and the LRU cache. `none` as a
-- result is a panic of the pool.
use rule_base_proxy.Common.{
  Bool, Option, Text, [], false, get_or_else, if◌then◌else◌, none, not, some, text_eq, true, ℕ,
  ◌&&◌, ◌>>=◌, ◌∷◌,
}
use rule_base_proxy.Net.{Ip, to4}
use rule_base_proxy.Net.Networks.{contains_ip}
use rule_base_proxy.Net.Printing.{ip_string}
use rule_base_proxy.LruCache.Cache.{Cache, new_lru_cache, with_size, with_stale, get, clone_to}
use rule_base_proxy.FakeIp.Pool.{Pool, look_back, exist_ip, gateway_ip, patch_from}
use rule_base_proxy.Rule.Matching.{text_Eq}

pub data Mode : Type 0 where
  normal fake_ip mapping : Mode

pub record Enhancer : Type 0 where
  pub mode : Mode
  pub fake_pool : Option Pool
  pub host_mapping : Option (Cache Text Text)

-- What `NewEnhancer` reads of the configuration.
pub record Settings : Type 0 where
  pub enhanced_mode : Mode
  pub pool : Option Pool

abbrev pub is_normal : Mode → Bool
is_normal normal = true
is_normal _ = false

unfoldable pub fake_ip_enabled : Enhancer → Bool
fake_ip_enabled h = elim h.mode [ fake_ip ↦ true | _ ↦ false ]

unfoldable pub mapping_enabled : Enhancer → Bool
mapping_enabled h = elim h.mode [ normal ↦ false | _ ↦ true ]

-- `a.Equal(b)`: the 4 and the 16 byte form of an IPv4 address are equal.
unfoldable pub ip_equal : Ip → Ip → Bool
ip_equal a b = text_eq (get_or_else (to4 a) a) (get_or_else (to4 b) b)

unfoldable pub is_exist_fake_ip : Enhancer → Ip → Bool
is_exist_fake_ip h ip =
    if not (fake_ip_enabled h)
    then false
    else elim h.fake_pool [ some pool ↦ exist_ip pool ip | none ↦ false ]

unfoldable pub is_fake_ip : Enhancer → Ip → Bool
is_fake_ip h ip = if not (fake_ip_enabled h) then false else elim h.fake_pool [
  | some pool ↦ contains_ip pool.ip_net ip && not (ip_equal (gateway_ip pool) ip)
  | none ↦ false
]

-- The second half of `FindHostByIP`.
unfoldable pub find_in_mapping : ℕ → Enhancer → Ip → Enhancer × Option Text
find_in_mapping now h ip = elim h.host_mapping [
  | none ↦ (h, none)
  | some hosts ↦
      let found : Cache Text Text × Option Text = get now now hosts (ip_string ip) in
      (record h { host_mapping = some found.0 }, found.1)
]

unfoldable pub find_host_by_ip : ℕ → Enhancer → Ip → Option (Enhancer × Option Text)
find_host_by_ip now h ip = elim h.fake_pool [
  | none ↦ some (find_in_mapping now h ip)
  | some pool ↦ look_back pool ip >>= λ found.
      let h' : Enhancer = record h { fake_pool = some found.0 } in
      elim found.1 [ some host ↦ some (h', some host) | none ↦ some (find_in_mapping now h' ip) ]
]

unfoldable pub patch_mapping :
    Option (Cache Text Text) → Option (Cache Text Text) → Option (Cache Text Text)
patch_mapping (some m) (some o) = some (clone_to o m)
patch_mapping m _ = m

unfoldable pub patch_pool : Option Pool → Option Pool → Option Pool
patch_pool (some p) (some o) = some (patch_from p o)
patch_pool p _ = p

-- `h.PatchFrom(o)`
unfoldable pub patch_enhancer : Enhancer → Enhancer → Enhancer
patch_enhancer h o = record h {
  host_mapping = patch_mapping h.host_mapping o.host_mapping;
  fake_pool = patch_pool h.fake_pool o.fake_pool;
}

-- `NewEnhancer`
unfoldable pub new_enhancer : Settings → Enhancer
new_enhancer cfg =
    if is_normal cfg.enhanced_mode
    then record { mode = cfg.enhanced_mode; fake_pool = none; host_mapping = none }
    else record {
      mode = elim cfg.enhanced_mode [ fake_ip ↦ mapping | m ↦ m ];
      fake_pool = cfg.pool;
      host_mapping = some (new_lru_cache (with_size 4096 ∷ with_stale true ∷ []));
    }
