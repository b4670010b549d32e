-- ===== src/FakeIp/New.antt =====
-- `New` of component/fakeip/pool.go, and the addresses of the pools that it makes.
use rule_base_proxy.Net.Networks.{IpNet}
use rule_base_proxy.Common.{
  Bool, Option, Text, [], ap, arith, false, is_some, leb, none, refl, some, true, ℕ, ◌%◌, ◌*◌, ◌+◌,
  ◌-◌, ◌<◌, ◌==◌, ◌^◌, ◌||◌, ◌∙◌, ◌∷◌, ◌≡◌, ◌≤◌,
}
use rule_base_proxy.Trie.Node.{Node}
use rule_base_proxy.LruCache.Entries.{Entry, find}
use rule_base_proxy.LruCache.Cache.{Cache, get, exist, new_lru_cache, set, with_size}
use rule_base_proxy.LruCache.Valid.{IsValid, get-IsValid}
use rule_base_proxy.LruCache.Making.{new_lru_cache-IsValid}
use rule_base_proxy.LruCache.Ageless.{find-get, get-value}
use rule_base_proxy.FakeIp.Address.{u32, ip_to_uint}
use rule_base_proxy.FakeIp.Pool.{
  Pool, Key, host_key, offset_key, Value, ip_value, key_Eq, total_of, new_pool, lookup, gateway_ip,
}
use rule_base_proxy.FakeIp.Scan.{get_ip_gateway}
use rule_base_proxy.FakeIp.Ready.{IsStore, IsReady, with_cache-IsRange}

-- The number of addresses of a network.
abbrev pub size_of : IpNet → ℕ
size_of n = 2 ^ (n.bits - n.ones)

empty_lem : (k : Key) {y : Entry Key Value} → find k [] ≡ some y → ⊥
unfolding find
empty_lem k f = cc

new-IsStore :
    (size : ℕ)
    → 0 < size
    → IsStore (new_lru_cache {K = Key} {V = Value} (with_size (size * 2) ∷ []))
unfolding new_lru_cache
new-IsStore size h = record {
  valid = new_lru_cache-IsValid (with_size (size * 2) ∷ []);
  ageless = refl;
  roomy = omega arith;
  typed = λ k y f. absurd (empty_lem k f);
}

-- The pool that `New` makes.
abbrev made : IpNet → ℕ → Option (Node Bool) → Pool
made n size host =
    let min = (ip_to_uint n.base + 2) % u32 in
    record {
      min = min;
      max = (min + total_of n % u32 + u32 - 1) % u32;
      gateway = (min + u32 - 1) % u32;
      offset = 0;
      host = host;
      ip_net = n;
      cache = new_lru_cache (with_size (size * 2) ∷ []);
    }

-- A pool of a size that is not 0, over a network of four or more addresses that ends within the
-- IPv4 space, is made, is ready, and starts at offset 0. Its least address is two above the base of
-- the network, and its greatest is the base and the number of addresses less one, the last address.
pub new_pool-IsReady :
    (n : IpNet) (size : ℕ) (host : Option (Node Bool))
    → 4 ≤ size_of n
    → ip_to_uint n.base + size_of n ≤ u32
    → 0 < size
    → (p : Pool) × (new_pool n size host ≡ some p)
      × IsReady p
      × (p.offset ≡ 0)
      × (p.min ≡ ip_to_uint n.base + 2)
      × (p.max + 1 ≡ ip_to_uint n.base + size_of n)
unfolding new_pool
new_pool-IsReady n size host four fits room =
    let total : total_of n ≡ size_of n - 2 = omega arith in
    let some_left : (total_of n == 0 || leb (2 ^ 63) (total_of n)) ≡ false =
      ground (arith, total) in
    let base = ip_to_uint n.base in
    let least : (base + 2) % u32 ≡ base + 2 = omega arith in
    let most : ((base + 2) % u32 + total_of n % u32 + u32 - 1) % u32 ≡ base + size_of n - 1 =
      omega (arith, total, least) in
    (
      made n size host,
      rw some_left,
      record {
        range = record {
          least = omega (arith, least);
          above = omega (arith, least, most);
          word = omega (arith, most);
          gateway = omega (arith, least);
          offset = omega (arith, least, most);
        };
        store = new-IsStore size room;
      },
      refl,
      least,
      omega (arith, most),
    )

-- A network of one or two addresses is refused.
new_pool_small :
    (n : IpNet) (size : ℕ) (host : Option (Node Bool)) → size_of n ≤ 2 → new_pool n size host ≡ none
unfolding new_pool
new_pool_small n size host h =
    let refused : (total_of n == 0 || leb (2 ^ 63) (total_of n)) ≡ true = ground arith in rw refused

gateway_ip_cache :
    (p : Pool) (c : Cache Key Value) → gateway_ip (record p { cache = c }) ≡ gateway_ip p
unfolding gateway_ip
gateway_ip_cache p c = refl

exist-find : (c : Cache Key Value) (k : Key) → IsValid c → exist c k ≡ is_some (find k c.lru)
unfolding exist
exist-find c k v = v.coherent.agree k

-- When the search for an offset wraps round, a new host is given the gateway's own address.
pub lookup_gateway :
    (p : Pool) (h : Text)
    → IsReady p
    → find (host_key h) p.cache.lru ≡ none
    → find (offset_key 0) p.cache.lru ≡ none
    → p.offset + 1 + p.min ≡ p.max
    → (p' : Pool) × (lookup p h ≡ some (p', gateway_ip p))
unfolding lookup
lookup_gateway p h r fresh unused at_end =
    let s = r.store in
    let c = (get 0 0 p.cache (host_key h)).0 in
    let got : (get 0 0 p.cache (host_key h)).1 ≡ none =
      get-value 0 0 p.cache (host_key h) s.valid s.ageless ∙ rw fresh in
    let v = get-IsValid 0 0 p.cache (host_key h) s.valid in
    let free : exist c (offset_key 0) ≡ false =
      exist-find c (offset_key 0) v
      ∙ ap is_some (find-get 0 0 p.cache (host_key h) (offset_key 0) s.valid s.ageless ∙ unused) in
    let p₁ = record p { cache = c } in
    let (p', e) = get_ip_gateway p₁ h (with_cache-IsRange p c r.range) at_end free in
    (
      record p' { cache = set 0 0 p'.cache (host_key h) (ip_value (gateway_ip p)) },
      rw (got, lookup, e)
          (ap (λ g. some (record p' { cache = set 0 0 p'.cache (host_key h) (ip_value g) }, g))
            (gateway_ip_cache p c)),
    )
