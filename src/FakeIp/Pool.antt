-- ===== src/FakeIp/Pool.antt =====
-- `Pool` of component/fakeip/pool.go. One cache holds both directions: host to address and offset
-- to host, as in the source. `none` as a result is a run-time panic (a failed type assertion or a
-- division by zero). The cache has no age, so the clock that its calls take is not read.
use rule_base_proxy.Net.Networks.{IpNet}
use rule_base_proxy.Common.{
  Bool, Eq, Option, Text, [], arith, false, if◌then◌else◌, is_some, leb, none, not, some, suc,
  text_eq, text_eq_iff, true, zero, ℕ, ◌%◌, ◌*◌, ◌+◌, ◌-◌, ◌==◌, ◌>>=◌, ◌^◌, ◌||◌, ◌↔◌, ◌∷◌, ◌≡◌,
}
use rule_base_proxy.Net.{Ip, to4}
use rule_base_proxy.Trie.Node.{Node, search_domain}
use rule_base_proxy.LruCache.Cache.{Cache, set, get, exist, clone_to, new_lru_cache, with_size}
use rule_base_proxy.FakeIp.Address.{u32, ip_to_uint, uint_to_ip}

-- The cache's keys and values are of type `interface{}`: here the dynamic types that occur.
pub data Key : Type 0 where
  host_key : Text → Key
  offset_key : ℕ → Key

pub data Value : Type 0 where
  ip_value : Ip → Value
  host_value : Text → Value

abbrev pub key_eq : Key → Key → Bool
key_eq (host_key a) (host_key b) = text_eq a b
key_eq (offset_key m) (offset_key n) = m == n
key_eq _ _ = false

pub key_eq_iff : (a b : Key) → (key_eq a b ≡ true) ↔ (a ≡ b)
key_eq_iff (host_key a) (host_key b) = ground (arith, text_eq_iff a b)
key_eq_iff (host_key a) (offset_key n) = ground arith
key_eq_iff (offset_key m) (host_key b) = ground arith
key_eq_iff (offset_key m) (offset_key n) = ground arith

instance abbrev pub key_Eq : Eq Key
key_Eq = record { beq = key_eq; beq_iff = key_eq_iff }

-- `elm.(net.IP)` and `elm.(string)`
abbrev pub as_ip : Value → Option Ip
as_ip (ip_value ip) = some ip
as_ip (host_value h) = none

abbrev pub as_host : Value → Option Text
as_host (ip_value ip) = none
as_host (host_value h) = some h

pub record Pool : Type 0 where
  pub max : ℕ
  pub min : ℕ
  pub gateway : ℕ
  pub offset : ℕ
  pub host : Option (Node Bool)
  pub ip_net : IpNet
  pub cache : Cache Key Value

-- `p.max - p.min` on uint32
abbrev pub span : Pool → ℕ
span p = (p.max + u32 - p.min) % u32

-- `p.offset = (p.offset + 1) % (p.max - p.min)`
abbrev pub next_offset : Pool → ℕ → ℕ
next_offset p o = ((o + 1) % u32) % span p

-- The loop of `get`, on fuel: the offset that it stops at.
unfoldable pub scan : ℕ → Pool → ℕ → ℕ → Option ℕ
scan zero p current o = none
scan (suc fuel) p current o =
    let o' = next_offset p o in
    elim (o' == current || not (exist p.cache (offset_key o'))) [
      | true ↦ some o'
      | false ↦ scan fuel p current o'
    ]

-- `get`: the address and the pool. As many rounds as there are offsets are enough.
unfoldable pub get_ip : Pool → Text → Option (Pool × Ip)
get_ip p h =
    if span p == 0
    then none
    else (scan (span p) p p.offset p.offset >>= λ o. some (
      record p { offset = o; cache = set 0 0 p.cache (offset_key o) (host_value h) },
      uint_to_ip ((p.min + o + u32 - 1) % u32),
    ))

-- `n - p.min + 1` on uint32
abbrev pub offset_of : Pool → Ip → ℕ
offset_of p ip = (ip_to_uint ip + u32 - p.min + 1) % u32

-- `Lookup`
unfoldable pub lookup : Pool → Text → Option (Pool × Ip)
lookup p h =
    let (c, found) = get 0 0 p.cache (host_key h) in
    elim found [
      | some elm ↦ as_ip elm >>= λ ip. to4 ip >>= λ ip4.
          some (record p { cache = (get 0 0 c (offset_key (offset_of p ip4))).0 }, ip)
      | none ↦ get_ip (record p { cache = c }) h >>= λ r.
          some (record (r.0) { cache = set 0 0 r.0.cache (host_key h) (ip_value r.1) }, r.1)
    ]

-- `LookBack`: the pool and the host, if there is one.
unfoldable pub look_back : Pool → Ip → Option (Pool × Option Text)
look_back p ip = elim (to4 ip) [
  | none ↦ some (p, none)
  | some ip4 ↦
      let (c, found) = get 0 0 p.cache (offset_key (offset_of p ip4)) in
      elim found [
        | none ↦ some (record p { cache = c }, none)
        | some elm ↦
            as_host elm >>= λ h. some (record p { cache = (get 0 0 c (host_key h)).0 }, some h)
      ]
]

-- `LookupHost`
unfoldable pub lookup_host : Pool → Text → Bool
lookup_host p domain = elim p.host [ none ↦ false | some t ↦ is_some (search_domain domain t) ]

-- `Exist`
unfoldable pub exist_ip : Pool → Ip → Bool
exist_ip p ip = elim (to4 ip) [
  | none ↦ false
  | some ip4 ↦ exist p.cache (offset_key (offset_of p ip4))
]

-- `Gateway`
unfoldable pub gateway_ip : Pool → Ip
gateway_ip p = uint_to_ip p.gateway

-- `PatchFrom`
unfoldable pub patch_from : Pool → Pool → Pool
patch_from p o = record p { cache = clone_to o.cache p.cache }

-- `1<<uint(bits-ones) - 2` on int64, as its bit pattern.
abbrev pub total_of : IpNet → ℕ
total_of n = (2 ^ (n.bits - n.ones) % 2 ^ 64 + 2 ^ 64 - 2) % 2 ^ 64

-- `New`, or `none` for its error; `total <= 0` is read from the bit pattern.
unfoldable pub new_pool : IpNet → ℕ → Option (Node Bool) → Option Pool
new_pool n size host =
    let min = (ip_to_uint n.base + 2) % u32 in
    let total = total_of n in
    if total == 0 || leb (2 ^ 63) total
    then none
    else some (record {
      min = min;
      max = (min + total % u32 + u32 - 1) % u32;
      gateway = (min + u32 - 1) % u32;
      offset = 0;
      host = host;
      ip_net = n;
      cache = new_lru_cache (with_size (size * 2) ∷ []);
    })
