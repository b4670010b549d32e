-- ===== src/Tests/FakeIp.antt =====
-- The pool of component/fakeip on the ranges of its tests.
use rule_base_proxy.Net.Networks.{IpNet}
use rule_base_proxy.Common.{
  List, Option, Text, [], arith, codes, get_or_else, none, refl, some, subst, sym, text_eq, ℕ, ◌+◌,
  ◌-◌, ◌<◌, ◌^◌, ◌∷◌, ◌≡◌,
}
use rule_base_proxy.Net.{Ip, to4}
use rule_base_proxy.LruCache.Entries.{find, remove}
use rule_base_proxy.LruCache.Cache.{
  apply_setting, apply_settings, new_lru_cache, has_key, delete_key, element, delete_element,
  delete_front, delete_expired, maybe_delete_oldest, store_entry, set_with_expire, set, is_expired,
  get_entry, get, exist,
}
use rule_base_proxy.FakeIp.Address.{ip_to_uint, uint_to_ip}
use rule_base_proxy.FakeIp.Pool.{
  Pool, offset_key, host_value, key_Eq, scan, get_ip, lookup, look_back, exist_ip, gateway_ip,
  new_pool,
}
use rule_base_proxy.FakeIp.Scan.{Stops, word_at, get_ip_total}
use rule_base_proxy.FakeIp.Ready.{IsReady, Knows}
use rule_base_proxy.FakeIp.Lookup.{lookup_total}
use rule_base_proxy.FakeIp.LookBack.{look_back-lookup}
use rule_base_proxy.FakeIp.New.{new_pool-IsReady, lookup_gateway}

program : Unit {0}
unfolding to4 find remove apply_setting apply_settings new_lru_cache has_key delete_key element
    delete_element delete_front delete_expired maybe_delete_oldest store_entry set_with_expire set
    is_expired get_entry get exist ip_to_uint uint_to_ip scan get_ip lookup look_back exist_ip
    gateway_ip new_pool text_eq
program = tt

-- 192.168.0.0/29
abbrev net : IpNet
net = record { base = 192 ∷ 168 ∷ 0 ∷ 0 ∷ []; ones = 29; bits = 32 }

abbrev none_yet : Pool
none_yet = record {
  max = 0;
  min = 0;
  gateway = 0;
  offset = 0;
  host = none;
  ip_net = net;
  cache = new_lru_cache [];
}

abbrev pool : Pool
pool = get_or_else (new_pool net 10 none) none_yet

abbrev looked : Pool → Text → Pool × Ip
looked p h = get_or_else (lookup p h) (p, [])

abbrev foo : Text
foo = codes "foo.com"

abbrev bar : Text
bar = codes "bar.com"

-- The program's own test of the first addresses.
basic :
    ((looked pool foo).1 ≡ 192 ∷ 168 ∷ 0 ∷ 2 ∷ [])
    × ((looked (looked pool foo).0 bar).1 ≡ 192 ∷ 168 ∷ 0 ∷ 3 ∷ [])
unfolding program
basic = (refl, refl)

abbrev names : List Text
names = foo ∷ bar ∷ codes "a" ∷ codes "b" ∷ []

abbrev look_all : List Text → Pool → Pool
look_all [] p = p
look_all (h ∷ hs) p = look_all hs (looked p h).0

-- The fifth host of a /29 network gets the gateway's address.
fifth : (looked (look_all names pool) (codes "c")).1 ≡ gateway_ip pool
unfolding program
fifth = refl

net-IsReady :
    (p : Pool) × (new_pool net 10 none ≡ some p)
    × IsReady p
    × (p.offset ≡ 0)
    × (p.min ≡ ip_to_uint net.base + 2)
    × (p.max + 1 ≡ ip_to_uint net.base + 2 ^ (32 - 29))
unfolding program
net-IsReady = new_pool-IsReady net 10 none (omega arith) (omega arith) (omega arith)

new_pool-IsReady_example :
    (p : Pool) × (new_pool net 10 none ≡ some p)
    × IsReady p
    × (p.offset ≡ 0)
    × (p.min ≡ ip_to_uint net.base + 2)
    × (p.max + 1 ≡ ip_to_uint net.base + 2 ^ (32 - 29))
unfolding program
new_pool-IsReady_example = new_pool-IsReady net 10 none (omega arith) (omega arith) (omega arith)

pool-IsReady : IsReady pool
unfolding program
pool-IsReady =
    subst (λ (o : Option Pool). IsReady (get_or_else o none_yet)) (sym net-IsReady.1) net-IsReady.2

get_ip_total_example :
    (o : ℕ) × Stops pool o
    × (get_ip pool foo
        ≡ some (
          record pool { offset = o; cache = set 0 0 pool.cache (offset_key o) (host_value foo) },
          uint_to_ip (word_at pool o),
        ))
get_ip_total_example = get_ip_total pool foo pool-IsReady.range

lookup_total_example :
    (p' : Pool) × (ip : Ip) × (lookup pool foo ≡ some (p', ip)) × IsReady p' × Knows p' foo ip
lookup_total_example = lookup_total pool foo pool-IsReady

look_back-lookup_example :
    (o : ℕ) × (o + pool.min < pool.max)
    × ((192 ∷ 168 ∷ 0 ∷ 2 ∷ []) ≡ uint_to_ip (word_at pool o))
    × ((p₂ : Pool) × (look_back (looked pool foo).0 (192 ∷ 168 ∷ 0 ∷ 2 ∷ []) ≡ some (p₂, some foo)))
unfolding program
look_back-lookup_example =
    look_back-lookup pool foo {p₁ = (looked pool foo).0} pool-IsReady refl refl

-- 192.168.0.0/30: the only offset is 0.
abbrev small : Pool
small = get_or_else (new_pool (record net { ones = 30 }) 10 none) none_yet

small_made :
    (p : Pool) × (new_pool (record net { ones = 30 }) 10 none ≡ some p)
    × IsReady p
    × (p.offset ≡ 0)
    × (p.min ≡ ip_to_uint net.base + 2)
    × (p.max + 1 ≡ ip_to_uint net.base + 2 ^ (32 - 30))
unfolding program
small_made =
    new_pool-IsReady (record net { ones = 30 }) 10 none (omega arith) (omega arith) (omega arith)

small-IsReady : IsReady small
unfolding program
small-IsReady =
    subst (λ (o : Option Pool). IsReady (get_or_else o none_yet)) (sym small_made.1) small_made.2

lookup_gateway_example : (p' : Pool) × (lookup small foo ≡ some (p', gateway_ip small))
unfolding program
lookup_gateway_example = lookup_gateway small foo small-IsReady refl refl refl
