-- ===== src/Tests/Dns.antt =====
-- The enhancer (dns), the resolver (component/resolver) and what the tunnel makes of them.
use rule_base_proxy.Common.{
  Option, Text, [], arith, codes, false, get_or_else, none, not, refl, some, some_inj, subst, sym,
  text_eq, to_lower, true, ◌+◌, ◌-◌, ◌^◌, ◌∷◌, ◌≡◌,
}
use rule_base_proxy.Net.{Ip, to4}
use rule_base_proxy.Net.Networks.{IpNet}
use rule_base_proxy.LruCache.Entries.{find, remove}
use rule_base_proxy.LruCache.Cache.{
  apply_setting, apply_settings, new_lru_cache, has_key, delete_key, element, delete_element,
  delete_front, delete_expired, maybe_delete_oldest, store_entry, set_with_expire, set, is_expired,
  get_entry, get, exist,
}
use rule_base_proxy.Trie.Domain.{
  split_dot, ends_with_dot, has_empty, check_parts, valid_and_split_domain,
}
use rule_base_proxy.Trie.Node.{
  Node, get_child, find_child, new_node, search_path, search_parts, search_domain, new_trie,
}
use rule_base_proxy.FakeIp.Address.{ip_to_uint, uint_to_ip}
use rule_base_proxy.FakeIp.Pool.{Pool, key_Eq, scan, get_ip, lookup, new_pool}
use rule_base_proxy.FakeIp.Ready.{IsReady}
use rule_base_proxy.FakeIp.New.{new_pool-IsReady}
use rule_base_proxy.Rule.Metadata.{has_byte}
use rule_base_proxy.Tunnel.Dispatch.{Hosts}
use rule_base_proxy.Dns.Enhancer.{
  fake_ip, Settings, is_normal, fake_ip_enabled, mapping_enabled, is_fake_ip, is_exist_fake_ip,
  patch_enhancer, new_enhancer,
}
use rule_base_proxy.Dns.Mapping.{new_enhancer_lem}
use rule_base_proxy.Resolver.{
  Env, Resolver, found, failed, lookup_failed, first_ip, is_ip4, in_hosts, resolver_of,
  resolve_ipv4, resolve_ip_with_resolver, resolve_ip,
}
use rule_base_proxy.Resolver.Versions.{Answers4}

program : Unit {0}
unfolding to4 find remove apply_setting apply_settings new_lru_cache has_key delete_key element
    delete_element delete_front delete_expired maybe_delete_oldest store_entry set_with_expire set
    is_expired get_entry get exist ip_to_uint uint_to_ip scan get_ip lookup new_pool text_eq
    split_dot ends_with_dot has_empty check_parts valid_and_split_domain get_child find_child
    new_node search_path search_parts search_domain new_trie to_lower fake_ip_enabled
    mapping_enabled new_enhancer has_byte first_ip in_hosts resolver_of resolve_ipv4
    resolve_ip_with_resolver resolve_ip
program = tt

abbrev net : IpNet
net = record { base = 198 ∷ 18 ∷ 0 ∷ 0 ∷ []; ones = 16; bits = 32 }

abbrev pub host : Text
host = codes "foo.com"

abbrev unset : Pool
unset = record {
  max = 0;
  min = 0;
  gateway = 0;
  offset = 0;
  host = none;
  ip_net = net;
  cache = new_lru_cache [];
}

abbrev pub pool : Pool
pool = get_or_else (new_pool net 1000 none) unset

net-IsReady :
    (p : Pool) × (new_pool net 1000 none ≡ some p)
    × IsReady p
    × (p.offset ≡ 0)
    × (p.min ≡ ip_to_uint net.base + 2)
    × (p.max + 1 ≡ ip_to_uint net.base + 2 ^ (32 - 16))
unfolding program
net-IsReady = new_pool-IsReady net 1000 none (omega arith) (omega arith) (omega arith)

pub pool-IsReady : IsReady pool
unfolding program
pool-IsReady =
    subst (λ (o : Option Pool). IsReady (get_or_else o unset)) (sym net-IsReady.1) net-IsReady.2

-- 198.18.0.2
abbrev given : Ip
given = 198 ∷ 18 ∷ 0 ∷ 2 ∷ []

abbrev wanted : Settings
wanted = record { enhanced_mode = fake_ip; pool = some pool }

new_enhancer_lem_example :
    (fake_ip_enabled (patch_enhancer (new_enhancer wanted) (new_enhancer wanted)) ≡ false)
    × (is_fake_ip (patch_enhancer (new_enhancer wanted) (new_enhancer wanted)) given ≡ false)
    × (is_exist_fake_ip (patch_enhancer (new_enhancer wanted) (new_enhancer wanted)) given ≡ false)
    × (mapping_enabled (patch_enhancer (new_enhancer wanted) (new_enhancer wanted))
        ≡ not (is_normal fake_ip))
new_enhancer_lem_example = new_enhancer_lem wanted (new_enhancer wanted) given

-- A resolver that knows one address, and a system that knows none.
abbrev one : Resolver
one = record {
  any = λ s. found (1 ∷ 2 ∷ 3 ∷ 4 ∷ []);
  ipv4 = λ s. found (1 ∷ 2 ∷ 3 ∷ 4 ∷ []);
  ipv6 = λ s. failed lookup_failed;
}

abbrev no_hosts : Node Hosts
no_hosts = new_trie

abbrev env : Env
env = record {
  hosts = no_hosts;
  disable_ipv6 = true;
  default_resolver = some one;
  parse_ip = λ s. none;
  system = record {
    any = λ s. failed lookup_failed;
    ipv4 = λ s. failed lookup_failed;
    ipv6 = λ s. failed lookup_failed;
  };
}

found_inj : {x y : Ip} → found x ≡ found y → x ≡ y
found_inj h = cc

by_one :
    {r : Resolver} (host : Text) {ip : Ip}
    → some one ≡ some r
    → r.ipv4 host ≡ found ip
    → is_ip4 ip ≡ true
unfolding program
by_one {r} host {ip} set got =
    let answer : one.ipv4 host ≡ found ip =
      subst (λ (q : Resolver). q.ipv4 host ≡ found ip) (sym (some_inj set)) got in
    subst (λ x. is_ip4 x ≡ true) (found_inj answer) refl

env-Answers4 : Answers4 env
unfolding program
env-Answers4 = record {
  by_default = by_one;
  by_system = λ host got. cc;
  by_text = λ host plain got. cc;
}
