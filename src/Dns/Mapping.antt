-- ===== src/Dns/Mapping.antt =====
-- What `NewEnhancer` and `FindHostByIP` (dns/enhancer.go) come to.
use rule_base_proxy.Common.{Option, Text, false, none, not, refl, some, ℕ, ◌≡◌}
use rule_base_proxy.Net.{Ip}
use rule_base_proxy.LruCache.Entries.{find}
use rule_base_proxy.FakeIp.Pool.{Pool, lookup, host_key, key_Eq}
use rule_base_proxy.FakeIp.Ready.{IsReady}
use rule_base_proxy.FakeIp.LookBack.{look_back-lookup}
use rule_base_proxy.Dns.Enhancer.{
  Mode, normal, fake_ip, mapping, Enhancer, Settings, is_normal, fake_ip_enabled, mapping_enabled,
  is_fake_ip, is_exist_fake_ip, find_host_by_ip, patch_enhancer, new_enhancer,
}

by_mode :
    (m : Mode) (pool : Option Pool) (o : Enhancer) (ip : Ip)
    → (fake_ip_enabled (patch_enhancer (new_enhancer (record { enhanced_mode = m; pool = pool })) o)
        ≡ false)
      × (is_fake_ip (patch_enhancer (new_enhancer (record { enhanced_mode = m; pool = pool })) o) ip
          ≡ false)
      × (is_exist_fake_ip
            (patch_enhancer (new_enhancer (record { enhanced_mode = m; pool = pool })) o)
            ip
          ≡ false)
      × (mapping_enabled
            (patch_enhancer (new_enhancer (record { enhanced_mode = m; pool = pool })) o)
          ≡ not (is_normal m))
unfolding new_enhancer fake_ip_enabled is_fake_ip is_exist_fake_ip mapping_enabled patch_enhancer
by_mode normal pool o ip = (refl, refl, refl, refl)
by_mode fake_ip pool o ip = (refl, refl, refl, refl)
by_mode mapping pool o ip = (refl, refl, refl, refl)

-- An enhancer from `NewEnhancer` is never in the fake IP mode, not for the configuration that asks
-- for it and not after `PatchFrom`, so no address is a fake one to it; it maps addresses in every
-- mode but the normal one.
pub new_enhancer_lem :
    (cfg : Settings) (o : Enhancer) (ip : Ip)
    → (fake_ip_enabled (patch_enhancer (new_enhancer cfg) o) ≡ false)
      × (is_fake_ip (patch_enhancer (new_enhancer cfg) o) ip ≡ false)
      × (is_exist_fake_ip (patch_enhancer (new_enhancer cfg) o) ip ≡ false)
      × (mapping_enabled (patch_enhancer (new_enhancer cfg) o) ≡ not (is_normal cfg.enhanced_mode))
unfolding new_enhancer fake_ip_enabled is_fake_ip is_exist_fake_ip mapping_enabled patch_enhancer
new_enhancer_lem cfg o ip = by_mode cfg.enhanced_mode cfg.pool o ip

-- An address that a ready pool has just given to a host that it did not know is mapped back to
-- the host by the enhancer over that pool, and the mode stays.
pub find_host_by_ip-lookup :
    (now : ℕ) (h : Enhancer) (p : Pool) (host : Text) {p₁ : Pool} {ip : Ip}
    → IsReady p
    → find (host_key host) p.cache.lru ≡ none
    → lookup p host ≡ some (p₁, ip)
    → (h' : Enhancer) × (find_host_by_ip now (record h { fake_pool = some p₁ }) ip
        ≡ some (h', some host))
      × (h'.mode ≡ h.mode)
unfolding find_host_by_ip
find_host_by_ip-lookup now h p host r fresh e =
    let (o, inside, at, (p₂, back)) = look_back-lookup p host r fresh e in
    (record h { fake_pool = some p₂ }, rw back, refl)
