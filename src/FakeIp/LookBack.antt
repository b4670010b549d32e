-- ===== src/FakeIp/LookBack.antt =====
-- `LookBack` of component/fakeip/pool.go on a pool that `New` has made: it never panics, and undoes
-- `Lookup`.
use rule_base_proxy.Common.{
  Option, Option-cases, Text, ap, arith, inl, inr, none, some, some_inj, subst, sym, ℕ, ◌+◌, ◌<◌,
  ◌∙◌, ◌≡◌,
}
use rule_base_proxy.Net.{Ip, to4, to4_of_length}
use rule_base_proxy.LruCache.Entries.{find}
use rule_base_proxy.LruCache.Cache.{get}
use rule_base_proxy.LruCache.Ageless.{get-value}
use rule_base_proxy.FakeIp.Address.{u32, uint_to_ip, ip_to_uint-uint_to_ip, uint_to_ip-IsIp4}
use rule_base_proxy.FakeIp.Pool.{
  Pool, host_key, offset_key, host_value, key_Eq, offset_of, lookup, look_back,
}
use rule_base_proxy.FakeIp.Scan.{IsRange, word_at}
use rule_base_proxy.FakeIp.Ready.{IsReady, get-IsStore, with_cache-IsRange}
use rule_base_proxy.FakeIp.Lookup.{lookup_new}

offset_of-word_at :
    (p : Pool) (o : ℕ) → IsRange p → o + p.min < p.max → offset_of p (uint_to_ip (word_at p o)) ≡ o
offset_of-word_at p o r h =
    let word : word_at p o < u32 = omega arith in
    rw (ip_to_uint-uint_to_ip (word_at p o) word) (omega arith)

-- Where an offset maps to a host, `LookBack` of its address returns the host.
look_back_found :
    (p : Pool) (h : Text) (o : ℕ)
    → IsReady p
    → o + p.min < p.max
    → find (offset_key o) p.cache.lru
      ≡ some (record { key = offset_key o; value = host_value h; expires = 0 })
    → (p' : Pool) × (look_back p (uint_to_ip (word_at p o)) ≡ some (p', some h))
unfolding look_back
look_back_found p h o r inside at =
    let ip = uint_to_ip (word_at p o) in
    let key = offset_key (offset_of p ip) in
    let got : (get 0 0 p.cache key).1 ≡ some (host_value h) =
      rw (offset_of-word_at p o r.range inside)
        (get-value 0 0 p.cache (offset_key o) r.store.valid r.store.ageless ∙ rw at) in
    (
      record p { cache = (get 0 0 (get 0 0 p.cache key).0 (host_key h)).0 },
      rw (look_back, to4_of_length ip (uint_to_ip-IsIp4 (word_at p o)).0, got),
    )

-- The address of a new host is one of the range, and `LookBack` of it returns the host.
pub look_back-lookup :
    (p : Pool) (h : Text) {p₁ : Pool} {ip : Ip}
    → IsReady p
    → find (host_key h) p.cache.lru ≡ none
    → lookup p h ≡ some (p₁, ip)
    → (o : ℕ) × (o + p.min < p.max)
      × (ip ≡ uint_to_ip (word_at p o))
      × ((p₂ : Pool) × (look_back p₁ ip ≡ some (p₂, some h)))
look_back-lookup p h {p₁} {ip} r fresh e =
    let (p', o, e', inside, r', _, at, same_min, same_max) = lookup_new p h r fresh in
    let here = uint_to_ip (word_at p o) in
    let same : ◌≡◌ {A = Pool × Ip} (p', here) (p₁, ip) = some_inj (sym e' ∙ e) in
    let back = look_back_found p' h o r' (omega arith) at in
    let there : word_at p' o ≡ word_at p o = omega arith in
    (
      o,
      inside,
      sym (ap (λ (q : Pool × Ip). q.1) same),
      subst (λ (q : Pool × Ip). (p₂ : Pool) × (look_back q.0 q.1 ≡ some (p₂, some h))) same
          (subst (λ w. (p₂ : Pool) × (look_back p' (uint_to_ip w) ≡ some (p₂, some h))) there back),
    )

-- `LookBack` never panics and keeps the pool ready.
pub look_back_total :
    (p : Pool) (ip : Ip)
    → IsReady p
    → (p' : Pool) × (found : Option Text) × (look_back p ip ≡ some (p', found)) × IsReady p'
unfolding look_back
look_back_total p ip r = elim (Option-cases (to4 ip)) [
  | inl e ↦ (p, none, rw (e, look_back), r)
  | inr (ip4, e) ↦
      let s = r.store in
      let key = offset_key (offset_of p ip4) in
      let c = (get 0 0 p.cache key).0 in
      let s₁ = get-IsStore p.cache key s in
      let value = get-value 0 0 p.cache key s.valid s.ageless in
      elim (Option-cases (find key p.cache.lru)) [
        | inl absent ↦
            let got : (get 0 0 p.cache key).1 ≡ none = value ∙ rw absent in
            (
              record p { cache = c },
              none,
              rw (e, look_back, got),
              record { range = with_cache-IsRange p c r.range; store = s₁ },
            )
        | inr (y, at) ↦
            let (h, is) = s.typed key y at in
            let got : (get 0 0 p.cache key).1 ≡ some (host_value h) = value ∙ rw at (ap some is) in
            let c₂ = (get 0 0 c (host_key h)).0 in
            (
              record p { cache = c₂ },
              some h,
              rw (e, look_back, got),
              record {
                range = with_cache-IsRange p c₂ r.range;
                store = get-IsStore c (host_key h) s₁;
              },
            )
      ]
]
