-- ===== src/FakeIp/Lookup.antt =====
-- `Lookup` of component/fakeip/pool.go on a pool that `New` has made: it never panics, and gives a
-- host the address that it has.
use rule_base_proxy.Common.{
  Option-cases, Text, ap, arith, inl, inr, length, none, refl, some, some_inj, subst, sym, ℕ, ◌+◌,
  ◌<◌, ◌∙◌, ◌≡◌,
}
use rule_base_proxy.Net.{Ip, to4_of_length}
use rule_base_proxy.LruCache.Entries.{find}
use rule_base_proxy.LruCache.Cache.{set, get}
use rule_base_proxy.LruCache.Ageless.{find-set_self, find-get, get-value, find-set-set}
use rule_base_proxy.FakeIp.Address.{uint_to_ip, uint_to_ip-IsIp4}
use rule_base_proxy.FakeIp.Pool.{
  Pool, host_key, offset_key, ip_value, host_value, key_Eq, offset_of, lookup,
}
use rule_base_proxy.FakeIp.Scan.{word_at, get_ip_total}
use rule_base_proxy.FakeIp.Ready.{
  Fits, IsReady, get-IsStore, set-IsStore, Knows, with_cache-IsRange, moved-IsRange,
}

-- A known host keeps its address, and the pool only moves entries.
pub lookup_known :
    (p : Pool) (h : Text) (ip : Ip)
    → IsReady p
    → Knows p h ip
    → (p' : Pool) × (lookup p h ≡ some (p', ip)) × IsReady p' × Knows p' h ip
unfolding lookup
lookup_known p h ip r (y, at, is) =
    let s = r.store in
    let c = (get 0 0 p.cache (host_key h)).0 in
    let got : (get 0 0 p.cache (host_key h)).1 ≡ some (ip_value ip) =
      get-value 0 0 p.cache (host_key h) s.valid s.ageless ∙ rw at (ap some is) in
    let (ip', is', four') = s.typed (host_key h) y at in
    let four : length ip ≡ 4 = ground (arith, four') in
    let s₁ = get-IsStore p.cache (host_key h) s in
    let key = offset_key (offset_of p ip) in
    (
      record p { cache = (get 0 0 c key).0 },
      rw (got, lookup, to4_of_length ip four),
      record { range = with_cache-IsRange p _ r.range; store = get-IsStore c key s₁ },
      (
        y,
        find-get 0 0 c key (host_key h) s₁.valid s₁.ageless
            ∙ find-get 0 0 p.cache (host_key h) (host_key h) s.valid s.ageless
            ∙ at,
        is,
      ),
    )

-- A new host gets an address whose offset maps back to it.
pub lookup_new :
    (p : Pool) (h : Text)
    → IsReady p
    → find (host_key h) p.cache.lru ≡ none
    → (p' : Pool) × (o : ℕ) × (lookup p h ≡ some (p', uint_to_ip (word_at p o)))
      × (o + p.min < p.max)
      × IsReady p'
      × Knows p' h (uint_to_ip (word_at p o))
      × (find (offset_key o) p'.cache.lru
          ≡ some (record { key = offset_key o; value = host_value h; expires = 0 }))
      × (p'.min ≡ p.min)
      × (p'.max ≡ p.max)
unfolding lookup
lookup_new p h r fresh =
    let s = r.store in
    let c = (get 0 0 p.cache (host_key h)).0 in
    let got : (get 0 0 p.cache (host_key h)).1 ≡ none =
      get-value 0 0 p.cache (host_key h) s.valid s.ageless ∙ rw fresh in
    let s₁ = get-IsStore p.cache (host_key h) s in
    let p₁ = record p { cache = c } in
    let (o, stops, found) = get_ip_total p₁ h (with_cache-IsRange p c r.range) in
    let ip = uint_to_ip (word_at p o) in
    let c₂ = set 0 0 c (offset_key o) (host_value h) in
    let s₂ = set-IsStore c (offset_key o) (host_value h) s₁ (h, refl) in
    let fits : Fits (host_key h) (ip_value ip) = (ip, refl, (uint_to_ip-IsIp4 (word_at p o)).0) in
    (
      record p { offset = o; cache = set 0 0 c₂ (host_key h) (ip_value ip) },
      o,
      rw (got, lookup, found),
      stops.inside,
      record {
        range = moved-IsRange p o _ r.range stops.inside;
        store = set-IsStore c₂ (host_key h) (ip_value ip) s₂ fits;
      },
      (
        record { key = host_key h; value = ip_value ip; expires = 0 },
        find-set_self 0 0 c₂ (host_key h) (ip_value ip) s₂.valid s₂.ageless,
        refl,
      ),
      find-set-set 0 0 0 0 c (offset_key o) (host_key h) (host_value h) (ip_value ip) s₁.valid
          s₁.ageless s₁.roomy (λ e. cc),
      refl,
      refl,
    )

-- `Lookup` never panics; it returns an address that the pool then knows for the host.
pub lookup_total :
    (p : Pool) (h : Text)
    → IsReady p
    → (p' : Pool) × (ip : Ip) × (lookup p h ≡ some (p', ip)) × IsReady p' × Knows p' h ip
lookup_total p h r = elim (Option-cases (find (host_key h) p.cache.lru)) [
  | inl fresh ↦
      let (p', o, e, _, r', knows, _, _, _) = lookup_new p h r fresh in
      (p', uint_to_ip (word_at p o), e, r', knows)
  | inr (y, at) ↦
      let (ip, is, _) = r.store.typed (host_key h) y at in
      let (p', e, r', knows) = lookup_known p h ip r (y, at, is) in (p', ip, e, r', knows)
]

-- A second `Lookup` of a host returns the same address.
pub lookup-lookup :
    (p : Pool) (h : Text) {p₁ : Pool} {ip : Ip}
    → IsReady p
    → lookup p h ≡ some (p₁, ip)
    → (p₂ : Pool) × (lookup p₁ h ≡ some (p₂, ip))
lookup-lookup p h {p₁} {ip} r e =
    let (p', ip', e', r', knows) = lookup_total p h r in
    let same : ◌≡◌ {A = Pool × Ip} (p', ip') (p₁, ip) = some_inj (sym e' ∙ e) in
    let (p₂, e₂, _, _) = lookup_known p' h ip' r' knows in
    (p₂, subst (λ (q : Pool × Ip). lookup q.0 h ≡ some (p₂, q.1)) same e₂)
