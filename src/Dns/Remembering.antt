-- ===== src/Dns/Remembering.antt =====
-- What `withMapping` of dns/middleware.go remembers of an answer, and that `FindHostByIP` of
-- dns/enhancer.go finds it.
use rule_base_proxy.Common.{
  Bool-cases, List, Option-cases, Text, [], ap, arith, inl, inr, length, length-append, refl, some,
  some_inj, subst, sym, text_eq, ℕ, ◌++◌, ◌+◌, ◌/◌, ◌∙◌, ◌∷◌, ◌≡◌, ◌≤◌,
}
use rule_base_proxy.Net.{Ip}
use rule_base_proxy.Net.Printing.{ip_string}
use rule_base_proxy.LruCache.Entries.{Entry, find}
use rule_base_proxy.LruCache.Cache.{Cache, get, set_with_expire}
use rule_base_proxy.LruCache.Expiry.{find-set_with_expire}
use rule_base_proxy.LruCache.Settings.{set_with_expire-SameSettings, get-SameSettings}
use rule_base_proxy.LruCache.Valid.{IsValid, set_with_expire-IsValid, get-IsValid}
use rule_base_proxy.LruCache.Ageless.{get-value}
use rule_base_proxy.Rule.Matching.{text_Eq}
use rule_base_proxy.Dns.Enhancer.{Enhancer, find_in_mapping}
use rule_base_proxy.Dns.Messages.{Msg, Rr, rr_a, rr_aaaa, rr_other, address, reply}
use rule_base_proxy.Dns.Exchange.{giga}
use rule_base_proxy.Dns.Middleware.{
  Server, Context, DnsMap, dns_map_add, map_address, map_record, map_answers, remember,
}

-- A cache of addresses without an age, and a queue within its bound.
pub record IsKept (st : Cache Text Text × List DnsMap) : Type 0 where
  pub valid : IsValid st.0
  pub ageless : st.0.max_age ≡ 0
  pub bounded : length st.1 ≤ 500

length-dns_map_add :
    (m : DnsMap) (queue : List DnsMap) → length queue ≤ 500 → length (dns_map_add m queue) ≤ 500
unfolding dns_map_add
length-dns_map_add m queue h = ground (arith, length-append queue (m ∷ []))

module _ (now : ℕ) (ctx : Context) where
  -- The cache after one address.
  abbrev mapped : Ip → ℕ → Cache Text Text → Cache Text Text
  mapped ip ttl c =
      set_with_expire (now / giga) (get (now / giga) (now / giga) c (ip_string ip)).0 (ip_string ip)
        ctx.host (now / giga + ttl)

  map_address-mapped :
      (ip : Ip) (ttl : ℕ) (st : Cache Text Text × List DnsMap)
      → length st.1 ≤ 500
      → ((map_address now ctx ip ttl st).0 ≡ mapped ip ttl st.0)
        × (length (map_address now ctx ip ttl st).1 ≤ 500)
  unfolding map_address
  map_address-mapped ip ttl st h =
      let new : DnsMap = record {
        ipstr = ip_string ip;
        domain = ctx.host;
        ttl = ttl;
        raddr = ctx.remote;
      } in
      let room = length-dns_map_add new st.1 h in
      elim (Option-cases (get (now / giga) (now / giga) st.0 (ip_string ip)).1) [
        | inl e ↦ rw (e, map_address) (refl, room)
        | inr (host, e) ↦ elim (Bool-cases (text_eq host ctx.host)) [
          | inl t ↦ rw (e, map_address, t) (refl, h)
          | inr f ↦ rw (e, map_address, f) (refl, room)
        ]
      ]

  map_address-IsKept :
      (ip : Ip) (ttl : ℕ) (st : Cache Text Text × List DnsMap)
      → IsKept st
      → IsKept (map_address now ctx ip ttl st)
        × (find (ip_string ip) (map_address now ctx ip ttl st).0.lru
            ≡ some (record { key = ip_string ip; value = ctx.host; expires = now / giga + ttl }))
  map_address-IsKept ip ttl st k =
      let (is, room) = map_address-mapped ip ttl st k.bounded in
      let c = (get (now / giga) (now / giga) st.0 (ip_string ip)).0 in
      let valid = get-IsValid (now / giga) (now / giga) st.0 (ip_string ip) k.valid in
      let ageless =
        (get-SameSettings (now / giga) (now / giga) st.0 (ip_string ip)).age ∙ k.ageless in
      (
        record {
          valid = rw is (
              set_with_expire-IsValid (now / giga) c (ip_string ip) ctx.host (now / giga + ttl)
                valid);
          ageless = rw is (
              (set_with_expire-SameSettings (now / giga) c (ip_string ip) ctx.host
                (now / giga + ttl)).age
              ∙ ageless);
          bounded = room;
        },
        rw is (
            find-set_with_expire (now / giga) c (ip_string ip) ctx.host (now / giga + ttl) valid
              ageless),
      )

  map_record-IsKept :
      (x : Rr) (st : Cache Text Text × List DnsMap) → IsKept st → IsKept (map_record now ctx x st)
  unfolding map_record
  map_record-IsKept (rr_a h ip) st k = (map_address-IsKept ip h.ttl st k).0
  map_record-IsKept (rr_aaaa h ip) st k = (map_address-IsKept ip h.ttl st k).0
  map_record-IsKept (rr_other h) st k = k

  map_answers-IsKept :
      (l : List Rr) (st : Cache Text Text × List DnsMap)
      → IsKept st
      → IsKept (map_answers now ctx l st)
  unfolding map_answers
  map_answers-IsKept [] st k = k
  map_answers-IsKept (x ∷ l) st k = map_answers-IsKept l _ (map_record-IsKept x st k)

  map_answers-append :
      (l : List Rr) (x : Rr) (st : Cache Text Text × List DnsMap)
      → map_answers now ctx (l ++ x ∷ []) st ≡ map_record now ctx x (map_answers now ctx l st)
  unfolding map_answers
  map_answers-append [] x st = refl
  map_answers-append (y ∷ l) x st = map_answers-append l x _

  find-map_record :
      (x : Rr) (ip : Ip) (st : Cache Text Text × List DnsMap)
      → IsKept st
      → address x ≡ some ip
      → (y : Entry Text Text) × (find (ip_string ip) (map_record now ctx x st).0.lru ≡ some y)
        × (y.value ≡ ctx.host)
  unfolding map_record
  find-map_record (rr_a h ip') ip st k e =
      subst
        (λ i.
          (y : Entry Text Text) × (find (ip_string i) (map_address now ctx ip' h.ttl st).0.lru
            ≡ some y)
          × (y.value ≡ ctx.host))
        (some_inj e) (_, (map_address-IsKept ip' h.ttl st k).1, refl)
  find-map_record (rr_aaaa h ip') ip st k e =
      subst
        (λ i.
          (y : Entry Text Text) × (find (ip_string i) (map_address now ctx ip' h.ttl st).0.lru
            ≡ some y)
          × (y.value ≡ ctx.host))
        (some_inj e) (_, (map_address-IsKept ip' h.ttl st k).1, refl)
  find-map_record (rr_other h) ip st k e = cc

find_in_mapping-found :
    (now : ℕ) (h : Enhancer) (c : Cache Text Text) (ip : Ip) (y : Entry Text Text)
    → h.host_mapping ≡ some c
    → IsValid c
    → c.max_age ≡ 0
    → find (ip_string ip) c.lru ≡ some y
    → (find_in_mapping now h ip).1 ≡ some y.value
unfolding find_in_mapping
find_in_mapping-found now h c ip y is valid ageless at =
    let got : (get now now c (ip_string ip)).1 ≡ some y.value =
      get-value now now c (ip_string ip) valid ageless ∙ rw at in
    ground (arith, is, got)

reply_inj : {x y : Msg} → reply x ≡ reply y → x ≡ y
reply_inj h = cc

-- Once an answer is remembered, the mapping gives the name of the context for the address of its
-- last record; the cache stays valid, and the queue of pairs to save within its 500 places.
pub remember-find_in_mapping :
    (now later : ℕ) (s s' : Server) (ctx ctx' : Context) (msg msg' : Msg) (c : Cache Text Text)
    (l : List Rr) (x : Rr) (ip : Ip)
    → s.mapper.host_mapping ≡ some c
    → IsKept (c, s.told)
    → remember now s ctx msg ≡ some (s', ctx', reply msg')
    → msg'.answer ≡ l ++ x ∷ []
    → address x ≡ some ip
    → (c' : Cache Text Text) × (s'.mapper ≡ record (s.mapper) { host_mapping = some c' })
      × IsKept (c', s'.told)
      × ((find_in_mapping later s'.mapper ip).1 ≡ some ctx.host)
unfolding remember
remember-find_in_mapping now later s s' ctx ctx' msg msg' c l x ip maps kept h parts at =
    let before = map_answers now ctx l (c, s.told) in
    let all = map_answers now ctx msg.answer (c, s.told) in
    let s₁ : Server = record s {
      mapper = record (s.mapper) { host_mapping = some all.0 };
      told = all.1;
    } in
    let ran : remember now s ctx msg ≡ some (s₁, ctx, reply msg) = rw (remember, maps) refl in
    let out = some_inj (sym ran ∙ h) in
    let same : s₁ ≡ s' = ap (λ o. o.0) out in
    let same' : msg ≡ msg' = reply_inj (ap (λ o. o.2) out) in
    let ends : all ≡ map_record now ctx x before =
      rw (same', parts) (map_answers-append now ctx l x (c, s.told)) in
    let k : IsKept all = map_answers-IsKept now ctx msg.answer (c, s.told) kept in
    let (y, there, is) =
      find-map_record now ctx x ip before (map_answers-IsKept now ctx l (c, s.told) kept) at in
    subst
      (λ v.
        (c' : Cache Text Text) × (v.mapper ≡ record (s.mapper) { host_mapping = some c' })
        × IsKept (c', v.told)
        × ((find_in_mapping later v.mapper ip).1 ≡ some ctx.host))
      same
      (
        all.0,
        refl,
        k,
        find_in_mapping-found later s₁.mapper all.0 ip y refl k.valid k.ageless (rw ends there)
            ∙ ap some is,
      )
