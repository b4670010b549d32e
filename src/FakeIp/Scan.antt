-- ===== src/FakeIp/Scan.antt =====
-- The search for a free offset in `get` of component/fakeip/pool.go: it ends, and where.
use native.Mathlib.Decide.{dec_lt}
use native.Mathlib.Nat.{mod-eq_of_lt, mod_self}
use rule_base_proxy.Common.{
  Bool, Bool-cases, Text, ap, arith, false, if◌then◌else◌, inl, inr, ltb, not, refl, some, suc,
  true, zero, ℕ, ◌%◌, ◌+◌, ◌-◌, ◌<◌, ◌==◌, ◌||◌, ◌∙◌, ◌≡◌, ◌≤◌, ◌⊎◌,
}
use rule_base_proxy.LruCache.Cache.{Cache, set, exist}
use rule_base_proxy.FakeIp.Address.{u32, uint_to_ip}
use rule_base_proxy.FakeIp.Pool.{
  Pool, gateway_ip, Value, host_value, key_Eq, Key, offset_key, span, next_offset, scan, get_ip,
}

-- The numbers of a pool that `New` has made: `n` offsets, from the address after the gateway.
pub record IsRange (p : Pool) : Type 0 where
  pub least : 2 ≤ p.min
  pub above : p.min < p.max
  pub word : p.max < u32
  pub gateway : p.gateway + 1 ≡ p.min
  pub offset : p.offset + p.min < p.max

span_of_range : (p : Pool) → IsRange p → span p ≡ p.max - p.min
span_of_range p r = omega arith

-- The next offset is one more, or goes back to 0 after the last.
next_offset-cases :
    (p : Pool) (o : ℕ)
    → IsRange p
    → o + p.min < p.max
    → ((next_offset p o ≡ o + 1) × (o + 1 + p.min < p.max))
      ⊎ ((next_offset p o ≡ 0) × (o + 1 + p.min ≡ p.max))
next_offset-cases p o r h =
    let small : (o + 1) % u32 ≡ o + 1 = omega arith in
    elim (dec_lt (o + 1) (p.max - p.min)) [
      | yes y ↦ inl (rw (small, span_of_range p r) (mod-eq_of_lt y), omega arith)
      | no z ↦
          let all : o + 1 ≡ p.max - p.min = omega arith in
          inr (rw (small, span_of_range p r, all) (mod_self _), omega arith)
    ]

-- The rounds until the search is back at `current`.
abbrev rounds : ℕ → ℕ → ℕ → ℕ
rounds n current o = if ltb o current then current - o else current + n - o

pub record Stops (p : Pool) (o : ℕ) : Type 0 where
  pub inside : o + p.min < p.max
  pub why : (o ≡ p.offset) ⊎ (exist p.cache (offset_key o) ≡ false)

scan-Stops :
    (fuel : ℕ) (p : Pool) (o : ℕ)
    → IsRange p
    → o + p.min < p.max
    → rounds (p.max - p.min) p.offset o ≤ fuel
    → (o' : ℕ) × (scan fuel p p.offset o ≡ some o') × Stops p o'
unfolding scan
scan-Stops zero p o r h enough = absurd (ground arith)
scan-Stops (suc fuel) p o r h enough =
    let o' = next_offset p o in
    let inside : o' + p.min < p.max = ground (arith, next_offset-cases p o r h) in
    elim (Bool-cases (o' == p.offset || not (exist p.cache (offset_key o')))) [
      | inl t ↦ (o', rw (t, scan), record { inside = inside; why = ground arith })
      | inr f ↦
          let fewer : rounds (p.max - p.min) p.offset o' ≤ fuel =
            ground (arith, next_offset-cases p o r h, r.offset) in
          let (o'', found, stops) = scan-Stops fuel p o' r inside fewer in
          (o'', rw (f, scan) found, stops)
    ]

-- The search ends within the fuel: at an unused offset, or where it began.
scan_total :
    (p : Pool) → IsRange p → (o : ℕ) × (scan (span p) p p.offset p.offset ≡ some o) × Stops p o
scan_total p r = scan-Stops (span p) p p.offset r r.offset (rw (span_of_range p r) (ground arith))

-- A word that stands at an offset.
abbrev pub word_at : Pool → ℕ → ℕ
word_at p o = p.min + o - 1

-- `get` returns an address between the gateway and the last but one of the range, stores the host
-- at its offset, and goes on from there.
pub get_ip_total :
    (p : Pool) (h : Text)
    → IsRange p
    → (o : ℕ) × Stops p o
      × (get_ip p h
          ≡ some (
            record p { offset = o; cache = set 0 0 p.cache (offset_key o) (host_value h) },
            uint_to_ip (word_at p o),
          ))
unfolding get_ip
get_ip_total p h r =
    let (o, found, stops) = scan_total p r in
    let some_room : (span p == 0) ≡ false = ground (arith, span_of_range p r) in
    let word : (p.min + o + u32 - 1) % u32 ≡ p.min + o - 1 = omega (arith, stops.inside, r.least) in
    (o, stops, rw (some_room, found, word))

get_ip-IsRange :
    (p : Pool) (o : ℕ) (c : Cache Key Value)
    → IsRange p
    → Stops p o
    → IsRange (record p { offset = o; cache = c })
get_ip-IsRange p o c r s = record {
  least = r.least;
  above = r.above;
  word = r.word;
  gateway = r.gateway;
  offset = s.inside;
}

scan_next :
    (fuel : ℕ) (p : Pool) (current o : ℕ)
    → 0 < fuel
    → exist p.cache (offset_key (next_offset p o)) ≡ false
    → scan fuel p current o ≡ some (next_offset p o)
unfolding scan
scan_next zero p current o h unused = absurd (omega arith)
scan_next (suc fuel) p current o h unused = rw (scan, unused) (done (next_offset p o == current))
  where
    done :
        (b : Bool)
        → elim (b || true) [
          | true ↦ some (next_offset p o)
          | false ↦ scan fuel p current (next_offset p o)
        ]
          ≡ some (next_offset p o)
    done true = refl
    done false = refl

-- At the last offset, if offset 0 is unused, the address that `get` hands out is the gateway's.
pub get_ip_gateway :
    (p : Pool) (h : Text)
    → IsRange p
    → p.offset + 1 + p.min ≡ p.max
    → exist p.cache (offset_key 0) ≡ false
    → (p' : Pool) × (get_ip p h ≡ some (p', gateway_ip p))
unfolding get_ip gateway_ip
get_ip_gateway p h r at_end unused =
    let back : next_offset p p.offset ≡ 0 =
      ground (arith, next_offset-cases p p.offset r r.offset) in
    let some_room : (span p == 0) ≡ false = ground (arith, span_of_range p r) in
    let found : scan (span p) p p.offset p.offset ≡ some 0 =
      scan_next (span p) p p.offset p.offset (rw (span_of_range p r) (ground arith))
        (rw back unused)
      ∙ ap some back in
    let word : (p.min + 0 + u32 - 1) % u32 ≡ p.gateway = ground (arith, r.gateway) in
    (
      record p { offset = 0; cache = set 0 0 p.cache (offset_key 0) (host_value h) },
      rw (some_room, found, word),
    )
