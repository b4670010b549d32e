-- ===== src/Adapter/Delays.antt =====
-- What a test of a proxy measures (adapter/adapter.go).
use native.Mathlib.Nat.{le-div_iff_mul-le, div-lt_iff_lt-mul, mod-eq_of_lt}
use rule_base_proxy.Common.{
  All, Bool-cases, List, List-cases, Option, [], ap, ap₂, arith, false, get_or_else, if◌then◌else◌,
  inl, inr, is_some, length, ltb, none, refl, some, suc, true, ℕ, ◌%◌, ◌&&◌, ◌*◌, ◌++◌, ◌+◌, ◌/◌,
  ◌<◌, ◌==◌, ◌^◌, ◌∙◌, ◌∷◌, ◌≡◌, ◌≤◌,
}
use rule_base_proxy.Queue.{put, pop, take_head, last_item, queue_len, seems_empty}
use rule_base_proxy.Adapter.Proxy.{
  Proxy, last_delay, max_delay, store_alive, put_delay, drop_oldest, record_delay, Probe,
  probe_failed, probe_done, sum_probes, mean_delay, url_test,
}

-- The delays that requests give: of those that are answered, with both moments seen, and with a
-- delay that is not 0.
unfoldable pub delays : List Probe → List ℕ
delays [] = []
delays (probe_failed ∷ ps) = delays ps
delays (probe_done seen d ∷ ps) = if seen && ltb 0 d then d ∷ delays ps else delays ps

-- Those that count in a test: not that of the first request.
unfoldable pub counted : List Probe → List ℕ
counted [] = []
counted (p ∷ ps) = delays ps

unfoldable pub total : List ℕ → ℕ
total [] = 0
total (d ∷ l) = d + total l

sum_probes-delays :
    (i : ℕ) (ps : List Probe) (t c : ℕ)
    → sum_probes (suc i) ps (t, c) ≡ (t + total (delays ps), c + length (delays ps))
unfolding sum_probes delays total
sum_probes-delays i [] t c = ap₂ (λ (x y : ℕ). (x, y)) (omega arith) (omega arith)
sum_probes-delays i (probe_failed ∷ ps) t c = sum_probes-delays (suc i) ps t c
sum_probes-delays i (probe_done seen d ∷ ps) t c = elim (Bool-cases (seen && ltb 0 d)) [
  | inl e ↦
      let rest = sum_probes-delays (suc i) ps (t + d) (c + 1) in
      let here : (ltb 0 (suc i) && (seen && ltb 0 d)) ≡ true = ground (arith, e) in
      rw (sum_probes, delays, here, e)
        (rest ∙ ap₂ (λ (x y : ℕ). (x, y)) (omega arith) (omega arith))
  | inr e ↦
      let here : (ltb 0 (suc i) && (seen && ltb 0 d)) ≡ false = ground (arith, e) in
      rw (sum_probes, delays, here, e) (sum_probes-delays (suc i) ps t c)
]

first_ignored :
    (p : Probe) (ps : List Probe) → sum_probes 0 (p ∷ ps) (0, 0) ≡ sum_probes 1 ps (0, 0)
unfolding sum_probes
first_ignored probe_failed ps = refl
first_ignored (probe_done seen d) ps = refl

mean_delay_lem :
    (probes : List Probe)
    → mean_delay probes ≡ (
        if length (counted probes) == 0
        then none
        else some (total (counted probes) / length (counted probes) % 2 ^ 16))
unfolding mean_delay counted sum_probes total
mean_delay_lem [] = refl
mean_delay_lem (p ∷ ps) =
    let sums : sum_probes 0 (p ∷ ps) (0, 0) ≡ (total (delays ps), length (delays ps)) =
      first_ignored p ps
      ∙ sum_probes-delays 0 ps 0 0
      ∙ ap₂ (λ (x y : ℕ). (x, y)) (omega arith) (omega arith) in
    ap (λ (s : ℕ × ℕ). if s.1 == 0 then none else some (s.0 / s.1 % 2 ^ 16)) sums

delays_positive : (ps : List Probe) → All (λ d. 0 < d) (delays ps)
unfolding delays
delays_positive [] = tt
delays_positive (probe_failed ∷ ps) = delays_positive ps
delays_positive (probe_done seen d ∷ ps) = elim (Bool-cases (seen && ltb 0 d)) [
  | inl e ↦ rw e (ground (arith, e), delays_positive ps)
  | inr e ↦ rw e (delays_positive ps)
]

counted_positive : (probes : List Probe) → All (λ d. 0 < d) (counted probes)
unfolding counted
counted_positive [] = tt
counted_positive (p ∷ ps) = delays_positive ps

total_bounds :
    (l : List ℕ)
    → All (λ d. 0 < d) l
    → All (λ d. d < 65536) l
    → (length l ≤ total l) × (total l + length l ≤ 65536 * length l)
unfolding total
total_bounds [] some_delay small = (omega arith, omega arith)
total_bounds (d ∷ l) some_delay small =
    let rest = total_bounds l some_delay.1 small.1 in
    let one = some_delay.0 in
    let few = small.0 in (omega (arith, rest.0, one), omega (arith, rest.1, few))

-- A mean of delays that fit 16 bits fits them and is not 0.
mean_bounds :
    (probes : List Probe)
    → All (λ d. d < 65536) (counted probes)
    → 0 < length (counted probes)
    → (0 < total (counted probes) / length (counted probes))
      × (total (counted probes) / length (counted probes) < 65536)
mean_bounds probes small some_there =
    let b = total_bounds (counted probes) (counted_positive probes) small in
    (
      (le-div_iff_mul-le some_there).1 (omega (arith, b.0)),
      (div-lt_iff_lt-mul some_there).1 (omega (arith, b.1, some_there)),
    )

last_item-append : (l : List ℕ) (x : ℕ) → last_item (l ++ x ∷ []) ≡ some x
unfolding last_item
last_item-append [] x = refl
last_item-append (y ∷ []) x = refl
last_item-append (y ∷ z ∷ l) x = last_item-append (z ∷ l) x

-- The proxy after a test knows whether it has succeeded, and its newest delay is the last one.
record_delay-last :
    (t : Option ℕ) (p : Proxy)
    → ((record_delay t p).alive ≡ is_some t)
      × (last_item (record_delay t p).history ≡ some (get_or_else t 0))
unfolding record_delay store_alive put_delay drop_oldest put pop take_head queue_len seems_empty
record_delay-last t p =
    let x = get_or_else t 0 in
    let q = put_delay x (store_alive t p) in
    elim (List-cases p.history) [
      | inl e ↦ (rw e refl, rw e (last_item-append [] x))
      | inr (y, r, e) ↦ elim (Bool-cases (ltb 10 (length ((y ∷ r) ++ x ∷ [])))) [
        | inl long ↦
            let some_items : (suc (length (r ++ x ∷ [])) == 0) ≡ false = ground arith in
            (rw (e, long) refl, rw (e, long, some_items) (last_item-append r x))
        | inr short ↦ (rw (e, short) refl, rw (e, short) (last_item-append (y ∷ r) x))
      ]
    ]

last_delay_of :
    (q : Proxy) (t : ℕ) → q.alive ≡ true → last_item q.history ≡ some t → 0 < t → last_delay q ≡ t
unfolding last_delay last_item seems_empty
last_delay_of q t up newest positive = elim (List-cases q.history) [
  | inl e ↦ absurd (ground (arith, e, newest))
  | inr (y, r, e) ↦
      let some_items : seems_empty q.history ≡ false = rw (seems_empty, e) (ground arith) in
      rw (last_delay, up, some_items, newest) (ground arith)
]

last_delay_dead : (q : Proxy) → q.alive ≡ false → last_delay q ≡ max_delay
unfolding last_delay
last_delay_dead q down = ground (arith, down)

-- `LastDelay` of a proxy right after a test: the mean of the delays that count, rounded down, where
-- there are some, and the largest delay where there is none. A delay counts when its request is
-- not the first, is answered, and takes a millisecond at least; all of them fit 16 bits.
pub last_delay-url_test :
    (probes : List Probe) (p : Proxy)
    → All (λ d. d < 65536) (counted probes)
    → last_delay (url_test probes p).0 ≡ (
        if length (counted probes) == 0
        then max_delay
        else total (counted probes) / length (counted probes))
unfolding url_test
last_delay-url_test probes p small = elim (Bool-cases (length (counted probes) == 0)) [
  | inl none_there ↦
      let failed : mean_delay probes ≡ none = mean_delay_lem probes ∙ rw none_there refl in
      let down = (record_delay-last (mean_delay probes) p).0 ∙ ap is_some failed in
      rw none_there (last_delay_dead (record_delay (mean_delay probes) p) down)
  | inr some_there ↦
      let mean = total (counted probes) / length (counted probes) in
      let b = mean_bounds probes small (ground (arith, some_there)) in
      let whole : mean % 2 ^ 16 ≡ mean = mod-eq_of_lt (omega (arith, b.1)) in
      let got : mean_delay probes ≡ some mean =
        mean_delay_lem probes ∙ rw some_there (ap some whole) in
      let (alive, newest) = record_delay-last (mean_delay probes) p in
      rw some_there (
        last_delay_of (record_delay (mean_delay probes) p) mean (alive ∙ ap is_some got)
          (newest ∙ ap (λ x. some (get_or_else x 0)) got) b.0)
]
