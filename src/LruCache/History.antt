-- ===== src/LruCache/History.antt =====
-- `LruCache` (common/cache/lrucache.go) with a size and no age, against an ideal cache that never
-- evicts: the bounded list is the most recently used end of the ideal one.
use native.Mathlib.Decide.{dec_le}
use rule_base_proxy.Common.{
  Bool-cases, Eq, List, List-cases, Option-cases, [], ap, arith, drop, if◌then◌else◌, inl, inr, leb,
  length, length-append, length-drop, ltb, none, refl, some, subst, suc, sym, ℕ, ◌&&◌, ◌++◌, ◌+◌,
  ◌-◌, ◌∙◌, ◌∷◌, ◌≡◌, ◌≤◌,
}
use rule_base_proxy.LruCache.Entries.{
  Entry, find, remove, Distinct, find-key, remove_absent, length-remove, length-remove-le,
  touched-Distinct,
}
use rule_base_proxy.LruCache.Cache.{
  Cache, maybe_delete_oldest, store_entry, set_with_expire, set, is_expired, get_entry, get,
}
use rule_base_proxy.LruCache.Settings.{set-SameSettings, store_entry-SameSettings, get-SameSettings}
use rule_base_proxy.LruCache.Valid.{IsValid, element-find, set-IsValid, get-IsValid}
use rule_base_proxy.LruCache.Reads.{
  lru-maybe_delete_oldest, lru-store_entry_new, lru-store_entry_known,
}

-- The last `m` items.
abbrev pub last {ℓ} : {A : Type ℓ} → ℕ → List A → List A
last m l = drop (length l - m) l

last_all {ℓ} : {A : Type ℓ} (m : ℕ) (l : List A) → length l ≤ m → last m l ≡ l
last_all m l h = let none_left : length l - m ≡ 0 = omega arith in rw none_left

last-cons {ℓ} : {A : Type ℓ} (m : ℕ) (x : A) (l : List A) → m ≤ length l → last m (x ∷ l) ≡ last m l
last-cons m x l h = let more : suc (length l) - m ≡ suc (length l - m) = omega arith in rw more

length-last-le {ℓ} : {A : Type ℓ} (m : ℕ) (l : List A) → length (last m l) ≤ m
length-last-le m l = omega (arith, length-drop (length l - m) l)

last-pushed {ℓ} :
    {A : Type ℓ} (m : ℕ) (l : List A) (x : A)
    → length l ≤ suc m
    → last (suc m) (l ++ x ∷ [])
      ≡ (if ltb 0 (suc m) && leb (suc m) (length l) then drop 1 l else l) ++ x ∷ []
last-pushed m l x h = elim (Bool-cases (ltb 0 (suc m) && leb (suc m) (length l))) [
  | inl t ↦
      let one : length (l ++ x ∷ []) - suc m ≡ 1 = ground (arith, length-append l (x ∷ [])) in
      rw (t, one)
        (elim (List-cases l) [
          | inl e ↦ absurd (ground (arith, ap length e))
          | inr (y, r, e) ↦ rw e
        ])
  | inr f ↦
      let none_left : length (l ++ x ∷ []) - suc m ≡ 0 = ground (arith, length-append l (x ∷ [])) in
      rw (f, none_left)
]

pub data Call {ℓ} (K V : Type ℓ) : Type ℓ where
  get_call : K → Call K V
  set_call : K → V → Call K V

module _ {ℓ} {K V : Type ℓ} ⦃e : Eq K⦄ where
  -- Moves or adds an entry to the recent end.
  abbrev pub touch : Entry K V → List (Entry K V) → List (Entry K V)
  touch x h = remove x.key h ++ x ∷ []

  -- What a call makes of the ideal history: a `Get` is a use if its key is in the window.
  unfoldable pub note : ℕ → Call K V → List (Entry K V) → List (Entry K V)
  note m (set_call k x) h = touch (record { key = k; value = x; expires = 0 }) h
  note m (get_call k) h = elim (find k (last m h)) [ none ↦ h | some y ↦ touch y h ]

  unfoldable pub notes : ℕ → List (Call K V) → List (Entry K V) → List (Entry K V)
  notes m [] h = h
  notes m (a ∷ calls) h = notes m calls (note m a h)

  unfoldable pub run_call : ℕ → Call K V → Cache K V → Cache K V
  run_call now (set_call k x) c = set now now c k x
  run_call now (get_call k) c = (get now now c k).0

  unfoldable pub run_calls : ℕ → List (Call K V) → Cache K V → Cache K V
  run_calls now [] c = c
  run_calls now (a ∷ calls) c = run_calls now calls (run_call now a c)

  length-touch-le : (x : Entry K V) (l : List (Entry K V)) → length (touch x l) ≤ length l + 1
  length-touch-le x l =
      omega (arith, length-append (remove x.key l) (x ∷ []), length-remove-le x.key l)

  length-touch : (x : Entry K V) (l : List (Entry K V)) → length l ≤ length (touch x l)
  length-touch x l = elim (Option-cases (find x.key l)) [
    | inl h ↦ rw (remove_absent x.key l h) (omega (arith, length-append l (x ∷ [])))
    | inr (y, h) ↦ omega (arith, length-append (remove x.key l) (x ∷ []), length-remove x.key l h)
  ]

  length-touch_known :
      (x : Entry K V) (l : List (Entry K V)) {z : Entry K V}
      → find x.key l ≡ some z
      → length (touch x l) ≡ length l
  length-touch_known x l h =
      omega (arith, length-append (remove x.key l) (x ∷ []), length-remove x.key l h)

  last-touch-cons :
      (m : ℕ) (x y : Entry K V) (h : List (Entry K V))
      → Distinct (y ∷ h)
      → m ≤ length h
      → last m (touch x (y ∷ h)) ≡ last m (touch x h)
  unfolding remove
  last-touch-cons m x y h d p = elim (Bool-cases (e.beq y.key x.key)) [
    | inl t ↦
        let absent : find x.key h ≡ none = rw ((e.beq_iff y.key x.key).0 t) at d.0 in
        rw (t, remove_absent x.key h absent)
    | inr f ↦ rw f (last-cons m y (touch x h) (omega (arith, length-touch x h)))
  ]

  -- To touch an entry and keep the last `m`, the last `m` entries are all that matter.
  last-touch-last :
      (m : ℕ) (x : Entry K V) (h : List (Entry K V))
      → Distinct h
      → last m (touch x (last m h)) ≡ last m (touch x h)
  last-touch-last m x [] d = rw (last_all {A = Entry K V} m [] (omega arith))
  last-touch-last m x (y ∷ h) d = elim (dec_le (suc (length h)) m) [
    | yes p ↦ rw (last_all m (y ∷ h) p)
    | no p ↦
        rw (last-cons m y h (omega arith))
          (last-touch-last m x h d.1 ∙ sym (last-touch-cons m x y h d (omega arith)))
  ]

  -- With no age set, nothing is ever too old.
  pub lru-maybe_delete_oldest_ageless :
      (now : ℕ) (c : Cache K V) → c.max_age ≡ 0 → (maybe_delete_oldest now c).lru ≡ c.lru
  lru-maybe_delete_oldest_ageless now c age = rw lru-maybe_delete_oldest (ground arith)

  lru-store_entry-last :
      (m : ℕ) (c : Cache K V) (k : K) (x : V)
      → IsValid c
      → c.max_size ≡ suc m
      → (store_entry c k x 0).lru
        ≡ last (suc m) (touch (record { key = k; value = x; expires = 0 }) c.lru)
  lru-store_entry-last m c k x v size =
      let new : Entry K V = record { key = k; value = x; expires = 0 } in
      let room : length c.lru ≤ suc m = rw size at (v.bounded (omega arith)) in
      elim (Option-cases (find k c.lru)) [
        | inl h ↦
            lru-store_entry_new c k x 0 h v
            ∙ rw (remove_absent k c.lru h, size) (sym (last-pushed m c.lru new room))
        | inr (y, h) ↦
            lru-store_entry_known c k x 0 h v
            ∙ sym (
                last_all (suc m) (touch new c.lru) (
                  omega
                    (arith, length-append (remove k c.lru) (new ∷ []), length-remove k c.lru h)))
      ]

  -- What the cache's list becomes is the window of the touched list.
  lru-set :
      (now m : ℕ) (c : Cache K V) (k : K) (x : V)
      → IsValid c
      → c.max_age ≡ 0
      → c.max_size ≡ suc m
      → (set now now c k x).lru
        ≡ last (suc m) (touch (record { key = k; value = x; expires = 0 }) c.lru)
  unfolding set set_with_expire
  lru-set now m c k x v age size =
      let at : (if ltb 0 c.max_age then now + c.max_age else 0) ≡ 0 = ground arith in
      rw at (
        lru-maybe_delete_oldest_ageless now (store_entry c k x 0)
          ((store_entry-SameSettings c k x 0).age ∙ age)
        ∙ lru-store_entry-last m c k x v size)

  lru-get :
      (now m : ℕ) (c : Cache K V) (k : K) {y : Entry K V}
      → IsValid c
      → c.max_age ≡ 0
      → c.max_size ≡ suc m
      → find k c.lru ≡ some y
      → (get now now c k).0.lru ≡ last (suc m) (touch y c.lru)
  unfolding get get_entry is_expired
  lru-get now m c k {y} v age size h =
      let room : length c.lru ≤ suc m = rw size at (v.bounded (omega arith)) in
      let same : y.key ≡ k = find-key k c.lru h in
      let kept = last_all (suc m) (touch y c.lru) (
        omega (
          arith,
          length-touch_known y c.lru {z = y} (subst (λ j. find j c.lru ≡ some y) (sym same) h),
        )) in
      ground (arith, element-find c k v.coherent, kept, same)

  pub record Tracks (m : ℕ) (c : Cache K V) (h : List (Entry K V)) : Type ℓ where
    pub valid : IsValid c
    pub age : c.max_age ≡ 0
    pub size : c.max_size ≡ suc m
    pub distinct : Distinct h
    pub window : c.lru ≡ last (suc m) h

  get_missed :
      (now m : ℕ) (k : K) (c : Cache K V) (h : List (Entry K V))
      → Tracks m c h
      → find k c.lru ≡ none
      → Tracks m (get now now c k).0 h
  unfolding get get_entry
  get_missed now m k c h t miss = rw (element-find c k t.valid.coherent ∙ miss, get, get_entry) t

  get_hit :
      (now m : ℕ) (k : K) (c : Cache K V) (h : List (Entry K V)) (y : Entry K V)
      → Tracks m c h
      → find k c.lru ≡ some y
      → Tracks m (get now now c k).0 (touch y h)
  get_hit now m k c h y t hit =
      let same = get-SameSettings now now c k in
      record {
        valid = get-IsValid now now c k t.valid;
        age = same.age ∙ t.age;
        size = same.size ∙ t.size;
        distinct = touched-Distinct y.key h y t.distinct refl;
        window =
            lru-get now m c k t.valid t.age t.size hit
            ∙ ap (λ l. last (suc m) (touch y l)) t.window
            ∙ last-touch-last (suc m) y h t.distinct;
      }

  run_call-Tracks :
      (now m : ℕ) (a : Call K V) (c : Cache K V) (h : List (Entry K V))
      → Tracks m c h
      → Tracks m (run_call now a c) (note (suc m) a h)
  unfolding run_call note
  run_call-Tracks now m (set_call k x) c h t =
      let same = set-SameSettings now now c k x in
      let new : Entry K V = record { key = k; value = x; expires = 0 } in
      record {
        valid = set-IsValid now now c k x t.valid;
        age = same.age ∙ t.age;
        size = same.size ∙ t.size;
        distinct = touched-Distinct k h new t.distinct refl;
        window =
            lru-set now m c k x t.valid t.age t.size
            ∙ ap (λ l. last (suc m) (touch new l)) t.window
            ∙ last-touch-last (suc m) new h t.distinct;
      }
  run_call-Tracks now m (get_call k) c h t = elim (Option-cases (find k (last (suc m) h))) [
    | inl miss ↦ rw (miss, note) (get_missed now m k c h t (ap (find k) t.window ∙ miss))
    | inr (y, hit) ↦ rw (hit, note) (get_hit now m k c h y t (ap (find k) t.window ∙ hit))
  ]

  -- After any run of calls the cache holds exactly the most recently used entries of the ideal
  -- history, in order: what is evicted is always the least recently used.
  pub run_calls-Tracks :
      (now m : ℕ) (calls : List (Call K V)) (c : Cache K V) (h : List (Entry K V))
      → Tracks m c h
      → Tracks m (run_calls now calls c) (notes (suc m) calls h)
  unfolding run_calls notes
  run_calls-Tracks now m [] c h t = t
  run_calls-Tracks now m (a ∷ calls) c h t =
      run_calls-Tracks now m calls _ _ (run_call-Tracks now m a c h t)
