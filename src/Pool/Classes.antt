-- ===== src/Pool/Classes.antt =====
-- The sizes of the buffers that the allocator of common/pool/alloc.go gives.
use rule_base_proxy.Common.{
  ==_iff, All, Bool-cases, List, List-cases, ap, arith, inl, inr, ltb, refl, some, subst, suc, sym,
  zero, ℕ, ◌%◌, ◌*◌, ◌+◌, ◌-◌, ◌/◌, ◌<◌, ◌==◌, ◌^◌, ◌∙◌, ◌∷◌, ◌≡◌, ◌≤◌,
}
use native.Mathlib.Nat.{mod-eq_of_lt}
use rule_base_proxy.Pool.{Buffer, Allocator, len32, msb, set_pool, slice, take_buffer, get, put}

pow-suc : (k : ℕ) → 2 ^ suc k ≡ 2 ^ k + 2 ^ k
pow-suc k = omega arith

len32_zero : (fuel : ℕ) → len32 fuel 0 ≡ 0
unfolding len32
len32_zero zero = refl
len32_zero (suc fuel) = refl

len32_bounds :
    (fuel n : ℕ)
    → 0 < n
    → n < 2 ^ fuel
    → (k : ℕ) × (len32 fuel n ≡ suc k) × (2 ^ k ≤ n) × (n < 2 ^ suc k) × (k < fuel)
unfolding len32
len32_bounds zero n some_n small = absurd (omega arith)
len32_bounds (suc fuel) n some_n small = elim (Bool-cases (n / 2 == 0)) [
  | inl t ↦
      let half : n / 2 ≡ 0 = (==_iff (n / 2) 0).0 t in
      let none_left : len32 fuel (n / 2) ≡ 0 = ap (len32 fuel) half ∙ len32_zero fuel in
      (0, ground (arith, none_left), omega arith, omega arith, omega arith)
  | inr f ↦
      let some_left : 0 < n / 2 = ground arith in
      let (k, e, low, high, short) =
        len32_bounds fuel (n / 2) some_left (omega (arith, pow-suc fuel)) in
      (
        suc k,
        ground (arith, e),
        omega (arith, pow-suc k),
        omega (arith, pow-suc (suc k)),
        omega arith,
      )
]

pow-le : (k m : ℕ) → k ≤ m → 2 ^ k ≤ 2 ^ m
pow-le k zero h = let none_left : k ≡ 0 = omega arith in rw none_left (omega arith)
pow-le k (suc m) h = elim (Bool-cases (k == suc m)) [
  | inl t ↦ let same = (==_iff k (suc m)).0 t in rw same (omega arith)
  | inr f ↦ let below = pow-le k m (ground arith) in omega (arith, below, pow-suc m)
]

pow-lt : (k j : ℕ) → 2 ^ k < 2 ^ j → k < j
pow-lt k j h = elim (Bool-cases (ltb k j)) [
  | inl t ↦ ground arith
  | inr f ↦ let large = pow-le j k (ground arith) in absurd (omega (arith, large, h))
]

msb_bounds : (n : ℕ) → 0 < n → n ≤ 65536 → (2 ^ msb n ≤ n) × (n < 2 ^ suc (msb n)) × (msb n < 17)
unfolding msb
msb_bounds n some_n small =
    let (k, e, low, high, _) = len32_bounds 32 n some_n (omega arith) in
    let whole : n % 2 ^ 32 ≡ n = mod-eq_of_lt (omega arith) in
    let same : len32 32 (n % 2 ^ 32) - 1 ≡ k =
      ap (λ i. len32 32 i - 1) whole ∙ ap (λ i. i - 1) e ∙ omega arith in
    let below : k < 17 = pow-lt k 17 (omega arith) in rw same (low, high, below)

-- A buffer of a pool has the capacity of its class.
abbrev pub IsValid : Allocator → Type 0
IsValid a = (k : ℕ) → All (λ b. b.capacity ≡ 2 ^ k) (a k)

pub set_pool-IsValid :
    (a : Allocator) (k : ℕ) (l : List Buffer)
    → IsValid a
    → All (λ b. b.capacity ≡ 2 ^ k) l
    → IsValid (set_pool k l a)
set_pool-IsValid a k l v all i = elim (Bool-cases (i == k)) [
  | inl t ↦ rw t (subst (λ j. All (λ b. b.capacity ≡ 2 ^ j) l) (sym ((==_iff i k).0 t)) all)
  | inr f ↦ rw f (v i)
]

-- The class of a size: the least power of 2 that is not below it.
class_bounds :
    (size : ℕ)
    → 0 < size
    → size ≤ 65536
    → (k : ℕ) × (size ≤ 2 ^ k)
      × (2 ^ k < 2 * size)
      × (k < 17)
      × ((a : Allocator) → get a size ≡ take_buffer a k size)
unfolding get
class_bounds size some_size small =
    let (low, high, below) = msb_bounds size some_size small in
    elim (Bool-cases (size == 2 ^ msb size)) [
      | inl t ↦
          let same = (==_iff size (2 ^ msb size)).0 t in
          (msb size, omega arith, omega arith, below, λ a. ground (arith, t))
      | inr f ↦
          let above : 2 ^ msb size < size = ground (arith, f, low) in
          let bound : msb size < 16 = pow-lt (msb size) 16 (omega arith) in
          let plus : msb size + 1 ≡ suc (msb size) = omega arith in
          let next : 2 ^ (msb size + 1) ≡ 2 ^ msb size + 2 ^ msb size =
            ap (λ i. 2 ^ i) plus ∙ pow-suc (msb size) in
          (
            msb size + 1,
            omega (arith, next, high, pow-suc (msb size)),
            omega (arith, next),
            omega (arith, bound),
            λ a. ground (arith, f),
          )
    ]

take_buffer_lem :
    (a : Allocator) (k size : ℕ)
    → IsValid a
    → size ≤ 2 ^ k
    → k < 17
    → (a' : Allocator) × (b : Buffer) × (take_buffer a k size ≡ some (a', some b))
      × IsValid a'
      × (b.len ≡ size)
      × (b.capacity ≡ 2 ^ k)
unfolding take_buffer slice
take_buffer_lem a k size v fits below =
    let new : Buffer = record { capacity = 2 ^ k; len = size } in
    elim (List-cases (a k)) [
      | inl e ↦ (a, new, ground (arith, e, fits, below), v, refl, refl)
      | inr (b, rest, e) ↦
          let (here, others) = subst (All (λ (x : Buffer). x.capacity ≡ 2 ^ k)) e (v k) in
          (
            set_pool k rest a,
            record b { len = size },
            ground (arith, e, fits, below, here),
            set_pool-IsValid a k rest v others,
            refl,
            here,
          )
    ]

pow-msb : (k : ℕ) → k < 17 → msb (2 ^ k) ≡ k
pow-msb k below =
    let least = pow-le 0 k (omega arith) in
    let most = pow-le k 16 (omega (arith, below)) in
    let (low, high, _) = msb_bounds (2 ^ k) (omega (arith, least)) (omega (arith, most)) in
    let above = pow-lt k (suc (msb (2 ^ k))) high in
    let under = pow-lt (msb (2 ^ k)) (suc k) (omega (arith, low, least, pow-suc k)) in
    omega (arith, above, under)

put_lem :
    (a : Allocator) (b : Buffer) (k : ℕ)
    → IsValid a
    → b.capacity ≡ 2 ^ k
    → k < 17
    → (a' : Allocator) × (put a b ≡ some a') × IsValid a'
unfolding put
put_lem a b k v same below =
    let class : msb b.capacity ≡ k = ap msb same ∙ pow-msb k below in
    let fits : b.capacity ≡ 2 ^ msb b.capacity = same ∙ ap (λ i. 2 ^ i) (sym class) in
    let least = pow-le 0 k (omega arith) in
    let most = pow-le k 16 (omega (arith, below)) in
    let some_bytes : 0 < b.capacity = omega (arith, same, least) in
    let few : b.capacity ≤ 65536 = omega (arith, same, most) in
    (
      set_pool (msb b.capacity) (b ∷ a (msb b.capacity)) a,
      ground (arith, fits, some_bytes, few),
      set_pool-IsValid a (msb b.capacity) (b ∷ a (msb b.capacity)) v (fits, v (msb b.capacity)),
    )

-- For a size up to 65536, `Get` on buffers of the right classes does not panic and gives a buffer
-- of that length, whose capacity is less than twice the size; `Put` takes such a buffer back, and
-- the buffers stay in the right classes.
pub get-Fits :
    (a : Allocator) (size : ℕ)
    → IsValid a
    → 0 < size
    → size ≤ 65536
    → (a' : Allocator) × (b : Buffer) × (get a size ≡ some (a', some b))
      × IsValid a'
      × (b.len ≡ size)
      × (size ≤ b.capacity)
      × (b.capacity < 2 * size)
      × (a'' : Allocator) × (put a' b ≡ some a'')
      × IsValid a''
get-Fits a size v some_size small =
    let (k, fits, tight, below, class) = class_bounds size some_size small in
    let (a', b, run, v', len, cap) = take_buffer_lem a k size v fits below in
    let (a'', back, v'') = put_lem a' b k v' cap below in
    (
      a',
      b,
      class a ∙ run,
      v',
      len,
      omega (arith, fits, cap),
      omega (arith, tight, cap),
      a'',
      back,
      v'',
    )
