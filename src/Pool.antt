-- ===== src/Pool.antt =====
-- The allocator of common/pool/alloc.go. A buffer is its capacity and its length, `none` is nil or
-- an error, and a panic is `none` around that. A `sync.Pool` is a list from which the first buffer
-- is taken. A size below 0 gives nil as 0 does, and is not modelled.
pub mod Classes
use rule_base_proxy.Common.{
  List, Option, [], if◌then◌else◌, ltb, none, not, some, suc, zero, ℕ, ◌%◌, ◌+◌, ◌-◌, ◌/◌, ◌==◌,
  ◌>>=◌, ◌^◌, ◌||◌, ◌∷◌,
}

pub record Buffer : Type 0 where
  pub capacity : ℕ
  pub len : ℕ

-- `Allocator`, whose slice `buffers` has 17 pools.
abbrev pub Allocator : Type 0
Allocator = ℕ → List Buffer

abbrev pub new_allocator : Allocator
new_allocator k = []

-- `bits.Len32`, on fuel: a number of 32 bits has no more digits.
unfoldable pub len32 : ℕ → ℕ → ℕ
len32 zero n = 0
len32 (suc fuel) n = let rest = len32 fuel (n / 2) in if n == 0 then 0 else rest + 1

-- `msb` of a size that is not 0.
unfoldable pub msb : ℕ → ℕ
msb size = len32 32 (size % 2 ^ 32) - 1

abbrev pub set_pool : ℕ → List Buffer → Allocator → Allocator
set_pool k l a i = if i == k then l else a i

-- `buf[:size]`
unfoldable pub slice : Buffer → ℕ → Option Buffer
slice b size = if ltb b.capacity size then none else some (record b { len = size })

-- `alloc.buffers[k].Get().([]byte)[:size]`
unfoldable pub take_buffer : Allocator → ℕ → ℕ → Option (Allocator × Option Buffer)
take_buffer a k size =
    if ltb k 17
    then elim (a k) [
      | [] ↦ slice (record { capacity = 2 ^ k; len = 2 ^ k }) size >>= λ b. some (a, some b)
      | b ∷ rest ↦ slice b size >>= λ b'. some (set_pool k rest a, some b')
    ]
    else none

-- `Get`
unfoldable pub get : Allocator → ℕ → Option (Allocator × Option Buffer)
get a size =
    if size == 0 || ltb 65536 size
    then some (a, none)
    else if size == 2 ^ msb size
    then take_buffer a (msb size) size
    else take_buffer a (msb size + 1) size

-- `Put`, or `none` for its error.
unfoldable pub put : Allocator → Buffer → Option Allocator
put a b =
    if b.capacity == 0 || (ltb 65536 b.capacity || not (b.capacity == 2 ^ msb b.capacity))
    then none
    else some (set_pool (msb b.capacity) (b ∷ a (msb b.capacity)) a)
