-- ===== src/Tests/Pool.antt =====
-- The allocator with one buffer in stock.
use rule_base_proxy.Common.{[], arith, none, refl, some, ◌*◌, ◌<◌, ◌∷◌, ◌≡◌, ◌≤◌}
use rule_base_proxy.Pool.{
  Buffer, Allocator, new_allocator, len32, msb, set_pool, slice, take_buffer, get, put,
}
use rule_base_proxy.Pool.Classes.{IsValid, set_pool-IsValid, get-Fits}

program : Unit {0}
unfolding len32 msb slice take_buffer get put
program = tt

abbrev stocked : Allocator
stocked = set_pool 3 (record { capacity = 8; len = 2 } ∷ []) new_allocator

takes_stock :
    elim (get stocked 5) [ some r ↦ r.1 | none ↦ none ] ≡ some (record { capacity = 8; len = 5 })
unfolding program
takes_stock = refl

rejects_odd : put stocked (record { capacity = 6; len = 6 }) ≡ none
unfolding program
rejects_odd = refl

get-Fits_example :
    (a' : Allocator) × (b : Buffer) × (get stocked 5 ≡ some (a', some b))
    × IsValid a'
    × (b.len ≡ 5)
    × (5 ≤ b.capacity)
    × (b.capacity < 2 * 5)
    × (a'' : Allocator) × (put a' b ≡ some a'')
    × IsValid a''
get-Fits_example =
    get-Fits stocked 5
      (set_pool-IsValid new_allocator 3 (record { capacity = 8; len = 2 } ∷ []) (λ k. tt)
        (refl, tt))
      (omega arith) (omega arith)
