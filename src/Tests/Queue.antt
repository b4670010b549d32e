-- ===== src/Tests/Queue.antt =====
-- The queue (common/queue) with one item.
use rule_base_proxy.Common.{[], arith, none, refl, some, ℕ, ◌∷◌, ◌≡◌}
use rule_base_proxy.Queue.{put, seems_empty, take_head, pop, last_item, last, queue_len}
use rule_base_proxy.Queue.Races.{State, state, Steps, puts, stop, go, Panics, Steps-Panics}

program : Unit {0}
unfolding put seems_empty take_head pop last_item last queue_len
program = tt

-- First in, first out.
in_order :
    (pop {A = ℕ} (put (3 ∷ []) (1 ∷ 2 ∷ [])) ≡ some (2 ∷ 3 ∷ [], some 1))
    × (pop {A = ℕ} [] ≡ some ([], none))
    × (last {A = ℕ} (1 ∷ 2 ∷ []) ≡ some (some 2))
    × (queue_len {A = ℕ} (put (3 ∷ []) (1 ∷ [])) ≡ 2)
unfolding program
in_order = (refl, refl, refl, refl)

Steps-Panics_example : (s : State ℕ) × Steps 2 (state (7 ∷ []) 0) s × Panics s
Steps-Panics_example = Steps-Panics 2 (7 ∷ []) (omega arith) (omega arith)

abbrev filled : State ℕ
filled = state (put (7 ∷ []) []) 0

one_put : Steps 1 (state [] 0) filled
one_put = go (puts [] (7 ∷ []) 0) (stop filled)
