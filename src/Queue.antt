-- ===== src/Queue.antt =====
-- `Queue` of common/queue/queue.go: a slice behind a lock. `Pop` and `Last` look at the length
-- before they take the lock, so each is two steps here, and others may step in between. `none`
-- as a result is the panic of an index out of range.
pub mod Races
use rule_base_proxy.Common.{
  Bool, List, Option, [], if◌then◌else◌, length, none, some, ℕ, ◌++◌, ◌==◌, ◌>>=◌, ◌∷◌,
}

module _ {A : Type 0} where
  -- `Put`
  unfoldable pub put : List A → List A → List A
  put items q = if length items == 0 then q else q ++ items

  -- The look at the length, without the lock.
  unfoldable pub seems_empty : List A → Bool
  seems_empty q = length q == 0

  -- `Pop` from the lock on.
  unfoldable pub take_head : List A → Option (List A × A)
  take_head [] = none
  take_head (x ∷ q) = some (q, x)

  -- `Pop` when no other goroutine steps in between: nil for an empty queue.
  unfoldable pub pop : List A → Option (List A × Option A)
  pop q = if seems_empty q then some (q, none) else (take_head q >>= λ r. some (r.0, some r.1))

  -- `Last` from the lock on.
  unfoldable pub last_item : List A → Option A
  last_item [] = none
  last_item (x ∷ []) = some x
  last_item (x ∷ y ∷ q) = last_item (y ∷ q)

  -- `Last`, with no step in between.
  unfoldable pub last : List A → Option (Option A)
  last q = if seems_empty q then some none else (last_item q >>= λ x. some (some x))

  -- `Len`
  unfoldable pub queue_len : List A → ℕ
  queue_len q = length q
