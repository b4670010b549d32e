-- ===== src/Queue/Races.antt =====
-- Goroutines that pop from one `Queue` (common/queue/queue.go).
use rule_base_proxy.Common.{
  List, [], arith, false, length, length-append, none, refl, some, subst, suc, zero, ℕ, ◌+◌, ◌<◌,
  ◌∷◌, ◌≡◌, ◌≢◌, ◌≤◌,
}
use rule_base_proxy.Queue.{put, seems_empty, take_head}

-- The items, and the number of goroutines that have found the queue not empty in a `Pop` and have
-- not yet taken its head.
pub record State (A : Type 0) : Type 0 where
  pub items : List A
  pub waiting : ℕ

abbrev pub state : {A : Type 0} → List A → ℕ → State A
state q n = record { items = q; waiting = n }

-- The steps, where at most `limit` goroutines pop: a `Put` of some items, a `Pop` that looks at the
-- length, and one that takes the head.
pub data Step {A : Type 0} (limit : ℕ) : State A → State A → Type 0 where
  puts : (q xs : List A) (n : ℕ) → Step limit (state q n) (state (put xs q) n)
  looks :
      (q : List A) (n : ℕ)
      → n < limit
      → seems_empty q ≡ false
      → Step limit (state q n) (state q (suc n))
  takes :
      (q r : List A) (n : ℕ) (x : A)
      → take_head q ≡ some (r, x)
      → Step limit (state q (suc n)) (state r n)

pub data Steps {A : Type 0} (limit : ℕ) : State A → State A → Type 0 where
  stop : (s : State A) → Steps limit s s
  go : {s t u : State A} → Step limit s t → Steps limit t u → Steps limit s u

-- A goroutine is about to take the head of an empty queue.
abbrev pub Panics : {A : Type 0} → State A → Type 0
Panics s = (0 < s.waiting) × (take_head s.items ≡ none)

module _ {A : Type 0} (limit : ℕ) where
  Steps-trans : {s t u : State A} → Steps limit s t → Steps limit t u → Steps limit s u
  Steps-trans (stop s) k = k
  Steps-trans (go a r) k = go a (Steps-trans r k)

  -- Every goroutine takes a head while there are items.
  takes_all : (q : List A) (n : ℕ) → Steps limit (state q (length q + n)) (state [] n)
  unfolding take_head
  takes_all [] n =
      let e : n ≡ 0 + n = omega arith in
      subst (λ i. Steps {A = A} limit (state [] i) (state [] n)) e (stop (state [] n))
  takes_all (x ∷ q) n =
      let e : suc (length q + n) ≡ suc (length q) + n = omega arith in
      subst (λ i. Steps limit (state (x ∷ q) i) (state [] n)) e
        (go (takes (x ∷ q) q (length q + n) x refl) (takes_all q n))

  looks_many :
      (q : List A) (n k : ℕ)
      → seems_empty q ≡ false
      → n + k ≤ limit
      → Steps limit (state q n) (state q (n + k))
  looks_many q n zero full fits =
      subst (λ i. Steps limit (state q n) (state q i)) (omega arith) (stop (state q n))
  looks_many q n (suc k) full fits = go (looks q n (omega arith) full) (
      subst (λ i. Steps limit (state q (suc n)) (state q i)) (omega arith)
        (looks_many q (suc n) k full (omega arith)))

  -- When there is an item and more goroutines may pop than there are items, a state is reached
  -- where one of them is about to take the head of an empty queue, which panics: `Pop` looks at
  -- the length before it takes the lock.
  pub Steps-Panics :
      (q : List A)
      → 0 < length q
      → length q < limit
      → (s : State A) × Steps limit (state q 0) s × Panics s
  unfolding seems_empty take_head
  Steps-Panics q some_item many =
      let looked : Steps limit (state q 0) (state q (length q + 1)) =
        let e : 0 + (length q + 1) ≡ length q + 1 = omega arith in
        subst (λ i. Steps limit (state q 0) (state q i)) e
          (looks_many q 0 (length q + 1) (ground arith) (omega arith)) in
      (state [] 1, Steps-trans looked (takes_all q 1), (omega arith, refl))

-- What holds when one goroutine pops.
IsCalm : {A : Type 0} → State A → Type 0
IsCalm s = (s.waiting ≤ 1) × (0 < s.waiting → 0 < length s.items)

Step-IsCalm : {A : Type 0} {s t : State A} → Step 1 s t → IsCalm s → IsCalm t
unfolding IsCalm put seems_empty take_head
Step-IsCalm (puts q xs n) c = ground (arith, length-append q xs)
Step-IsCalm (looks q n below full) c = ground arith
Step-IsCalm (takes q r n x h) c = ground arith

run-IsCalm : {A : Type 0} {s t : State A} → Steps 1 s t → IsCalm s → IsCalm t
run-IsCalm (stop s) c = c
run-IsCalm (go step rest) c = run-IsCalm rest (Step-IsCalm step c)

take_head-none : {A : Type 0} (q : List A) → 0 < length q → take_head q ≢ none
unfolding take_head
take_head-none [] h = absurd (omega (arith, h))
take_head-none (x ∷ q) h = λ e. cc

-- When at most one goroutine pops, whatever is put in between, no state is reached from one with
-- no `Pop` under way in which it is about to take the head of an empty queue.
pub Steps-Panics_alone : {A : Type 0} (s t : State A) → Steps 1 s t → s.waiting ≡ 0 → ¬ Panics t
unfolding IsCalm
Steps-Panics_alone s t steps none_waiting (waits, empty) =
    let calm =
      run-IsCalm steps
        (omega (arith, none_waiting), λ h. absurd (omega (arith, none_waiting, h))) in
    take_head-none t.items (calm.1 waits) empty
