-- ===== src/Common/Options.antt =====
-- Helpers on `Option`.
use mathlib.Core.Path.{◌≡◌, refl}
use mathlib.Core.Logic.{◌⊎◌, inl, inr}
use mathlib.Core.Option.{Option, none, some}
use mathlib.Core.Bool.{Bool, true, false}
use native.Mathlib.Omega.{arith}

pub Option-cases {ℓ} : {A : Type ℓ} (o : Option A) → (o ≡ none) ⊎ ((a : A) × (o ≡ some a))
Option-cases none = inl refl
Option-cases (some a) = inr (a, refl)

-- `if x := a; x != nil { return x }; return b`
infixr 30 ◌<|>◌
abbrev pub ◌<|>◌ {ℓ} : {A : Type ℓ} → Option A → Option A → Option A
none <|> b = b
some a <|> b = some a

infixl 5 ◌>>=◌
abbrev pub ◌>>=◌ {ℓ κ} : {A : Type ℓ} {B : Type κ} → Option A → (A → Option B) → Option B
none >>= f = none
some a >>= f = f a

abbrev pub is_some {ℓ} : {A : Type ℓ} → Option A → Bool
is_some none = false
is_some (some a) = true

abbrev pub get_or_else {ℓ} : {A : Type ℓ} → Option A → A → A
get_or_else none d = d
get_or_else (some a) d = a

pub <|>-eq-some {ℓ} :
    {A : Type ℓ} (a b : Option A) {x : A}
    → (a <|> b) ≡ some x
    → (a ≡ some x) ⊎ ((a ≡ none) × (b ≡ some x))
<|>-eq-some none b h = inr (refl, h)
<|>-eq-some (some y) b h = inl h

pub <|>-eq-none {ℓ} : {A : Type ℓ} (a b : Option A) → (a <|> b) ≡ none → (a ≡ none) × (b ≡ none)
<|>-eq-none none b h = (refl, h)
<|>-eq-none (some y) b h = cc

-- Inversion of a successful bind.
pub >>=-eq-some {ℓ κ} :
    {A : Type ℓ} {B : Type κ} (m : Option A) (f : A → Option B) {b : B}
    → (m >>= f) ≡ some b
    → (a : A) × (m ≡ some a) × (f a ≡ some b)
>>=-eq-some (some a) f h = (a, refl, h)
>>=-eq-some none f h = cc

pub >>=-at-some {ℓ κ} :
    {A : Type ℓ} {B : Type κ} (m : Option A) (f : A → Option B) {a : A}
    → (m >>= f) ≡ none
    → m ≡ some a
    → f a ≡ none
>>=-at-some (some x) f h e = ground (arith)
>>=-at-some none f h e = cc

pub some_inj {ℓ} : {A : Type ℓ} {a b : A} → some a ≡ some b → a ≡ b
some_inj h = cc
