-- ===== src/Net/Numbers.antt =====
-- Decimal and hexadecimal numbers in texts: `strconv.Itoa` and `strconv.Atoi`.
use rule_base_proxy.Common.{
  Bool, Option, Text, [], false, if◌then◌else◌, leb, ltb, none, some, suc, true, zero, ℕ, ◌%◌, ◌&&◌,
  ◌*◌, ◌+◌, ◌-◌, ◌/◌, ◌==◌, ◌>>=◌, ◌^◌, ◌∷◌,
}

-- One digit, in the bases up to 16.
unfoldable pub digit : ℕ → ℕ
digit d = if ltb d 10 then 48 + d else 87 + d

-- The digits of `n`, before those of `acc`; as many rounds as `fuel`, each for one digit.
unfoldable pub digits : ℕ → ℕ → ℕ → Text → Text
digits zero base n acc = acc
digits (suc fuel) base n acc =
    let more = digits fuel base (n / base) (digit (n % base) ∷ acc) in
    if ltb n base then digit n ∷ acc else more

-- A number has at most as many digits as it is large, and one.
unfoldable pub itoa : ℕ → Text
itoa n = digits (suc n) 10 n []

-- The value of decimal digits, after those read as `acc`; none at another byte.
unfoldable pub digits_value : Text → ℕ → Option ℕ
digits_value [] acc = some acc
digits_value (c ∷ cs) acc =
    let rest = digits_value cs (acc * 10 + (c - b'0')) in
    if leb b'0' c && leb c b'9' then rest else none

unfoldable pub unsigned_value : Text → Option ℕ
unsigned_value [] = none
unsigned_value (c ∷ cs) = digits_value (c ∷ cs) 0

-- An int of 64 bits: whether it is negative, and its distance from 0.
pub record Int64 : Type 0 where
  pub negative : Bool
  pub magnitude : ℕ

unfoldable pub atoi_signed : Bool → Text → Option Int64
atoi_signed neg s = unsigned_value s >>= λ n.
    if ltb n (if neg then 2 ^ 63 + 1 else 2 ^ 63)
    then some (record { negative = neg; magnitude = n })
    else none

-- `strconv.Atoi`
unfoldable pub atoi : Text → Option Int64
atoi [] = none
atoi (c ∷ cs) =
    if c == b'-'
    then atoi_signed true cs
    else if c == b'+'
    then atoi_signed false cs
    else atoi_signed false (c ∷ cs)
