-- ===== src/Net.antt =====
-- The parts of Go's package `net` that the program computes with: `net.IP` as its bytes.
pub mod Numbers
pub mod Printing
pub mod Networks
use rule_base_proxy.Common.{
  ==_iff, Bool-cases, List, Option, Text, [], and-eq-true, ap, arith, drop, if◌then◌else◌, inl, inr,
  length, length-drop, none, some, some_inj, take, text_eq, ℕ, ◌&&◌, ◌==◌, ◌∷◌, ◌≡◌,
}

-- A `net.IP` is a slice of 4 or of 16 bytes.
abbrev pub Ip : Type 0
Ip = List ℕ

-- The prefix of an IPv4 address in its 16-byte form.
abbrev pub v4_prefix : Text
v4_prefix = 0 ∷ 0 ∷ 0 ∷ 0 ∷ 0 ∷ 0 ∷ 0 ∷ 0 ∷ 0 ∷ 0 ∷ 255 ∷ 255 ∷ []

-- `ip.To4()`
unfoldable pub to4 : Ip → Option Ip
to4 ip =
    if length ip == 4
    then some ip
    else if length ip == 16 && text_eq (take 12 ip) v4_prefix
    then some (drop 12 ip)
    else none

pub to4_of_length : (ip : Ip) → length ip ≡ 4 → to4 ip ≡ some ip
unfolding to4
to4_of_length ip h = rw h

length-to4 : (ip : Ip) {q : Ip} → to4 ip ≡ some q → length q ≡ 4
unfolding to4
length-to4 ip {q} h = elim (Bool-cases (length ip == 4)) [
  | inl t ↦ ground arith
  | inr f ↦ elim (Bool-cases (length ip == 16 && text_eq (take 12 ip) v4_prefix)) [
    | inl t ↦
        let same : drop 12 ip ≡ q = some_inj (rw (f, t) at h) in
        omega (
          arith,
          ap length same,
          length-drop 12 ip,
          (==_iff (length ip) 16).0 (and-eq-true _ _ t).0,
        )
    | inr f' ↦ absurd (ground arith)
  ]
]
