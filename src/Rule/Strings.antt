-- ===== src/Rule/Strings.antt =====
-- The functions of Go's package strings that the rules call, with what they decide.
use rule_base_proxy.Common.{
  ==_iff, Bool, Bool-cases, Text, [], and-eq-true, ap, ap₂, arith, false, inl, inr, refl, text_eq,
  text_eq_iff, text_eq_refl, to_lower, true, ◌&&◌, ◌++◌, ◌==◌, ◌||◌, ◌↔◌, ◌∷◌, ◌≡◌,
}

-- `strings.HasPrefix(s, p)`
unfoldable pub has_prefix : Text → Text → Bool
has_prefix s [] = true
has_prefix [] (c ∷ p) = false
has_prefix (d ∷ s) (c ∷ p) = d == c && has_prefix s p

-- `strings.HasSuffix(s, p)`
unfoldable pub has_suffix : Text → Text → Bool
has_suffix [] p = text_eq [] p
has_suffix (d ∷ s) p = text_eq (d ∷ s) p || has_suffix s p

-- `strings.Contains(s, p)`
unfoldable pub contains : Text → Text → Bool
contains [] p = has_prefix [] p
contains (d ∷ s) p = has_prefix (d ∷ s) p || contains s p

-- `strings.EqualFold` on ASCII bytes.
unfoldable pub equal_fold : Text → Text → Bool
equal_fold a b = text_eq (to_lower a) (to_lower b)

has_prefix-append : (p t : Text) → has_prefix (p ++ t) p ≡ true
unfolding has_prefix
has_prefix-append [] t = refl
has_prefix-append (c ∷ p) t = ground (arith, has_prefix-append p t)

has_prefix-split : (s p : Text) → has_prefix s p ≡ true → (t : Text) × (s ≡ p ++ t)
unfolding has_prefix
has_prefix-split s [] h = (s, refl)
has_prefix-split [] (c ∷ p) h = cc
has_prefix-split (d ∷ s) (c ∷ p) h =
    let (same, rest) = and-eq-true _ _ h in
    let (t, e) = has_prefix-split s p rest in (t, ap₂ ◌∷◌ ((==_iff d c).0 same) e)

has_prefix_iff : (s p : Text) → (has_prefix s p ≡ true) ↔ ((t : Text) × (s ≡ p ++ t))
has_prefix_iff s p = (has_prefix-split s p, λ h. rw h.1 (has_prefix-append p h.0))

has_suffix_refl : (p : Text) → has_suffix p p ≡ true
unfolding has_suffix
has_suffix_refl [] = text_eq_refl []
has_suffix_refl (c ∷ p) = ground (arith, text_eq_refl (c ∷ p))

has_suffix-append : (t p : Text) → has_suffix (t ++ p) p ≡ true
unfolding has_suffix
has_suffix-append [] p = has_suffix_refl p
has_suffix-append (c ∷ t) p = ground (arith, has_suffix-append t p)

has_suffix-split : (s p : Text) → has_suffix s p ≡ true → (t : Text) × (s ≡ t ++ p)
unfolding has_suffix
has_suffix-split [] p h = ([], (text_eq_iff [] p).0 h)
has_suffix-split (d ∷ s) p h = elim (Bool-cases (text_eq (d ∷ s) p)) [
  | inl same ↦ ([], (text_eq_iff (d ∷ s) p).0 same)
  | inr other ↦ let (t, e) = has_suffix-split s p (ground arith) in (d ∷ t, ap (◌∷◌ d) e)
]

pub has_suffix_iff : (s p : Text) → (has_suffix s p ≡ true) ↔ ((t : Text) × (s ≡ t ++ p))
has_suffix_iff s p = (has_suffix-split s p, λ h. rw h.1 (has_suffix-append h.0 p))

contains-has_prefix : (s p : Text) → has_prefix s p ≡ true → contains s p ≡ true
unfolding contains
contains-has_prefix [] p h = h
contains-has_prefix (d ∷ s) p h = ground arith

contains-append : (t p u : Text) → contains (t ++ p ++ u) p ≡ true
unfolding contains
contains-append [] p u = contains-has_prefix (p ++ u) p (has_prefix-append p u)
contains-append (c ∷ t) p u = ground (arith, contains-append t p u)

contains-split : (s p : Text) → contains s p ≡ true → (t : Text) × (u : Text) × (s ≡ t ++ p ++ u)
unfolding contains
contains-split [] p h = let (u, e) = has_prefix-split [] p h in ([], u, e)
contains-split (d ∷ s) p h = elim (Bool-cases (has_prefix (d ∷ s) p)) [
  | inl start ↦ (let (u, e) = has_prefix-split (d ∷ s) p start in ([], u, e))
  | inr later ↦ let (t, u, e) = contains-split s p (ground arith) in (d ∷ t, u, ap (◌∷◌ d) e)
]

pub contains_iff :
    (s p : Text) → (contains s p ≡ true) ↔ ((t : Text) × (u : Text) × (s ≡ t ++ p ++ u))
contains_iff s p = (contains-split s p, λ h. rw h.2 (contains-append h.0 p h.1))
