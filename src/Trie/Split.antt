-- ===== src/Trie/Split.antt =====
-- `ValidAndSplitDomain` (component/trie/domain.go) and its inverse, joining labels with dots.
use rule_base_proxy.Common.{
  All, Bool, Bool-cases, List, Text, [], ap, arith, false, inl, inr, refl, some, sym, ℕ, ◌++◌, ◌==◌,
  ◌||◌, ◌∙◌, ◌∷◌, ◌≡◌,
}
use rule_base_proxy.Trie.Domain.{
  push_first, split_dot, ends_with_dot, has_empty, is_empty, check_parts, valid_and_split_domain,
}

-- `strings.Join(parts, ".")`
unfoldable pub join_dot : List Text → Text
join_dot [] = []
join_dot (p ∷ []) = p
join_dot (p ∷ q ∷ ps) = p ++ b'.' ∷ join_dot (q ∷ ps)

unfoldable pub has_dot : Text → Bool
has_dot [] = false
has_dot (c ∷ cs) = c == b'.' || has_dot cs

abbrev pub DotFree : Text → Type 0
DotFree p = has_dot p ≡ false

-- The lists of labels that a domain is cut into: dot-free, and empty at most at the front of
-- several.
abbrev pub IsDomain : List Text → Type 0
IsDomain [] = ⊥
IsDomain (p ∷ []) = DotFree p × (is_empty p ≡ false)
IsDomain (p ∷ q ∷ ps) = DotFree p × All DotFree (q ∷ ps) × (has_empty (q ∷ ps) ≡ false)

join_dot-cons_cons :
    (p q : Text) (ps : List Text) → join_dot (p ∷ q ∷ ps) ≡ p ++ b'.' ∷ join_dot (q ∷ ps)
unfolding join_dot
join_dot-cons_cons p q ps = refl

join_dot-push_first :
    (c : ℕ) (p : Text) (ps : List Text) → join_dot (push_first c (p ∷ ps)) ≡ c ∷ join_dot (p ∷ ps)
unfolding join_dot
join_dot-push_first c p [] = refl
join_dot-push_first c p (q ∷ ps) = refl

split_dot-cons : (s : Text) → (p : Text) × (ps : List Text) × (split_dot s ≡ p ∷ ps)
unfolding split_dot
split_dot-cons [] = ([], [], refl)
split_dot-cons (c ∷ s) = elim (Bool-cases (c == b'.')) [
  | inl e ↦ ([], split_dot s, rw e)
  | inr e ↦ let (p, ps, h) = split_dot-cons s in (c ∷ p, ps, rw (e, h))
]

join_dot-split_dot : (s : Text) → join_dot (split_dot s) ≡ s
unfolding split_dot
join_dot-split_dot [] = unfold join_dot in refl
join_dot-split_dot (c ∷ s) =
    let (p, ps, h) = split_dot-cons s in
    let ih : join_dot (p ∷ ps) ≡ s = sym (ap join_dot h) ∙ join_dot-split_dot s in
    elim (Bool-cases (c == b'.')) [
      | inl e ↦ rw (e, h, join_dot-cons_cons) (ground (arith, ih))
      | inr e ↦ rw (e, h) (join_dot-push_first c p ps ∙ ap (◌∷◌ c) ih)
    ]

split_dot-DotFree : (s : Text) → All DotFree (split_dot s)
unfolding split_dot has_dot
split_dot-DotFree [] = ground arith
split_dot-DotFree (c ∷ s) =
    let (p, ps, h) = split_dot-cons s in
    let ih : All DotFree (p ∷ ps) = rw h at (split_dot-DotFree s) in
    elim (Bool-cases (c == b'.')) [
      | inl e ↦ rw (e, h) (refl, ih)
      | inr e ↦ rw (e, h) (ground (arith, ih.0), ih.1)
    ]

split_dot-label : (p s : Text) → DotFree p → split_dot (p ++ b'.' ∷ s) ≡ p ∷ split_dot s
unfolding split_dot has_dot
split_dot-label [] s h = refl
split_dot-label (c ∷ p) s h = ground (arith, split_dot-label p s)

split_dot_single : (p : Text) → DotFree p → split_dot p ≡ p ∷ []
unfolding split_dot has_dot
split_dot_single [] h = refl
split_dot_single (c ∷ p) h = ground (arith, split_dot_single p)

split_dot-join_dot :
    (p : Text) (ps : List Text) → All DotFree (p ∷ ps) → split_dot (join_dot (p ∷ ps)) ≡ p ∷ ps
unfolding join_dot
split_dot-join_dot p [] h = split_dot_single p h.0
split_dot-join_dot p (q ∷ ps) h = split_dot-label p _ h.0 ∙ ap (◌∷◌ p) (split_dot-join_dot q ps h.1)

ends_with_dot-append :
    (p : Text) (c d : ℕ) (s : Text) → ends_with_dot (p ++ c ∷ d ∷ s) ≡ ends_with_dot (d ∷ s)
unfolding ends_with_dot
ends_with_dot-append [] c d s = refl
ends_with_dot-append (e ∷ []) c d s = refl
ends_with_dot-append (e ∷ f ∷ p) c d s = ends_with_dot-append (f ∷ p) c d s

ends_with_dot-DotFree : (p : Text) → DotFree p → ends_with_dot p ≡ false
unfolding ends_with_dot has_dot
ends_with_dot-DotFree [] h = refl
ends_with_dot-DotFree (c ∷ []) h = ground arith
ends_with_dot-DotFree (c ∷ d ∷ p) h = ends_with_dot-DotFree (d ∷ p) (ground arith)

join_dot-cons : (c : ℕ) (p : Text) (ps : List Text) → (t : Text) × (join_dot ((c ∷ p) ∷ ps) ≡ c ∷ t)
unfolding join_dot
join_dot-cons c p [] = (p, refl)
join_dot-cons c p (q ∷ ps) = (p ++ b'.' ∷ join_dot (q ∷ ps), refl)

-- The last label is not empty, so the text does not end with a dot.
ends_with_dot-join_dot :
    (p : Text) (ps : List Text)
    → All DotFree (p ∷ ps)
    → has_empty ps ≡ false
    → ends_with_dot (join_dot (p ∷ ps)) ≡ false
unfolding has_empty
ends_with_dot-join_dot p [] h e = unfold join_dot in ends_with_dot-DotFree p h.0
ends_with_dot-join_dot p ([] ∷ ps) h e = cc
ends_with_dot-join_dot p ((d ∷ q) ∷ ps) h e =
    let (t, joined) = join_dot-cons d q ps in
    rw (join_dot-cons_cons p (d ∷ q) ps, joined)
      (ends_with_dot-append p b'.' d t
        ∙ ap ends_with_dot (sym joined)
        ∙ ends_with_dot-join_dot (d ∷ q) ps h.1 e)

check_parts_sound :
    (ps : List Text) {qs : List Text}
    → All DotFree ps
    → check_parts ps ≡ some qs
    → IsDomain qs × (qs ≡ ps)
unfolding check_parts
check_parts_sound [] d h = cc
check_parts_sound (p ∷ []) {qs} d h = elim (Bool-cases (is_empty p)) [
  | inl e ↦ absurd (ground arith)
  | inr e ↦ let same : p ∷ [] ≡ qs = ground arith in rw (← same) ((d.0, e), refl)
]
check_parts_sound (p ∷ q ∷ ps) {qs} d h = elim (Bool-cases (has_empty (q ∷ ps))) [
  | inl e ↦ absurd (ground arith)
  | inr e ↦ let same : p ∷ q ∷ ps ≡ qs = ground arith in rw (← same) ((d.0, d.1, e), refl)
]

-- What the split returns is a list of labels that joins back to the domain.
pub valid_and_split_domain_sound :
    (domain : Text) {ps : List Text}
    → valid_and_split_domain domain ≡ some ps
    → IsDomain ps × (join_dot ps ≡ domain)
unfolding valid_and_split_domain
valid_and_split_domain_sound domain {ps} h = elim (Bool-cases (ends_with_dot domain)) [
  | inl e ↦ absurd (ground arith)
  | inr e ↦
      let (is, same) =
        check_parts_sound (split_dot domain) {qs = ps} (split_dot-DotFree domain) (ground arith) in
      (is, ap join_dot same ∙ join_dot-split_dot domain)
]

-- A domain is accepted for every such list of labels, and cut into exactly these.
pub valid_and_split_domain-join_dot :
    (ps : List Text) → IsDomain ps → valid_and_split_domain (join_dot ps) ≡ some ps
unfolding valid_and_split_domain check_parts
valid_and_split_domain-join_dot [] h = absurd h
valid_and_split_domain-join_dot (p ∷ []) h = rw (
  ends_with_dot-join_dot p [] (h.0, tt) (unfold has_empty in refl),
  split_dot-join_dot p [] (h.0, tt),
  h.1,
)
valid_and_split_domain-join_dot (p ∷ q ∷ ps) h = rw (
  ends_with_dot-join_dot p (q ∷ ps) (h.0, h.1) h.2,
  split_dot-join_dot p (q ∷ ps) (h.0, h.1),
  h.2,
)
