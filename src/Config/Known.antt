-- ===== src/Config/Known.antt =====
-- The members of proxy groups that have a proxy or are groups (config/config.go, `parseProxies`).
use rule_base_proxy.Common.{
  All, Bool, Bool-cases, List, Option-cases, Text, [], and-eq-true, ap, ap₂, arith, false,
  if◌then◌else◌, inl, inr, is_some, ltb, none, refl, some, subst, text_eq, text_eq_iff,
  text_eq_refl, true, ℕ, ◌&&◌, ◌+◌, ◌||◌, ◌∙◌, ◌∷◌, ◌≡◌,
}
use rule_base_proxy.Config.Graph.{has_name}
use rule_base_proxy.Config.Rounds.{total_weight, Unreferred}
use rule_base_proxy.Config.Proxies.{Parts, common_options}
use rule_base_proxy.Groups.Parsing.{Options, look_up}
use rule_base_proxy.Groups.Found.{all_present}

module _ {μ} {M : Type μ} where
  total_weight-ext :
      (v w : M → ℕ) (l : List M) → ((m : M) → v m ≡ w m) → total_weight v l ≡ total_weight w l
  unfolding total_weight
  total_weight-ext v w [] f = refl
  total_weight-ext v w (m ∷ l) f = ap₂ ◌+◌ (f m) (total_weight-ext v w l f)

  pub total_weight-zero :
      (v w : M → ℕ) (l : List M)
      → ((m : M) → v m ≡ 0 → w m ≡ 0)
      → total_weight v l ≡ 0
      → total_weight w l ≡ 0
  unfolding total_weight
  total_weight-zero v w [] f h = refl
  total_weight-zero v w (m ∷ l) f h =
      let here = f m (omega arith) in
      let later = total_weight-zero v w l f (omega arith) in omega arith

module _ {ℓ ρ μ} {A : Type ℓ} {R : Type ρ} {M : Type μ} (c : Parts A R M) where
  -- How many of some groups have the name `s`.
  unfoldable pub is_group : Text → M → ℕ
  is_group s m = elim (c.decode m) [ none ↦ 0 | some o ↦ if text_eq o.common.name s then 1 else 0 ]

  -- A member that has a proxy or is a group.
  abbrev pub is_known : List (Text × A) → List M → Text → Bool
  is_known proxies groups s =
      is_some (look_up s proxies) || ltb 0 (total_weight (is_group s) groups)

  unfoldable pub all_known : List (Text × A) → List M → List Text → Bool
  all_known proxies groups [] = true
  all_known proxies groups (s ∷ l) = is_known proxies groups s && all_known proxies groups l

  -- 0 for a group whose members are all known.
  unfoldable pub unknown_members : List (Text × A) → List M → M → ℕ
  unknown_members proxies groups m = elim (c.decode m) [
    | none ↦ 0
    | some o ↦ if all_known proxies groups o.common.proxies then 0 else 1
  ]

  all_known-same :
      (proxies : List (Text × A)) (groups out : List M) (l : List Text)
      → ((w : M → ℕ) → total_weight w out ≡ total_weight w groups)
      → all_known proxies out l ≡ all_known proxies groups l
  unfolding all_known
  all_known-same proxies groups out [] same = refl
  all_known-same proxies groups out (s ∷ l) same =
      ap₂ ◌&&◌ (ap (λ n. is_some (look_up s proxies) || ltb 0 n) (same (is_group s)))
        (all_known-same proxies groups out l same)

  unknown_members-same :
      (proxies : List (Text × A)) (groups out : List M) (m : M)
      → ((w : M → ℕ) → total_weight w out ≡ total_weight w groups)
      → unknown_members proxies out m ≡ unknown_members proxies groups m
  unfolding unknown_members
  unknown_members-same proxies groups out m same = elim (Option-cases (c.decode m)) [
    | inl e ↦ ground (arith, e)
    | inr (o, e) ↦ ground (arith, e, all_known-same proxies groups out o.common.proxies same)
  ]

  options_common : (m : M) (o : Options) → c.decode m ≡ some o → common_options c m ≡ some o.common
  options_common m o e = rw (common_options, e) refl

  unreferred :
      (m y : M) (o o' : Options) (s : Text)
      → c.decode m ≡ some o
      → c.decode y ≡ some o'
      → Unreferred (common_options c) m y
      → text_eq o'.common.name s ≡ true
      → ¬ (has_name s o.common.proxies ≡ true)
  unreferred m y o o' s e e' h t has =
      let named = (text_eq_iff o'.common.name s).0 t in
      let not_named = h o.common o'.common (options_common m o e) (options_common y o' e') in
      let not_named' = subst (λ n. has_name n o.common.proxies ≡ false) named not_named in
      ground (arith, has, not_named')

  -- No group with a name of the list.
  no_group :
      (m : M) (o : Options) (s : Text) (groups : List M)
      → c.decode m ≡ some o
      → All (λ y. Unreferred (common_options c) m y) groups
      → has_name s o.common.proxies ≡ true
      → total_weight (is_group s) groups ≡ 0
  unfolding total_weight is_group
  no_group m o s [] e h has = refl
  no_group m o s (y ∷ l) e h has =
      let rest = no_group m o s l e h.1 has in
      elim (Option-cases (c.decode y)) [
        | inl e' ↦ ground (arith, e', rest)
        | inr (o', e') ↦ elim (Bool-cases (text_eq o'.common.name s)) [
          | inr f ↦ ground (arith, e', f, rest)
          | inl t ↦ absurd (unreferred m y o o' s e e' h.0 t has)
        ]
      ]

  -- The members of the first group, which are known and are no groups from there on.
  pub present :
      (m : M) (o : Options) (proxies : List (Text × A)) (groups : List M) (l : List Text)
      → c.decode m ≡ some o
      → All (λ y. Unreferred (common_options c) m y) groups
      → ((s : Text) → has_name s l ≡ true → has_name s o.common.proxies ≡ true)
      → all_known proxies groups l ≡ true
      → all_present l proxies ≡ true
  unfolding all_known all_present has_name
  present m o proxies groups [] e h sub k = refl
  present m o proxies groups (s ∷ l) e h sub k =
      let (known, rest) = and-eq-true (is_known proxies groups s) (all_known proxies groups l) k in
      let none_named = no_group m o s groups e h (sub s (ground (arith, text_eq_refl s))) in
      let sub' : (s' : Text) → has_name s' l ≡ true → has_name s' o.common.proxies ≡ true =
        λ s' has. sub s' (ground (arith, has)) in
      let later = present m o proxies groups l e h sub' rest in
      ground (arith, known, none_named, later)

  -- What is known stays known when the first group has its proxy.
  is_known-next :
      (m : M) (o : Options) (proxies : List (Text × A)) (p : A) (ms : List M) (s : Text)
      → c.decode m ≡ some o
      → is_known proxies (m ∷ ms) s ≡ true
      → is_known ((o.common.name, p) ∷ proxies) ms s ≡ true
  unfolding total_weight is_group look_up
  is_known-next m o proxies p ms s e h = elim (Bool-cases (text_eq o.common.name s)) [
    | inl t ↦ ground (arith, e, h, t)
    | inr f ↦ ground (arith, e, h, f)
  ]

  all_known-next :
      (m : M) (o : Options) (proxies : List (Text × A)) (p : A) (ms : List M) (l : List Text)
      → c.decode m ≡ some o
      → all_known proxies (m ∷ ms) l ≡ true
      → all_known ((o.common.name, p) ∷ proxies) ms l ≡ true
  unfolding all_known
  all_known-next m o proxies p ms [] e h = refl
  all_known-next m o proxies p ms (s ∷ l) e h =
      let (known, rest) =
        and-eq-true (is_known proxies (m ∷ ms) s) (all_known proxies (m ∷ ms) l) h in
      ap₂ ◌&&◌ (is_known-next m o proxies p ms s e known) (all_known-next m o proxies p ms l e rest)

  pub unknown_members-next :
      (m : M) (o : Options) (proxies : List (Text × A)) (p : A) (ms : List M) (m' : M)
      → c.decode m ≡ some o
      → unknown_members proxies (m ∷ ms) m' ≡ 0
      → unknown_members ((o.common.name, p) ∷ proxies) ms m' ≡ 0
  unfolding unknown_members
  unknown_members-next m o proxies p ms m' e h = elim (Option-cases (c.decode m')) [
    | inl e' ↦ ground (arith, e')
    | inr (o', e') ↦ elim (Bool-cases (all_known proxies (m ∷ ms) o'.common.proxies)) [
      | inr f ↦ absurd (ground (arith, e', f, h))
      | inl t ↦ ground (arith, e', all_known-next m o proxies p ms o'.common.proxies e t)
    ]
  ]

  pub known_in_order :
      (groups out : List M) (proxies : List (Text × A))
      → ((w : M → ℕ) → total_weight w out ≡ total_weight w groups)
      → total_weight (unknown_members proxies groups) groups ≡ 0
      → total_weight (unknown_members proxies out) out ≡ 0
  known_in_order groups out proxies same h =
      total_weight-ext (unknown_members proxies out) (unknown_members proxies groups) out
        (λ m. unknown_members-same proxies groups out m same)
      ∙ same (unknown_members proxies groups)
      ∙ h
