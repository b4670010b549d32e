-- ===== src/Groups/Found.antt =====
-- When `ParseProxyGroup` of adapter/outboundgroup/parser.go finds the members of a group.
use rule_base_proxy.Common.{
  Bool, Bool-cases, List, List-cases, Option-cases, Text, [], arith, empty, false, if◌then◌else◌,
  inl, inr, is_some, refl, some, true, ◌&&◌, ◌++◌, ◌||◌, ◌∙◌, ◌∷◌, ◌≡◌,
}
use rule_base_proxy.Groups.Parsing.{
  Options, HealthCheck, Provider, GroupError, proxy_not_found, Parse, made, failed, panicked,
  and_make, look_up, get_proxies, get_providers, new_compatible_provider, no_check, group_check,
  own_provider, with_first, make_group, all_providers, parse_proxy_group,
}

abbrev pub reports_missing : GroupError → Bool
reports_missing (proxy_not_found s) = true
reports_missing _ = false

-- Whether a call ends with a member that is not found.
unfoldable pub lacks_member {ℓ} : {A : Type ℓ} → Parse A → Bool
lacks_member (made a) = false
lacks_member (failed e) = reports_missing e
lacks_member panicked = false

-- Every name has an entry.
unfoldable pub all_present {ℓ} : {X : Type ℓ} → List Text → List (Text × X) → Bool
all_present [] m = true
all_present (s ∷ l) m = is_some (look_up s m) && all_present l m

lacks_member-and_make {ℓ κ} :
    {A : Type ℓ} {B : Type κ} (m : Parse A) (k : A → Parse B)
    → lacks_member m ≡ false
    → ((a : A) → lacks_member (k a) ≡ false)
    → lacks_member (and_make m k) ≡ false
unfolding lacks_member
lacks_member-and_make (made a) k h f = f a
lacks_member-and_make (failed e) k h f = h
lacks_member-and_make panicked k h f = refl

group_check_lem : (o : Options) → lacks_member (group_check o) ≡ false
unfolding group_check lacks_member
group_check_lem o = ground arith

lacks_member-cons {ℓ} :
    {A : Type ℓ} (x : A) (m : Parse (List A))
    → lacks_member (and_make m (λ ps. made (x ∷ ps))) ≡ lacks_member m
unfolding lacks_member
lacks_member-cons x (made ps) = refl
lacks_member-cons x (failed e) = refl
lacks_member-cons x panicked = refl

module _ {ℓ} {A : Type ℓ} where
  get_proxies_found :
      (proxies : List (Text × A)) (l : List Text)
      → all_present l proxies ≡ true
      → lacks_member (get_proxies proxies l) ≡ false
  unfolding all_present get_proxies lacks_member
  get_proxies_found proxies [] h = refl
  get_proxies_found proxies (s ∷ l) h = elim (Option-cases (look_up s proxies)) [
    | inl e ↦ absurd (ground (arith, h, e))
    | inr (p, e) ↦
        rw (lacks_member, e)
          (lacks_member-cons _ (get_proxies proxies l)
            ∙ get_proxies_found proxies l (ground (arith, h, e)))
  ]

  get_providers_lem :
      (providers : List (Text × Provider A)) (l : List Text)
      → lacks_member (get_providers providers l) ≡ false
  unfolding get_providers lacks_member
  get_providers_lem providers [] = refl
  get_providers_lem providers (s ∷ l) = elim (Option-cases (look_up s providers)) [
    | inl e ↦ rw (get_providers, e) refl
    | inr (p, e) ↦ elim (Bool-cases p.compatible) [
      | inl t ↦ rw (get_providers, e, t) refl
      | inr f ↦
          rw (lacks_member, e, f)
            (lacks_member-cons _ (get_providers providers l) ∙ get_providers_lem providers l)
    ]
  ]

  new_compatible_provider_lem :
      (name : Text) (ps : List A) (hc : HealthCheck)
      → lacks_member (new_compatible_provider name ps hc) ≡ false
  unfolding new_compatible_provider lacks_member
  new_compatible_provider_lem name [] hc = refl
  new_compatible_provider_lem name (p ∷ ps) hc = refl

  own_provider_lem :
      (o : Options) (ps : List A) (providers : List (Text × Provider A))
      → lacks_member (own_provider o ps providers) ≡ false
  unfolding own_provider lacks_member
  own_provider_lem o ps providers = elim (Bool-cases (empty o.used)) [
    | inr f ↦ rw f (
        lacks_member-and_make (new_compatible_provider o.common.name ps no_check)
          (λ pd. made (pd, providers)) (new_compatible_provider_lem o.common.name ps no_check)
          (λ pd. refl))
    | inl t ↦ elim (Bool-cases (is_some (look_up o.common.name providers))) [
      | inl t' ↦ rw (t, t') refl
      | inr f' ↦
          rw (t, f')
            (lacks_member-and_make (group_check o)
              (λ hc.
                and_make (new_compatible_provider o.common.name ps hc)
                  (λ pd. made (pd, (o.common.name, pd) ∷ providers)))
              (group_check_lem o)
              (λ hc.
                lacks_member-and_make (new_compatible_provider o.common.name ps hc)
                  (λ pd. made (pd, (o.common.name, pd) ∷ providers))
                  (new_compatible_provider_lem o.common.name ps hc) (λ pd. refl)))
    ]
  ]

  make_group_lem : (o : Options) (pds : List (Provider A)) → lacks_member (make_group o pds) ≡ false
  unfolding make_group with_first lacks_member
  make_group_lem o [] = ground arith
  make_group_lem o (pd ∷ pds) = elim (List-cases pd.proxies) [
    | inl e ↦ ground (arith, e)
    | inr (p, ps, e) ↦ ground (arith, e)
  ]

  all_providers_lem :
      (o : Options) (proxies : List (Text × A)) (providers : List (Text × Provider A))
      → all_present o.common.proxies proxies ≡ true
      → lacks_member (all_providers o proxies providers) ≡ false
  unfolding all_providers lacks_member
  all_providers_lem o proxies providers h =
      let used = λ (st : List (Provider A) × List (Text × Provider A)).
        if empty o.used
        then made st
        else and_make (get_providers st.1 o.used) (λ pds. made (st.0 ++ pds, st.1)) in
      lacks_member-and_make
        (if empty o.common.proxies
          then made ([], providers)
          else and_make (get_proxies proxies o.common.proxies)
              (λ ps. and_make (own_provider o ps providers) (λ own. made (own.0 ∷ [], own.1))))
        used
        (elim (Bool-cases (empty o.common.proxies)) [
          | inl t ↦ rw t refl
          | inr f ↦ rw f (
              lacks_member-and_make (get_proxies proxies o.common.proxies)
                (λ ps. and_make (own_provider o ps providers) (λ own. made (own.0 ∷ [], own.1)))
                (get_proxies_found proxies o.common.proxies h)
                (λ ps.
                  lacks_member-and_make (own_provider o ps providers)
                    (λ own. made (own.0 ∷ [], own.1)) (own_provider_lem o ps providers)
                    (λ own. refl)))
        ])
        (λ st. elim (Bool-cases (empty o.used)) [
          | inl t ↦ rw t refl
          | inr f ↦ rw f (
              lacks_member-and_make (get_providers st.1 o.used) (λ pds. made (st.0 ++ pds, st.1))
                (get_providers_lem st.1 o.used) (λ pds. refl))
        ])

  -- A group whose members all have a proxy fails for other reasons only.
  pub parse_proxy_group_found :
      (o : Options) (proxies : List (Text × A)) (providers : List (Text × Provider A))
      → all_present o.common.proxies proxies ≡ true
      → lacks_member (parse_proxy_group (some o) proxies providers) ≡ false
  unfolding parse_proxy_group lacks_member
  parse_proxy_group_found o proxies providers h =
      let parse =
        and_make (all_providers o proxies providers)
          (λ st. and_make (make_group o st.0) (λ g. made (g, st.1))) in
      let found : lacks_member parse ≡ false =
        lacks_member-and_make (all_providers o proxies providers)
          (λ st. and_make (make_group o st.0) (λ g. made (g, st.1)))
          (all_providers_lem o proxies providers h)
          (λ st.
            lacks_member-and_make (make_group o st.0) (λ g. made (g, st.1)) (make_group_lem o st.0)
              (λ g. refl)) in
      elim (Bool-cases (empty o.kind || empty o.common.name)) [
        | inl t ↦ rw t refl
        | inr f ↦ elim (Bool-cases (empty o.common.proxies && empty o.used)) [
          | inl t' ↦ rw (f, t') refl
          | inr f' ↦ rw (f, f') found
        ]
      ]
