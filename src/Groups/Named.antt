-- ===== src/Groups/Named.antt =====
-- The names of the groups that `ParseProxyGroup` (adapter/outboundgroup/parser.go) makes.
use rule_base_proxy.Common.{
  Bool-cases, List, List-cases, Text, arith, codes, empty, inl, inr, refl, some, text_eq, ◌&&◌,
  ◌||◌, ◌≡◌, ◌⊎◌,
}
use rule_base_proxy.Groups.Parsing.{
  Kind, url_test_group, select_group, Options, Provider, GroupError, Parse, made, failed, panicked,
  and_make, with_first, make_group, all_providers, parse_proxy_group, GroupAdapter,
}

and_make-made {ℓ κ} :
    {A : Type ℓ} {B : Type κ} (m : Parse A) (k : A → Parse B) (b : B)
    → and_make m k ≡ made b
    → (a : A) × (m ≡ made a) × (k a ≡ made b)
and_make-made (made a) k b h = (a, refl, h)
and_make-made (failed e) k b h = cc
and_make-made panicked k b h = cc

pub Parse-cases {ℓ} :
    {A : Type ℓ} (m : Parse A)
    → ((a : A) × (m ≡ made a)) ⊎ (((e : GroupError) × (m ≡ failed e)) ⊎ (m ≡ panicked))
Parse-cases (made a) = inl (a, refl)
Parse-cases (failed e) = inr (inl (e, refl))
Parse-cases panicked = inr (inr refl)

module _ {ℓ} {A : Type ℓ} where
  with_first_name : (g g' : GroupAdapter A) → with_first g ≡ made g' → g'.name ≡ g.name
  unfolding with_first
  with_first_name g g' h = elim (List-cases g.providers) [
    | inl e ↦ absurd (ground (arith, h, e))
    | inr (pd, pds, e) ↦ elim (List-cases pd.proxies) [
      | inl e' ↦ absurd (ground (arith, h, e, e'))
      | inr (p, ps, e') ↦ ground (arith, h, e, e')
    ]
  ]

  make_group_name :
      (o : Options) (pds : List (Provider A)) (g : GroupAdapter A)
      → make_group o pds ≡ made g
      → g.name ≡ o.common.name
  unfolding make_group
  make_group_name o pds g h =
      let group : Kind → GroupAdapter A =
        λ k. record { name = o.common.name; kind = k; providers = pds } in
      elim (Bool-cases (text_eq o.kind (codes "url-test"))) [
        | inl t ↦ with_first_name (group url_test_group) g (rw t at h)
        | inr f ↦ elim (Bool-cases (text_eq o.kind (codes "select"))) [
          | inl t ↦ with_first_name (group select_group) g (rw (f, t) at h)
          | inr f' ↦ ground (arith, f, f', h)
        ]
      ]

  pub parse_proxy_group_name :
      (o : Options) (proxies : List (Text × A)) (providers : List (Text × Provider A))
      (r : GroupAdapter A × List (Text × Provider A))
      → parse_proxy_group (some o) proxies providers ≡ made r
      → r.0.name ≡ o.common.name
  unfolding parse_proxy_group
  parse_proxy_group_name o proxies providers r h =
      elim (Bool-cases (empty o.kind || empty o.common.name)) [
        | inl t ↦ absurd (ground (arith, h, t))
        | inr f ↦ elim (Bool-cases (empty o.common.proxies && empty o.used)) [
          | inl t' ↦ absurd (ground (arith, h, f, t'))
          | inr f' ↦
              let (st, _, h') =
                and_make-made (all_providers o proxies providers)
                  (λ st. and_make (make_group o st.0) (λ g. made (g, st.1))) r (rw (f, f') at h) in
              let (g, h'', same) = and_make-made (make_group o st.0) (λ g. made (g, st.1)) r h' in
              ground (arith, make_group_name o st.0 g h'', same)
        ]
      ]
