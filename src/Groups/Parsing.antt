-- ===== src/Groups/Parsing.antt =====
-- `ParseProxyGroup` of adapter/outboundgroup/parser.go. A map of the program is a list of pairs
-- whose newest pair counts. `A` is the interface `C.Proxy`; the decoder of the options, which works
-- by reflection, is an argument. A provider is what its methods return. An interval below 0 is not
-- modelled.
use rule_base_proxy.Common.{
  Bool, List, Option, Text, [], codes, empty, if◌then◌else◌, is_some, none, not, some, text_eq,
  true, ℕ, ◌&&◌, ◌++◌, ◌==◌, ◌||◌, ◌∷◌,
}
use rule_base_proxy.Config.Graph.{Group}

-- `GroupCommonOption`, with the option `strategy` of a load balancer, which is read apart.
pub record Options : Type 0 where
  pub common : Group
  pub kind : Text
  pub used : List Text
  pub url : Text
  pub interval : ℕ
  pub lazy : Bool
  pub strategy : Text

-- `HealthCheck`, as it is made.
pub record HealthCheck : Type 0 where
  pub url : Text
  pub interval : ℕ
  pub lazy : Bool

-- A provider; `check` is that of a compatible one.
pub record Provider {ℓ} (A : Type ℓ) : Type ℓ where
  pub name : Text
  pub proxies : List A
  pub compatible : Bool
  pub check : Option HealthCheck

pub data GroupError : Type 0 where
  format_error miss_proxy miss_health_check duplicate_provider no_proxy : GroupError
  proxy_not_found provider_not_found compatible_in_use : Text → GroupError
  unsupported_type unsupported_strategy : Text → GroupError

-- What a call comes to: a value, an error, or the panic of an index out of range.
pub data Parse {ℓ} (A : Type ℓ) : Type ℓ where
  made : A → Parse A
  failed : GroupError → Parse A
  panicked : Parse A

abbrev pub and_make {ℓ κ} : {A : Type ℓ} {B : Type κ} → Parse A → (A → Parse B) → Parse B
and_make m k = elim m [ made a ↦ k a | failed e ↦ failed e | panicked ↦ panicked ]

-- The groups, by what `switch groupOption.Type` makes.
pub data Kind : Type 0 where
  url_test_group select_group fallback_group relay_group : Kind
  consistent_hashing_group round_robin_group : Kind

pub record GroupAdapter {ℓ} (A : Type ℓ) : Type ℓ where
  pub name : Text
  pub kind : Kind
  pub providers : List (Provider A)

-- `v, ok := m[name]`
unfoldable pub look_up {ℓ} : {X : Type ℓ} → Text → List (Text × X) → Option X
look_up name [] = none
look_up name ((k, x) ∷ m) = if text_eq k name then some x else look_up name m

abbrev pub no_check : HealthCheck
no_check = record { url = []; interval = 0; lazy = true }

-- The health check of a group without `use`.
unfoldable pub group_check : Options → Parse HealthCheck
group_check o =
    if text_eq o.kind (codes "select") || text_eq o.kind (codes "relay")
    then made no_check
    else if empty o.url || o.interval == 0
    then failed miss_health_check
    else made (record { url = o.url; interval = o.interval; lazy = o.lazy })

module _ {ℓ} {A : Type ℓ} where
  unfoldable pub get_proxies : List (Text × A) → List Text → Parse (List A)
  get_proxies proxies [] = made []
  get_proxies proxies (name ∷ names) = elim (look_up name proxies) [
    | none ↦ failed (proxy_not_found name)
    | some p ↦ and_make (get_proxies proxies names) (λ ps. made (p ∷ ps))
  ]

  unfoldable pub get_providers : List (Text × Provider A) → List Text → Parse (List (Provider A))
  get_providers providers [] = made []
  get_providers providers (name ∷ names) = elim (look_up name providers) [
    | none ↦ failed (provider_not_found name)
    | some p ↦
        if p.compatible
        then failed (compatible_in_use name)
        else and_make (get_providers providers names) (λ ps. made (p ∷ ps))
  ]

  unfoldable pub new_compatible_provider : Text → List A → HealthCheck → Parse (Provider A)
  new_compatible_provider name ps hc =
      if empty ps
      then failed no_proxy
      else made (record { name = name; proxies = ps; compatible = true; check = some hc })

  -- The provider of the members that the group names, and the map of providers after it.
  unfoldable pub own_provider :
      Options → List A → List (Text × Provider A) → Parse (Provider A × List (Text × Provider A))
  own_provider o ps providers =
      if not (empty o.used)
      then and_make (new_compatible_provider o.common.name ps no_check) (λ pd. made (pd, providers))
      else if is_some (look_up o.common.name providers)
      then failed duplicate_provider
      else and_make (group_check o) (λ hc.
        and_make (new_compatible_provider o.common.name ps hc)
          (λ pd. made (pd, (o.common.name, pd) ∷ providers)))

  -- The first provider's first proxy, which two of the constructors read.
  unfoldable pub with_first : GroupAdapter A → Parse (GroupAdapter A)
  with_first g = elim g.providers [
    | [] ↦ panicked
    | pd ∷ pds ↦ elim pd.proxies [ [] ↦ panicked | p ∷ ps ↦ made g ]
  ]

  -- The switch over the types.
  unfoldable pub make_group : Options → List (Provider A) → Parse (GroupAdapter A)
  make_group o pds =
      let group : Kind → GroupAdapter A =
        λ k. record { name = o.common.name; kind = k; providers = pds } in
      if text_eq o.kind (codes "url-test")
      then with_first (group url_test_group)
      else if text_eq o.kind (codes "select")
      then with_first (group select_group)
      else if text_eq o.kind (codes "fallback")
      then made (group fallback_group)
      else if text_eq o.kind (codes "load-balance")
      then if text_eq o.strategy (codes "consistent-hashing")
        then made (group consistent_hashing_group)
        else if text_eq o.strategy (codes "round-robin")
        then made (group round_robin_group)
        else failed (unsupported_strategy o.strategy)
      else if text_eq o.kind (codes "relay")
      then made (group relay_group)
      else failed (unsupported_type o.kind)

  -- The providers of a group: its own one if it names members, then those of `use`.
  unfoldable pub all_providers :
      Options
      → List (Text × A)
      → List (Text × Provider A)
      → Parse (List (Provider A) × List (Text × Provider A))
  all_providers o proxies providers =
      and_make
        (if empty o.common.proxies
          then made ([], providers)
          else and_make (get_proxies proxies o.common.proxies)
              (λ ps. and_make (own_provider o ps providers) (λ own. made (own.0 ∷ [], own.1))))
        (λ st.
          if empty o.used
          then made st
          else and_make (get_providers st.1 o.used) (λ pds. made (st.0 ++ pds, st.1)))

  unfoldable pub parse_proxy_group :
      Option Options
      → List (Text × A)
      → List (Text × Provider A)
      → Parse (GroupAdapter A × List (Text × Provider A))
  parse_proxy_group options proxies providers = elim options [
    | none ↦ failed format_error
    | some o ↦
        if empty o.kind || empty o.common.name
        then failed format_error
        else if empty o.common.proxies && empty o.used
        then failed miss_proxy
        else and_make (all_providers o proxies providers)
            (λ st. and_make (make_group o st.0) (λ g. made (g, st.1)))
  ]
