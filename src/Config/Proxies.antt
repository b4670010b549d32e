-- ===== src/Config/Proxies.antt =====
-- `parseProxies` of config/config.go, for providers that are parsed. `A` is the interface `C.Proxy`,
-- `R` and `M` are the entries of the document for a proxy and a group.
use rule_base_proxy.Common.{
  List, Option, Text, [], codes, if◌then◌else◌, is_some, none, some, suc, ℕ, ◌++◌, ◌∷◌,
}
use rule_base_proxy.Config.Graph.{Group}
use rule_base_proxy.Config.Sorting.{
  sorted, bad_options, duplicate_name, loop_detected, proxy_groups_dag_sort,
}
use rule_base_proxy.Groups.Parsing.{
  Options, Provider, GroupError, GroupAdapter, made, failed, panicked, look_up, parse_proxy_group,
}

-- The code that `parseProxies` calls: the constructors of an outbound adapter and of the proxy
-- around it, and the decoder of a group's options. `order` is the order in which Go walks a map.
pub record Parts {ℓ ρ μ} (A : Type ℓ) (R : Type ρ) (M : Type μ) : Type (ℓ ⊔ ρ ⊔ μ) where
  pub direct : A
  pub reject : A
  pub parse_proxy : R → Option A
  pub name_of : A → Text
  pub group_name : M → Option Text
  pub decode : M → Option Options
  pub new_proxy : GroupAdapter A → A
  pub order : List Text → List Text

pub data ProxiesError : Type 0 where
  proxy_error : ℕ → ProxiesError
  duplicate_proxy duplicate_group : Text → ProxiesError
  missing_name : ℕ → ProxiesError
  sort_options : ProxiesError
  sort_duplicate : Text → ProxiesError
  sort_loop : List Text → ProxiesError
  group_error : ℕ → GroupError → ProxiesError

pub data Parsed {ℓ} (A : Type ℓ) : Type ℓ where
  finished : A → Parsed A
  stopped : ProxiesError → Parsed A
  crashed : Parsed A

abbrev pub and_go {ℓ κ} : {A : Type ℓ} {B : Type κ} → Parsed A → (A → Parsed B) → Parsed B
and_go m k = elim m [ finished a ↦ k a | stopped e ↦ stopped e | crashed ↦ crashed ]

module _ {ℓ ρ μ} {A : Type ℓ} {R : Type ρ} {M : Type μ} (c : Parts A R M) where
  abbrev pub common_options : M → Option Group
  common_options m = elim (c.decode m) [ none ↦ none | some o ↦ some o.common ]

  -- The loop over the proxies from the index `idx` on, with the map and the names so far.
  unfoldable pub parse_list :
      ℕ → List R → List (Text × A) → List Text → Parsed (List (Text × A) × List Text)
  parse_list idx [] proxies names = finished (proxies, names)
  parse_list idx (r ∷ rs) proxies names = elim (c.parse_proxy r) [
    | none ↦ stopped (proxy_error idx)
    | some p ↦
        let rest =
          parse_list (suc idx) rs ((c.name_of p, p) ∷ proxies) (names ++ c.name_of p ∷ []) in
        if is_some (look_up (c.name_of p) proxies)
        then stopped (duplicate_proxy (c.name_of p))
        else rest
  ]

  -- The loop that appends the names of the groups.
  unfoldable pub group_names : ℕ → List M → List Text → Parsed (List Text)
  group_names idx [] names = finished names
  group_names idx (m ∷ ms) names = elim (c.group_name m) [
    | none ↦ stopped (missing_name idx)
    | some name ↦ group_names (suc idx) ms (names ++ name ∷ [])
  ]

  -- The loop over the groups that are sorted.
  unfoldable pub parse_groups :
      ℕ
      → List M
      → List (Text × A)
      → List (Text × Provider A)
      → Parsed (List (Text × A) × List (Text × Provider A))
  parse_groups idx [] proxies providers = finished (proxies, providers)
  parse_groups idx (m ∷ ms) proxies providers =
      elim (parse_proxy_group (c.decode m) proxies providers) [
        | failed e ↦ stopped (group_error idx e)
        | panicked ↦ crashed
        | made r ↦
            let rest = parse_groups (suc idx) ms ((r.0.name, c.new_proxy r.0) ∷ proxies) r.1 in
            if is_some (look_up r.0.name proxies) then stopped (duplicate_group r.0.name) else rest
      ]

  unfoldable pub sort_groups : List M → Parsed (List M)
  sort_groups groups = elim (proxy_groups_dag_sort common_options c.order groups) [
    | none ↦ crashed
    | some (sorted out) ↦ finished out
    | some bad_options ↦ stopped sort_options
    | some (duplicate_name s) ↦ stopped (sort_duplicate s)
    | some (loop_detected l) ↦ stopped (sort_loop l)
  ]

  -- `proxies[v]` for the names in the order of the document; `none` is a nil interface.
  unfoldable pub listed : List Text → List (Text × A) → List (Option A)
  listed [] proxies = []
  listed (name ∷ names) proxies = look_up name proxies ∷ listed names proxies

  abbrev pub with_defaults : List (Text × A)
  with_defaults = (codes "REJECT", c.reject) ∷ (codes "DIRECT", c.direct) ∷ []

  -- Up to the group GLOBAL: the map of proxies, the map of providers, and the members of GLOBAL.
  unfoldable pub parse_proxies :
      List R
      → List M
      → List (Text × Provider A)
      → Parsed (List (Text × A) × List (Text × Provider A) × List (Option A))
  parse_proxies proxy_configs group_configs providers =
      and_go (parse_list 0 proxy_configs with_defaults (codes "DIRECT" ∷ codes "REJECT" ∷ []))
        (λ base. and_go (group_names 0 group_configs base.1) (λ names.
          and_go (sort_groups group_configs) (λ out.
            and_go (parse_groups 0 out base.0 providers)
              (λ done. finished (done.0, done.1, listed names done.0)))))
