-- ===== src/Config/Complete.antt =====
-- What `parseProxies` (config/config.go) finds: the order of `proxyGroupsDagSort` has the members of
-- a group before it.
use rule_base_proxy.Common.{
  Bool, Bool-cases, List, Option-cases, Text, [], arith, codes, false, inl, inr, is_some, refl,
  some, subst, suc, sym, ℕ, ◌++◌, ◌∷◌, ◌≡◌,
}
use rule_base_proxy.Config.Sorting.{sorted, proxy_groups_dag_sort}
use rule_base_proxy.Config.Rounds.{total_weight, IsOrdered}
use rule_base_proxy.Config.Order.{Walks, Outcome-cases, proxy_groups_dag_sort-IsOrdered}
use rule_base_proxy.Config.Proxies.{
  Parts, ProxiesError, group_error, Parsed, finished, stopped, crashed, and_go, common_options,
  parse_list, group_names, parse_groups, sort_groups, with_defaults, parse_proxies,
}
use rule_base_proxy.Groups.Parsing.{
  Options, Provider, GroupAdapter, made, look_up, parse_proxy_group,
}
use rule_base_proxy.Config.Known.{
  total_weight-zero, present, unknown_members, all_known, unknown_members-next, known_in_order,
}
use rule_base_proxy.Groups.Named.{Parse-cases, parse_proxy_group_name}
use rule_base_proxy.Groups.Found.{reports_missing, lacks_member, parse_proxy_group_found}

abbrev pub is_missing : ProxiesError → Bool
is_missing (group_error idx e) = reports_missing e
is_missing _ = false

-- Whether the parsing ends with a group whose member is not found.
unfoldable pub misses_member {ℓ} : {A : Type ℓ} → Parsed A → Bool
misses_member (finished a) = false
misses_member (stopped e) = is_missing e
misses_member crashed = false

module _ {ℓ ρ μ} {A : Type ℓ} {R : Type ρ} {M : Type μ} (c : Parts A R M) where
  sort_groups_lem : (groups : List M) → misses_member (sort_groups c groups) ≡ false
  unfolding sort_groups misses_member
  sort_groups_lem groups =
      elim (Option-cases (proxy_groups_dag_sort (common_options c) c.order groups)) [
        | inl e ↦ ground (arith, e)
        | inr (r, e) ↦ elim (Outcome-cases r) [
          | inl (out, e') ↦ ground (arith, e, e')
          | inr (inl e') ↦ ground (arith, e, e')
          | inr (inr (inl (s, e'))) ↦ ground (arith, e, e')
          | inr (inr (inr (l, e'))) ↦ ground (arith, e, e')
        ]
      ]

  sort_groups-finished :
      (groups out : List M)
      → sort_groups c groups ≡ finished out
      → proxy_groups_dag_sort (common_options c) c.order groups ≡ some (sorted out)
  unfolding sort_groups
  sort_groups-finished groups out h =
      elim (Option-cases (proxy_groups_dag_sort (common_options c) c.order groups)) [
        | inl e ↦ absurd (ground (arith, e, h))
        | inr (r, e) ↦ elim (Outcome-cases r) [
          | inl (out', e') ↦ ground (arith, e, e', h)
          | inr (inl e') ↦ absurd (ground (arith, e, e', h))
          | inr (inr (inl (s, e'))) ↦ absurd (ground (arith, e, e', h))
          | inr (inr (inr (l, e'))) ↦ absurd (ground (arith, e, e', h))
        ]
      ]

  first_found :
      (m : M) (ms : List M) (proxies : List (Text × A)) (providers : List (Text × Provider A))
      → IsOrdered (common_options c) (m ∷ ms)
      → total_weight (unknown_members c proxies (m ∷ ms)) (m ∷ ms) ≡ 0
      → lacks_member (parse_proxy_group (c.decode m) proxies providers) ≡ false
  unfolding parse_proxy_group lacks_member total_weight unknown_members
  first_found m ms proxies providers ordered known = elim (Option-cases (c.decode m)) [
    | inl e ↦ ground (arith, e)
    | inr (o, e) ↦ elim (Bool-cases (all_known c proxies (m ∷ ms) o.common.proxies)) [
      | inr f ↦ absurd (ground (arith, known, e, f))
      | inl t ↦
          let all_there =
            present c m o proxies (m ∷ ms) o.common.proxies e ordered.0 (λ s has. has) t in
          subst (λ d. lacks_member (parse_proxy_group d proxies providers) ≡ false) (sym e)
            (parse_proxy_group_found o proxies providers all_there)
    ]
  ]

  first_name :
      (m : M) (proxies : List (Text × A)) (providers : List (Text × Provider A))
      (r : GroupAdapter A × List (Text × Provider A))
      → parse_proxy_group (c.decode m) proxies providers ≡ made r
      → (o : Options) × (c.decode m ≡ some o) × (r.0.name ≡ o.common.name)
  unfolding parse_proxy_group
  first_name m proxies providers r h = elim (Option-cases (c.decode m)) [
    | inl e ↦ absurd (ground (arith, e, h))
    | inr (o, e) ↦ (
      o,
      e,
      parse_proxy_group_name o proxies providers r
          (subst (λ d. parse_proxy_group d proxies providers ≡ made r) e h),
    )
  ]

  parse_groups_found :
      (idx : ℕ) (ms : List M) (proxies : List (Text × A)) (providers : List (Text × Provider A))
      → IsOrdered (common_options c) ms
      → total_weight (unknown_members c proxies ms) ms ≡ 0
      → misses_member (parse_groups c idx ms proxies providers) ≡ false
  unfolding parse_groups misses_member total_weight unknown_members lacks_member
  parse_groups_found idx [] proxies providers ordered known = refl
  parse_groups_found idx (m ∷ ms) proxies providers ordered known =
      elim (Parse-cases (parse_proxy_group (c.decode m) proxies providers)) [
        | inr (inr e) ↦ ground (arith, e)
        | inr (inl (err, e)) ↦
            let found = first_found m ms proxies providers ordered known in
            let found' : reports_missing err ≡ false =
              subst (λ x. lacks_member x ≡ false) e found in
            ground (arith, e, found')
        | inl (r, e) ↦
            let (o, has, same) = first_name m proxies providers r e in
            let next =
              subst
                (λ s. total_weight (unknown_members c ((s, c.new_proxy r.0) ∷ proxies) ms) ms ≡ 0)
                (sym same)
                (total_weight-zero (unknown_members c proxies (m ∷ ms))
                  (unknown_members c ((o.common.name, c.new_proxy r.0) ∷ proxies) ms) ms
                  (λ m'. unknown_members-next c m o proxies (c.new_proxy r.0) ms m' has)
                  (omega (arith, known))) in
            let rest =
              parse_groups_found (suc idx) ms ((r.0.name, c.new_proxy r.0) ∷ proxies) r.1 ordered.1
                next in
            elim (Bool-cases (is_some (look_up r.0.name proxies))) [
              | inl t ↦ ground (arith, e, t)
              | inr f ↦ ground (arith, e, f, rest)
            ]
      ]

  misses_member-and_go {κ κ'} :
      {X : Type κ} {Y : Type κ'} (p : Parsed X) (k : X → Parsed Y)
      → misses_member p ≡ false
      → ((x : X) → p ≡ finished x → misses_member (k x) ≡ false)
      → misses_member (and_go p k) ≡ false
  unfolding misses_member
  misses_member-and_go (finished x) k h f = f x refl
  misses_member-and_go (stopped e) k h f = h
  misses_member-and_go crashed k h f = refl

  parse_list_lem :
      (idx : ℕ) (rs : List R) (proxies : List (Text × A)) (names : List Text)
      → misses_member (parse_list c idx rs proxies names) ≡ false
  unfolding parse_list misses_member
  parse_list_lem idx [] proxies names = refl
  parse_list_lem idx (r ∷ rs) proxies names = elim (Option-cases (c.parse_proxy r)) [
    | inl e ↦ ground (arith, e)
    | inr (p, e) ↦
        let rest =
          parse_list_lem (suc idx) rs ((c.name_of p, p) ∷ proxies) (names ++ c.name_of p ∷ []) in
        elim (Bool-cases (is_some (look_up (c.name_of p) proxies))) [
          | inl t ↦ ground (arith, e, t)
          | inr f ↦ ground (arith, e, f, rest)
        ]
  ]

  group_names_lem :
      (idx : ℕ) (ms : List M) (names : List Text)
      → misses_member (group_names c idx ms names) ≡ false
  unfolding group_names misses_member
  group_names_lem idx [] names = refl
  group_names_lem idx (m ∷ ms) names = elim (Option-cases (c.group_name m)) [
    | inl e ↦ ground (arith, e)
    | inr (name, e) ↦ ground (arith, e, group_names_lem (suc idx) ms (names ++ name ∷ []))
  ]

  -- Where every member of a group is DIRECT, REJECT, a proxy of the document or a group, in any
  -- order, the parsing does not end with the error of a member that is not found: at the time when
  -- a group is made, all its members are there.
  pub parse_proxies-Complete :
      Walks c.order
      → (proxy_configs : List R) (group_configs : List M) (providers : List (Text × Provider A))
      → ((base : List (Text × A) × List Text)
          → parse_list c 0 proxy_configs (with_defaults c) (codes "DIRECT" ∷ codes "REJECT" ∷ [])
            ≡ finished base
          → total_weight (unknown_members c base.0 group_configs) group_configs ≡ 0)
      → misses_member (parse_proxies c proxy_configs group_configs providers) ≡ false
  unfolding parse_proxies misses_member
  parse_proxies-Complete walks rs groups providers known =
      misses_member-and_go
        (parse_list c 0 rs (with_defaults c) (codes "DIRECT" ∷ codes "REJECT" ∷ [])) _
        (parse_list_lem 0 rs (with_defaults c) (codes "DIRECT" ∷ codes "REJECT" ∷ []))
        (λ base e.
          misses_member-and_go (group_names c 0 groups base.1) _ (group_names_lem 0 groups base.1)
            (λ names _.
              misses_member-and_go (sort_groups c groups) _ (sort_groups_lem groups) (λ out sorts.
                let (ordered, same) =
                  proxy_groups_dag_sort-IsOrdered (common_options c) c.order walks groups out
                    (sort_groups-finished groups out sorts) in
                misses_member-and_go (parse_groups c 0 out base.0 providers) _
                  (parse_groups_found 0 out base.0 providers ordered
                    (known_in_order c groups out base.0 same (known base e)))
                  (λ _ _. refl))))
