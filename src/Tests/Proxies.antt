-- ===== src/Tests/Proxies.antt =====
-- The proxies, the groups and the rules of small configurations.
use rule_base_proxy.Common.{
  List, Option, Text, [], codes, false, none, refl, some, subst, text_eq, to_lower, true, ◌∷◌, ◌≡◌,
}
use rule_base_proxy.Net.Networks.{IpNet}
use rule_base_proxy.Rule.Kinds.{Rule, domain_suffix_rule, match_rule}
use rule_base_proxy.Rule.Parser.{
  parse_rule, case_of, parse_case, new_domain_suffix, new_match, plain_rule, has_param,
}
use rule_base_proxy.Tunnel.Dispatch.{Proxy}
use rule_base_proxy.Config.Graph.{has_name, get_node, change, delete_node, is_source}
use rule_base_proxy.Config.Sorting.{
  add_edges, add_group, build, decrement, visit, walk, sources, proxy_groups_dag_sort,
}
use rule_base_proxy.Config.Rounds.{total_weight}
use rule_base_proxy.Config.Proxies.{
  Parts, finished, stopped, group_error, parse_list, group_names, parse_groups, sort_groups, listed,
  with_defaults, parse_proxies,
}
use rule_base_proxy.Config.Known.{is_group, all_known, unknown_members}
use rule_base_proxy.Config.Complete.{misses_member, parse_proxies-Complete}
use rule_base_proxy.Config.Rules.{
  split_comma, trim_left, trim_right, line_parts, rules_made, proxy_missing, parse_lines,
  parse_rules,
}
use rule_base_proxy.Config.Served.{AllServed, parse_rules-AllServed}
use rule_base_proxy.Groups.Parsing.{
  Options, look_up, get_proxies, get_providers, new_compatible_provider, group_check, own_provider,
  with_first, make_group, all_providers, parse_proxy_group, proxy_not_found,
}

program : Unit {0}
unfolding has_name get_node change delete_node is_source add_edges add_group build decrement visit
    walk sources proxy_groups_dag_sort text_eq total_weight parse_list group_names parse_groups
    sort_groups listed parse_proxies is_group all_known unknown_members look_up get_proxies
    get_providers new_compatible_provider group_check own_provider with_first make_group
    all_providers parse_proxy_group misses_member split_comma trim_left trim_right line_parts
    parse_lines parse_rules parse_rule case_of parse_case new_domain_suffix new_match plain_rule
    has_param to_lower
program = tt

-- Proxies that are their names.
abbrev parts : Parts Text Text Options
parts = record {
  direct = codes "DIRECT";
  reject = codes "REJECT";
  parse_proxy = λ r. some r;
  name_of = λ p. p;
  group_name = λ (o : Options). some o.common.name;
  decode = λ o. some o;
  new_proxy = λ g. g.name;
  order = λ l. l;
}

abbrev top : Options
top = record {
  common = record { name = codes "top"; proxies = codes "auto" ∷ codes "DIRECT" ∷ [] };
  kind = codes "select";
  used = [];
  url = [];
  interval = 0;
  lazy = true;
  strategy = [];
}

-- A group with the health check `url`.
abbrev auto : Text → Options
auto url = record {
  common = record { name = codes "auto"; proxies = codes "node" ∷ [] };
  kind = codes "url-test";
  used = [];
  url = url;
  interval = 300;
  lazy = true;
  strategy = [];
}

abbrev groups : List Options
groups = top ∷ auto (codes "http://a") ∷ []

-- The members of GLOBAL stand in the order of the document, though `auto` is made first.
lists_groups :
    elim (parse_proxies parts (codes "node" ∷ []) groups []) [ finished r ↦ r.2 | _ ↦ [] ]
    ≡ some (codes "DIRECT")
      ∷ some (codes "REJECT")
      ∷ some (codes "node")
      ∷ some (codes "top")
      ∷ some (codes "auto")
      ∷ []
unfolding program
lists_groups = refl

reports_member :
    parse_proxies parts [] groups [] ≡ stopped (group_error 0 (proxy_not_found (codes "node")))
unfolding program
reports_member = refl

finished_inj {ℓ} : {A : Type ℓ} {x y : A} → finished x ≡ finished y → x ≡ y
finished_inj h = cc

knows_all :
    (base : List (Text × Text) × List Text)
    → parse_list parts 0
        (codes "node" ∷ [])
        (with_defaults parts)
        (codes "DIRECT" ∷ codes "REJECT" ∷ [])
      ≡ finished base
    → total_weight (unknown_members parts base.0 groups) groups ≡ 0
unfolding program
knows_all base e =
    subst
      (λ (b : List (Text × Text) × List Text).
        total_weight (unknown_members parts b.0 groups) groups ≡ 0)
      (finished_inj e) refl

parse_proxies-Complete_example :
    misses_member (parse_proxies parts (codes "node" ∷ []) groups []) ≡ false
parse_proxies-Complete_example =
    parse_proxies-Complete parts (λ l. (λ s. refl, λ a. a)) (codes "node" ∷ []) groups [] knows_all

abbrev no_networks : Text → Option IpNet
no_networks s = none

abbrev proxies : List (Text × Proxy)
proxies = (codes "DIRECT", record { name = codes "DIRECT"; support_udp = true }) ∷ []

abbrev lines : List Text
lines = codes "DOMAIN-SUFFIX, Go.dev ,DIRECT" ∷ codes "MATCH,DIRECT" ∷ []

abbrev rules : List (Option Rule)
rules =
    some (record {
      condition = domain_suffix_rule (codes "go.dev");
      adapter = codes "DIRECT";
      multi_domain_dial_ip = false;
    })
    ∷ some
        (record { condition = match_rule; adapter = codes "DIRECT"; multi_domain_dial_ip = false })
    ∷ []

parses_rules : parse_rules no_networks proxies lines ≡ rules_made rules
unfolding program
parses_rules = refl

misses_proxy :
    parse_rules no_networks proxies (codes "MATCH,node" ∷ [])
    ≡ proxy_missing 0 (codes "MATCH,node") (codes "node")
unfolding program
misses_proxy = refl

parse_rules-AllServed_example : AllServed no_networks proxies lines rules
parse_rules-AllServed_example = parse_rules-AllServed no_networks proxies lines rules parses_rules
