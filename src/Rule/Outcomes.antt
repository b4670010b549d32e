-- ===== src/Rule/Outcomes.antt =====
-- What `ParseRule` (rule/parser.go) returns for each rule type, and where it goes wrong.
use rule_base_proxy.Common.{
  All, Bool, Bool-cases, List, Option, Option-cases, Text, [], arith, codes, false, if◌then◌else◌,
  inl, inr, refl, some, some_inj, subst, subst₂, sym, text_eq, text_eq_iff, true, ◌∙◌, ◌∷◌, ◌≡◌,
}
use rule_base_proxy.Net.Networks.{IpNet}
use rule_base_proxy.Net.Numbers.{atoi}
use rule_base_proxy.Rule.Kinds.{Rule, rule_type, rule_type_string, IpCidr, ip_cidr_rule}
use rule_base_proxy.Rule.Parser.{
  new_domain, new_domain_suffix, new_domain_keyword, new_geoip, new_process, new_match, new_all_ip,
  Outcome, parsed, Case, case_of, labels, parse_case, parse_rule, has_multi_domain_dial_ip,
  new_ip_cidr, new_port, new_domain_and_port, with_first_param, with_source_ip, with_dst_port,
  plain_rule, domain_case, domain_suffix_case, domain_keyword_case, geoip_case, ip_cidr_case,
  src_ip_cidr_case, dst_ip_port_case, src_port_case, dst_port_case, process_case, match_case,
  all_ip_case, domain_src_port_case, domain_dst_port_case,
}

-- The name that a rule made by a case reports as its type.
abbrev pub case_name : Case → Text
case_name domain_case = codes "DOMAIN"
case_name domain_suffix_case = codes "DOMAIN-SUFFIX"
case_name domain_keyword_case = codes "DOMAIN-KEYWORD"
case_name geoip_case = codes "GEOIP"
case_name ip_cidr_case = codes "IP-CIDR"
case_name src_ip_cidr_case = codes "SRC-IP-CIDR"
case_name dst_ip_port_case = codes "DST-IP-PORT"
case_name src_port_case = codes "SRC-PORT"
case_name dst_port_case = codes "DST-PORT"
case_name process_case = codes "PROCESS-NAME"
case_name match_case = codes "MATCH"
case_name all_ip_case = codes "ALLIP"
case_name domain_src_port_case = codes "DOMAIN-DST-PORT"
case_name domain_dst_port_case = codes "DOMAIN-SRC-PORT"

-- The name that a rule of the type `tp` should be shown with, and the three types for which the
-- program shows another.
unfoldable pub reported : Text → Text
reported tp =
    if text_eq tp (codes "DOMAIN-SRC-PORT")
    then codes "DOMAIN-DST-PORT"
    else if text_eq tp (codes "DOMAIN-DST-PORT")
    then codes "DOMAIN-SRC-PORT"
    else if text_eq tp (codes "IP-CIDR6")
    then codes "IP-CIDR"
    else tp

-- A fact on each label carries over to the label that is found.
pub case_of-All {ℓ} :
    (P : Text → Case → Type ℓ) (tp : Text) (ls : List (Text × Case)) {c : Case}
    → All (λ l. P l.0 l.1) ls
    → case_of tp ls ≡ some c
    → P tp c
unfolding case_of
case_of-All P tp [] all h = cc
case_of-All P tp ((l, d) ∷ ls) {c} (p, all) h = elim (Bool-cases (text_eq tp l)) [
  | inl t ↦
      let same : d ≡ c = some_inj (rw t at h) in subst₂ P (sym ((text_eq_iff tp l).0 t)) same p
  | inr f ↦ case_of-All P tp ls all (rw f at h)
]

labels-reported : All (λ l. case_name l.1 ≡ reported l.0) labels
unfolding reported text_eq
labels-reported = ground arith

-- A rule that a case made: its type's name, its adapter and its flag.
pub record IsMade (c : Case) (target : Text) (multi : Bool) (r : Rule) : Type 0 where
  pub name : rule_type_string (rule_type r) ≡ case_name c
  pub same_adapter : r.adapter ≡ target
  pub same_flag : r.multi_domain_dial_ip ≡ multi

abbrev Makes : Case → Text → Bool → Outcome → Type 0
Makes c target multi (parsed r) = IsMade c target multi r
Makes c target multi _ = Unit

new_ip_cidr-Makes :
    (cidr : Text → Option IpNet) (s target : Text) (multi : Bool) (o : IpNet → IpCidr) (c : Case)
    → ((n : IpNet)
        → rule_type_string (
            rule_type (record {
              condition = ip_cidr_rule (o n);
              adapter = target;
              multi_domain_dial_ip = multi;
            }))
          ≡ case_name c)
    → Makes c target multi (new_ip_cidr cidr s target multi o)
unfolding new_ip_cidr
new_ip_cidr-Makes cidr s target multi o c name = elim (Option-cases (cidr s)) [
  | inl none_such ↦ rw (none_such, Makes) tt
  | inr (n, found) ↦
      rw (found, Makes) (record { name = name n; same_adapter = refl; same_flag = refl })
]

new_port-Makes :
    (port target : Text) (multi : Bool)
    → Makes src_port_case target multi (new_port port target true multi)
      × Makes dst_port_case target multi (new_port port target false multi)
unfolding new_port rule_type rule_type_string
new_port-Makes port target multi = elim (Option-cases (atoi port)) [
  | inl none_such ↦ rw (none_such, Makes) (tt, tt)
  | inr (n, found) ↦
      rw (found, Makes)
        (
          record { name = refl; same_adapter = refl; same_flag = refl },
          record { name = refl; same_adapter = refl; same_flag = refl },
        )
]

new_domain_and_port-Makes :
    (domain target port : Text) (multi : Bool)
    → Makes domain_src_port_case target multi (new_domain_and_port domain target port true multi)
      × Makes domain_dst_port_case target multi (new_domain_and_port domain target port false multi)
unfolding new_domain_and_port rule_type rule_type_string
new_domain_and_port-Makes domain target port multi = elim (Option-cases (atoi port)) [
  | inl none_such ↦ rw (none_such, Makes) (tt, tt)
  | inr (n, found) ↦
      rw (found, Makes)
        (
          record { name = refl; same_adapter = refl; same_flag = refl },
          record { name = refl; same_adapter = refl; same_flag = refl },
        )
]

with_first_param-Makes :
    (c : Case) (target : Text) (multi : Bool) (params : List Text) (k : Text → Outcome)
    → ((p : Text) → Makes c target multi (k p))
    → Makes c target multi (with_first_param params k)
unfolding with_first_param
with_first_param-Makes c target multi [] k h = tt
with_first_param-Makes c target multi (p ∷ ps) k h = h p

parse_case-Makes :
    (cidr : Text → Option IpNet) (c : Case) (payload target : Text) (params : List Text)
    (multi : Bool)
    → Makes c target multi (parse_case cidr c payload target params multi)
unfolding parse_case new_domain new_domain_suffix new_domain_keyword new_geoip new_process new_match
    new_all_ip plain_rule rule_type rule_type_string with_source_ip with_dst_port
parse_case-Makes cidr ip_cidr_case payload target params multi =
    new_ip_cidr-Makes cidr payload target multi _ ip_cidr_case (λ n. refl)
parse_case-Makes cidr src_ip_cidr_case payload target params multi =
    new_ip_cidr-Makes cidr payload target multi _ src_ip_cidr_case (λ n. refl)
parse_case-Makes cidr dst_ip_port_case payload target params multi =
    with_first_param-Makes dst_ip_port_case target multi params _
      (λ p. new_ip_cidr-Makes cidr payload target multi _ dst_ip_port_case (λ n. refl))
parse_case-Makes cidr src_port_case payload target params multi =
    (new_port-Makes payload target multi).0
parse_case-Makes cidr dst_port_case payload target params multi =
    (new_port-Makes payload target multi).1
parse_case-Makes cidr domain_src_port_case payload target params multi =
    with_first_param-Makes domain_src_port_case target multi params _
      (λ p. (new_domain_and_port-Makes payload target p multi).0)
parse_case-Makes cidr domain_dst_port_case payload target params multi =
    with_first_param-Makes domain_dst_port_case target multi params _
      (λ p. (new_domain_and_port-Makes payload target p multi).1)
parse_case-Makes cidr _ payload target params multi = record {
  name = refl;
  same_adapter = refl;
  same_flag = refl;
}

-- A rule that `ParseRule` returns has the target as its adapter and the flag of `dial-ip` among
-- the parameters, and it reports as its type the name that it was parsed from, `IP-CIDR` for
-- `IP-CIDR6`, except that `DOMAIN-SRC-PORT` and `DOMAIN-DST-PORT` are shown as each other.
pub parse_rule-reported :
    (cidr : Text → Option IpNet) (tp payload target : Text) (params : List Text) {r : Rule}
    → parse_rule cidr tp payload target params ≡ parsed r
    → (rule_type_string (rule_type r) ≡ reported tp)
      × (r.adapter ≡ target)
      × (r.multi_domain_dial_ip ≡ has_multi_domain_dial_ip params)
unfolding parse_rule
parse_rule-reported cidr tp payload target params {r} h = elim (Option-cases (case_of tp labels)) [
  | inl none_such ↦ absurd (ground arith)
  | inr (c, found) ↦
      let multi : Bool = has_multi_domain_dial_ip params in
      let made : IsMade c target multi r =
        subst (Makes c target multi) (rw (found, parse_rule) at h)
          (parse_case-Makes cidr c payload target params multi) in
      let as_reported =
        case_of-All (λ l d. case_name d ≡ reported l) tp labels labels-reported found in
      (made.name ∙ as_reported, made.same_adapter, made.same_flag)
]
