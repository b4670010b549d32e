-- ===== src/Config/Localhost.antt =====
-- The entry for localhost that `parseHosts` (config/config.go) makes, in `match` of
-- tunnel/tunnel.go.
use rule_base_proxy.Common.{
  All, Bool, Bool-cases, List, Option, Option-cases, Text, [], ap, arith, codes, false,
  if◌then◌else◌, inl, inr, none, refl, reverse, some, some_inj, sym, text_eq, ◌||◌, ◌∙◌, ◌∷◌, ◌≡◌,
}
use rule_base_proxy.Net.{Ip}
use rule_base_proxy.Trie.Domain.{valid_and_split_domain}
use rule_base_proxy.Trie.Node.{
  Node, insert, insert_parts, insert_domain_parts, new_trie, complex_wildcard, dot_wildcard,
}
use rule_base_proxy.Trie.Store.{path_eq, path_eq_refl, content_at, content_at-insert_path}
use rule_base_proxy.Trie.Search.{lookup_domain_of_content}
use rule_base_proxy.Rule.Metadata.{Metadata}
use rule_base_proxy.Rule.Matching.{World, State}
use rule_base_proxy.Tunnel.Dispatch.{Hosts, ip_list, single_ip, Config, from_hosts, match_metadata}
use rule_base_proxy.Tunnel.Sticky.{localhost_parts}
use rule_base_proxy.Config.Hosts.{entry_ips, insert_entry, parse_entries, parse_hosts}

abbrev pub localhost : List Text
localhost = codes "localhost" ∷ []

-- Whether an insert of these parts writes at the path of localhost.
unfoldable pub writes_localhost : List Text → Bool
writes_localhost [] = false
writes_localhost (p ∷ ps) =
    if text_eq p complex_wildcard
    then path_eq (reverse ps) localhost || path_eq (reverse (dot_wildcard ∷ ps)) localhost
    else path_eq (reverse (p ∷ ps)) localhost

-- Whether a domain is localhost, or stands for it.
unfoldable pub is_localhost : Text → Bool
is_localhost domain = elim (valid_and_split_domain domain) [
  | none ↦ false
  | some ps ↦ writes_localhost ps
]

insert_kept :
    (ps : List Text) (d : Option Hosts) (t : Node Hosts)
    → writes_localhost ps ≡ false
    → content_at localhost (insert_domain_parts ps d t) ≡ content_at localhost t
unfolding writes_localhost insert_domain_parts insert_parts
insert_kept [] d t h = refl
insert_kept (p ∷ ps) d t h = elim (Bool-cases (text_eq p complex_wildcard)) [
  | inr f ↦ ground (arith, f, h, content_at-insert_path (reverse (p ∷ ps)) localhost d t)
  | inl e ↦ ground (
    arith,
    e,
    h,
    content_at-insert_path (reverse ps) localhost d t,
    content_at-insert_path (reverse (dot_wildcard ∷ ps)) localhost d (insert_parts ps d t),
  )
]

insert_entry_kept :
    (domain : Text) (d : Hosts) (t : Node Hosts)
    → is_localhost domain ≡ false
    → content_at localhost (insert_entry domain d t) ≡ content_at localhost t
unfolding is_localhost insert_entry insert
insert_entry_kept domain d t h = elim (Option-cases (valid_and_split_domain domain)) [
  | inl e ↦ ground (arith, e)
  | inr (ps, e) ↦ ground (arith, e, h, insert_kept ps (some d) t)
]

-- No entry has the name of localhost.
abbrev pub NoLocalhost : List (Text × Text) → Type 0
NoLocalhost = All (λ e. is_localhost e.0 ≡ false)

module _ (parse_ip : Text → Option Ip) where
  parse_entries_kept :
      (entries : List (Text × Text)) (t t' : Node Hosts)
      → NoLocalhost entries
      → parse_entries parse_ip entries t ≡ some t'
      → content_at localhost t' ≡ content_at localhost t
  unfolding parse_entries
  parse_entries_kept [] t t' others h = ap (content_at localhost) (sym (some_inj h))
  parse_entries_kept ((domain, ip_str) ∷ l) t t' others h =
      elim (Option-cases (entry_ips parse_ip ip_str)) [
        | inl e ↦ absurd (ground (arith, e, h))
        | inr (ips, e) ↦
            parse_entries_kept l (insert_entry domain (ip_list ips) t) t' others.1
              (rw (parse_entries, e) at h)
            ∙ insert_entry_kept domain (ip_list ips) t others.0
      ]

  first_entry :
      content_at localhost
        (insert_entry (codes "localhost") (single_ip (127 ∷ 0 ∷ 0 ∷ 1 ∷ [])) new_trie)
      ≡ some (single_ip (127 ∷ 0 ∷ 0 ∷ 1 ∷ []))
  unfolding insert_entry insert insert_domain_parts insert_parts text_eq
  first_entry = rw localhost_parts (
      content_at-insert_path localhost localhost (some (single_ip (127 ∷ 0 ∷ 0 ∷ 1 ∷ []))) new_trie
      ∙ rw (path_eq_refl localhost) refl)

  -- With the hosts that `parseHosts` makes of entries none of which is for localhost, `match`
  -- panics on every connection to localhost: the address of localhost is stored as a single one
  -- and read as a list.
  pub parse_hosts-match_metadata :
      (resolve : Text → Option Ip) (w : World) (c : Config) (entries : List (Text × Text))
      (m : Metadata) (s : State)
      → parse_hosts parse_ip entries ≡ some c.hosts
      → NoLocalhost entries
      → m.host ≡ codes "localhost"
      → match_metadata resolve w c m s ≡ none
  unfolding parse_hosts match_metadata from_hosts
  parse_hosts-match_metadata resolve w c entries m s parsed others host =
      let stored =
        parse_entries_kept entries
          (insert_entry (codes "localhost") (single_ip (127 ∷ 0 ∷ 0 ∷ 1 ∷ [])) new_trie) c.hosts
          others parsed
        ∙ first_entry in
      let at =
        lookup_domain_of_content (codes "localhost") localhost c.hosts localhost_parts (λ h. cc)
          stored in
      rw (host, at, from_hosts)
