-- ===== src/Config/Hosts.antt =====
-- `parseHosts` of config/config.go; `net.ParseIP` is an argument. The entries come in the order in
-- which Go walks the map; an address that does not parse is nil, which has no bytes.
use rule_base_proxy.Common.{
  Bool, List, Option, Text, [], codes, empty, get_or_else, if◌then◌else◌, ltb, some, ℕ, ◌&&◌, ◌==◌,
  ◌>>=◌, ◌||◌, ◌∷◌,
}
use rule_base_proxy.Net.{Ip}
use rule_base_proxy.Rule.Strings.{contains}
use rule_base_proxy.Trie.Node.{Node, insert, new_trie}
use rule_base_proxy.Tunnel.Dispatch.{Hosts, ip_list, single_ip}
use rule_base_proxy.Config.Rules.{split_comma}

-- White space of ASCII.
abbrev pub is_space : ℕ → Bool
is_space c = c == b' ' || (ltb 8 c && ltb c 14)

unfoldable pub trim_space_left : Text → Text
trim_space_left [] = []
trim_space_left (c ∷ s) = if is_space c then trim_space_left s else c ∷ s

unfoldable pub trim_space_right : Text → Text
trim_space_right [] = []
trim_space_right (c ∷ s) =
    let rest = trim_space_right s in if is_space c && empty rest then [] else c ∷ rest

-- `strings.TrimSpace`
abbrev pub trim_space : Text → Text
trim_space s = trim_space_right (trim_space_left s)

-- `tree.Insert(domain, ipList)`, whose error is not looked at.
unfoldable pub insert_entry : Text → Hosts → Node Hosts → Node Hosts
insert_entry domain d t = get_or_else (insert domain (some d) t) t

module _ (parse_ip : Text → Option Ip) where
  -- The loop over the addresses of an entry with a comma.
  unfoldable pub ip_texts : List Text → List Ip
  ip_texts [] = []
  ip_texts (t ∷ ts) =
      let rest = ip_texts ts in
      let ip = trim_space t in if empty ip then rest else get_or_else (parse_ip ip) [] ∷ rest

  -- The addresses of an entry, or `none` for the error of an invalid one.
  unfoldable pub entry_ips : Text → Option (List Ip)
  entry_ips s =
      if contains s (codes ",")
      then some (ip_texts (split_comma s))
      else (parse_ip (trim_space s) >>= λ ip. some (ip ∷ []))

  unfoldable pub parse_entries : List (Text × Text) → Node Hosts → Option (Node Hosts)
  parse_entries [] t = some t
  parse_entries ((domain, ip_str) ∷ l) t =
      (entry_ips ip_str >>= λ ips. parse_entries l (insert_entry domain (ip_list ips) t))

  unfoldable pub parse_hosts : List (Text × Text) → Option (Node Hosts)
  parse_hosts entries =
      parse_entries entries
        (insert_entry (codes "localhost") (single_ip (127 ∷ 0 ∷ 0 ∷ 1 ∷ [])) new_trie)
