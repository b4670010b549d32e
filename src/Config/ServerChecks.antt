-- ===== src/Config/ServerChecks.antt =====
-- The name servers that `parseNameServer` and `parseNameServerPolicy` (config/config.go) make of the
-- texts of a document.
use rule_base_proxy.Common.{
  Bool-cases, List, Option-cases, Text, [], arith, codes, if◌then◌else◌, inl, inr, is_some, length,
  refl, some, subst, suc, true, ℕ, ◌++◌, ◌<◌, ◌∙◌, ◌∷◌, ◌≡◌,
}
use rule_base_proxy.Rule.Strings.{contains}
use rule_base_proxy.Trie.Domain.{valid_and_split_domain}
use rule_base_proxy.Config.NameServers.{
  NetLib, ServerUrl, NameServer, Checked, server_of, valid, invalid, and_check, parse_server,
  parse_servers, parse_name_server_policy,
}

pub valid_inj {ℓ} : {A : Type ℓ} {x y : A} → valid x ≡ valid y → x ≡ y
valid_inj h = cc

pub and_check-valid {ℓ κ} :
    {A : Type ℓ} {B : Type κ} (m : Checked A) (k : A → Checked B) (b : B)
    → and_check m k ≡ valid b
    → (a : A) × (m ≡ valid a) × (k a ≡ valid b)
and_check-valid (valid a) k b h = (a, refl, h)
and_check-valid (invalid e) k b h = cc

module _ (lib : NetLib) where
  -- The name server of a text: the text is a URL, with the scheme udp where it has none, and the
  -- server has the network and the address of the URL.
  abbrev pub Serves : Text → NameServer → Type 0
  Serves text ns =
      (u : ServerUrl) × (lib.parse_url
          (if contains text (codes "://") then text else codes "udp://" ++ text)
        ≡ some u)
      × (server_of lib u ≡ some (ns.net, some ns.addr))

  -- One server for each text, in the order of the texts.
  abbrev pub AllServe : List Text → List NameServer → Type 0
  AllServe [] [] = Unit
  AllServe [] (ns ∷ l) = ⊥
  AllServe (text ∷ texts) [] = ⊥
  AllServe (text ∷ texts) (ns ∷ l) = Serves text ns × AllServe texts l

  -- One pair for each pair of the document: a domain that splits, with its server.
  abbrev pub AllPolicies : List (Text × Text) → List (Text × NameServer) → Type 0
  AllPolicies [] [] = Unit
  AllPolicies [] (ns ∷ l) = ⊥
  AllPolicies (text ∷ texts) [] = ⊥
  AllPolicies ((domain, text) ∷ texts) ((domain', ns) ∷ l) =
      (domain' ≡ domain)
      × (is_some (valid_and_split_domain domain) ≡ true)
      × Serves text ns
      × AllPolicies texts l

  parse_server-Serves :
      (idx : ℕ) (text : Text) (ns : NameServer)
      → parse_server lib idx text ≡ valid ns
      → Serves text ns
  unfolding parse_server
  parse_server-Serves idx text ns h =
      elim (Option-cases
        (lib.parse_url (if contains text (codes "://") then text else codes "udp://" ++ text))) [
          | inl e ↦ absurd (ground (arith, e, h))
          | inr (u, e) ↦ elim (Option-cases (server_of lib u)) [
            | inl e' ↦ absurd (ground (arith, e, e', h))
            | inr ((net, addr), e') ↦ elim (Option-cases addr) [
              | inl none_there ↦ absurd (ground (arith, e, e', none_there, h))
              | inr (a, there) ↦
                  subst (Serves text) (valid_inj (rw (parse_server, e, e', there) at h))
                    (u, e, e' ∙ rw there refl)
            ]
          ]
        ]

  pub parse_servers-AllServe :
      (idx : ℕ) (l : List Text) (servers : List NameServer)
      → parse_servers lib idx l ≡ valid servers
      → AllServe l servers
  unfolding parse_servers
  parse_servers-AllServe idx [] servers h = subst (AllServe []) (valid_inj h) tt
  parse_servers-AllServe idx (s ∷ l) servers h =
      let (ns, e, h') = and_check-valid (parse_server lib idx s) _ servers h in
      let (rest, e', h'') = and_check-valid (parse_servers lib (suc idx) l) _ servers h' in
      subst (AllServe (s ∷ l)) (valid_inj h'')
        (parse_server-Serves idx s ns e, parse_servers-AllServe (suc idx) l rest e')

  pub parse_name_server_policy-AllPolicies :
      (l : List (Text × Text)) (policy : List (Text × NameServer))
      → parse_name_server_policy lib l ≡ valid policy
      → AllPolicies l policy
  unfolding parse_name_server_policy
  parse_name_server_policy-AllPolicies [] policy h = subst (AllPolicies []) (valid_inj h) tt
  parse_name_server_policy-AllPolicies ((domain, text) ∷ l) policy h =
      let (ns, e, h') = and_check-valid (parse_server lib 0 text) _ policy h in
      elim (Bool-cases (is_some (valid_and_split_domain domain))) [
        | inr f ↦ absurd (ground (arith, f, h'))
        | inl t ↦
            let (rest, e', h'') =
              and_check-valid (parse_name_server_policy lib l) _ policy (rw t at h') in
            subst (AllPolicies ((domain, text) ∷ l)) (valid_inj h'') (
              refl,
              t,
              parse_server-Serves 0 text ns e,
              parse_name_server_policy-AllPolicies l rest e',
            )
      ]

  -- As many servers as texts.
  pub length-AllServe :
      (l : List Text) (servers : List NameServer)
      → AllServe l servers
      → 0 < length l
      → 0 < length servers
  length-AllServe [] [] h some_text = some_text
  length-AllServe [] (ns ∷ servers) h some_text = absurd h
  length-AllServe (s ∷ l) [] h some_text = absurd h
  length-AllServe (s ∷ l) (ns ∷ servers) h some_text = omega arith
