-- ===== src/Config/DnsChecks.antt =====
-- What `parseDNS` (config/config.go) makes sure of.
use rule_base_proxy.Common.{
  All, Bool, Bool-cases, List, Option, Option-cases, Text, [], arith, empty, false, if◌then◌else◌,
  inl, inr, length, none, refl, some, subst, true, ◌&&◌, ◌<◌, ◌∷◌, ◌≡◌, ◌≢◌, ◌⊎◌,
}
use rule_base_proxy.Net.{Ip}
use rule_base_proxy.Net.Networks.{IpNet}
use rule_base_proxy.Trie.Node.{Node, new_trie}
use rule_base_proxy.FakeIp.Pool.{Pool, new_pool}
use rule_base_proxy.Dns.Enhancer.{Mode, normal, fake_ip, mapping}
use rule_base_proxy.Tunnel.Dispatch.{Hosts}
use rule_base_proxy.Config.NameServers.{
  NetLib, NameServer, valid, parse_name_server, parse_name_server_policy,
}
use rule_base_proxy.Config.ServerChecks.{
  valid_inj, and_check-valid, AllServe, AllPolicies, parse_servers-AllServe,
  parse_name_server_policy-AllPolicies, length-AllServe,
}
use rule_base_proxy.Config.DnsSetup.{
  RawDns, Dns, insert_filters, all_ip, parse_pool, finish_dns, parse_dns,
}

Mode-cases : (m : Mode) → (m ≡ fake_ip) ⊎ ((m ≡ normal) ⊎ (m ≡ mapping))
Mode-cases normal = inr (inl refl)
Mode-cases fake_ip = inl refl
Mode-cases mapping = inr (inr refl)

module _ (lib : NetLib) where
  -- A name server whose address has an IP address as its host.
  abbrev pub HasIp : NameServer → Type 0
  HasIp ns =
      (host : Text) × (port : Text) × (ip : Ip) × (lib.split_host_port ns.addr ≡ some (host, port))
      × (lib.parse_ip host ≡ some ip)

  all_ip-HasIp : (l : List NameServer) → all_ip lib l ≡ true → All HasIp l
  unfolding all_ip
  all_ip-HasIp [] h = tt
  all_ip-HasIp (ns ∷ l) h = elim (Option-cases (lib.split_host_port ns.addr)) [
    | inl e ↦ absurd (ground (arith, e, h))
    | inr ((host, port), e) ↦ elim (Option-cases (lib.parse_ip host)) [
      | inl e' ↦ absurd (ground (arith, e, e', h))
      | inr (ip, e') ↦ ((host, port, ip, e, e'), all_ip-HasIp l (ground (arith, e, e', h)))
    ]
  ]

  -- What the mode asks of the pool.
  abbrev pub PoolFits : RawDns → Option Pool → Type 0
  PoolFits cfg none = cfg.enhanced_mode ≢ fake_ip
  PoolFits cfg (some pool) =
      (cfg.enhanced_mode ≡ fake_ip)
      × (n : IpNet) × (lib.parse_cidr cfg.fake_ip_range ≡ some n)
      × (filter : Option (Node Bool)) × (new_pool n 1000 filter ≡ some pool)

  parse_pool-PoolFits :
      (cfg : RawDns) (pool : Option Pool) → parse_pool lib cfg ≡ valid pool → PoolFits cfg pool
  unfolding parse_pool
  parse_pool-PoolFits cfg pool h = elim (Mode-cases cfg.enhanced_mode) [
    | inr (inl e) ↦ subst (PoolFits cfg) (valid_inj (rw (parse_pool, e) at h)) (λ x. cc)
    | inr (inr e) ↦ subst (PoolFits cfg) (valid_inj (rw (parse_pool, e) at h)) (λ x. cc)
    | inl e ↦ elim (Option-cases (lib.parse_cidr cfg.fake_ip_range)) [
      | inl e' ↦ absurd (ground (arith, e, e', h))
      | inr (n, e') ↦
          let filter : Option (Node Bool) =
            if empty cfg.fake_ip_filter
            then none
            else some (insert_filters cfg.fake_ip_filter new_trie) in
          elim (Option-cases (new_pool n 1000 filter)) [
            | inl e'' ↦ absurd (ground (arith, e, e', e'', h))
            | inr (made, e'') ↦
                subst (PoolFits cfg) (valid_inj (rw (parse_pool, e, e', e'') at h))
                  (e, n, e', filter, e'')
          ]
    ]
  ]

  -- What holds of a configuration that parses.
  abbrev pub IsFinished : RawDns → Node Hosts → Dns → Type 0
  IsFinished cfg hosts d =
      AllServe lib cfg.name_server d.name_server
      × AllServe lib cfg.fallback d.fallback
      × AllPolicies lib cfg.name_server_policy d.name_server_policy
      × AllServe lib cfg.default_nameserver d.default_nameserver
      × (0 < length d.default_nameserver)
      × All HasIp d.default_nameserver
      × PoolFits cfg d.fake_ip_range
      × (d.hosts ≡ (if cfg.use_hosts then some hosts else none))

  some_length : (l : List Text) → empty l ≡ false → 0 < length l
  some_length [] h = cc
  some_length (x ∷ l) h = omega arith

  finish_dns-IsFinished :
      (cfg : RawDns) (hosts : Node Hosts) (servers fallback : List NameServer)
      (policy : List (Text × NameServer)) (d : Dns)
      → AllServe lib cfg.name_server servers
      → AllServe lib cfg.fallback fallback
      → AllPolicies lib cfg.name_server_policy policy
      → finish_dns lib cfg hosts servers fallback policy ≡ valid d
      → IsFinished cfg hosts d
  unfolding finish_dns
  finish_dns-IsFinished cfg hosts servers fallback policy d served served' policies h =
      elim (Bool-cases (empty cfg.default_nameserver)) [
        | inl t ↦ absurd (ground (arith, t, h))
        | inr f ↦
            let (defaults, e, h') =
              and_check-valid (parse_name_server lib cfg.default_nameserver) _ d
                (rw (finish_dns, f) at h) in
            elim (Bool-cases (all_ip lib defaults)) [
              | inr f' ↦ absurd (ground (arith, f', h'))
              | inl t' ↦
                  let (pool, e', h'') = and_check-valid (parse_pool lib cfg) _ d (rw t' at h') in
                  let all = parse_servers-AllServe lib 0 cfg.default_nameserver defaults e in
                  subst (IsFinished cfg hosts) (valid_inj h'') (
                    served,
                    served',
                    policies,
                    all,
                    length-AllServe lib cfg.default_nameserver defaults all
                        (some_length cfg.default_nameserver f),
                    all_ip-HasIp defaults t',
                    parse_pool-PoolFits cfg pool e',
                    refl,
                  )
            ]
      ]

  -- Where the configuration of the DNS server parses, its name servers, its fallbacks and its
  -- default name servers are those of the texts of the document, one for each in the same order,
  -- and so are the pairs of the policy, whose domains split. There is a name server if it is
  -- enabled; there is a default name server, and the host of each of them is an IP address; there
  -- is a pool of fake addresses, made of the range, for the mode fake-ip and for no other; and the
  -- hosts are taken if they are to be used.
  pub parse_dns-IsFinished :
      (cfg : RawDns) (hosts : Node Hosts) (d : Dns)
      → parse_dns lib cfg hosts ≡ valid d
      → (cfg.enable ≡ true → 0 < length d.name_server) × IsFinished cfg hosts d
  unfolding parse_dns
  parse_dns-IsFinished cfg hosts d h = elim (Bool-cases (cfg.enable && empty cfg.name_server)) [
    | inl t ↦ absurd (ground (arith, t, h))
    | inr f ↦
        let (servers, e₁, h₁) =
          and_check-valid (parse_name_server lib cfg.name_server) _ d (rw (parse_dns, f) at h) in
        let (fallback, e₂, h₂) = and_check-valid (parse_name_server lib cfg.fallback) _ d h₁ in
        let (policy, e₃, h₃) =
          and_check-valid (parse_name_server_policy lib cfg.name_server_policy)
            (finish_dns lib cfg hosts servers fallback) d h₂ in
        let done =
          finish_dns-IsFinished cfg hosts servers fallback policy d
            (parse_servers-AllServe lib 0 cfg.name_server servers e₁)
            (parse_servers-AllServe lib 0 cfg.fallback fallback e₂)
            (parse_name_server_policy-AllPolicies lib cfg.name_server_policy policy e₃) h₃ in
        (
          λ on.
              length-AllServe lib cfg.name_server d.name_server done.0
                (some_length cfg.name_server (ground (arith, on, f))),
          done,
        )
  ]
