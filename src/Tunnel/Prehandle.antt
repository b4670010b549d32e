-- ===== src/Tunnel/Prehandle.antt =====
-- `needLookupIP` and `preHandleMetadata` of tunnel/tunnel.go. `net.ParseIP` and the names that the
-- DNS cache `Dm` has for an address are arguments; `none` as a result is a panic.
use rule_base_proxy.Common.{
  Bool, Option, Text, [], codes, if◌then◌else◌, is_some, none, some, text_eq, ℕ, ◌&&◌, ◌<|>◌, ◌>>=◌,
  ◌||◌,
}
use rule_base_proxy.Net.{Ip, to4}
use rule_base_proxy.Net.Printing.{ip_string}
use rule_base_proxy.Rule.Metadata.{Metadata, type_string, atyp_ipv4, atyp_ipv6, atyp_domain_name}
use rule_base_proxy.Dns.Enhancer.{
  Enhancer, fake_ip_enabled, mapping_enabled, is_fake_ip, find_host_by_ip,
}

pub data Handled : Type 0 where
  handled : Metadata → Handled
  missing_record : Ip → Handled

-- An address that stands as the host.
unfoldable pub take_ip_host : (Text → Option Ip) → Metadata → Metadata
take_ip_host parse_ip m = elim (parse_ip m.host) [
  | none ↦ m
  | some ip ↦ record m {
    dst_ip = some ip;
    host = [];
    addr_type = if is_some (to4 ip) then atyp_ipv4 else atyp_ipv6;
  }
]

-- The inbound connections that named their target themselves.
unfoldable pub names_target : ℕ → Bool
names_target kind =
    text_eq (type_string kind) (codes "HTTP")
    || text_eq (type_string kind) (codes "HTTP Connect")
    || text_eq (type_string kind) (codes "Socks4")
    || text_eq (type_string kind) (codes "Socks5")

-- The name is put in, and in the fake IP mode the address goes.
unfoldable pub put_host : Enhancer → Text → Metadata → Metadata
put_host h host m = record m {
  host = host;
  addr_type = if names_target m.kind then m.addr_type else atyp_domain_name;
  dst_ip = if fake_ip_enabled h then none else m.dst_ip;
}

-- A name in `Dm` that is not empty.
unfoldable pub stored_host : (Text → Option Text) → Ip → Option Text
stored_host dm ip = dm (ip_string ip) >>= λ item. if text_eq item [] then none else some item

-- `preHandleMetadata` for the enhancer that is set, which looks the address up.
unfoldable pub pre_handle_with :
    (Text → Option Text) → ℕ → Enhancer → Metadata → Option (Enhancer × Handled)
pre_handle_with dm now h m = elim m.dst_ip [
  | none ↦ some (h, handled m)
  | some ip ↦
      if mapping_enabled h && text_eq m.host []
      then (find_host_by_ip now h ip >>= λ found. elim (found.1 <|> stored_host dm ip) [
        | some host ↦ some (found.0, handled (put_host found.0 host m))
        | none ↦ some (found.0, if is_fake_ip found.0 ip then missing_record ip else handled m)
      ])
      else some (h, handled m)
]

-- `preHandleMetadata`. The hosts table is read only outside the fake IP mode and only where the
-- address is nil, which it is not there.
unfoldable pub pre_handle :
    (Text → Option Ip)
    → (Text → Option Text)
    → ℕ
    → Option Enhancer
    → Metadata
    → Option (Option Enhancer × Handled)
pre_handle parse_ip dm now mapper m =
    let m' : Metadata = take_ip_host parse_ip m in
    elim mapper [
      | none ↦ some (none, handled m')
      | some h ↦ pre_handle_with dm now h m' >>= λ r. some (some r.0, r.1)
    ]
