-- ===== src/Rule/Metadata.antt =====
-- `Metadata` of constant/metadata.go: what is known of a connection.
use rule_base_proxy.Common.{
  Bool, Option, Text, [], codes, false, if◌then◌else◌, is_some, none, not, some, text_eq, ℕ, ◌++◌,
  ◌==◌, ◌||◌, ◌∷◌,
}
use rule_base_proxy.Net.{Ip}
use rule_base_proxy.Net.Printing.{ip_string}
use rule_base_proxy.Net.Numbers.{itoa}

-- The address types of SOCKS.
abbrev pub atyp_ipv4 : ℕ
atyp_ipv4 = 1

abbrev pub atyp_domain_name : ℕ
atyp_domain_name = 3

abbrev pub atyp_ipv6 : ℕ
atyp_ipv6 = 4

-- The networks, by their `iota`.
abbrev pub tcp : ℕ
tcp = 3

abbrev pub udp : ℕ
udp = 4

-- The types of the inbound connection, by their `iota`.
abbrev pub type_http : ℕ
type_http = 5

abbrev pub type_http_connect : ℕ
type_http_connect = 6

abbrev pub type_socks4 : ℕ
type_socks4 = 7

abbrev pub type_socks5 : ℕ
type_socks5 = 8

abbrev pub type_redir : ℕ
type_redir = 9

abbrev pub type_tproxy : ℕ
type_tproxy = 10

abbrev pub type_wintun : ℕ
type_wintun = 11

unfoldable pub network_string : ℕ → Text
network_string n = if n == tcp then codes "tcp" else codes "udp"

unfoldable pub type_string : ℕ → Text
type_string t =
    if t == atyp_ipv4
    then codes "IPv4"
    else if t == atyp_domain_name
    then codes "DomainName"
    else if t == atyp_ipv6
    then codes "IPv6"
    else if t == type_http
    then codes "HTTP"
    else if t == type_http_connect
    then codes "HTTP Connect"
    else if t == type_socks4
    then codes "Socks4"
    else if t == type_socks5
    then codes "Socks5"
    else if t == type_redir
    then codes "Redir"
    else if t == type_tproxy
    then codes "TProxy"
    else if t == type_wintun
    then codes "TUN"
    else codes "Unknown"

-- A nil address is `none`.
pub record Metadata : Type 0 where
  pub network : ℕ
  pub kind : ℕ
  pub src_ip : Option Ip
  pub dst_ip : Option Ip
  pub src_port : Text
  pub dst_port : Text
  pub addr_type : ℕ
  pub host : Text

-- `ip.String()` of an address that may be nil.
unfoldable pub address_string : Option Ip → Text
address_string none = codes "<nil>"
address_string (some ip) = ip_string ip

unfoldable pub resolved : Metadata → Bool
resolved m = is_some m.dst_ip

unfoldable pub metadata_string : Metadata → Text
metadata_string m = if text_eq m.host [] then address_string m.dst_ip else m.host

unfoldable pub dst_addr : Metadata → Text
dst_addr m = elim m.dst_ip [
  | some ip ↦ ip_string ip
  | none ↦ if text_eq m.host [] then codes "<nil>" else m.host
]

-- `m.Valid()`
unfoldable pub is_valid : Metadata → Bool
is_valid m = not (text_eq m.host []) || is_some m.dst_ip

unfoldable pub has_byte : ℕ → Text → Bool
has_byte b [] = false
has_byte b (c ∷ cs) = c == b || has_byte b cs

-- `net.JoinHostPort`
unfoldable pub join_host_port : Text → Text → Text
join_host_port host port =
    if has_byte b':' host then b'[' ∷ host ++ codes "]:" ++ port else host ++ b':' ∷ port

unfoldable pub remote_address : Metadata → Text
remote_address m = join_host_port (metadata_string m) m.dst_port

unfoldable pub source_address : Metadata → Text
source_address m = join_host_port (address_string m.src_ip) m.src_port

-- The key of the rule cache: the source's port is no part of it.
unfoldable pub info_key : Metadata → Text
info_key m =
    address_string m.src_ip
    ++ codes "->"
    ++ address_string m.dst_ip
    ++ b':' ∷ m.dst_port
    ++ codes " host:"
    ++ m.host
    ++ codes " Type:"
    ++ type_string m.kind
    ++ codes " AddrType:"
    ++ itoa m.addr_type
    ++ codes " NetWork:"
    ++ network_string m.network
