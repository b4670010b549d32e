-- ===== src/Socks5/Addr.antt =====
-- `SplitAddr`, `ReadAddr`, `ParseAddr`, `DecodeUDPPacket` and `EncodeUDPPacket`.
use rule_base_proxy.Common.{
  Option, Text, [], drop, get_elem?, get_or_else, if◌then◌else◌, length, ltb, none, not, some, take,
  text_eq, ℕ, ◌%◌, ◌++◌, ◌+◌, ◌/◌, ◌==◌, ◌>>=◌, ◌^◌, ◌∷◌,
}
use rule_base_proxy.Net.{Ip, to4}
use rule_base_proxy.Net.Numbers.{unsigned_value}
use rule_base_proxy.Rule.Metadata.{atyp_ipv4, atyp_domain_name, atyp_ipv6}
use rule_base_proxy.Socks5.Stream.{Io, and_then, done, fail, read_full, address_not_supported}

-- The bytes of an address: its type, its host and its port.
abbrev pub Addr : Type 0
Addr = Text

abbrev pub byte_at : Text → ℕ → ℕ
byte_at b i = get_or_else (get_elem? b i) 0

-- The length of the address that starts `b`, by its type; an address of another type is none.
unfoldable pub addr_length : Text → Option ℕ
addr_length [] = none
addr_length (t ∷ rest) =
    if t == atyp_domain_name
    then elim rest [ [] ↦ none | d ∷ ds ↦ some (1 + 1 + d + 2) ]
    else if t == atyp_ipv4
    then some (1 + 4 + 2)
    else if t == atyp_ipv6
    then some (1 + 16 + 2)
    else none

-- `SplitAddr`
unfoldable pub split_addr : Text → Option Addr
split_addr b = addr_length b >>= λ n. if ltb (length b) n then none else some (take n b)

-- The rest of an address after its type, as long as the type tells.
unfoldable pub read_host : ℕ → Io Addr
read_host t =
    if t == atyp_domain_name
    then and_then (read_full 1)
        (λ d. and_then (read_full (byte_at d 0 + 2)) (λ host. done (t ∷ d ++ host)))
    else if t == atyp_ipv4
    then and_then (read_full (4 + 2)) (λ host. done (t ∷ host))
    else if t == atyp_ipv6
    then and_then (read_full (16 + 2)) (λ host. done (t ∷ host))
    else fail address_not_supported

-- `ReadAddr`, with a buffer of the size that its callers have.
unfoldable pub read_addr : Io Addr
read_addr = and_then (read_full 1) (λ t. read_host (byte_at t 0))

-- The host's part of `ParseAddr`.
unfoldable pub host_bytes : (Text → Option Ip) → Text → Option Text
host_bytes parse_ip host = elim (parse_ip host) [
  | some ip ↦ elim (to4 ip) [ some ip4 ↦ some (atyp_ipv4 ∷ ip4) | none ↦ some (atyp_ipv6 ∷ ip) ]
  | none ↦ if ltb 255 (length host) then none else some (atyp_domain_name ∷ length host ∷ host)
]

-- `strconv.ParseUint(port, 10, 16)`
unfoldable pub parse_port : Text → Option ℕ
parse_port s = unsigned_value s >>= λ n. if ltb n (2 ^ 16) then some n else none

-- `ParseAddr`; `net.SplitHostPort` and `net.ParseIP` are arguments.
unfoldable pub parse_addr : (Text → Option (Text × Text)) → (Text → Option Ip) → Text → Option Addr
parse_addr split_host_port parse_ip s = split_host_port s >>= λ (host, port).
    host_bytes parse_ip host >>= λ bytes.
    parse_port port >>= λ n. some (bytes ++ n / 256 ∷ n % 256 ∷ [])

pub data PacketError : Type 0 where
  insufficient_length reserved_not_zero fragmented no_header invalid_address : PacketError

pub data Packet {ℓ} (A : Type ℓ) : Type ℓ where
  got : A → Packet A
  bad : PacketError → Packet A

-- `DecodeUDPPacket`
unfoldable pub decode_udp_packet : Text → Packet (Addr × Text)
decode_udp_packet packet =
    if ltb (length packet) 5
    then bad insufficient_length
    else if not (text_eq (take 2 packet) (0 ∷ 0 ∷ []))
    then bad reserved_not_zero
    else if not (text_eq (take 1 (drop 2 packet)) (0 ∷ []))
    then bad fragmented
    else elim (split_addr (drop 3 packet)) [
      | none ↦ bad no_header
      | some addr ↦ got (addr, drop (3 + length addr) packet)
    ]

-- `EncodeUDPPacket`, of an address that may be nil.
unfoldable pub encode_udp_packet : Option Addr → Text → Packet Text
encode_udp_packet none payload = bad invalid_address
encode_udp_packet (some addr) payload = got (0 ∷ 0 ∷ 0 ∷ addr ++ payload)
