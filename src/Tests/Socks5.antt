-- ===== src/Tests/Socks5.antt =====
-- The SOCKS 5 code (transport/socks5) on a name, an address and two handshakes.
use rule_base_proxy.Common.{
  Bool, Text, [], arith, codes, inl, none, refl, some, text_eq, ◌&&◌, ◌++◌, ◌∷◌, ◌≡◌,
}
use rule_base_proxy.Net.{to4}
use rule_base_proxy.Net.Numbers.{digits_value, unsigned_value}
use rule_base_proxy.Socks5.Stream.{ok, read_full, write}
use rule_base_proxy.Socks5.Addr.{
  Addr, addr_length, split_addr, read_host, read_addr, host_bytes, parse_port, parse_addr,
  decode_udp_packet, encode_udp_packet,
}
use rule_base_proxy.Socks5.Framing.{IsAddr, domain_addr, ipv4_addr}
use rule_base_proxy.Socks5.Handshake.{User, server_handshake, client_handshake}
use rule_base_proxy.Socks5.Sessions.{
  Agrees, conn, client_bytes, server_bytes, server_handshake-client_bytes,
  client_handshake-server_bytes,
}

program : Unit {0}
unfolding to4 digits_value unsigned_value addr_length split_addr read_host read_addr host_bytes
    parse_port parse_addr decode_udp_packet encode_udp_packet text_eq Agrees read_full write
program = tt

-- a.b at port 80
abbrev name : Addr
name = 3 ∷ 3 ∷ 97 ∷ 46 ∷ 98 ∷ 0 ∷ 80 ∷ []

abbrev local : Addr
local = 1 ∷ 127 ∷ 0 ∷ 0 ∷ 1 ∷ 4 ∷ 56 ∷ []

name-IsAddr : IsAddr name
name-IsAddr = domain_addr 3 (97 ∷ 46 ∷ 98 ∷ 0 ∷ 80 ∷ []) refl

local-IsAddr : IsAddr local
local-IsAddr = ipv4_addr (127 ∷ 0 ∷ 0 ∷ 1 ∷ 4 ∷ 56 ∷ []) refl

parsing : parse_addr (λ s. some (codes "a.b", codes "80")) (λ s. none) (codes "a.b:80") ≡ some name
unfolding program
parsing = refl

abbrev user : User
user = record { username = codes "me"; password = codes "secret" }

abbrev verify : Text → Text → Bool
verify name pass = text_eq name (codes "me") && text_eq pass (codes "secret")

server_handshake-client_bytes_example :
    server_handshake
      (some verify)
      (some local)
      (conn (client_bytes (some user) 1 name ++ 9 ∷ []) [] 3)
    ≡ (conn (9 ∷ []) (server_bytes (some user) local) 0, ok (name, 1))
unfolding program
server_handshake-client_bytes_example =
    server_handshake-client_bytes (some verify) (some user) local name (9 ∷ []) 1
      (refl, omega arith, omega arith, omega arith, omega arith) name-IsAddr (inl refl)

client_handshake-server_bytes_example :
    client_handshake name 1 none (conn (server_bytes none local ++ 9 ∷ []) [] 3)
    ≡ (conn (9 ∷ []) (client_bytes none 1 name) 1, ok local)
client_handshake-server_bytes_example =
    client_handshake-server_bytes none local name (9 ∷ []) 1 local-IsAddr
