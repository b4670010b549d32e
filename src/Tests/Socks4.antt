-- ===== src/Tests/Socks4.antt =====
-- A SOCKS 4 handshake for a name, from both sides.
use rule_base_proxy.Common.{
  Bool, Option, Text, [], arith, codes, false, if◌then◌else◌, none, refl, some, text_eq, ◌++◌, ◌∷◌,
  ◌≡◌,
}
use rule_base_proxy.Net.{Ip, to4}
use rule_base_proxy.Net.Networks.{same_prefix, network_number, contains_ip}
use rule_base_proxy.Net.Numbers.{digits_value, unsigned_value, itoa}
use rule_base_proxy.Net.Printing.{ip_string}
use rule_base_proxy.Socks5.Addr.{parse_port}
use rule_base_proxy.Socks5.Stream.{ok}
use rule_base_proxy.Socks5.Sessions.{conn}
use rule_base_proxy.Socks4.Handshake.{
  cmd_connect, join_host_port, is_reserved_ip, server_handshake, request_ip, request,
  client_handshake, is_accepted,
}
use rule_base_proxy.Socks4.Sessions.{
  has_null, Accepts, granted, ip4, reached, verdict, server_handshake-request,
  client_handshake-server_handshake,
}

program : Unit {0}
unfolding to4 same_prefix network_number contains_ip digits_value unsigned_value parse_port
    is_reserved_ip request_ip request has_null Accepts is_accepted text_eq
program = tt

abbrev only_bob : Text → Text → Bool
only_bob user pass = text_eq user (codes "bob")

sends :
    request cmd_connect 443 (ip4 0 0 0 1) (codes "bob") (codes "go.dev")
    ≡ 4 ∷ 1 ∷ 1 ∷ 187 ∷ 0 ∷ 0 ∷ 0 ∷ 1 ∷ (codes "bob" ++ 0 ∷ codes "go.dev" ++ 0 ∷ [])
unfolding program
sends = refl

server_handshake-request_example :
    server_handshake (some only_bob) (
      conn
        (request cmd_connect 443 (ip4 0 0 0 1) (codes "bob") (codes "go.dev") ++ codes "GET")
        []
        1)
    ≡ (
      conn (codes "GET") (granted 443 (ip4 0 0 0 1)) 0,
      ok (
        join_host_port
            (if is_reserved_ip (ip4 0 0 0 1) then codes "go.dev" else ip_string (ip4 0 0 0 1))
            (itoa 443),
        cmd_connect,
      ),
    )
unfolding program
server_handshake-request_example =
    server_handshake-request (some only_bob) (codes "bob") (codes "go.dev") (codes "GET") 0 0 0 1
      443 0 refl refl refl (omega arith) (omega arith)

abbrev split : Text → Option (Text × Text)
split s = some (codes "go.dev", codes "443")

abbrev no_ip : Text → Option Ip
no_ip s = none

client_handshake-server_handshake_example :
    (sent : Text) × (reply : Text) × (server_handshake
        (some only_bob)
        (conn (sent ++ codes "GET") [] 1)
      ≡ (
        conn (codes "GET") reply 0,
        verdict
            (is_accepted (some only_bob) (codes "bob"))
            (reached (codes "go.dev") (ip4 0 0 0 1) 443, cmd_connect),
      ))
    × (client_handshake split no_ip
          (codes "go.dev:443")
          cmd_connect
          (codes "bob")
          (conn (reply ++ codes "HTTP") [] 1)
        ≡ (conn (codes "HTTP") sent 0, verdict (is_accepted (some only_bob) (codes "bob")) tt))
unfolding program
client_handshake-server_handshake_example =
    client_handshake-server_handshake (some only_bob) split no_ip (codes "go.dev:443")
      (codes "go.dev") (codes "443") (codes "bob") (codes "GET") (codes "HTTP") 0 0 0 1 443 0 0 refl
      refl refl refl refl (omega arith)

is_refused : is_accepted (some only_bob) (codes "eve") ≡ false
unfolding program
is_refused = refl
