-- ===== src/Socks4/Handshake.antt =====
-- `ServerHandshake` and `ClientHandshake` of transport/socks4/socks4.go, over the connections of
-- Socks5/Stream. `net.SplitHostPort` and `net.ParseIP` are arguments.
use rule_base_proxy.Common.{
  Bool, Option, Text, [], codes, drop, empty, if◌then◌else◌, none, not, some, take, text_eq, true,
  ℕ, ◌&&◌, ◌++◌, ◌==◌, ◌>>=◌, ◌∷◌,
}
use rule_base_proxy.Net.{Ip, to4, v4_prefix}
use rule_base_proxy.Net.Networks.{contains_ip}
use rule_base_proxy.Net.Numbers.{itoa}
use rule_base_proxy.Net.Printing.{ip_string}
use rule_base_proxy.Rule.Strings.{contains}
use rule_base_proxy.Socks5.Stream.{
  Io, and_then, done, fail, read_full, write, write_anyway, command_not_supported, version_error,
  rejected_error, identd_failed, identd_mismatched, unknown_code, ipv6_not_supported, bad_address,
  read_error,
}
use rule_base_proxy.Socks5.Addr.{byte_at, parse_port}
use rule_base_proxy.Transport.Chunk.{uint16, put_uint16}

-- `Version`, `CmdConnect`, and the codes of a reply.
abbrev pub version : ℕ
version = 4

abbrev pub cmd_connect : ℕ
cmd_connect = 1

abbrev pub request_granted : ℕ
request_granted = 90

abbrev pub request_rejected : ℕ
request_rejected = 91

abbrev pub request_identd_failed : ℕ
request_identd_failed = 92

abbrev pub request_identd_mismatched : ℕ
request_identd_mismatched = 93

-- `net.JoinHostPort`
unfoldable pub join_host_port : Text → Text → Text
join_host_port host port =
    if contains host (codes ":") then b'[' ∷ host ++ codes "]:" ++ port else host ++ b':' ∷ port

-- `isReservedIP` of 4 bytes.
unfoldable pub is_reserved_ip : Ip → Bool
is_reserved_ip ip =
    not (text_eq ip (0 ∷ 0 ∷ 0 ∷ 0 ∷ []))
    && contains_ip (record { base = v4_prefix ++ 0 ∷ 0 ∷ 0 ∷ 0 ∷ []; ones = 24; bits = 32 }) ip

-- The bytes before the first 0 and those after it.
unfoldable pub cut_null : Text → Option (Text × Text)
cut_null [] = none
cut_null (b ∷ s) =
    let rest = cut_null s in
    if b == 0 then some ([], s) else (rest >>= λ (before, after). some (b ∷ before, after))

-- `readUntilNull`
unfoldable pub read_until_null : Io Text
read_until_null c = elim (cut_null c.input) [
  | none ↦ fail read_error (record c { input = [] })
  | some (before, after) ↦ done before (record c { input = after })
]

-- `authenticator == nil || authenticator.Verify(string(userID), "")`
unfoldable pub is_accepted : Option (Text → Text → Bool) → Text → Bool
is_accepted none user = true
is_accepted (some verify) user = verify user []

-- The reply to a client, by its user: the address and the command, or the error of a user that is
-- not accepted, which is returned whether the reply is written or not.
unfoldable pub answer : Option (Text → Text → Bool) → Text → Ip → Text → Text → ℕ → Io (Text × ℕ)
answer authenticator user dst_ip dst_port addr command =
    let reply : ℕ → Text = λ code. 0 ∷ code ∷ dst_port ++ dst_ip in
    if is_accepted authenticator user
    then and_then (write (reply request_granted)) (λ _. done (addr, command))
    else and_then (write_anyway (reply request_identd_mismatched)) (λ _. fail identd_mismatched)

-- The target's name, which follows for a reserved address.
unfoldable pub read_target : Ip → Io Text
read_target dst_ip = if is_reserved_ip dst_ip then read_until_null else done []

abbrev pub target_addr : Text → Ip → Text → Text
target_addr host dst_ip dst_port =
    let port = itoa (uint16 dst_port) in
    if empty host then join_host_port (ip_string dst_ip) port else join_host_port host port

-- `ServerHandshake` after the first 8 bytes.
unfoldable pub serve_request : Option (Text → Text → Bool) → Text → Io (Text × ℕ)
serve_request authenticator req =
    if not (byte_at req 0 == version)
    then fail version_error
    else if not (byte_at req 1 == cmd_connect)
    then fail command_not_supported
    else and_then read_until_null (λ user.
      let dst_ip = drop 4 req in
      let dst_port = take 2 (drop 2 req) in
      and_then (read_target dst_ip) (λ host.
        answer authenticator user dst_ip dst_port (target_addr host dst_ip dst_port)
          (byte_at req 1)))

-- `ServerHandshake`: the target's address and the command. On an error the code returns these with
-- it; the model returns the error alone.
unfoldable pub server_handshake : Option (Text → Text → Bool) → Io (Text × ℕ)
server_handshake authenticator = and_then (read_full 8) (serve_request authenticator)

-- The address in a request: that of the host, or 0.0.0.1 for a name.
unfoldable pub request_ip : Option Ip → Option Ip
request_ip none = some (0 ∷ 0 ∷ 0 ∷ 1 ∷ [])
request_ip (some ip) = to4 ip

unfoldable pub request : ℕ → ℕ → Ip → Text → Text → Text
request command port dst_ip user host =
    version ∷ command ∷ put_uint16 port
    ++ dst_ip
    ++ user
    ++ 0 ∷ (if is_reserved_ip dst_ip then host ++ 0 ∷ [] else [])

unfoldable pub follow_reply : Text → Io (Unit {0})
follow_reply resp =
    if not (byte_at resp 0 == 0)
    then fail version_error
    else if byte_at resp 1 == request_granted
    then done tt
    else if byte_at resp 1 == request_rejected
    then fail rejected_error
    else if byte_at resp 1 == request_identd_failed
    then fail identd_failed
    else if byte_at resp 1 == request_identd_mismatched
    then fail identd_mismatched
    else fail unknown_code

unfoldable pub client_handshake :
    (Text → Option (Text × Text)) → (Text → Option Ip) → Text → ℕ → Text → Io (Unit {0})
client_handshake split_host_port parse_ip addr command user = elim (split_host_port addr) [
  | none ↦ fail bad_address
  | some (host, port) ↦ elim (parse_port port) [
    | none ↦ fail bad_address
    | some n ↦ elim (request_ip (parse_ip host)) [
      | none ↦ fail ipv6_not_supported
      | some dst_ip ↦
          and_then (write (request command n dst_ip user host))
            (λ _. and_then (read_full 8) follow_reply)
    ]
  ]
]
