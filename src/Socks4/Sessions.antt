-- ===== src/Socks4/Sessions.antt =====
-- `ServerHandshake` and `ClientHandshake` of transport/socks4/socks4.go with each other.
use rule_base_proxy.Common.{
  Bool, Bool-cases, Option, Option-cases, Text, [], ap, arith, false, if◌then◌else◌, inl, inr,
  length, none, refl, some, suc, true, ℕ, ◌%◌, ◌*◌, ◌++◌, ◌+◌, ◌/◌, ◌<◌, ◌==◌, ◌||◌, ◌∙◌, ◌∷◌, ◌≡◌,
}
use mathlib.Core.List.{append_assoc}
use rule_base_proxy.Net.{Ip}
use rule_base_proxy.Net.Numbers.{itoa, unsigned_value}
use rule_base_proxy.Net.Printing.{ip_string}
use rule_base_proxy.Socks5.Stream.{
  error, Result, identd_mismatched, write_anyway, ok, and_then, and_then-ok, read_full,
  read_full-append, write,
}
use rule_base_proxy.Socks5.Sessions.{conn, write_lem}
use rule_base_proxy.Socks5.Addr.{parse_port}
use rule_base_proxy.Transport.Chunk.{uint16, put_uint16}
use rule_base_proxy.Socks4.Handshake.{
  version, cmd_connect, request_granted, join_host_port, is_reserved_ip, cut_null, read_until_null,
  answer, read_target, is_accepted, request_identd_mismatched, target_addr, server_handshake,
  serve_request, request_ip, request, follow_reply, client_handshake,
}

unfoldable pub has_null : Text → Bool
has_null [] = false
has_null (b ∷ s) = b == 0 || has_null s

cut_null-append : (s rest : Text) → has_null s ≡ false → cut_null (s ++ 0 ∷ rest) ≡ some (s, rest)
unfolding has_null cut_null
cut_null-append [] rest h = refl
cut_null-append (b ∷ s) rest h = elim (Bool-cases (b == 0)) [
  | inl t ↦ absurd (ground (arith, h, t))
  | inr f ↦ ground (arith, f, cut_null-append s rest (ground (arith, h, f)))
]

read_until_null-append :
    (s rest o : Text) (n : ℕ)
    → has_null s ≡ false
    → read_until_null (conn (s ++ 0 ∷ rest) o n) ≡ (conn rest o n, ok s)
unfolding read_until_null
read_until_null-append s rest o n h = rw (read_until_null, cut_null-append s rest h) refl

-- The server has no authenticator, or one that accepts the user without a password.
unfoldable pub Accepts : Option (Text → Text → Bool) → Text → Type 0
Accepts none user = Unit
Accepts (some verify) user = verify user [] ≡ true

-- What follows the user in a request, with what comes after it.
abbrev pub name_part : Ip → Text → Text → Text
name_part dst_ip host rest = if is_reserved_ip dst_ip then host ++ 0 ∷ rest else rest

read_target-name_part :
    (dst_ip : Ip) (host rest o : Text) (n : ℕ)
    → has_null host ≡ false
    → read_target dst_ip (conn (name_part dst_ip host rest) o n)
      ≡ (conn rest o n, ok (if is_reserved_ip dst_ip then host else []))
unfolding read_target
read_target-name_part dst_ip host rest o n h = elim (Bool-cases (is_reserved_ip dst_ip)) [
  | inl t ↦ rw (read_target, t) (read_until_null-append host rest o n h)
  | inr f ↦ rw (read_target, f) refl
]

-- The reply that grants a request, and the one to a user that is not accepted.
abbrev pub granted : ℕ → Ip → Text
granted port dst_ip = 0 ∷ request_granted ∷ put_uint16 port ++ dst_ip

abbrev pub replied : Bool → ℕ → Ip → Text
replied accepted port dst_ip =
    0 ∷ (if accepted then request_granted else request_identd_mismatched) ∷ put_uint16 port
    ++ dst_ip

-- How both handshakes end.
abbrev pub verdict : {A : Type 0} → Bool → A → Result A
verdict accepted x = if accepted then ok x else error identd_mismatched

answer_lem :
    (auth : Option (Text → Text → Bool)) (user : Text) (dst_ip : Ip) (port : ℕ) (addr rest : Text)
    (n : ℕ)
    → answer auth user dst_ip (put_uint16 port) addr cmd_connect (conn rest [] (suc n)) ≡ (
      conn rest (replied (is_accepted auth user) port dst_ip) n,
      verdict (is_accepted auth user) (addr, cmd_connect),
    )
unfolding answer write write_anyway
answer_lem auth user dst_ip port addr rest n = elim (Bool-cases (is_accepted auth user)) [
  | inl t ↦ rw (answer, t) refl
  | inr f ↦ rw (answer, f) refl
]

target_addr_lem :
    (dst_ip : Ip) (host : Text) (port : ℕ)
    → port < 65536
    → 0 < length host
    → target_addr (if is_reserved_ip dst_ip then host else []) dst_ip (put_uint16 port)
      ≡ join_host_port (if is_reserved_ip dst_ip then host else ip_string dst_ip) (itoa port)
unfolding uint16
target_addr_lem dst_ip [] port small some_name = absurd (omega arith)
target_addr_lem dst_ip (b ∷ host) port small some_name =
    let same : port / 256 % 256 * 256 + port % 256 ≡ port = omega arith in
    elim (Bool-cases (is_reserved_ip dst_ip)) [
      | inl t ↦ rw (t, same) refl
      | inr f ↦ rw (f, same) refl
    ]

tail_split :
    (dst_ip : Ip) (user host rest : Text)
    → (user ++ 0 ∷ (if is_reserved_ip dst_ip then host ++ 0 ∷ [] else [])) ++ rest
      ≡ user ++ 0 ∷ name_part dst_ip host rest
tail_split dst_ip user host rest = elim (Bool-cases (is_reserved_ip dst_ip)) [
  | inl t ↦ rw t (
      append_assoc user (0 ∷ (host ++ 0 ∷ [])) rest
      ∙ ap (λ x. user ++ 0 ∷ x) (append_assoc host (0 ∷ []) rest))
  | inr f ↦ rw f (append_assoc user (0 ∷ []) rest)
]

-- The bytes of an address of the package net that are 4.
abbrev pub ip4 : ℕ → ℕ → ℕ → ℕ → Ip
ip4 a b c d = a ∷ b ∷ c ∷ d ∷ []

-- The server after the first 8 bytes.
after_header :
    (auth : Option (Text → Text → Bool)) (user host rest : Text) (dst_ip : Ip) (port n : ℕ)
    → has_null user ≡ false
    → has_null host ≡ false
    → and_then read_until_null
        (λ u. and_then (read_target dst_ip) (λ h.
          answer auth u dst_ip
            (put_uint16 port)
            (target_addr h dst_ip (put_uint16 port))
            cmd_connect))
        (conn (user ++ 0 ∷ name_part dst_ip host rest) [] (suc n))
      ≡ (
        conn rest (replied (is_accepted auth user) port dst_ip) n,
        verdict (is_accepted auth user) (
          target_addr (if is_reserved_ip dst_ip then host else []) dst_ip (put_uint16 port),
          cmd_connect,
        ),
      )
after_header auth user host rest dst_ip port n u h =
    let h' : Text = if is_reserved_ip dst_ip then host else [] in
    and_then-ok read_until_null
      (λ u. and_then (read_target dst_ip) (λ h.
        answer auth u dst_ip (put_uint16 port) (target_addr h dst_ip (put_uint16 port))
          cmd_connect))
      (read_until_null-append user (name_part dst_ip host rest) [] (suc n) u)
    ∙ and_then-ok (read_target dst_ip)
        (λ h.
          answer auth user dst_ip (put_uint16 port) (target_addr h dst_ip (put_uint16 port))
            cmd_connect)
        (read_target-name_part dst_ip host rest [] (suc n) h)
    ∙ answer_lem auth user dst_ip port (target_addr h' dst_ip (put_uint16 port)) rest n

-- The address that a server reads of a request.
abbrev pub reached : Text → Ip → ℕ → Text
reached host dst_ip port =
    join_host_port (if is_reserved_ip dst_ip then host else ip_string dst_ip) (itoa port)

server_handshake-replied :
    (auth : Option (Text → Text → Bool)) (user host rest : Text) (a b c d port n : ℕ)
    → has_null user ≡ false
    → has_null host ≡ false
    → 0 < length host
    → port < 65536
    → server_handshake auth
        (conn (request cmd_connect port (ip4 a b c d) user host ++ rest) [] (suc n))
      ≡ (
        conn rest (replied (is_accepted auth user) port (ip4 a b c d)) n,
        verdict (is_accepted auth user) (reached host (ip4 a b c d) port, cmd_connect),
      )
unfolding server_handshake serve_request request
server_handshake-replied auth user host rest a b c d port n u h some_name small =
    let head : Text = version ∷ cmd_connect ∷ put_uint16 port ++ ip4 a b c d in
    let tail : Text = user ++ 0 ∷ name_part (ip4 a b c d) host rest in
    ap (λ x. server_handshake auth (conn (head ++ x) [] (suc n)))
      (tail_split (ip4 a b c d) user host rest)
    ∙ and_then-ok (read_full 8) (serve_request auth) (read_full-append 8 head tail [] (suc n) refl)
    ∙ after_header auth user host rest (ip4 a b c d) port n u h
    ∙ ap
        (λ (x : Text). (
          conn rest (replied (is_accepted auth user) port (ip4 a b c d)) n,
          verdict (is_accepted auth user) (x, cmd_connect),
        ))
        (target_addr_lem (ip4 a b c d) host port small some_name)

accepts_lem :
    (auth : Option (Text → Text → Bool)) (user : Text)
    → Accepts auth user
    → is_accepted auth user ≡ true
unfolding Accepts is_accepted
accepts_lem none user a = refl
accepts_lem (some verify) user a = a

-- A server that accepts the user reads a request to connect: it returns the address, the name for
-- a reserved address and the address in digits otherwise, with the port, has granted the request,
-- and leaves what follows unread. The user and the name, which is not empty, have no byte 0.
pub server_handshake-request :
    (auth : Option (Text → Text → Bool)) (user host rest : Text) (a b c d port n : ℕ)
    → Accepts auth user
    → has_null user ≡ false
    → has_null host ≡ false
    → 0 < length host
    → port < 65536
    → server_handshake auth
        (conn (request cmd_connect port (ip4 a b c d) user host ++ rest) [] (suc n))
      ≡ (
        conn rest (granted port (ip4 a b c d)) n,
        ok (
          join_host_port
              (if is_reserved_ip (ip4 a b c d) then host else ip_string (ip4 a b c d))
              (itoa port),
          cmd_connect,
        ),
      )
server_handshake-request auth user host rest a b c d port n acc u h some_name small =
    let accepted = accepts_lem auth user acc in
    server_handshake-replied auth user host rest a b c d port n u h some_name small
    ∙ rw accepted refl

parse_port_small : (s : Text) {n : ℕ} → parse_port s ≡ some n → n < 65536
unfolding parse_port
parse_port_small s {n} h = elim (Option-cases (unsigned_value s)) [
  | inl e ↦ absurd (ground (arith, e, h))
  | inr (k, e) ↦ ground (arith, e, h)
]

client_handshake-replied :
    (split_host_port : Text → Option (Text × Text)) (parse_ip : Text → Option Ip)
    (addr host port_text user rest : Text) (a b c d port command n : ℕ) (accepted : Bool)
    → split_host_port addr ≡ some (host, port_text)
    → parse_port port_text ≡ some port
    → request_ip (parse_ip host) ≡ some (ip4 a b c d)
    → client_handshake split_host_port parse_ip addr command user
        (conn (replied accepted port (ip4 a b c d) ++ rest) [] (suc n))
      ≡ (conn rest (request command port (ip4 a b c d) user host) n, verdict accepted tt)
unfolding client_handshake follow_reply
client_handshake-replied split_host_port parse_ip addr host port_text user rest a b c d port command
      n accepted e e' e'' =
    let sent = request command port (ip4 a b c d) user host in
    rw (client_handshake, e, e', e'')
      (and_then-ok (write sent) (λ _. and_then (read_full 8) follow_reply)
          (write_lem sent (replied accepted port (ip4 a b c d) ++ rest) [] n)
        ∙ and_then-ok (read_full 8) follow_reply
            (read_full-append 8 (replied accepted port (ip4 a b c d)) rest sent n refl)
        ∙ elim (Bool-cases accepted) [ inl t ↦ rw t refl | inr f ↦ rw f refl ])

-- A client that asks to connect and a server with each other: there are bytes that the client sends
-- and the server reads, and a reply that the server sends and the client reads. Where the server
-- accepts the user it returns the address, as the name for a reserved address and in digits
-- otherwise, and the client no error; otherwise both return the error of the user. Either side
-- leaves what follows unread. The user and the host, which is not empty, have no byte 0.
pub client_handshake-server_handshake :
    (auth : Option (Text → Text → Bool)) (split_host_port : Text → Option (Text × Text))
    (parse_ip : Text → Option Ip) (addr host port_text user later later' : Text)
    (a b c d port n k : ℕ)
    → split_host_port addr ≡ some (host, port_text)
    → parse_port port_text ≡ some port
    → request_ip (parse_ip host) ≡ some (ip4 a b c d)
    → has_null user ≡ false
    → has_null host ≡ false
    → 0 < length host
    → (sent : Text) × (reply : Text) × (server_handshake auth (conn (sent ++ later) [] (suc n)) ≡ (
      conn later reply n,
      verdict (is_accepted auth user) (reached host (ip4 a b c d) port, cmd_connect),
    ))
      × (client_handshake split_host_port parse_ip addr cmd_connect user
            (conn (reply ++ later') [] (suc k))
          ≡ (conn later' sent k, verdict (is_accepted auth user) tt))
client_handshake-server_handshake auth split_host_port parse_ip addr host port_text user later
      later' a b c d port n k e e' e'' u h some_name =
    (
      request cmd_connect port (ip4 a b c d) user host,
      replied (is_accepted auth user) port (ip4 a b c d),
      server_handshake-replied auth user host later a b c d port n u h some_name
          (parse_port_small port_text e'),
      client_handshake-replied split_host_port parse_ip addr host port_text user later' a b c d port
          cmd_connect k (is_accepted auth user) e e' e'',
    )
