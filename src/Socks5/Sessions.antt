-- ===== src/Socks5/Sessions.antt =====
-- `ServerHandshake` and `ClientHandshake` of transport/socks5/socks5.go with each other.
use rule_base_proxy.Common.{
  Bool, Option, Text, [], ap, arith, if◌then◌else◌, is_some, length, none, refl, some, suc, sym,
  true, ℕ, ◌%◌, ◌++◌, ◌<◌, ◌∙◌, ◌∷◌, ◌≡◌, ◌⊎◌,
}
use native.Mathlib.Nat.{mod-eq_of_lt}
use mathlib.Core.List.{append_assoc}
use rule_base_proxy.Socks5.Stream.{
  Conn, ok, and_then, and_then-ok, read_full, read_full-append, write,
}
use rule_base_proxy.Socks5.Addr.{Addr, byte_at, read_addr}
use rule_base_proxy.Socks5.Framing.{IsAddr, read_addr-append}
use rule_base_proxy.Socks5.Handshake.{
  cmd_connect, cmd_udp_associate, authenticate, choose_method, reply, server_handshake, User,
  auth_message, follow_method, client_handshake,
}

-- What the client writes, and what the server writes, when all goes well.
unfoldable pub client_bytes : Option User → ℕ → Addr → Text
client_bytes none command addr = 5 ∷ 1 ∷ 0 ∷ 5 ∷ command ∷ 0 ∷ addr
client_bytes (some u) command addr = 5 ∷ 1 ∷ 2 ∷ auth_message u ++ 5 ∷ command ∷ 0 ∷ addr

unfoldable pub server_bytes : Option User → Addr → Text
server_bytes none bound = 5 ∷ 0 ∷ 5 ∷ 0 ∷ 0 ∷ bound
server_bytes (some u) bound = 5 ∷ 2 ∷ 1 ∷ 0 ∷ 5 ∷ 0 ∷ 0 ∷ bound

-- The server asks for a name and a password when the client has them, and then accepts them; both
-- fit the byte that gives their length.
unfoldable pub Agrees : Option (Text → Text → Bool) → Option User → Type 0
Agrees none none = Unit
Agrees none (some u) = ⊥
Agrees (some verify) none = ⊥
Agrees (some verify) (some u) =
    (verify u.username u.password ≡ true)
    × (0 < length u.username)
    × (length u.username < 256)
    × (0 < length u.password)
    × (length u.password < 256)

abbrev pub conn : Text → Text → ℕ → Conn
conn i o n = record { input = i; output = o; writes = n }

pub write_lem : (bs i o : Text) (n : ℕ) → write bs (conn i o (suc n)) ≡ (conn i (o ++ bs) n, ok tt)
unfolding write
write_lem bs i o n = refl

reply_lem :
    (bound addr rest o : Text) (command n : ℕ)
    → (command ≡ cmd_connect) ⊎ (command ≡ cmd_udp_associate)
    → reply (some bound) addr command (conn rest o (suc n))
      ≡ (conn rest (o ++ 5 ∷ 0 ∷ 0 ∷ bound) n, ok (addr, command))
unfolding reply write
reply_lem bound addr rest o command n k = ground arith

-- The server after the method is chosen.
request_lem :
    (bound addr rest o : Text) (command n : ℕ)
    → IsAddr addr
    → (command ≡ cmd_connect) ⊎ (command ≡ cmd_udp_associate)
    → and_then
        (read_full 3)
        (λ request. and_then read_addr (λ a. reply (some bound) a (byte_at request 1)))
        (conn (5 ∷ command ∷ 0 ∷ addr ++ rest) o (suc n))
      ≡ (conn rest (o ++ 5 ∷ 0 ∷ 0 ∷ bound) n, ok (addr, command))
request_lem bound addr rest o command n v k =
    and_then-ok (read_full 3)
      (λ request. and_then read_addr (λ a. reply (some bound) a (byte_at request 1)))
      (read_full-append 3 (5 ∷ command ∷ 0 ∷ []) (addr ++ rest) o (suc n) refl)
    ∙ and_then-ok read_addr (λ a. reply (some bound) a command)
        (read_addr-append addr rest o (suc n) v)
    ∙ reply_lem bound addr rest o command n k

authenticate_read :
    (verify : Text → Text → Bool) (u : User) (rest o : Text) (n : ℕ)
    → Agrees (some verify) (some u)
    → authenticate verify (
        conn
          (1
            ∷ length u.username % 256
            ∷ (u.username ++ (length u.password % 256 ∷ (u.password ++ rest))))
          o
          (suc n))
      ≡ (conn rest (o ++ 1 ∷ 0 ∷ []) n, ok tt)
unfolding authenticate Agrees
authenticate_read verify u rest o n g =
    let l = length u.username % 256 in
    let l' = length u.password % 256 in
    let small : l ≡ length u.username = mod-eq_of_lt g.2 in
    let small' : l' ≡ length u.password = mod-eq_of_lt g.4 in
    let after : Text = l' ∷ (u.password ++ rest) in
    let header = read_full-append 2 (1 ∷ l ∷ []) (u.username ++ after) o (suc n) refl in
    let name = read_full-append l u.username after o (suc n) (sym small) in
    let size = read_full-append 1 (l' ∷ []) (u.password ++ rest) o (suc n) refl in
    let pass = read_full-append l' u.password rest o (suc n) (sym small') in
    ground (arith, header, name, size, pass, write_lem (1 ∷ 0 ∷ []) rest o n, g)

authenticate_lem :
    (verify : Text → Text → Bool) (u : User) (rest o : Text) (n : ℕ)
    → Agrees (some verify) (some u)
    → authenticate verify (conn (auth_message u ++ rest) o (suc n))
      ≡ (conn rest (o ++ 1 ∷ 0 ∷ []) n, ok tt)
unfolding auth_message
authenticate_lem verify u rest o n g =
    ap (λ x. authenticate verify (conn (1 ∷ length u.username % 256 ∷ x) o (suc n)))
      (append_assoc u.username (length u.password % 256 ∷ u.password) rest)
    ∙ authenticate_read verify u rest o n g

-- A server with an address to answer reads what a client writes for connect or UDP associate,
-- where both use no authentication, or the server accepts the name and the password of the
-- client, whose lengths fit a byte and are not 0. It returns the address and the command, has
-- written its answers, and leaves what follows the handshake unread; three writes that succeed
-- are enough.
pub server_handshake-client_bytes :
    (auth : Option (Text → Text → Bool)) (user : Option User) (bound addr rest : Text) (command : ℕ)
    → Agrees auth user
    → IsAddr addr
    → (command ≡ cmd_connect) ⊎ (command ≡ cmd_udp_associate)
    → server_handshake auth (some bound) (conn (client_bytes user command addr ++ rest) [] 3)
      ≡ (conn rest (server_bytes user bound) (if is_some user then 0 else 1), ok (addr, command))
unfolding server_handshake client_bytes server_bytes Agrees choose_method
server_handshake-client_bytes none none bound addr rest command g v k = ground (
  arith,
  read_full-append 2 (5 ∷ 1 ∷ []) (0 ∷ 5 ∷ command ∷ 0 ∷ addr ++ rest) [] 3 refl,
  read_full-append 1 (0 ∷ []) (5 ∷ command ∷ 0 ∷ addr ++ rest) [] 3 refl,
  write_lem (5 ∷ 0 ∷ []) (5 ∷ command ∷ 0 ∷ addr ++ rest) [] 2,
  request_lem bound addr rest (5 ∷ 0 ∷ []) command 1 v k,
)
server_handshake-client_bytes (some verify) (some u) bound addr rest command g v k =
    let request : Text = 5 ∷ command ∷ 0 ∷ (addr ++ rest) in
    ap (λ x. server_handshake (some verify) (some bound) (conn (5 ∷ 1 ∷ 2 ∷ x) [] 3))
      (append_assoc (auth_message u) (5 ∷ command ∷ 0 ∷ addr) rest)
    ∙ ground (
      arith,
      read_full-append 2 (5 ∷ 1 ∷ []) (2 ∷ auth_message u ++ request) [] 3 refl,
      read_full-append 1 (2 ∷ []) (auth_message u ++ request) [] 3 refl,
      write_lem (5 ∷ 2 ∷ []) (auth_message u ++ request) [] 2,
      authenticate_lem verify u request (5 ∷ 2 ∷ []) 1 g,
      request_lem bound addr rest (5 ∷ 2 ∷ 1 ∷ 0 ∷ []) command 0 v k,
    )
server_handshake-client_bytes none (some u) bound addr rest command g v k = absurd g
server_handshake-client_bytes (some verify) none bound addr rest command g v k = absurd g

-- A client reads what the server writes in that exchange: it returns the address that the server
-- answers with, has written what the server reads, and leaves what follows the handshake unread;
-- three writes that succeed are enough.
pub client_handshake-server_bytes :
    (user : Option User) (bound addr rest : Text) (command : ℕ)
    → IsAddr bound
    → client_handshake addr command user (conn (server_bytes user bound ++ rest) [] 3)
      ≡ (conn rest (client_bytes user command addr) (if is_some user then 0 else 1), ok bound)
unfolding client_handshake server_bytes client_bytes follow_method
client_handshake-server_bytes none bound addr rest command v = ground (
  arith,
  write_lem (5 ∷ 1 ∷ 0 ∷ []) (5 ∷ 0 ∷ 5 ∷ 0 ∷ 0 ∷ bound ++ rest) [] 2,
  read_full-append 2 (5 ∷ 0 ∷ []) (5 ∷ 0 ∷ 0 ∷ bound ++ rest) (5 ∷ 1 ∷ 0 ∷ []) 2 refl,
  write_lem (5 ∷ command ∷ 0 ∷ addr) (5 ∷ 0 ∷ 0 ∷ bound ++ rest) (5 ∷ 1 ∷ 0 ∷ []) 1,
  read_full-append 3 (5 ∷ 0 ∷ 0 ∷ []) (bound ++ rest) (5 ∷ 1 ∷ 0 ∷ 5 ∷ command ∷ 0 ∷ addr) 1 refl,
  read_addr-append bound rest (5 ∷ 1 ∷ 0 ∷ 5 ∷ command ∷ 0 ∷ addr) 1 v,
)
client_handshake-server_bytes (some u) bound addr rest command v =
    (let sent : Text = 5 ∷ 1 ∷ 2 ∷ auth_message u in
      ground (
        arith,
        write_lem (5 ∷ 1 ∷ 2 ∷ []) (5 ∷ 2 ∷ 1 ∷ 0 ∷ 5 ∷ 0 ∷ 0 ∷ bound ++ rest) [] 2,
        read_full-append 2 (5 ∷ 2 ∷ []) (1 ∷ 0 ∷ 5 ∷ 0 ∷ 0 ∷ bound ++ rest) (5 ∷ 1 ∷ 2 ∷ []) 2 refl,
        write_lem (auth_message u) (1 ∷ 0 ∷ 5 ∷ 0 ∷ 0 ∷ bound ++ rest) (5 ∷ 1 ∷ 2 ∷ []) 1,
        read_full-append 2 (1 ∷ 0 ∷ []) (5 ∷ 0 ∷ 0 ∷ bound ++ rest) sent 1 refl,
        write_lem (5 ∷ command ∷ 0 ∷ addr) (5 ∷ 0 ∷ 0 ∷ bound ++ rest) sent 0,
        read_full-append 3 (5 ∷ 0 ∷ 0 ∷ []) (bound ++ rest) (sent ++ 5 ∷ command ∷ 0 ∷ addr) 0 refl,
        read_addr-append bound rest (sent ++ 5 ∷ command ∷ 0 ∷ addr) 0 v,
      ))
