-- ===== src/Socks5/Handshake.antt =====
-- `ServerHandshake` and `ClientHandshake`.
use rule_base_proxy.Common.{
  Bool, Option, Text, [], if◌then◌else◌, is_some, length, none, some, ℕ, ◌%◌, ◌++◌, ◌==◌, ◌||◌, ◌∷◌,
}
use rule_base_proxy.Socks5.Stream.{
  Io, and_then, done, fail, read_full, write, write_anyway, auth_error, address_not_supported,
  command_not_supported, version_error, rejected_error, need_auth_error,
}
use rule_base_proxy.Socks5.Addr.{Addr, byte_at, read_addr}

abbrev pub cmd_connect : ℕ
cmd_connect = 1

abbrev pub cmd_udp_associate : ℕ
cmd_udp_associate = 3

-- The authentication of a client, by a function that verifies names with passwords.
unfoldable pub authenticate : (Text → Text → Bool) → Io (Unit {0})
authenticate verify =
    let refuse : Io (Unit {0}) = and_then (write_anyway (1 ∷ 1 ∷ [])) (λ _. fail auth_error) in
    and_then (read_full 2) (λ header.
      if byte_at header 1 == 0
      then refuse
      else and_then (read_full (byte_at header 1)) (λ user. and_then (read_full 1) (λ size.
        if byte_at size 0 == 0
        then refuse
        else and_then (read_full (byte_at size 0))
            (λ pass. if verify user pass then write (1 ∷ 0 ∷ []) else refuse))))

-- VER METHOD, and the authentication when there is an authenticator.
unfoldable pub choose_method : Option (Text → Text → Bool) → Io (Unit {0})
choose_method none = write (5 ∷ 0 ∷ [])
choose_method (some verify) = and_then (write (5 ∷ 2 ∷ [])) (λ _. authenticate verify)

-- The reply to a command, with the address that the server listens at, or nil.
unfoldable pub reply : Option Addr → Addr → ℕ → Io (Addr × ℕ)
reply local addr command =
    if command == cmd_connect || command == cmd_udp_associate
    then elim local [
      | none ↦ fail address_not_supported
      | some bound ↦ and_then (write (5 ∷ 0 ∷ 0 ∷ bound)) (λ _. done (addr, command))
    ]
    else fail command_not_supported

-- `ServerHandshake`: the target's address and the command.
unfoldable pub server_handshake : Option (Text → Text → Bool) → Option Addr → Io (Addr × ℕ)
server_handshake authenticator local = and_then (read_full 2) (λ greeting.
    and_then (read_full (byte_at greeting 1)) (λ methods.
      and_then (choose_method authenticator) (λ _.
        and_then (read_full 3)
          (λ request. and_then read_addr (λ addr. reply local addr (byte_at request 1))))))

pub record User : Type 0 where
  pub username : Text
  pub password : Text

-- The message with the name and the password; a length is cut to a byte.
unfoldable pub auth_message : User → Text
auth_message u = 1 ∷ length u.username % 256 ∷ u.username ++ length u.password % 256 ∷ u.password

-- The client's answer to the method that the server chose.
unfoldable pub follow_method : Option User → ℕ → Io (Unit {0})
follow_method user method =
    if method == 2
    then elim user [
      | none ↦ fail auth_error
      | some u ↦ and_then (write (auth_message u)) (λ _.
          and_then (read_full 2)
            (λ answer. if byte_at answer 1 == 0 then done tt else fail rejected_error))
    ]
    else if method == 0
    then done tt
    else fail need_auth_error

-- `ClientHandshake`: the address that the server answers with.
unfoldable pub client_handshake : Addr → ℕ → Option User → Io Addr
client_handshake addr command user =
    and_then (write (5 ∷ 1 ∷ (if is_some user then 2 else 0) ∷ [])) (λ _.
      and_then (read_full 2) (λ choice.
        if byte_at choice 0 == 5
        then and_then (follow_method user (byte_at choice 1)) (λ _.
          and_then (write (5 ∷ command ∷ 0 ∷ addr))
            (λ _. and_then (read_full 3) (λ answer. read_addr)))
        else fail version_error))
