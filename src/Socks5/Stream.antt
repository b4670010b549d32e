-- ===== src/Socks5/Stream.antt =====
-- A connection as the code of SOCKS and of the transports uses it: bytes to read, and bytes written.
use rule_base_proxy.Common.{
  Text, [], ap, arith, drop, drop-append, if◌then◌else◌, length, length-append, ltb, subst, suc,
  take, take-append, zero, ℕ, ◌++◌, ◌≡◌,
}

pub data Error : Type 0 where
  read_error write_error auth_error address_not_supported command_not_supported : Error
  version_error rejected_error need_auth_error short_buffer : Error
  identd_failed identd_mismatched unknown_code ipv6_not_supported bad_address : Error

-- A peer that has sent `input` and closed; the write number `writes` from now fails.
pub record Conn : Type 0 where
  pub input : Text
  pub output : Text
  pub writes : ℕ

pub data Result {ℓ} (A : Type ℓ) : Type ℓ where
  ok : A → Result A
  error : Error → Result A

-- A call that may read, write and fail.
abbrev pub Io {ℓ} : Type ℓ → Type ℓ
Io A = Conn → Conn × Result A

module _ {ℓ κ} {A : Type ℓ} {B : Type κ} where
  -- `if err != nil { return }` after a call.
  abbrev pub and_then : Io A → (A → Io B) → Io B
  and_then m k c = elim (m c).1 [ ok a ↦ k a (m c).0 | error e ↦ ((m c).0, error e) ]

abbrev pub done {ℓ} : {A : Type ℓ} → A → Io A
done a c = (c, ok a)

abbrev pub fail {ℓ} : {A : Type ℓ} → Error → Io A
fail e c = (c, error e)

-- `io.ReadFull` into `n` bytes: a short input is read to its end.
unfoldable pub read_full : ℕ → Io Text
read_full n c =
    if ltb (length c.input) n
    then (record c { input = [] }, error read_error)
    else (record c { input = drop n c.input }, ok (take n c.input))

-- `rw.Write`
unfoldable pub write : Text → Io (Unit {0})
write bs c = elim c.writes [
  | zero ↦ (c, error write_error)
  | suc n ↦ (record c { output = c.output ++ bs; writes = n }, ok tt)
]

-- A write whose error is not looked at.
unfoldable pub write_anyway : Text → Io (Unit {0})
unfolding write
write_anyway bs c = ((write bs c).0, ok tt)

pub read_full-append :
    (n : ℕ) (xs ys out : Text) (k : ℕ)
    → length xs ≡ n
    → read_full n (record { input = xs ++ ys; output = out; writes = k })
      ≡ (record { input = ys; output = out; writes = k }, ok xs)
unfolding read_full
read_full-append n xs ys out k h =
    subst
      (λ i.
        read_full i (record { input = xs ++ ys; output = out; writes = k })
        ≡ (record { input = ys; output = out; writes = k }, ok xs))
      h (ground (arith, length-append xs ys, take-append xs ys, drop-append xs ys))

-- A call that succeeds goes on with its result, and one that fails is the end.
pub and_then-ok {ℓ κ} :
    {A : Type ℓ} {B : Type κ} (m : Io A) (k : A → Io B) {c c' : Conn} {a : A}
    → m c ≡ (c', ok a)
    → and_then m k c ≡ k a c'
and_then-ok {A = A} m k h =
    ap (λ (x : Conn × Result A). elim x.1 [ ok a ↦ k a x.0 | error e ↦ (x.0, error e) ]) h
