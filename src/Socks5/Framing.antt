-- ===== src/Socks5/Framing.antt =====
-- Addresses and UDP packets of transport/socks5/socks5.go: what is cut off a buffer or read from
-- a connection is what was written.
use rule_base_proxy.Common.{
  ==_iff, Bool-cases, List-cases, Option, Option-cases, Text, [], ap, ap₂, arith, drop, drop-append,
  if◌then◌else◌, inl, inr, length, length-append, length-take, ltb, none, refl, some, subst, suc,
  sym, take, take-append, take-append-drop, text_eq, ℕ, ◌++◌, ◌+◌, ◌==◌, ◌∙◌, ◌∷◌, ◌≡◌, ◌≤◌,
}
use rule_base_proxy.Socks5.Stream.{ok, and_then, done, read_full, read_full-append, and_then-ok}
use rule_base_proxy.Socks5.Addr.{
  Addr, byte_at, addr_length, split_addr, read_host, read_addr, Packet, got, decode_udp_packet,
  encode_udp_packet,
}

-- The addresses of RFC 1928: a name with its length, or the bytes of an IP, and two bytes of port.
pub data IsAddr : Addr → Type 0 where
  domain_addr : (d : ℕ) (host : Text) → length host ≡ d + 2 → IsAddr (3 ∷ d ∷ host)
  ipv4_addr : (host : Text) → length host ≡ 6 → IsAddr (1 ∷ host)
  ipv6_addr : (host : Text) → length host ≡ 18 → IsAddr (4 ∷ host)

abbrev cut : ℕ → Text → Option Text
cut n b = if ltb (length b) n then none else some (take n b)

cut-append : (n : ℕ) (a rest : Text) → length a ≡ n → cut n (a ++ rest) ≡ some a
cut-append n a rest h =
    subst (λ i. cut i (a ++ rest) ≡ some a) h
      (ground (arith, length-append a rest, take-append a rest))

cut-eq-some : (n : ℕ) (b : Text) {a : Text} → cut n b ≡ some a → (n ≤ length b) × (take n b ≡ a)
cut-eq-some n b h = ground arith

-- `SplitAddr` cuts an address off a buffer, whatever follows it.
pub split_addr-append : (a rest : Text) → IsAddr a → split_addr (a ++ rest) ≡ some a
unfolding split_addr addr_length
split_addr-append _ rest (domain_addr d host h) =
    cut-append (1 + 1 + d + 2) (3 ∷ d ∷ host) rest (omega (arith, h))
split_addr-append _ rest (ipv4_addr host h) = cut-append 7 (1 ∷ host) rest (omega (arith, h))
split_addr-append _ rest (ipv6_addr host h) = cut-append 19 (4 ∷ host) rest (omega (arith, h))

-- `ReadAddr` reads the same address from a connection and leaves what follows it.
pub read_addr-append :
    (a rest out : Text) (k : ℕ)
    → IsAddr a
    → read_addr (record { input = a ++ rest; output = out; writes = k })
      ≡ (record { input = rest; output = out; writes = k }, ok a)
unfolding read_addr read_host
read_addr-append _ rest out k (domain_addr d host h) =
    and_then-ok (read_full 1) (λ t. read_host (byte_at t 0))
      (read_full-append 1 (3 ∷ []) (d ∷ host ++ rest) out k refl)
    ∙ and_then-ok (read_full 1)
        (λ x. and_then (read_full (byte_at x 0 + 2)) (λ y. done (3 ∷ x ++ y)))
        (read_full-append 1 (d ∷ []) (host ++ rest) out k refl)
    ∙ and_then-ok (read_full (d + 2)) (λ y. done (3 ∷ d ∷ y))
        (read_full-append (d + 2) host rest out k h)
read_addr-append _ rest out k (ipv4_addr host h) =
    and_then-ok (read_full 1) (λ t. read_host (byte_at t 0))
      (read_full-append 1 (1 ∷ []) (host ++ rest) out k refl)
    ∙ and_then-ok (read_full 6) (λ y. done (1 ∷ y)) (read_full-append 6 host rest out k h)
read_addr-append _ rest out k (ipv6_addr host h) =
    and_then-ok (read_full 1) (λ t. read_host (byte_at t 0))
      (read_full-append 1 (4 ∷ []) (host ++ rest) out k refl)
    ∙ and_then-ok (read_full 18) (λ y. done (4 ∷ y)) (read_full-append 18 host rest out k h)

IsStart : Text → Text → Type 0
IsStart b a = IsAddr a × ((rest : Text) × (b ≡ a ++ rest))

domain-IsStart :
    (d : ℕ) (ds : Text) {a : Text}
    → cut (1 + 1 + d + 2) (3 ∷ d ∷ ds) ≡ some a
    → IsStart (3 ∷ d ∷ ds) a
unfolding IsStart
domain-IsStart d ds {a} h =
    let (long, same) = cut-eq-some (1 + 1 + d + 2) (3 ∷ d ∷ ds) h in
    let host = take (d + 2) ds in
    let start : 3 ∷ d ∷ host ≡ a = ground (arith) in
    subst (λ x. IsAddr x × ((rest : Text) × (3 ∷ d ∷ ds ≡ x ++ rest))) start
      (
        domain_addr d host (omega (arith, length-take (d + 2) ds, long)),
        (drop (d + 2) ds, ap (λ x. 3 ∷ d ∷ x) (sym (take-append-drop (d + 2) ds))),
      )

ip-IsStart :
    (t n : ℕ) (ds : Text) {a : Text}
    → ((host : Text) → length host ≡ n → IsAddr (t ∷ host))
    → cut (suc n) (t ∷ ds) ≡ some a
    → IsStart (t ∷ ds) a
unfolding IsStart
ip-IsStart t n ds {a} make h =
    let (long, same) = cut-eq-some (suc n) (t ∷ ds) h in
    subst (λ x. IsAddr x × ((rest : Text) × (t ∷ ds ≡ x ++ rest))) same
      (
        make (take n ds) (omega (arith, length-take n ds, long)),
        (drop n ds, ap (◌∷◌ t) (sym (take-append-drop n ds))),
      )

-- What `SplitAddr` returns is an address and stands at the start of the buffer.
pub split_addr-IsAddr :
    (b : Text) {a : Text} → split_addr b ≡ some a → IsAddr a × ((rest : Text) × (b ≡ a ++ rest))
unfolding split_addr addr_length IsStart
split_addr-IsAddr [] h = cc
split_addr-IsAddr (t ∷ b) {a} h = elim (Bool-cases (t == 3)) [
  | inl domain ↦ elim (List-cases b) [
    | inl empty ↦ absurd (ground arith)
    | inr (d, ds, more) ↦
        let same : t ∷ b ≡ 3 ∷ d ∷ ds = ground (arith, ==_iff t 3) in
        subst (λ x. IsStart x a) (sym same)
          (domain-IsStart d ds (subst (λ x. split_addr x ≡ some a) same h))
  ]
  | inr f ↦ elim (Bool-cases (t == 1)) [
    | inl ipv4 ↦
        let same : t ≡ 1 = (==_iff t 1).0 ipv4 in
        subst (λ x. IsStart (x ∷ b) a) (sym same)
          (ip-IsStart 1 6 b ipv4_addr (subst (λ x. split_addr (x ∷ b) ≡ some a) same h))
    | inr f' ↦ elim (Bool-cases (t == 4)) [
      | inl ipv6 ↦
          let same : t ≡ 4 = (==_iff t 4).0 ipv6 in
          subst (λ x. IsStart (x ∷ b) a) (sym same)
            (ip-IsStart 4 18 b ipv6_addr (subst (λ x. split_addr (x ∷ b) ≡ some a) same h))
      | inr f'' ↦ absurd (ground arith)
    ]
  ]
]

IsAddr-length : (a : Text) → IsAddr a → 4 ≤ length a
IsAddr-length _ (domain_addr d host h) = omega (arith, h)
IsAddr-length _ (ipv4_addr host h) = omega (arith, h)
IsAddr-length _ (ipv6_addr host h) = omega (arith, h)

packet_inj : {p q : Text} → got p ≡ got q → p ≡ q
packet_inj h = cc

-- A packet that was encoded is decoded to the same address and payload.
pub decode_udp_packet-encode_udp_packet :
    (a payload : Text) {packet : Text}
    → IsAddr a
    → encode_udp_packet (some a) payload ≡ got packet
    → decode_udp_packet packet ≡ got (a, payload)
unfolding encode_udp_packet decode_udp_packet text_eq
decode_udp_packet-encode_udp_packet a payload {packet} v h =
    subst (λ (x : Packet Text). (p : Text) → x ≡ got p → decode_udp_packet p ≡ got (a, payload))
      refl
      (λ p e.
        subst (λ q. decode_udp_packet q ≡ got (a, payload)) (packet_inj e)
          (ground (
            arith,
            IsAddr-length a v,
            split_addr-append a payload v,
            drop-append a payload,
            length-append a payload,
          )))
      packet h

-- A packet that can be decoded is what its address and payload are encoded to.
pub encode_udp_packet-decode_udp_packet :
    (packet : Text) {a payload : Text}
    → decode_udp_packet packet ≡ got (a, payload)
    → encode_udp_packet (some a) payload ≡ got packet
unfolding encode_udp_packet decode_udp_packet text_eq
encode_udp_packet-decode_udp_packet [] h = cc
encode_udp_packet-decode_udp_packet (x ∷ []) h = cc
encode_udp_packet-decode_udp_packet (x ∷ y ∷ []) h = cc
encode_udp_packet-decode_udp_packet (x ∷ y ∷ z ∷ packet) {a} {payload} h =
    elim (Option-cases (split_addr packet)) [
      | inl none_such ↦ absurd (ground arith)
      | inr (q, found) ↦
          let (valid, (rest, whole)) = split_addr-IsAddr packet found in
          let after = drop-append q rest in
          let zero₁ : x ≡ 0 = ground arith in
          let zero₂ : y ≡ 0 = ground arith in
          let zero₃ : z ≡ 0 = ground arith in
          let same : q ≡ a = ground arith in
          let cut_off : drop (length q) packet ≡ payload = ground arith in
          let left : rest ≡ payload = sym after ∙ ap (drop (length q)) (sym whole) ∙ cut_off in
          let parts : packet ≡ a ++ payload = whole ∙ ap₂ ◌++◌ same left in cc
    ]
