-- ===== src/FakeIp/Address.antt =====
-- `ipToUint` and `uintToIP` of component/fakeip/pool.go, on 32-bit words.
use rule_base_proxy.Common.{
  All, [], arith, length, suc, zero, ℕ, ◌%◌, ◌*◌, ◌+◌, ◌/◌, ◌<◌, ◌^◌, ◌∷◌, ◌≡◌,
}
use rule_base_proxy.Net.{Ip}

abbrev pub u32 : ℕ
u32 = 2 ^ 32

-- `ip[i]`; an index out of range, which the source never makes, reads 0.
abbrev pub byte_at : Ip → ℕ → ℕ
byte_at [] i = 0
byte_at (b ∷ bs) zero = b
byte_at (b ∷ bs) (suc i) = byte_at bs i

unfoldable pub ip_to_uint : Ip → ℕ
ip_to_uint ip =
    (((byte_at ip 0 * 2 ^ 24 % u32 + byte_at ip 1 * 2 ^ 16) % u32 + byte_at ip 2 * 2 ^ 8) % u32
      + byte_at ip 3)
    % u32

unfoldable pub uint_to_ip : ℕ → Ip
uint_to_ip v = (v / 2 ^ 24) % 256 ∷ (v / 2 ^ 16) % 256 ∷ (v / 2 ^ 8) % 256 ∷ v % 256 ∷ []

-- A word written as an address reads back as the word.
pub ip_to_uint-uint_to_ip : (v : ℕ) → v < u32 → ip_to_uint (uint_to_ip v) ≡ v
unfolding ip_to_uint uint_to_ip
ip_to_uint-uint_to_ip v h = omega arith

abbrev pub IsIp4 : Ip → Type 0
IsIp4 ip = (length ip ≡ 4) × All (λ b. b < 256) ip

-- An IPv4 address read as a word is written back as the address.
uint_to_ip-ip_to_uint : (ip : Ip) → IsIp4 ip → uint_to_ip (ip_to_uint ip) ≡ ip
unfolding ip_to_uint uint_to_ip
uint_to_ip-ip_to_uint (a ∷ b ∷ c ∷ d ∷ []) h =
    let word : ip_to_uint (a ∷ b ∷ c ∷ d ∷ []) ≡ a * 16777216 + b * 65536 + c * 256 + d =
      omega arith in
    let e₁ : (a * 16777216 + b * 65536 + c * 256 + d) / 16777216 % 256 ≡ a = omega arith in
    let e₂ : (a * 16777216 + b * 65536 + c * 256 + d) / 65536 % 256 ≡ b = omega arith in
    let e₃ : (a * 16777216 + b * 65536 + c * 256 + d) / 256 % 256 ≡ c = omega arith in
    let e₄ : (a * 16777216 + b * 65536 + c * 256 + d) % 256 ≡ d = omega arith in
    rw word (rw (e₁, e₂, e₃, e₄))
uint_to_ip-ip_to_uint [] h = absurd (omega arith)
uint_to_ip-ip_to_uint (a ∷ []) h = absurd (omega arith)
uint_to_ip-ip_to_uint (a ∷ b ∷ []) h = absurd (omega arith)
uint_to_ip-ip_to_uint (a ∷ b ∷ c ∷ []) h = absurd (omega arith)
uint_to_ip-ip_to_uint (a ∷ b ∷ c ∷ d ∷ e ∷ r) h = absurd (omega arith)

pub uint_to_ip-IsIp4 : (v : ℕ) → IsIp4 (uint_to_ip v)
unfolding uint_to_ip
uint_to_ip-IsIp4 v = omega arith
