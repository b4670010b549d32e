-- ===== src/Net/Printing.antt =====
-- `net.IP.String`.
use rule_base_proxy.Common.{
  List, Text, [], codes, drop, if◌then◌else◌, length, ltb, none, some, suc, take, ℕ, ◌%◌, ◌*◌, ◌++◌,
  ◌+◌, ◌/◌, ◌==◌, ◌∷◌,
}
use rule_base_proxy.Net.{Ip, to4}
use rule_base_proxy.Net.Numbers.{digit, digits, itoa}

-- Four numbers with dots.
unfoldable pub dotted : Ip → Text
dotted [] = []
dotted (b ∷ []) = itoa b
dotted (b ∷ c ∷ bs) = itoa b ++ b'.' ∷ dotted (c ∷ bs)

-- The eight groups of 16 bits.
unfoldable pub groups : Ip → List ℕ
groups (h ∷ l ∷ bs) = (h * 256 + l) ∷ groups bs
groups _ = []

-- The number of zeros at the start.
unfoldable pub zeros : List ℕ → ℕ
zeros [] = 0
zeros (g ∷ gs) = if g == 0 then suc (zeros gs) else 0

-- The first longest run of zeros: where it starts and its length, from position `i`, when the
-- best so far is `best`.
unfoldable pub longest_run : List ℕ → ℕ → ℕ × ℕ → ℕ × ℕ
longest_run [] i best = best
longest_run (g ∷ gs) i best =
    let n = zeros (g ∷ gs) in longest_run gs (suc i) (if ltb best.1 n then (i, n) else best)

unfoldable pub colons : List ℕ → Text
colons [] = []
colons (g ∷ []) = digits 4 16 g []
colons (g ∷ h ∷ gs) = digits 4 16 g [] ++ b':' ∷ colons (h ∷ gs)

-- A run of two groups or more is written `::`.
unfoldable pub ip6_string : List ℕ → Text
ip6_string gs =
    let (start, n) = longest_run gs 0 (0, 0) in
    if ltb n 2
    then colons gs
    else colons (take start gs) ++ b':' ∷ b':' ∷ colons (drop (start + n) gs)

unfoldable pub hex : Ip → Text
hex [] = []
hex (b ∷ bs) = digit (b / 16) ∷ digit (b % 16) ∷ hex bs

unfoldable pub ip_string : Ip → Text
ip_string ip = if length ip == 0 then codes "<nil>" else elim (to4 ip) [
  | some q ↦ dotted q
  | none ↦ if length ip == 16 then ip6_string (groups ip) else b'?' ∷ hex ip
]
