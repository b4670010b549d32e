-- ===== src/Net/Networks.antt =====
-- `net.IPNet` with the mask of a prefix length, and `net.IP.IsPrivate`.
use rule_base_proxy.Common.{
  Bool, Text, [], false, get_or_else, if◌then◌else◌, length, min, none, some, true, ℕ, ◌&&◌, ◌++◌,
  ◌-◌, ◌/◌, ◌==◌, ◌^◌, ◌||◌, ◌∷◌,
}
use rule_base_proxy.Net.{Ip, to4}
use rule_base_proxy.Net.Numbers.{itoa}
use rule_base_proxy.Net.Printing.{ip_string}

-- The address, and the mask as its leading ones among its bits.
pub record IpNet : Type 0 where
  pub base : Ip
  pub ones : ℕ
  pub bits : ℕ

-- `n.IP[i] & m[i] == ip[i] & m[i]` at every byte, for a mask of leading ones.
unfoldable pub same_prefix : ℕ → Ip → Ip → Bool
same_prefix ones (x ∷ xs) (y ∷ ys) =
    x / 2 ^ (8 - min 8 ones) == y / 2 ^ (8 - min 8 ones) && same_prefix (ones - 8) xs ys
same_prefix ones [] [] = true
same_prefix ones _ _ = false

-- The network's number and mask: a mapped IPv4 address leaves 96 bits away.
unfoldable pub network_number : IpNet → IpNet
network_number n = elim (to4 n.base) [
  | some q ↦ record { base = q; ones = if n.bits == 128 then n.ones - 96 else n.ones; bits = 32 }
  | none ↦ n
]

-- `n.Contains(ip)`
unfoldable pub contains_ip : IpNet → Ip → Bool
contains_ip n ip = let m = network_number n in same_prefix m.ones m.base (get_or_else (to4 ip) ip)

unfoldable pub ip_net_string : IpNet → Text
ip_net_string n = ip_string n.base ++ b'/' ∷ itoa n.ones

unfoldable pub is_private4 : Ip → Bool
is_private4 (a ∷ b ∷ _) = a == 10 || (a == 172 && b / 16 == 1) || (a == 192 && b == 168)
is_private4 _ = false

unfoldable pub is_private6 : Ip → Bool
is_private6 (a ∷ bs) = length bs == 15 && a / 2 == 126
is_private6 [] = false

-- `ip.IsPrivate()`
unfoldable pub is_private : Ip → Bool
is_private ip = elim (to4 ip) [ some q ↦ is_private4 q | none ↦ is_private6 ip ]
