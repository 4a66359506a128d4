-- ===== src/Net/Cidr.antt =====
-- `net.ParseCIDR`, `IPNet.Contains` and `IP.To4`.
use ovn_route_agent.Base.{
  ℕ, ◌-◌, ◌*◌, ◌/◌, ◌^◌, String, Bool, true, false, ◌&&◌, ◌||◌, Option, none, some, List, [], ◌∷◌,
  ◌==◌, leb, eqb, split_by, if◌then◌else◌,
}
use ovn_route_agent.Net.Parse.{Ip, v4, v6, IpNet, read_digits, parse_addr, of_bits}

-- `net.ParseCIDR`: the address and its network.
masked : ℕ → ℕ → ℕ → ℕ
masked n bits ones = n / 2 ^ (bits - ones) * 2 ^ (bits - ones)

parse_prefix : ℕ → ℕ → String → Option (Ip × IpNet)
unfolding masked of_bits
parse_prefix n bits s = if s == "" then none else elim (read_digits 10 0 s) [
  | none ↦ none
  | some ones ↦
      if leb ones bits
      then some (
        of_bits n bits,
        record { ip = of_bits (masked n bits ones) bits; ones = ones; bits = bits },
      )
      else none
]

cidr_parts : List String → Option (Ip × IpNet)
unfolding parse_prefix parse_addr
cidr_parts (addr ∷ size ∷ []) = elim (parse_addr addr) [
  | none ↦ none
  | some (n, bits) ↦ parse_prefix n bits size
]
cidr_parts _ = none

unfoldable pub parse_cidr : String → Option (Ip × IpNet)
unfolding cidr_parts split_by
parse_cidr s = cidr_parts (split_by (λ c. eqb c b'/') s)

abbrev pub is_v4 : Ip → Bool
is_v4 (v4 n) = true
is_v4 (v6 n) = false

-- The length of the prefix, counted in the address that `To4` gives.
abbrev pub prefix_length : IpNet → ℕ
prefix_length n = if is_v4 n.ip && eqb n.bits 128 then n.ones - 96 else n.ones

same_prefix : ℕ → Ip → Ip → Bool
same_prefix len (v4 a) (v4 b) = eqb (a / 2 ^ (32 - len)) (b / 2 ^ (32 - len))
same_prefix len (v6 a) (v6 b) = eqb (a / 2 ^ (128 - len)) (b / 2 ^ (128 - len))
same_prefix len _ _ = false

-- `(*IPNet).Contains`
unfoldable pub contains : IpNet → Ip → Bool
unfolding same_prefix
contains n a = same_prefix (prefix_length n) n.ip a

-- `containedInAny` of config.go
unfoldable pub contained_in_any : Ip → List IpNet → Bool
contained_in_any a [] = false
contained_in_any a (n ∷ ns) = contains n a || contained_in_any a ns
