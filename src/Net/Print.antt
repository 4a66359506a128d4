-- ===== src/Net/Print.antt =====
-- `IP.String`, `IPNet.String`, and the address arithmetic of config.go and ovn_gateway.go.
use Prim.Native.String.{◌++◌ as ◌+++◌}
use ovn_route_agent.Base.{
  ℕ, zero, suc, ◌+◌, ◌*◌, ◌/◌, ◌%◌, ◌^◌, String, not, ◌&&◌, Option, none, some, List, [], ◌∷◌, ltb,
  leb, eqb, drop, if◌then◌else◌,
}
use ovn_route_agent.Net.Parse.{Ip, v4, v6, IpNet}
use ovn_route_agent.Net.Cidr.{prefix_length}

nth : List String → ℕ → String
nth [] i = ""
nth (x ∷ xs) zero = x
nth (x ∷ xs) (suc i) = nth xs i

unfoldable pub digit : ℕ → String
unfolding nth
digit d =
    nth
      ("0" ∷ "1" ∷ "2" ∷ "3" ∷ "4" ∷ "5" ∷ "6" ∷ "7" ∷ "8" ∷ "9" ∷ "a" ∷ "b" ∷ "c" ∷ "d" ∷ "e" ∷ "f"
        ∷ [])
      d

-- A number in a base; a number has at most as many digits as its value plus one.
digits_of : ℕ → ℕ → ℕ → String
digits_of base zero n = ""
digits_of base (suc fuel) n =
    let more = digits_of base fuel (n / base) +++ digit (n % base) in
    if ltb n base then digit n else more

-- `%d`
unfoldable pub itoa : ℕ → String
unfolding digits_of digit
itoa n = digits_of 10 (n + 1) n

hex : ℕ → String
unfolding digits_of digit
hex n = digits_of 16 4 n

unfoldable pub print_v4 : ℕ → String
unfolding itoa
print_v4 n =
    itoa (n / 2 ^ 24)
    +++ "."
    +++ itoa (n / 2 ^ 16 % 256)
    +++ "."
    +++ itoa (n / 2 ^ 8 % 256)
    +++ "."
    +++ itoa (n % 256)

groups : ℕ → ℕ → List ℕ → List ℕ
groups zero n acc = acc
groups (suc k) n acc = groups k (n / 2 ^ 16) (n % 2 ^ 16 ∷ acc)

zero_run : List ℕ → ℕ
zero_run [] = 0
zero_run (zero ∷ gs) = suc (zero_run gs)
zero_run (suc g ∷ gs) = 0

-- The start and the length of the first longest run of two or more zero groups.
longest_run : ℕ → List ℕ → ℕ → ℕ → ℕ × ℕ
unfolding zero_run
longest_run i [] start best = (start, best)
longest_run i (g ∷ gs) start best =
    let here = zero_run (g ∷ gs) in
    let better = leb 2 here && ltb best here in
    longest_run (i + 1) gs (if better then i else start) (if better then here else best)

join_hex : List ℕ → String
unfolding hex
join_hex [] = ""
join_hex (g ∷ []) = hex g
join_hex (g ∷ h ∷ gs) = hex g +++ ":" +++ join_hex (h ∷ gs)

take_groups : ℕ → List ℕ → List ℕ
take_groups zero gs = []
take_groups (suc n) [] = []
take_groups (suc n) (g ∷ gs) = g ∷ take_groups n gs

with_run : List ℕ → ℕ × ℕ → String
unfolding join_hex take_groups
with_run gs (start, run) =
    if eqb run 0
    then join_hex gs
    else join_hex (take_groups start gs) +++ "::" +++ join_hex (drop (start + run) gs)

unfoldable pub print_v6 : ℕ → String
unfolding groups longest_run with_run
print_v6 n = let gs = groups 8 n [] in with_run gs (longest_run 0 gs 0 0)

-- `IP.String`
unfoldable pub ip_text : Ip → String
unfolding print_v4 print_v6
ip_text (v4 n) = print_v4 n
ip_text (v6 n) = print_v6 n

-- `IPNet.String`
unfoldable pub net_text : IpNet → String
unfolding ip_text itoa
net_text n = ip_text n.ip +++ "/" +++ itoa (prefix_length n)

-- `nextIPInSubnet`: the loop carries from the last byte to the first.
unfoldable pub next_ip_in_subnet : Ip → Option Ip
next_ip_in_subnet (v6 n) = none
next_ip_in_subnet (v4 n) =
    let d = (n % 2 ^ 8 + 1) % 256 in
    let c = (n / 2 ^ 8 % 256 + 1) % 256 in
    let b = (n / 2 ^ 16 % 256 + 1) % 256 in
    let a = (n / 2 ^ 24 + 1) % 256 in
    let high = n / 2 ^ 24 * 2 ^ 24 in
    let high₂ = n / 2 ^ 16 * 2 ^ 16 in
    let high₃ = n / 2 ^ 8 * 2 ^ 8 in
    some (
      v4 (
        if not (eqb d 0)
        then high₃ + d
        else if not (eqb c 0)
        then high₂ + c * 2 ^ 8
        else if not (eqb b 0)
        then high + b * 2 ^ 16
        else a * 2 ^ 24))
