-- ===== src/Net/Parse.antt =====
-- Addresses and networks, and `net.ParseIP`.
use Prim.Native.Char.{code}
use ovn_route_agent.Base.{
  ℕ, zero, suc, ◌+◌, ◌-◌, ◌*◌, ◌/◌, ◌^◌, String, Bool, false, not, ◌&&◌, ◌||◌, Option, none, some,
  List, [], ◌∷◌, ◌++◌, ◌==◌, ltb, leb, eqb, length, split_by, if◌then◌else◌,
}

-- A `net.IP` that is not nil: four bytes, also where they stand in an IPv4-mapped IPv6 address, or
-- sixteen bytes, as a number.
pub data Ip : Type 0 where
  v4 v6 : ℕ → Ip

-- A `net.IPNet`: the masked address, and the two results of `Mask.Size()`.
pub record IpNet : Type 0 where
  pub ip : Ip
  pub ones : ℕ
  pub bits : ℕ

-- Digits from the left, in a base; `none` at another character.
digit_value : ℕ → Option ℕ
digit_value c =
    if leb b'0' c && leb c b'9'
    then some (c - b'0')
    else if leb b'a' c && leb c b'f'
    then some (c - b'a' + 10)
    else if leb b'A' c && leb c b'F'
    then some (c - b'A' + 10)
    else none

pub read_digits : ℕ → ℕ → String → Option ℕ
read_digits base acc String.[] = some acc
read_digits base acc (String.◌∷◌ c s) = elim (digit_value (code c)) [
  | none ↦ none
  | some d ↦ if ltb d base then read_digits base (acc * base + d) s else none
]

count_chars : String → ℕ
count_chars String.[] = 0
count_chars (String.◌∷◌ c s) = suc (count_chars s)

starts_with_zero : String → Bool
starts_with_zero String.[] = false
starts_with_zero (String.◌∷◌ c s) = eqb (code c) b'0'

-- A field of a dotted address: no empty field, no leading zero, at most 255.
unfoldable pub parse_octet : String → Option ℕ
unfolding digit_value read_digits count_chars starts_with_zero
parse_octet s =
    if s == "" || (starts_with_zero s && ltb 1 (count_chars s))
    then none
    else elim (read_digits 10 0 s) [ none ↦ none | some n ↦ if leb n 255 then some n else none ]

abbrev pub from_octets : ℕ → ℕ → ℕ → ℕ → ℕ
from_octets a b c d = a * 2 ^ 24 + b * 2 ^ 16 + c * 2 ^ 8 + d

four_octets : List String → Option ℕ
unfolding parse_octet
four_octets (a ∷ b ∷ c ∷ d ∷ []) = elim (parse_octet a) [
  | none ↦ none
  | some x ↦ elim (parse_octet b) [
    | none ↦ none
    | some y ↦ elim (parse_octet c) [
      | none ↦ none
      | some z ↦ elim (parse_octet d) [ none ↦ none | some w ↦ some (from_octets x y z w) ]
    ]
  ]
]
four_octets _ = none

unfoldable pub parse_v4 : String → Option ℕ
unfolding four_octets split_by
parse_v4 s = four_octets (split_by (λ c. eqb c b'.') s)

-- A field of an IPv6 address: one to four hexadecimal digits.
parse_group : String → Option ℕ
parse_group s = if s == "" || ltb 4 (count_chars s) then none else read_digits 16 0 s

has_char : ℕ → String → Bool
has_char k String.[] = false
has_char k (String.◌∷◌ c s) = eqb (code c) k || has_char k s

-- The last field may be a dotted address, which gives two groups.
last_groups : String → Option (List ℕ)
unfolding parse_v4 parse_group has_char
last_groups s =
    if has_char b'.' s
    then elim (parse_v4 s) [
      | none ↦ none
      | some n ↦ some (n / 2 ^ 16 ∷ (n - n / 2 ^ 16 * 2 ^ 16) ∷ [])
    ]
    else elim (parse_group s) [ none ↦ none | some g ↦ some (g ∷ []) ]

-- The groups before and behind `::`; without it the second list is missing.
abbrev Groups : Type 0
Groups = List ℕ × Option (List ℕ)

abbrev add_group : ℕ → Groups → Groups
add_group g (before, behind) = (g ∷ before, behind)

-- The fields behind a `::`, among which no second one may stand.
groups_behind : List String → Option (List ℕ)
unfolding last_groups
groups_behind [] = none
groups_behind (s ∷ []) = last_groups s
groups_behind (s ∷ t ∷ r) =
    let rest = groups_behind (t ∷ r) in
    elim (parse_group s) [
      | none ↦ none
      | some g ↦ elim rest [ none ↦ none | some gs ↦ some (g ∷ gs) ]
    ]

abbrev behind_ellipsis : List String → Option (List ℕ)
behind_ellipsis (s ∷ []) = if s == "" then some [] else groups_behind (s ∷ [])
behind_ellipsis r = groups_behind r

-- The fields between the colons; an empty one in the middle is a `::`.
groups_of : List String → Option Groups
unfolding groups_behind
groups_of [] = none
groups_of (s ∷ []) = elim (last_groups s) [ none ↦ none | some gs ↦ some (gs, none) ]
groups_of (s ∷ t ∷ r) =
    let rest = groups_of (t ∷ r) in
    if s == ""
    then elim (behind_ellipsis (t ∷ r)) [ none ↦ none | some gs ↦ some ([], some gs) ]
    else elim (parse_group s) [
      | none ↦ none
      | some g ↦ elim rest [ none ↦ none | some gs ↦ some (add_group g gs) ]
    ]

-- A leading empty field is allowed only as the first half of a leading `::`.
split_groups : List String → Option Groups
unfolding groups_of
split_groups (s ∷ t ∷ r) =
    if s == "" && not (t == "")
    then none
    else if s == ""
    then groups_of (t ∷ r)
    else groups_of (s ∷ t ∷ r)
split_groups r = none

zeros : ℕ → List ℕ
zeros zero = []
zeros (suc n) = 0 ∷ zeros n

number_of : ℕ → List ℕ → ℕ
number_of acc [] = acc
number_of acc (g ∷ gs) = number_of (acc * 2 ^ 16 + g) gs

-- Eight groups, or at most seven with a `::` that stands for the rest.
join_groups : Groups → Option ℕ
unfolding zeros number_of
join_groups (gs, none) = if eqb (length gs) 8 then some (number_of 0 gs) else none
join_groups (gs, some hs) =
    if ltb (length gs + length hs) 8
    then some (number_of 0 (gs ++ (zeros (8 - length gs - length hs) ++ hs)))
    else none

unfoldable pub parse_v6 : String → Option ℕ
unfolding split_groups join_groups split_by
parse_v6 s = elim (split_groups (split_by (λ c. eqb c b':') s)) [
  | none ↦ none
  | some gs ↦ join_groups gs
]

-- The first of the three characters that decide what an address is.
pub data Kind : Type 0 where
  dotted colons neither : Kind

unfoldable pub kind_of : String → Kind
kind_of String.[] = neither
kind_of (String.◌∷◌ c s) =
    let rest = kind_of s in
    if eqb (code c) b'.'
    then dotted
    else if eqb (code c) b':'
    then colons
    else if eqb (code c) b'%'
    then neither
    else rest

-- `netip.ParseAddr`, which keeps an IPv4-mapped address at 128 bits. A zone is refused by its `%`.
unfoldable pub parse_addr : String → Option (ℕ × ℕ)
unfolding kind_of parse_v4 parse_v6
parse_addr s = elim (kind_of s) [
  | dotted ↦ elim (parse_v4 s) [ none ↦ none | some n ↦ some (n, 32) ]
  | colons ↦ elim (parse_v6 s) [ none ↦ none | some n ↦ some (n, 128) ]
  | neither ↦ none
]

-- The four bytes of an IPv4-mapped address, as `To4` finds them.
unfoldable pub of_bits : ℕ → ℕ → Ip
of_bits n bits =
    if eqb bits 32
    then v4 n
    else if eqb (n / 2 ^ 32) 0xffff
    then v4 (n - n / 2 ^ 32 * 2 ^ 32)
    else v6 n

-- `net.ParseIP`
unfoldable pub parse_ip : String → Option Ip
unfolding parse_addr of_bits
parse_ip s = elim (parse_addr s) [ none ↦ none | some (n, bits) ↦ some (of_bits n bits) ]
