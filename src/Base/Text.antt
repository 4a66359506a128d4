-- ===== src/Base/Text.antt =====
-- What the source uses of Go's `strings` and `sort`.
use Prim.Native.Nat.{ℕ}
use Prim.Native.Char.{Char, code}
use Prim.Native.String.{String, ◌++◌ as ◌+++◌}
use mathlib.Core.Path.{◌≡◌, refl}
use mathlib.Core.Bool.{Bool, true, false, ◌&&◌, ◌||◌, not}
use mathlib.Core.List.{List, [], ◌∷◌}
use native.Mathlib.Omega.{arith}
use text.Mathlib.Text.{◌==◌, starts_with}
use ovn_route_agent.Base.Tests.{ltb, leb, eqb, if◌then◌else◌}
use ovn_route_agent.Base.Lists.{filter}
use ovn_route_agent.Base.Maps.{elem}

-- `a <= b` on strings. Code points in order are bytes of UTF-8 in order.
unfoldable pub str_le : String → String → Bool
str_le String.[] t = true
str_le (String.◌∷◌ c s) String.[] = false
str_le (String.◌∷◌ c s) (String.◌∷◌ d t) =
    ltb (code c) (code d) || (eqb (code c) (code d) && str_le s t)

pub str_le_total : (s t : String) → str_le s t ≡ false → str_le t s ≡ true
unfolding str_le
str_le_total String.[] t h = ground arith
str_le_total (String.◌∷◌ c s) String.[] h = refl
str_le_total (String.◌∷◌ c s) (String.◌∷◌ d t) h = ground (arith, str_le_total s t)

-- `sort.Strings`, whose result is the one sorted list with the same members, each as often.
unfoldable pub insert_sorted : String → List String → List String
insert_sorted x [] = x ∷ []
insert_sorted x (y ∷ ys) = if str_le x y then x ∷ y ∷ ys else y ∷ insert_sorted x ys

unfoldable pub sort_strings : List String → List String
unfolding insert_sorted
sort_strings [] = []
sort_strings (x ∷ xs) = insert_sorted x (sort_strings xs)

pub elem-insert_sorted :
    (k x : String) (ys : List String) → elem k (insert_sorted x ys) ≡ (x == k || elem k ys)
unfolding elem insert_sorted
elem-insert_sorted k x [] = refl
elem-insert_sorted k x (y ∷ ys) = ground (arith, elem-insert_sorted k x ys)

pub elem-sort_strings : (k : String) (xs : List String) → elem k (sort_strings xs) ≡ elem k xs
unfolding elem sort_strings
elem-sort_strings k [] = refl
elem-sort_strings k (x ∷ xs) =
    ground (arith, elem-insert_sorted k x (sort_strings xs), elem-sort_strings k xs)

-- Each element is at most the next.
abbrev pub IsSorted : List String → Type 0
IsSorted [] = Unit
IsSorted (x ∷ []) = Unit
IsSorted (x ∷ y ∷ ys) = (str_le x y ≡ true) × IsSorted (y ∷ ys)

insert_sorted-IsSorted :
    (x : String) (ys : List String) → IsSorted ys → IsSorted (insert_sorted x ys)
unfolding insert_sorted
insert_sorted-IsSorted x [] h = tt
insert_sorted-IsSorted x (y ∷ []) h = ground (arith, str_le_total x y)
insert_sorted-IsSorted x (y ∷ z ∷ zs) h =
    ground (arith, str_le_total x y, insert_sorted-IsSorted x (z ∷ zs) h.1)

pub sort_strings-IsSorted : (xs : List String) → IsSorted (sort_strings xs)
unfolding sort_strings
sort_strings-IsSorted [] = tt
sort_strings-IsSorted (x ∷ xs) =
    insert_sorted-IsSorted x (sort_strings xs) (sort_strings-IsSorted xs)

-- `unicode.IsSpace`
unfoldable pub is_space : ℕ → Bool
is_space c =
    (leb 9 c && leb c 13)
    || eqb c 32
    || eqb c 0x85
    || eqb c 0xa0
    || eqb c 0x1680
    || (leb 0x2000 c && leb c 0x200a)
    || eqb c 0x2028
    || eqb c 0x2029
    || eqb c 0x202f
    || eqb c 0x205f
    || eqb c 0x3000

trim_left : String → String
trim_left String.[] = ""
trim_left (String.◌∷◌ c s) = if is_space (code c) then trim_left s else String.◌∷◌ c s

trim_right : String → String
trim_right String.[] = ""
trim_right (String.◌∷◌ c s) =
    let rest = trim_right s in if rest == "" && is_space (code c) then "" else String.◌∷◌ c rest

-- `strings.TrimSpace`
unfoldable pub trim_space : String → String
unfolding is_space trim_left trim_right
trim_space s = trim_right (trim_left s)

-- A character put in front of the first part.
abbrev cons_first : Char → List String → List String
cons_first c [] = String.◌∷◌ c "" ∷ []
cons_first c (p ∷ ps) = String.◌∷◌ c p ∷ ps

-- The parts between the characters that pass the test.
unfoldable pub split_by : (ℕ → Bool) → String → List String
split_by sep String.[] = "" ∷ []
split_by sep (String.◌∷◌ c s) =
    let rest = split_by sep s in if sep (code c) then "" ∷ rest else cons_first c rest

-- `strings.Fields`
unfoldable pub fields : String → List String
unfolding split_by is_space filter
fields s = filter (λ p. not (p == "")) (split_by is_space s)

-- `strings.TrimPrefix` and `strings.TrimSuffix`
unfoldable pub trim_prefix : String → String → String
trim_prefix s String.[] = s
trim_prefix String.[] (String.◌∷◌ d p) = ""
trim_prefix (String.◌∷◌ c s) (String.◌∷◌ d p) = trim_prefix s p

unfoldable pub strip_prefix : String → String → String
unfolding trim_prefix
strip_prefix s p = if starts_with s p then trim_prefix s p else s

unfoldable pub strip_suffix : String → String → String
strip_suffix String.[] suffix = ""
strip_suffix (String.◌∷◌ c s) suffix =
    if String.◌∷◌ c s == suffix then "" else String.◌∷◌ c (strip_suffix s suffix)

-- `strings.Contains`
unfoldable pub contains_text : String → String → Bool
contains_text String.[] t = t == ""
contains_text (String.◌∷◌ c s) t = starts_with (String.◌∷◌ c s) t || contains_text s t

-- `strings.Join`
unfoldable pub join : String → List String → String
join sep [] = ""
join sep (x ∷ []) = x
join sep (x ∷ y ∷ ys) = x +++ (sep +++ join sep (y ∷ ys))
