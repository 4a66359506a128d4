-- ===== src/Base/Sorted.antt =====
-- A sorted list without repetitions is determined by its members; `slices.Compact`.
use Prim.Native.String.{String}
use mathlib.Core.Path.{◌≡◌, refl, sym, ◌∙◌, subst}
use mathlib.Core.Logic.{inl, inr}
use mathlib.Core.Bool.{true, false}
use mathlib.Core.List.{List, [], ◌∷◌}
use native.Mathlib.Omega.{arith}
use text.Mathlib.Text.{◌==◌}
use text.Mathlib.TextEquality.{eq_iff, Char-path}
use ovn_route_agent.Base.Tests.{if◌then◌else◌, Bool-cases}
use ovn_route_agent.Base.Maps.{elem, Distinct}
use ovn_route_agent.Base.Text.{str_le, IsSorted}

str_le_trans : (s t u : String) → str_le s t ≡ true → str_le t u ≡ true → str_le s u ≡ true
unfolding str_le
str_le_trans String.[] t u h k = refl
str_le_trans (String.◌∷◌ c s) String.[] u h k = ground (arith, h)
str_le_trans (String.◌∷◌ c s) (String.◌∷◌ d t) String.[] h k = ground (arith, k)
str_le_trans (String.◌∷◌ c s) (String.◌∷◌ d t) (String.◌∷◌ e u) h k =
    ground (arith, str_le_trans s t u, h, k)

str_le_antisym : (s t : String) → str_le s t ≡ true → str_le t s ≡ true → s ≡ t
unfolding str_le
str_le_antisym String.[] String.[] h k = refl
str_le_antisym String.[] (String.◌∷◌ d t) h k = ground (arith, k)
str_le_antisym (String.◌∷◌ c s) String.[] h k = ground (arith, h)
str_le_antisym (String.◌∷◌ c s) (String.◌∷◌ d t) h k =
    let first : c ≡ d = Char-path c d (ground (arith, h, k)) in
    let rest : s ≡ t = str_le_antisym s t (ground (arith, h, k)) (ground (arith, h, k)) in
    rw (first, rest) refl

-- The head of a sorted list is below its members.
head_le :
    (x y : String) (ys : List String) → IsSorted (x ∷ ys) → elem y ys ≡ true → str_le x y ≡ true
unfolding elem
head_le x y [] h m = cc
head_le x y (z ∷ zs) (le, h) m = elim (Bool-cases (z == y)) [
  | inl e ↦ subst (λ t. str_le x t ≡ true) ((eq_iff z y).0 e) le
  | inr e ↦ str_le_trans x z y le (head_le z y zs h (rw e at m))
]

tail-IsSorted : (x : String) (xs : List String) → IsSorted (x ∷ xs) → IsSorted xs
tail-IsSorted x [] h = tt
tail-IsSorted x (y ∷ ys) h = h.1

heads_eq :
    (x y : String) (xs ys : List String)
    → IsSorted (x ∷ xs)
    → IsSorted (y ∷ ys)
    → ((k : String) → elem k (x ∷ xs) ≡ elem k (y ∷ ys))
    → x ≡ y
unfolding elem
heads_eq x y xs ys h k same = elim (Bool-cases (x == y)) [
  | inl e ↦ (eq_iff x y).0 e
  | inr e ↦
      let below : str_le x y ≡ true = head_le x y xs h (ground (arith, same y, eq_iff y y, e)) in
      let above : str_le y x ≡ true =
        head_le y x ys k (ground (arith, same x, eq_iff x x, eq_iff x y, eq_iff y x, e)) in
      str_le_antisym x y below above
]

-- Sorted lists without repetitions that have the same members are equal.
pub sorted_unique :
    (xs ys : List String)
    → IsSorted xs
    → IsSorted ys
    → Distinct xs
    → Distinct ys
    → ((k : String) → elem k xs ≡ elem k ys)
    → xs ≡ ys
unfolding elem
sorted_unique [] [] h k d e same = refl
sorted_unique [] (y ∷ ys) h k d e same = ground (arith, same y, eq_iff y y)
sorted_unique (x ∷ xs) [] h k d e same = ground (arith, same x, eq_iff x x)
sorted_unique (x ∷ xs) (y ∷ ys) h k d e same =
    let first = heads_eq x y xs ys h k same in
    let rest =
      sorted_unique xs ys (tail-IsSorted x xs h) (tail-IsSorted y ys k) d.1 e.1
        λ j. ground (arith, same j, first, d.0, e.0, eq_iff x j, eq_iff y j) in
    rw (first, rest) refl

-- `slices.Compact`: of equal elements in a row one stays.
unfoldable pub compact : List String → List String
compact [] = []
compact (x ∷ []) = x ∷ []
compact (x ∷ y ∷ ys) = let rest = compact (y ∷ ys) in if x == y then rest else x ∷ rest

pub elem-compact : (k : String) (xs : List String) → elem k (compact xs) ≡ elem k xs
unfolding elem compact
elem-compact k [] = refl
elem-compact k (x ∷ []) = refl
elem-compact k (x ∷ y ∷ ys) = elim (Bool-cases (x == y)) [
  | inl e ↦ rw e (ground (arith, elem-compact k (y ∷ ys), (eq_iff x y).0 e))
  | inr e ↦ rw e (ground (arith, elem-compact k (y ∷ ys)))
]

below_all-IsSorted :
    (x : String) (xs : List String)
    → ((k : String) → elem k xs ≡ true → str_le x k ≡ true)
    → IsSorted xs
    → IsSorted (x ∷ xs)
unfolding elem
below_all-IsSorted x [] below h = tt
below_all-IsSorted x (y ∷ ys) below h = (below y (ground (arith, eq_iff y y)), h)

not_below :
    (x y : String) (ys : List String)
    → IsSorted (x ∷ y ∷ ys)
    → (x == y) ≡ false
    → elem x (y ∷ ys) ≡ false
unfolding elem
not_below x y ys (le, h) new = elim (Bool-cases (elem x (y ∷ ys))) [
  | inr e ↦ e
  | inl e ↦
      let above : str_le y x ≡ true =
        head_le y x ys h (ground (arith, e, eq_iff x y, eq_iff y x, new)) in
      ground (arith, new, eq_iff x y, str_le_antisym x y le above)
]

pub compact-Sorted :
    (xs : List String) → IsSorted xs → IsSorted (compact xs) × Distinct (compact xs)
unfolding elem compact
compact-Sorted [] h = (tt, tt)
compact-Sorted (x ∷ []) h = (tt, (refl, tt))
compact-Sorted (x ∷ y ∷ ys) h =
    let (sorted, distinct) = compact-Sorted (y ∷ ys) h.1 in
    elim (Bool-cases (x == y)) [
      | inl e ↦ rw e (sorted, distinct)
      | inr e ↦ rw e (
        below_all-IsSorted x (compact (y ∷ ys))
            (λ k m. head_le x k (y ∷ ys) h (sym (elem-compact k (y ∷ ys)) ∙ m)) sorted,
        (elem-compact x (y ∷ ys) ∙ not_below x y ys h e, distinct),
      )
    ]
