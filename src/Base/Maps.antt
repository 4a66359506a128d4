-- ===== src/Base/Maps.antt =====
-- Go's maps with string keys: sets (`map[string]bool` whose values are all true) as lists of keys,
-- and other maps as association lists. Insertion keeps one entry for each key.
use Prim.Native.String.{String}
use mathlib.Core.Path.{◌≡◌, refl, ap}
use mathlib.Core.Logic.{◌⊎◌, inl, inr}
use mathlib.Core.Bool.{Bool, true, false, ◌&&◌, ◌||◌}
use mathlib.Core.Option.{Option, none, some}
use mathlib.Core.List.{List, [], ◌∷◌, ◌++◌}
use native.Mathlib.Omega.{arith}
use text.Mathlib.Text.{◌==◌}
use text.Mathlib.TextEquality.{eq_iff}
use ovn_route_agent.Base.Tests.{Bool-cases, if◌then◌else◌}
use ovn_route_agent.Base.Lists.{filter, In}

-- `set[k]`
unfoldable pub elem : String → List String → Bool
elem k [] = false
elem k (x ∷ xs) = x == k || elem k xs

pub elem-append : (k : String) (xs ys : List String) → elem k (xs ++ ys) ≡ (elem k xs || elem k ys)
unfolding elem
elem-append k [] ys = refl
elem-append k (x ∷ xs) ys = ground (arith, elem-append k xs ys)

pub elem-filter :
    (k : String) (p : String → Bool) (xs : List String) → elem k (filter p xs) ≡ (p k && elem k xs)
unfolding elem filter
elem-filter k p [] = ground arith
elem-filter k p (x ∷ xs) = ground (arith, elem-filter k p xs, eq_iff x k)

-- `set[k] = true`
unfoldable pub add : String → List String → List String
add k xs = if elem k xs then xs else k ∷ xs

pub elem-add : (k j : String) (xs : List String) → elem j (add k xs) ≡ (k == j || elem j xs)
unfolding elem add
elem-add k j xs = ground (arith, eq_iff k j)

-- `for _, x := range xs { set[x] = true }`
unfoldable pub set_of : List String → List String
unfolding add
set_of [] = []
set_of (x ∷ xs) = add x (set_of xs)

pub elem-set_of : (k : String) (xs : List String) → elem k (set_of xs) ≡ elem k xs
unfolding elem set_of
elem-set_of k [] = refl
elem-set_of k (x ∷ xs) = ground (arith, elem-add x k (set_of xs), elem-set_of k xs, eq_iff x k)

-- No key stands twice.
abbrev pub Distinct : List String → Type 0
Distinct [] = Unit
Distinct (x ∷ xs) = (elem x xs ≡ false) × Distinct xs

pub set_of-Distinct : (xs : List String) → Distinct (set_of xs)
unfolding set_of
set_of-Distinct [] = tt
set_of-Distinct (x ∷ xs) = go (elem x (set_of xs)) refl (set_of-Distinct xs)
  where
    go :
        (b : Bool)
        → elem x (set_of xs) ≡ b
        → Distinct (set_of xs)
        → Distinct (if b then set_of xs else x ∷ set_of xs)
    go true e h = h
    go false e h = (e, h)

module _ {ℓ} {V : Type ℓ} where
  -- `m[k]` with its `ok`
  unfoldable pub lookup : String → List (String × V) → Option V
  lookup key [] = none
  lookup key ((name, x) ∷ rest) = if name == key then some x else lookup key rest

  -- `m[k] = v`
  unfoldable pub insert : String → V → List (String × V) → List (String × V)
  insert key x [] = (key, x) ∷ []
  insert key x ((name, y) ∷ rest) =
      if name == key then (key, x) ∷ rest else (name, y) ∷ insert key x rest

  -- `delete(m, k)`
  unfoldable pub delete : String → List (String × V) → List (String × V)
  delete key [] = []
  delete key ((name, y) ∷ rest) =
      if name == key then delete key rest else (name, y) ∷ delete key rest

  pub lookup-insert :
      (new key : String) (x : V) (entries : List (String × V))
      → lookup key (insert new x entries) ≡ (if new == key then some x else lookup key entries)
  unfolding lookup insert
  lookup-insert new key x [] = refl
  lookup-insert new key x ((name, y) ∷ rest) =
      ground (arith, lookup-insert new key x rest, eq_iff new key, eq_iff name key, eq_iff name new)

  pub lookup-delete :
      (gone key : String) (entries : List (String × V))
      → lookup key (delete gone entries) ≡ (if gone == key then none else lookup key entries)
  unfolding lookup delete
  lookup-delete gone key [] = ground arith
  lookup-delete gone key ((name, y) ∷ rest) =
      ground
        (arith, lookup-delete gone key rest, eq_iff gone key, eq_iff name key, eq_iff name gone)

  abbrev pub keys : List (String × V) → List String
  keys [] = []
  keys ((k, v) ∷ m) = k ∷ keys m

abbrev pub is_some {ℓ} : {A : Type ℓ} → Option A → Bool
is_some none = false
is_some (some v) = true

-- `m[k]` of a map to strings: the zero value where the key is missing.
abbrev pub or_empty : Option String → String
or_empty none = ""
or_empty (some v) = v

-- A key of the map is a key that is found.
pub elem-keys {ℓ} :
    {V : Type ℓ} (k : String) (m : List (String × V)) {v : V}
    → lookup k m ≡ some v
    → elem k (keys m) ≡ true
unfolding lookup elem
elem-keys k [] h = cc
elem-keys k ((j, w) ∷ m) h = elim (Bool-cases (j == k)) [
  | inl e ↦ rw e
  | inr e ↦ rw e (elem-keys k m (rw e at h))
]

pub elem-keys-insert {ℓ} :
    {V : Type ℓ} (j key : String) (x : V) (m : List (String × V))
    → elem j (keys (insert key x m)) ≡ (key == j || elem j (keys m))
unfolding elem insert
elem-keys-insert j key x [] = refl
elem-keys-insert j key x ((name, y) ∷ m) =
    ground (arith, elem-keys-insert j key x m, eq_iff name key, eq_iff name j, eq_iff key j)

-- An entry of a map after an insertion is the new one or an old one.
pub In-insert :
    {V : Type 0} (key name : String) (x y : V) (m : List (String × V))
    → In (name, y) (insert key x m)
    → ((name ≡ key) × (y ≡ x)) ⊎ In (name, y) m
unfolding insert
In-insert key name x y [] (inl e) = inl (ap (λ p. p.0) e, ap (λ p. p.1) e)
In-insert key name x y [] (inr i) = absurd i
In-insert key name x y ((other, z) ∷ m) i = elim (Bool-cases (other == key)) [
  | inl t ↦ elim (rw t at i) [
    | inl e ↦ inl (ap (λ p. p.0) e, ap (λ p. p.1) e)
    | inr j ↦ inr (inr j)
  ]
  | inr f ↦ elim (rw f at i) [
    | inl e ↦ inr (inl e)
    | inr j ↦ elim (In-insert key name x y m j) [ inl p ↦ inl p | inr l ↦ inr (inr l) ]
  ]
]
