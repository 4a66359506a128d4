-- ===== src/Ovn/Cache/Sync.antt =====
-- The consistency check compares sets, and the rows that it hands on carry the server's keys.
use ovn_route_agent.Base.{
  ℕ, suc, ◌≤◌, String, true, false, not, ◌&&◌, ◌≡◌, ◌↔◌, ◌⊎◌, refl, sym, ◌∙◌, ap, Option, none,
  some, List, [], ◌∷◌, map, inl, inr, arith, eqb, ◌==◌, eq_iff, eq_refl, length, elem, filter,
  elem-filter, set_of, elem-set_of, Distinct, set_of-Distinct, Bool-cases, &&_parts,
}
use ovn_route_agent.Ovn.Rows.{Row}
use ovn_route_agent.Ovn.Cache.{
  all_in, key_sets_equal, direct_select, server_key_set, authoritative_list,
}

-- `b` without one key.
without : String → List String → List String
unfolding filter
without k b = filter (λ j. not (k == j)) b

elem-without : (j k : String) (b : List String) → elem j (without k b) ≡ (not (k == j) && elem j b)
unfolding without
elem-without j k b = elem-filter j (λ i. not (k == i)) b

without_absent : (k : String) (b : List String) → elem k b ≡ false → without k b ≡ b
unfolding without filter elem
without_absent k [] h = refl
without_absent k (x ∷ b) h = ground (arith, without_absent k b, eq_iff k x, eq_iff x k)

without-Distinct : (k : String) (b : List String) → Distinct b → Distinct (without k b)
unfolding without filter
without-Distinct k [] h = tt
without-Distinct k (x ∷ b) h = ground (arith, without-Distinct k b h.1, elem-without x k b)

-- A member of a set without repetitions counts once.
length-without :
    (k : String) (b : List String)
    → Distinct b
    → elem k b ≡ true
    → length b ≡ suc (length (without k b))
unfolding elem without filter
length-without k [] d h = cc
length-without k (x ∷ b) d h =
    ground (arith, eq_iff k x, eq_iff x k, without_absent k b, length-without k b d.1)

Included : List String → List String → Type 0
Included a b = (k : String) → elem k a ≡ true → elem k b ≡ true

all_in-Included : (a b : List String) → all_in a b ≡ true → Included a b
unfolding all_in elem Included
all_in-Included [] b h = λ k e. cc
all_in-Included (x ∷ a) b h =
    λ k e. ground (arith, eq_iff x k, all_in-Included a b (&&_parts (elem x b) (all_in a b) h).1 k)

Included-all_in : (a b : List String) → Included a b → all_in a b ≡ true
unfolding all_in elem Included
Included-all_in [] b h = refl
Included-all_in (x ∷ a) b h =
    ground (arith, h x, eq_refl x, Included-all_in a b (λ k e. h k (ground arith)))

-- Of two sets of one size, one included in the other, each is included in the other.
Included-back :
    (a b : List String)
    → Distinct a
    → Distinct b
    → length a ≡ length b
    → Included a b
    → Included b a
unfolding elem Included
Included-back [] [] da db len inc = λ k e. e
Included-back [] (y ∷ b) da db len inc = absurd (omega arith)
Included-back (x ∷ a) b da db len inc = λ k e.
    let here : elem x b ≡ true = inc x (ground (arith, eq_refl x)) in
    let smaller = length-without x b db here in
    let rest =
      Included-back a (without x b) da.1 (without-Distinct x b db) (omega arith)
        (λ j m. rw elem-without (ground (arith, eq_iff x j, inc j))) in
    ground (arith, eq_iff x k, elem-without k x b, rest k)

Included-length : (a b : List String) → Distinct a → Distinct b → Included a b → length a ≤ length b
unfolding elem Included
Included-length [] b da db inc = omega arith
Included-length (x ∷ a) b da db inc =
    let here : elem x b ≡ true = inc x (ground (arith, eq_refl x)) in
    let smaller = length-without x b db here in
    let rest =
      Included-length a (without x b) da.1 (without-Distinct x b db)
        (λ j m. rw elem-without (ground (arith, eq_iff x j, inc j))) in
    omega arith

le_antisymm : {m n : ℕ} → m ≤ n → n ≤ m → m ≡ n
le_antisymm h k = omega arith

elem_ext : (a b : List String) → Included a b → Included b a → (k : String) → elem k a ≡ elem k b
unfolding Included
elem_ext a b f g k = ground (arith, f k, g k)

-- On sets given by their keys, each key once, `keySetsEqual` holds exactly where the sets have the
-- same members, although it tests one inclusion and the sizes only.
pub key_sets_equal_iff :
    (a b : List String)
    → Distinct a
    → Distinct b
    → (key_sets_equal a b ≡ true) ↔ ((k : String) → elem k a ≡ elem k b)
unfolding key_sets_equal Included
key_sets_equal_iff a b da db = (
  λ h.
      let (size, inc) = &&_parts (eqb (length a) (length b)) (all_in a b) h in
      elem_ext a b (all_in-Included a b inc)
        (Included-back a b da db (ground arith) (all_in-Included a b inc)),
  λ h.
      let inc : Included a b = (λ k e. sym (h k) ∙ e) in
      let back : Included b a = (λ k e. h k ∙ e) in
      let size : length a ≡ length b =
        le_antisymm (Included-length a b da db inc) (Included-length b a db da back) in
      ground (arith, Included-all_in a b inc),
)

module _ {ℓ} {T : Type ℓ} (key_of : T → String) (decode : Row → T) where
  -- The keys of a list of rows.
  abbrev pub keys_of : List T → List String
  keys_of ts = map key_of ts

  map-decode : (rows : List Row) → keys_of (map decode rows) ≡ map (λ row. key_of (decode row)) rows
  map-decode [] = refl
  map-decode (row ∷ rows) = ap (λ ks. key_of (decode row) ∷ ks) (map-decode rows)

  in_sync :
      (cached : List T) (rows : List Row)
      → key_sets_equal (set_of (keys_of cached)) (server_key_set key_of decode rows) ≡ true
      → (k : String) → elem k (keys_of cached) ≡ elem k (keys_of (map decode rows))
  unfolding server_key_set
  in_sync cached rows h k =
      sym (elem-set_of k (keys_of cached))
      ∙ (key_sets_equal_iff _ _ (set_of-Distinct (keys_of cached)) (set_of-Distinct _)).0 h k
      ∙ elem-set_of k (map (λ row. key_of (decode row)) rows)
      ∙ ap (elem k) (sym (map-decode rows))

-- Where both selects answer and the server does not change between them, as far as the checked
-- columns go, the rows that `authoritativeList` hands on have exactly the server's keys, whatever
-- the cache holds.
pub authoritative_list-keys {ℓ} :
    {T : Type ℓ} (key_of : T → String) (decode : Row → T) (cached : List T)
    (check full : Option (List (List Row))) (checked all : List Row)
    → direct_select check ≡ some checked
    → direct_select full ≡ some all
    → ((k : String)
        → elem k (map key_of (map decode checked)) ≡ elem k (map key_of (map decode all)))
    → (k : String)
    → elem k (map key_of (authoritative_list key_of decode cached check full))
      ≡ elem k (map key_of (map decode all))
unfolding authoritative_list
authoritative_list-keys key_of decode cached check full checked all c f stable k =
    elim (Bool-cases
      (key_sets_equal (set_of (map key_of cached)) (server_key_set key_of decode checked))) [
        | inl same ↦ ground (arith, in_sync key_of decode cached checked same k, stable k)
        | inr drift ↦ ground arith
      ]

-- Where a select that is needed fails, the cached rows are handed on as they are: the check's, or
-- that of the full table behind a mismatch.
pub authoritative_list-fallback {ℓ} :
    {T : Type ℓ} (key_of : T → String) (decode : Row → T) (cached : List T)
    (check full : Option (List (List Row)))
    → (direct_select check ≡ none) ⊎ (direct_select full ≡ none)
    → authoritative_list key_of decode cached check full ≡ cached
unfolding authoritative_list
authoritative_list-fallback key_of decode cached check full (inl c) = ground arith
authoritative_list-fallback key_of decode cached check full (inr f) = ground arith
