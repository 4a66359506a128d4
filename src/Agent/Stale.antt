-- ===== src/Agent/Stale.antt =====
-- `cleanupStaleChassis` of agent.go: the tracker of missing chassis and its grace period.
use ovn_route_agent.Base.{
  ℕ, ◌+◌, ℤ, pos, pos_part, leb_ℤ, leb, String, Bool, false, Option, none, some, List, [], ◌∷◌,
  filter, elem, lookup, insert, delete, keys, if◌then◌else◌,
}

-- `missingChassis`: when each chassis was first seen missing.
abbrev pub Missing : Type 0
Missing = List (String × ℕ)

abbrev pub seen_since : ℕ → Option ℕ → ℕ
seen_since now none = now
seen_since now (some t) = t

-- One chassis that a managed route names. A time that is tracked already is kept.
unfoldable pub track_one : ℕ → (alive : List String) → String → Missing → Missing
unfolding elem lookup insert delete
track_one now alive name m =
    if elem name alive then delete name m else insert name (seen_since now (lookup name m)) m

unfoldable pub track : ℕ → (alive referenced : List String) → Missing → Missing
unfolding track_one
track now alive [] m = m
track now alive (name ∷ names) m = track now alive names (track_one now alive name m)

-- Chassis that no managed route names any more are dropped.
unfoldable pub prune : (referenced : List String) → Missing → Missing
unfolding elem
prune referenced [] = []
prune referenced ((name, t) ∷ m) =
    let rest = prune referenced m in if elem name referenced then (name, t) ∷ rest else rest

abbrev pub is_old : ℕ → ℕ → Option ℕ → Bool
is_old now grace none = false
is_old now grace (some t) = leb (t + grace) now

-- The chassis that have been missing for the grace period.
unfoldable pub stale_chassis : ℕ → ℕ → Missing → List String
unfolding filter lookup
stale_chassis now grace m = filter (λ name. is_old now grace (lookup name m)) (keys m)

unfoldable pub delete_all : List String → Missing → Missing
unfolding delete
delete_all [] m = m
delete_all (name ∷ names) m = delete_all names (delete name m)

-- The chassis that are cleaned up, if any, and the tracker after that; `cleans` tells whether
-- `CleanupStaleChassisManagedEntries` succeeds on them.
abbrev pub clean : (List String → Bool) → List String → Missing → List String × Missing
clean cleans [] m = ([], m)
clean cleans (name ∷ names) m =
    (name ∷ names, if cleans (name ∷ names) then delete_all (name ∷ names) m else m)

unfoldable pub cleanup_referenced :
    (cleans : List String → Bool) (now grace : ℕ) (alive referenced : List String)
    → Missing
    → List String × Missing
unfolding track prune stale_chassis delete_all
cleanup_referenced cleans now grace alive referenced m =
    let m' = prune referenced (track now alive referenced m) in
    clean cleans (stale_chassis now grace m') m'

abbrev pub cleanup_of :
    (cleans : List String → Bool) (now grace : ℕ) (alive : List String)
    → Option (List String)
    → Missing
    → List String × Missing
cleanup_of cleans now grace alive none m = ([], m)
cleanup_of cleans now grace alive (some referenced) m =
    cleanup_referenced cleans now grace alive referenced m

-- `cleanupStaleChassis`; `referenced` is what `ListManagedRouteChassis` returns, none for nil.
unfoldable pub cleanup_stale_chassis :
    (cleans : List String → Bool) (now : ℕ) (period : ℤ) (jitter : ℕ) (alive : List String)
    → (referenced : Option (List String)) → Missing
    → List String × Missing
unfolding cleanup_referenced
cleanup_stale_chassis cleans now period jitter alive referenced m =
    if leb_ℤ period (pos 0)
    then ([], m)
    else cleanup_of cleans now (pos_part period + jitter) alive referenced m
