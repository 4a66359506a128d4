-- ===== src/Agent/Overdue.antt =====
-- Which chassis `cleanupStaleChassis` cleans up.
use ovn_route_agent.Base.{
  ℕ, ◌+◌, ◌≤◌, ◌<◌, ℤ, pos, ◌<ℤ◌, pos_part, leb_ℤ, String, Bool, true, false, ◌&&◌, ◌||◌, ◌≡◌, refl,
  sym, ap, ◌∙◌, Option, none, some, List, [], ◌∷◌, ◌==◌, arith, eq_iff, elem, elem-filter, lookup,
  lookup-insert, lookup-delete, keys, elem-keys, leb→le, ◌↔◌, if◌then◌else◌, Bool-cases, inl, inr,
}
use ovn_route_agent.Agent.Stale.{
  Missing, seen_since, track_one, track, prune, is_old, stale_chassis, clean, cleanup_referenced,
  cleanup_of, cleanup_stale_chassis,
}

-- The time that the tracker has for a chassis after one round.
abbrev tracked : ℕ → Bool → Bool → Option ℕ → Option ℕ
tracked now true true o = none
tracked now true false o = some (seen_since now o)
tracked now false alive o = o

lookup-track_one :
    (now : ℕ) (alive : List String) (name k : String) (m : Missing)
    → lookup k (track_one now alive name m) ≡ tracked now (name == k) (elem k alive) (lookup k m)
unfolding track_one
lookup-track_one now alive name k m = elim (Bool-cases (name == k)) [
  | inl e ↦
      let same : name ≡ k = (eq_iff name k).0 e in
      elim (Bool-cases (elem k alive)) [
        | inl a ↦ rw (same, a, lookup-delete k k m) (ground (arith, eq_iff k k))
        | inr a ↦
            rw (same, a, lookup-insert k k (seen_since now (lookup k m)) m)
              (ground (arith, eq_iff k k))
      ]
  | inr e ↦ elim (Bool-cases (elem name alive)) [
    | inl a ↦ rw (a, lookup-delete name k m, e) refl
    | inr a ↦ rw (a, lookup-insert name k (seen_since now (lookup name m)) m, e) refl
  ]
]

tracked_twice :
    (now : ℕ) (a b alive : Bool) (o : Option ℕ)
    → tracked now b alive (tracked now a alive o) ≡ tracked now (a || b) alive o
tracked_twice now true true true o = refl
tracked_twice now true true false o = refl
tracked_twice now true false true o = refl
tracked_twice now true false false o = refl
tracked_twice now false true true o = refl
tracked_twice now false true false o = refl
tracked_twice now false false alive o = refl

lookup-track :
    (now : ℕ) (alive referenced : List String) (k : String) (m : Missing)
    → lookup k (track now alive referenced m)
      ≡ tracked now (elem k referenced) (elem k alive) (lookup k m)
unfolding track elem
lookup-track now alive [] k m = refl
lookup-track now alive (name ∷ names) k m =
    lookup-track now alive names k (track_one now alive name m)
    ∙ ap (tracked now (elem k names) (elem k alive)) (lookup-track_one now alive name k m)
    ∙ tracked_twice now (name == k) (elem k names) (elem k alive) (lookup k m)

lookup-prune :
    (referenced : List String) (k : String) (m : Missing)
    → lookup k (prune referenced m) ≡ (if elem k referenced then lookup k m else none)
unfolding prune lookup
lookup-prune referenced k [] = elim (Bool-cases (elem k referenced)) [
  | inl e ↦ rw e refl
  | inr e ↦ rw e refl
]
lookup-prune referenced k ((name, t) ∷ m) =
    ground (arith, eq_iff name k, lookup-prune referenced k m)

elem-stale_chassis :
    (now grace : ℕ) (k : String) (m : Missing)
    → elem k (stale_chassis now grace m) ≡ is_old now grace (lookup k m)
unfolding stale_chassis
elem-stale_chassis now grace k m =
    elem-filter k (λ name. is_old now grace (lookup name m)) (keys m) ∙ go (lookup k m) refl
  where
    go :
        (o : Option ℕ)
        → lookup k m ≡ o
        → (is_old now grace o && elem k (keys m)) ≡ is_old now grace o
    go none e = refl
    go (some t) e = rw (elem-keys k m e) (ground arith)

clean-names :
    (cleans : List String → Bool) (names : List String) (m : Missing)
    → (clean cleans names m).0 ≡ names
clean-names cleans [] m = refl
clean-names cleans (name ∷ names) m = refl

-- A chassis that is due: a managed route names it, it is not alive, and the tracker has it with a
-- time that lies the period and the jitter back at least. The period is positive.
abbrev pub IsDue :
    (now : ℕ) (period : ℤ) (jitter : ℕ) (alive : List String)
    → Option (List String)
    → Missing
    → String
    → Type 0
IsDue now period jitter alive none m name = ⊥
IsDue now period jitter alive (some referenced) m name =
    (pos 0 <ℤ period)
    × (elem name referenced ≡ true)
    × (elem name alive ≡ false)
    × ((t : ℕ) × (lookup name m ≡ some t) × (t + (pos_part period + jitter) ≤ now))

module _ (now grace : ℕ) (positive : 0 < grace) where
  -- What makes a tracked chassis old, from the state before the round.
  abbrev DueTime : Bool → Bool → Option ℕ → Type 0
  DueTime named alive o =
      (named ≡ true) × (alive ≡ false) × ((t : ℕ) × (o ≡ some t) × (t + grace ≤ now))

  old-DueTime :
      (named alive : Bool) (o : Option ℕ)
      → is_old now grace (if named then tracked now named alive o else none) ≡ true
      → DueTime named alive o
  old-DueTime false alive o h = cc
  old-DueTime true true o h = cc
  old-DueTime true false none h = absurd (omega (arith, positive, leb→le (now + grace) now h))
  old-DueTime true false (some t) h = (refl, refl, (t, refl, leb→le (t + grace) now h))

  DueTime-old :
      (named alive : Bool) (o : Option ℕ)
      → DueTime named alive o
      → is_old now grace (if named then tracked now named alive o else none) ≡ true
  DueTime-old named alive o (n, a, (t, e, le)) = rw (n, a, e) (ground arith)

  elem-cleaned :
      (cleans : List String → Bool) (alive referenced : List String) (m : Missing) (name : String)
      → elem name (cleanup_referenced cleans now grace alive referenced m).0
        ≡ is_old now grace (
            if elem name referenced
            then tracked now (elem name referenced) (elem name alive) (lookup name m)
            else none)
  unfolding cleanup_referenced
  elem-cleaned cleans alive referenced m name =
      let m' = prune referenced (track now alive referenced m) in
      ap (elem name) (clean-names cleans (stale_chassis now grace m') m')
      ∙ elem-stale_chassis now grace name m'
      ∙ ap (is_old now grace) (
          lookup-prune referenced name (track now alive referenced m)
          ∙ rw (lookup-track now alive referenced name m) refl)

-- `cleanupStaleChassis` cleans up exactly the chassis that are due: named by a managed route, not
-- alive, and tracked as missing for at least the grace period and the jitter, where the grace period
-- is positive. One that is seen missing for the first time is not cleaned up.
pub cleanup_stale_chassis_iff :
    (cleans : List String → Bool) (now : ℕ) (period : ℤ) (jitter : ℕ) (alive : List String)
    (referenced : Option (List String)) (m : Missing) (name : String)
    → (elem name (cleanup_stale_chassis cleans now period jitter alive referenced m).0 ≡ true)
      ↔ IsDue now period jitter alive referenced m name
unfolding cleanup_stale_chassis elem
cleanup_stale_chassis_iff cleans now period jitter alive referenced m name =
    elim (Bool-cases (leb_ℤ period (pos 0))) [
      | inl off ↦ rw off ((λ h. cc), λ d. never referenced d (ground arith))
      | inr on ↦ rw on (both referenced (ground arith) (ground arith))
    ]
  where
    never :
        (r : Option (List String))
        → IsDue now period jitter alive r m name
        → (pos 0 <ℤ period → ⊥)
        → elem name [] ≡ true
    never none d off = absurd d
    never (some r) d off = absurd (off d.0)

    both :
        (r : Option (List String))
        → 0 < pos_part period + jitter
        → pos 0 <ℤ period
        → (elem name (cleanup_of cleans now (pos_part period + jitter) alive r m).0 ≡ true)
          ↔ IsDue now period jitter alive r m name
    both none positive enabled = ((λ h. cc), λ d. absurd d)
    both (some r) positive enabled =
        let grace = pos_part period + jitter in
        let same = elem-cleaned now grace positive cleans alive r m name in
        (
          λ h.
              let (named, gone, time) =
                old-DueTime now grace positive (elem name r) (elem name alive) (lookup name m)
                  (sym same ∙ h) in
              (enabled, named, gone, time),
          λ d.
              let (on, named, gone, time) = d in
              same
              ∙ DueTime-old now grace positive (elem name r) (elem name alive) (lookup name m)
                  (named, gone, time),
        )
