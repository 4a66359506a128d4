-- ===== src/Ovn/Gateway/Draining.antt =====
-- What a drain followed by the restore at the next start does to the Gateway_Chassis rows.
use ovn_route_agent.Base.{
  ℤ, pos, ltb_ℤ, leb_ℤ, eqb_ℤ, String, Bool, true, ◌&&◌, ◌≡◌, refl, sym, ◌∙◌, subst, Option, some,
  List, [], ◌∷◌, arith, any, filter, map, Bool-cases, inl, inr,
}
use ovn_route_agent.Ovn.Rows.{NbGatewayChassis, Row}
use ovn_route_agent.Ovn.Gateway.Defs.{Op, Database}
use ovn_route_agent.Ovn.Gateway.Drain.{
  is_local, filter_drain_candidates, filter_restore_candidates, with_fallback, set_to, PollReads,
  drain_rows, drain_gateways, restore_rows, restore_drained_gateways, Drained,
}
use ovn_route_agent.Ovn.Gateway.Written.{
  written, rows_after, UniqueIds, set_where, map-written, map-UniqueIds, all_built, map-id,
  rows_after-transact_if_any,
}

abbrev pub drains : String → NbGatewayChassis → Bool
drains here r = is_local here r && ltb_ℤ (pos 0) r.priority

abbrev pub restores : String → NbGatewayChassis → Bool
restores here r = is_local here r && eqb_ℤ r.priority (pos 0)

with_fallback-local :
    (candidates : List NbGatewayChassis → String → List NbGatewayChassis × Bool) (here : String)
    (rows : List NbGatewayChassis) (selected : Option (List (List Row)))
    → (candidates rows here).1 ≡ true
    → with_fallback candidates here (some rows) selected ≡ some (candidates rows here).0
unfolding with_fallback
with_fallback-local candidates here rows selected e = rw e refl

drain_rows-after :
    (db : Database) (xs rows : List NbGatewayChassis) (polls : Drained)
    → ((op : Op) → db.builds op ≡ true)
    → rows_after (drain_rows db (some xs) polls []).1 rows
      ≡ map (written (map (set_to (pos 0)) xs)) rows
unfolding drain_rows rows_after
drain_rows-after db [] rows polls b = sym (map-id rows)
drain_rows-after db (x ∷ xs) rows polls b =
    rw (all_built db (map (set_to (pos 0)) (x ∷ xs)) b)
      (rows_after-transact_if_any db (map (set_to (pos 0)) (x ∷ xs)) rows)

any-local :
    (p : ℤ) (q : NbGatewayChassis → Bool) (here : String) (rows : List NbGatewayChassis)
    → any (is_local here) (map (set_where p q) rows) ≡ any (is_local here) rows
unfolding any
any-local p q here [] = refl
any-local p q here (r ∷ rows) =
    rw (any-local p q here rows) (elim (Bool-cases (q r)) [ inl e ↦ rw e refl | inr e ↦ rw e refl ])

drain_gateways-rows :
    (db : Database) (fold : String → String → Bool) (gateway_port : String)
    (selected : Option (List (List Row))) (poll : PollReads) (more : List PollReads) (here : String)
    (rows : List NbGatewayChassis)
    → ((op : Op) → db.builds op ≡ true)
    → UniqueIds rows
    → any (is_local here) rows ≡ true
    → rows_after (drain_gateways db fold gateway_port (some rows) selected poll more here []).1 rows
      ≡ map (set_where (pos 0) (drains here)) rows
unfolding drain_gateways filter_drain_candidates
drain_gateways-rows db fold gateway_port selected poll more here rows b unique known =
    rw (with_fallback-local filter_drain_candidates here rows selected known) (
      drain_rows-after db (filter (drains here) rows) rows _ b
      ∙ map-written (pos 0) (drains here) rows unique)

restore_drained_gateways-rows :
    (db : Database) (selected : Option (List (List Row))) (here : String)
    (rows : List NbGatewayChassis)
    → ((op : Op) → db.builds op ≡ true)
    → UniqueIds rows
    → any (is_local here) rows ≡ true
    → rows_after (restore_drained_gateways db (some rows) selected here []).1 rows
      ≡ map (set_where (pos 1) (restores here)) rows
unfolding restore_drained_gateways restore_rows filter_restore_candidates
restore_drained_gateways-rows db selected here rows b unique known =
    rw
      (
        with_fallback-local filter_restore_candidates here rows selected known,
        all_built db (map (set_to (pos 1)) (filter (restores here) rows)) b,
      )
      (rows_after-transact_if_any db (map (set_to (pos 1)) (filter (restores here) rows)) rows
        ∙ map-written (pos 1) (restores here) rows unique)

-- A row of this chassis on standby: at priority 1, unless its priority is negative.
abbrev pub standby : String → NbGatewayChassis → NbGatewayChassis
standby here = set_where (pos 1) (λ r. is_local here r && leb_ℤ (pos 0) r.priority)

set_where-standby :
    (here : String) (r : NbGatewayChassis)
    → set_where (pos 1) (restores here) (set_where (pos 0) (drains here) r) ≡ standby here r
set_where-standby here r = elim (Bool-cases (drains here r)) [
  | inl e ↦ rw e (ground arith)
  | inr e ↦ rw e (ground arith)
]

-- Let libovsdb build every operation and the server apply what is sent, and let the cache hold all
-- rows, one row for each uuid, and one of this chassis among them. A drain, and then the restore on
-- the rows that the drain leaves, put each row of this chassis whose priority is not negative to 1
-- and change no other row.
pub drain_restore :
    (db : Database) (fold : String → String → Bool) (gateway_port : String)
    (selected again : Option (List (List Row))) (poll : PollReads) (more : List PollReads)
    (here : String) (rows drained : List NbGatewayChassis)
    → ((op : Op) → db.builds op ≡ true)
    → UniqueIds rows
    → any (is_local here) rows ≡ true
    → rows_after (drain_gateways db fold gateway_port (some rows) selected poll more here []).1 rows
      ≡ drained
    → rows_after (restore_drained_gateways db (some drained) again here []).1 drained
      ≡ map (standby here) rows
drain_restore db fold gateway_port selected again poll more here rows drained b unique known end =
    let is_set : map (set_where (pos 0) (drains here)) rows ≡ drained =
      (sym (drain_gateways-rows db fold gateway_port selected poll more here rows b unique known)
        ∙ end) in
    subst
      (λ rs.
        rows_after (restore_drained_gateways db (some rs) again here []).1 rs
        ≡ map (standby here) rows)
      is_set
      (restore_drained_gateways-rows db again here (map (set_where (pos 0) (drains here)) rows) b
          (map-UniqueIds (pos 0) (drains here) rows unique)
          (any-local (pos 0) (drains here) here rows ∙ known)
        ∙ map_twice rows)
  where
    map_twice :
        (rs : List NbGatewayChassis)
        → map (set_where (pos 1) (restores here)) (map (set_where (pos 0) (drains here)) rs)
          ≡ map (standby here) rs
    map_twice [] = refl
    map_twice (r ∷ rs) = rw (set_where-standby here r, map_twice rs) refl
