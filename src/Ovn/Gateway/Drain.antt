-- ===== src/Ovn/Gateway/Drain.antt =====
-- `DrainGateways` and `RestoreDrainedGateways` of ovn_gateway.go, with the count that they poll.
use ovn_route_agent.Base.{
  ℕ, zero, suc, ℤ, pos, ltb_ℤ, eqb_ℤ, String, Bool, true, false, not, ◌&&◌, Option, none, some,
  List, [], ◌∷◌, ◌==◌, if◌then◌else◌, any, filter, map, lookup, or_empty,
}
use ovn_route_agent.Ovn.Rows.{
  NbGatewayChassis, SbPortBinding, SbChassis, Row, decode_sb_chassis, decode_sb_port_binding,
}
use ovn_route_agent.Ovn.Cache.{cached_list, key_of_sb_port_binding, key_of_sb_chassis}
use ovn_route_agent.Ovn.Gateway.Defs.{
  Op, set_priority, Database, M, ◌>>=◌, pure, built, transact_if_any,
}
use ovn_route_agent.Ovn.Gateway.Lead.{select_local_gateway_chassis, hosts_by_ref, is_bound}

-- The rows of this chassis, and whether there is one; each filter returns the pair of the two.
abbrev pub is_local : String → NbGatewayChassis → Bool
is_local here r = r.chassis_name == here

-- `filterDrainCandidates`
unfoldable pub filter_drain_candidates :
    List NbGatewayChassis → String → List NbGatewayChassis × Bool
unfolding filter any
filter_drain_candidates rows here =
    (filter (λ r. is_local here r && ltb_ℤ (pos 0) r.priority) rows, any (is_local here) rows)

-- `filterRestoreCandidates`
unfoldable pub filter_restore_candidates :
    List NbGatewayChassis → String → List NbGatewayChassis × Bool
unfolding filter any
filter_restore_candidates rows here =
    (filter (λ r. is_local here r && eqb_ℤ r.priority (pos 0)) rows, any (is_local here) rows)

-- The rows to change: of the cache, or of the direct select where the cache has no local row.
unfoldable pub with_fallback :
    (List NbGatewayChassis → String → List NbGatewayChassis × Bool)
    → String
    → Option (List NbGatewayChassis)
    → Option (List (List Row))
    → Option (List NbGatewayChassis)
unfolding select_local_gateway_chassis
with_fallback candidates here none selected = none
with_fallback candidates here (some rows) selected =
    if (candidates rows here).1
    then some (candidates rows here).0
    else elim (select_local_gateway_chassis selected) [
      | none ↦ none
      | some more ↦ some (candidates more here).0
    ]

abbrev pub set_to : ℤ → NbGatewayChassis → Op
set_to p r = set_priority r p

-- The ports of one chassis that a poll counts. `fold` is Go's `strings.EqualFold`.
unfoldable pub counts :
    (fold : String → String → Bool) (gateway_port here : String)
    → List (String × String)
    → SbPortBinding
    → Bool
unfolding lookup
counts fold gateway_port here hosts pb =
    is_bound pb
    && not (not (gateway_port == "") && not (pb.logical_port == gateway_port))
    && fold (or_empty (lookup (or_empty pb.chassis) hosts)) here

unfoldable pub count_if {ℓ} : {A : Type ℓ} → (A → Bool) → List A → ℕ
count_if p [] = 0
count_if p (x ∷ xs) = if p x then suc (count_if p xs) else count_if p xs

-- What one poll reads: the two guarded listings, each the cache and its two selects.
pub record PollReads : Type 0 where
  pub bindings : Option (List SbPortBinding)
  pub bindings_check : Option (List (List Row))
  pub bindings_full : Option (List (List Row))
  pub chassis : Option (List SbChassis)
  pub chassis_check : Option (List (List Row))
  pub chassis_full : Option (List (List Row))

abbrev pub polled_bindings : PollReads → Option (List SbPortBinding)
polled_bindings poll =
    cached_list key_of_sb_port_binding decode_sb_port_binding poll.bindings poll.bindings_check
      poll.bindings_full

abbrev pub polled_chassis : PollReads → Option (List SbChassis)
polled_chassis poll =
    cached_list key_of_sb_chassis decode_sb_chassis poll.chassis poll.chassis_check
      poll.chassis_full

unfoldable pub count_ports :
    (fold : String → String → Bool) (gateway_port here : String)
    → Option (List SbPortBinding)
    → Option (List SbChassis)
    → Option ℕ
unfolding hosts_by_ref counts count_if
count_ports fold gateway_port here none chassis = none
count_ports fold gateway_port here (some pbs) none = none
count_ports fold gateway_port here (some pbs) (some cs) =
    some (count_if (counts fold gateway_port here (hosts_by_ref cs [])) pbs)

-- `countLocalCRPorts`
unfoldable pub count_local_cr_ports :
    (fold : String → String → Bool) (gateway_port here : String) → PollReads → Option ℕ
unfolding count_ports cached_list
count_local_cr_ports fold gateway_port here poll =
    count_ports fold gateway_port here (polled_bindings poll) (polled_chassis poll)

-- How a drain ends: without a row to drain, with all ports gone, at the deadline, or with an error.
-- After `migrated` the code holds for the settle delay.
pub data Drained : Type 0 where
  nothing_to_drain : Drained
  migrated : Drained
  timed_out : (remaining : ℕ) → Drained
  failed : Drained

-- One poll that counted: whether the loop ends with it, or goes on to the rest.
abbrev pub poll_step : Option ℕ → (ℕ → Drained) → Drained
poll_step none rest = failed
poll_step (some zero) rest = migrated
poll_step (some (suc n)) rest = rest (suc n)

-- The poll loop. The deadline of the context ends it, so that finitely many polls follow the first;
-- after the last of them the context is done.
unfoldable pub poll_drain :
    (fold : String → String → Bool) (gateway_port here : String)
    → PollReads
    → List PollReads
    → Drained
unfolding count_local_cr_ports
poll_drain fold gateway_port here poll [] =
    poll_step (count_local_cr_ports fold gateway_port here poll) timed_out
poll_drain fold gateway_port here poll (next ∷ more) =
    let rest = poll_drain fold gateway_port here next more in
    poll_step (count_local_cr_ports fold gateway_port here poll) (λ n. rest)

abbrev pub poll_if : Bool → Drained → Drained
poll_if true rest = rest
poll_if false rest = failed

-- The part behind the search for rows.
unfoldable pub drain_rows : Database → Option (List NbGatewayChassis) → Drained → M Drained
unfolding built transact_if_any
drain_rows db none polls = pure failed
drain_rows db (some []) polls = pure nothing_to_drain
drain_rows db (some (r ∷ rs)) polls =
    transact_if_any db (built db (map (set_to (pos 0)) (r ∷ rs))) >>= λ done.
    pure (poll_if done polls)

-- `DrainGateways`
unfoldable pub drain_gateways :
    Database
    → (fold : String → String → Bool) → (gateway_port : String)
    → (cached : Option (List NbGatewayChassis)) → (selected : Option (List (List Row))) → PollReads
    → List PollReads
    → String
    → M Drained
unfolding with_fallback filter_drain_candidates drain_rows poll_drain
drain_gateways db fold gateway_port cached selected poll more here =
    drain_rows db (with_fallback filter_drain_candidates here cached selected)
      (poll_drain fold gateway_port here poll more)

unfoldable pub restore_rows : Database → Option (List NbGatewayChassis) → M Bool
unfolding built transact_if_any
restore_rows db none = pure false
restore_rows db (some rs) = transact_if_any db (built db (map (set_to (pos 1)) rs))

-- `RestoreDrainedGateways`: false where it logs an error.
unfoldable pub restore_drained_gateways :
    Database → Option (List NbGatewayChassis) → Option (List (List Row)) → String → M Bool
unfolding with_fallback filter_restore_candidates restore_rows
restore_drained_gateways db cached selected here =
    restore_rows db (with_fallback filter_restore_candidates here cached selected)
