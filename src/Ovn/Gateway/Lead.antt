-- ===== src/Ovn/Gateway/Lead.antt =====
-- `EnsureActivePriorityLead` of ovn_gateway.go, with the two direct selects that it makes.
use Prim.Native.String.{◌++◌ as ◌+++◌}
use mathlib.Core.List.{map}
use ovn_route_agent.Base.{
  ℤ, pos, negsuc, ◌+ℤ◌, ltb_ℤ, leb_ℤ, String, Bool, true, false, not, ◌&&◌, ◌||◌, Option, none,
  some, List, [], ◌∷◌, ◌++◌, ◌==◌, any, elem, lookup, insert, keys, or_empty, strip_suffix,
  if◌then◌else◌,
}
use ovn_route_agent.Ovn.Rows.{
  NbGatewayChassis, SbPortBinding, SbChassis, Row, decode_sb_chassis, decode_sb_port_binding,
  row_to_gateway_chassis,
}
use ovn_route_agent.Ovn.Cache.{direct_select}
use ovn_route_agent.Ovn.Gateway.Defs.{
  LocalRouterInfo, Op, set_priority, Database, M, pure, built, transact_if_any,
}

abbrev pub min_active_priority : ℤ
min_active_priority = pos 2

-- What the function reads: the cached Gateway_Chassis rows, the select for this chassis, and the
-- selects of the SB tables Chassis and Port_Binding; none where a read fails.
pub record LeadReads : Type 0 where
  pub cached : Option (List NbGatewayChassis)
  pub selected : Option (List (List Row))
  pub chassis : Option (List (List Row))
  pub port_bindings : Option (List (List Row))

-- `selectLocalGatewayChassis`
unfoldable pub select_local_gateway_chassis :
    Option (List (List Row)) → Option (List NbGatewayChassis)
unfolding direct_select
select_local_gateway_chassis reply = elim (direct_select reply) [
  | none ↦ none
  | some rows ↦ some (map row_to_gateway_chassis rows)
]

-- Names of chassis by row reference and by name.
unfoldable pub hosts_by_ref : List SbChassis → List (String × String) → List (String × String)
unfolding insert
hosts_by_ref [] m = m
hosts_by_ref (c ∷ cs) m = hosts_by_ref cs (insert c.name c.hostname (insert c.uuid c.hostname m))

abbrev pub is_bound : SbPortBinding → Bool
is_bound pb = pb.type == "chassisredirect" && not (or_empty pb.chassis == "")

unfoldable pub bound_ports :
    List (String × String) → List SbPortBinding → List (String × String) → List (String × String)
unfolding insert lookup
bound_ports hosts [] m = m
bound_ports hosts (pb ∷ pbs) m = bound_ports hosts pbs (
    if is_bound pb
    then insert pb.logical_port (or_empty (lookup (or_empty pb.chassis) hosts)) m
    else m)

-- `selectCRPortChassis`
unfoldable pub select_cr_port_chassis :
    Option (List (List Row)) → Option (List (List Row)) → Option (List (String × String))
unfolding direct_select hosts_by_ref bound_ports
select_cr_port_chassis chassis port_bindings = elim (direct_select chassis) [
  | none ↦ none
  | some cs ↦ elim (direct_select port_bindings) [
    | none ↦ none
    | some ps ↦ some (
        bound_ports (hosts_by_ref (map decode_sb_chassis cs) []) (map decode_sb_port_binding ps) [])
  ]
]

-- `haGroup`
pub record HaGroup : Type 0 where
  pub local : Option NbGatewayChassis
  pub max_peer : ℤ

unfoldable pub lrp_of : NbGatewayChassis → String
unfolding strip_suffix
lrp_of r = strip_suffix r.name ("_" +++ r.chassis_name)

abbrev pub new_group : HaGroup
new_group = record { local = none; max_peer = negsuc 0 }

-- One row of the loop that fills the groups.
unfoldable pub join_group : String → NbGatewayChassis → HaGroup → HaGroup
join_group here r g =
    if r.chassis_name == here
    then record g { local = some r }
    else if ltb_ℤ g.max_peer r.priority
    then record g { max_peer = r.priority }
    else g

abbrev pub group_or_new : Option HaGroup → HaGroup
group_or_new none = new_group
group_or_new (some g) = g

unfoldable pub collect_groups :
    String → List String → List NbGatewayChassis → List (String × HaGroup) → List (String × HaGroup)
collect_groups here active [] m = m
collect_groups here active (r ∷ rs) m = collect_groups here active rs (
    if elem (lrp_of r) active
    then insert (lrp_of r) (join_group here r (group_or_new (lookup (lrp_of r) m))) m
    else m)

-- `maxPeer + 1`, at least the minimum.
abbrev pub lead_over : ℤ → ℤ
lead_over max_peer =
    if ltb_ℤ (max_peer +ℤ pos 1) min_active_priority then min_active_priority else max_peer +ℤ pos 1

-- The chassisredirect port is known to be bound to another chassis.
unfoldable pub bound_elsewhere : String → Option (List (String × String)) → String → Bool
bound_elsewhere here none port = false
bound_elsewhere here (some bound) port = elim (lookup port bound) [
  | none ↦ false
  | some host ↦ not (host == here)
]

-- The operation for one group, from its two fields, if it needs one.
unfoldable pub boost : Bool → Option NbGatewayChassis → ℤ → Option Op
boost elsewhere none max_peer = none
boost elsewhere (some r) max_peer =
    if ltb_ℤ max_peer (pos 0)
      || (ltb_ℤ max_peer r.priority && leb_ℤ min_active_priority r.priority)
      || elsewhere
    then none
    else some (set_priority r (lead_over max_peer))

abbrev pub boost_group : Bool → Option HaGroup → Option Op
boost_group elsewhere none = none
boost_group elsewhere (some g) = boost elsewhere g.local g.max_peer

abbrev pub boost_at :
    String
    → Option (List (String × String))
    → List (String × String)
    → List (String × HaGroup)
    → String
    → Option Op
boost_at here bound ports groups lrp =
    boost_group (bound_elsewhere here bound (or_empty (lookup lrp ports))) (lookup lrp groups)

abbrev pub cons_some {ℓ} : {A : Type ℓ} → Option A → List A → List A
cons_some none xs = xs
cons_some (some x) xs = x ∷ xs

-- The loop over the groups, by their names; Go leaves the order of a map's `range` open.
unfoldable pub boost_ops :
    String
    → Option (List (String × String))
    → List (String × String)
    → List (String × HaGroup)
    → List String
    → List Op
boost_ops here bound ports groups [] = []
boost_ops here bound ports groups (lrp ∷ lrps) =
    cons_some (boost_at here bound ports groups lrp) (boost_ops here bound ports groups lrps)

unfoldable pub lrp_names : List LocalRouterInfo → List String
lrp_names [] = []
lrp_names (lr ∷ lrs) = lr.lrp_name ∷ lrp_names lrs

unfoldable pub cr_port_by_lrp :
    List LocalRouterInfo → List (String × String) → List (String × String)
unfolding insert
cr_port_by_lrp [] m = m
cr_port_by_lrp (lr ∷ lrs) m = cr_port_by_lrp lrs (insert lr.lrp_name lr.cr_port m)

-- The rows that the function works on: the cached ones, with the selected rows of this chassis
-- behind them where the cache has none.
unfoldable pub lead_rows : String → LeadReads → Option (List NbGatewayChassis)
unfolding any select_local_gateway_chassis
lead_rows here reads = elim reads.cached [
  | none ↦ none
  | some rows ↦
      if any (λ r. r.chassis_name == here) rows
      then some rows
      else elim (select_local_gateway_chassis reads.selected) [
        | none ↦ none
        | some more ↦ some (rows ++ more)
      ]
]

unfoldable pub lead_ops :
    String → LeadReads → List LocalRouterInfo → List NbGatewayChassis → List Op
lead_ops here reads lrs rows =
    let groups = collect_groups here (lrp_names lrs) rows [] in
    boost_ops here (select_cr_port_chassis reads.chassis reads.port_bindings)
      (cr_port_by_lrp lrs []) groups (keys groups)

-- The part behind the reads.
unfoldable pub send_lead :
    Database → LeadReads → List LocalRouterInfo → String → Option (List NbGatewayChassis) → M Bool
send_lead db reads lrs here none = pure false
send_lead db reads lrs here (some rows) =
    transact_if_any db (built db (lead_ops here reads lrs rows))

-- True where no error is returned.
unfoldable pub ensure_active_priority_lead :
    Database → LeadReads → List LocalRouterInfo → String → M Bool
unfolding send_lead
ensure_active_priority_lead db reads [] here = pure true
ensure_active_priority_lead db reads (lr ∷ lrs) here =
    send_lead db reads (lr ∷ lrs) here (lead_rows here reads)
