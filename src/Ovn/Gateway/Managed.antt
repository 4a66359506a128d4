-- ===== src/Ovn/Gateway/Managed.antt =====
-- The removal of managed entries in ovn_gateway.go: on shutdown, and for chassis that are gone.
use ovn_route_agent.Base.{
  String, Bool, true, false, not, ◌&&◌, Option, none, some, List, [], ◌∷◌, ◌==◌, any, find, elem,
  add, lookup, insert, if◌then◌else◌,
}
use ovn_route_agent.Ovn.Rows.{
  NbStaticRoute, NbStaticMacBinding, NbLogicalRouter, decode_nb_static_route,
  decode_nb_logical_router, decode_nb_static_mac_binding,
}
use ovn_route_agent.Ovn.Cache.{
  key_of_nb_static_route, key_of_nb_logical_router, key_of_nb_static_mac_binding,
}
use ovn_route_agent.Ovn.Gateway.Defs.{
  LocalRouterInfo, unlink_route, delete_route, delete_binding, Txn, Database, M, ◌>>◌, pure,
  transact_ops,
}
use ovn_route_agent.Ovn.Gateway.Routing.{is_managed_route, chassis_tag}
use ovn_route_agent.Ovn.State.Refresh.{TableReads, read_table}

-- What the functions read through `cachedList`; the bindings are read after the routes are removed,
-- so they depend on the transactions sent before.
pub record EntryReads : Type 0 where
  pub static_routes : TableReads NbStaticRoute
  pub routers : TableReads NbLogicalRouter
  pub bindings : List Txn → TableReads NbStaticMacBinding

unfoldable pub read_routes : EntryReads → Option (List NbStaticRoute)
unfolding read_table
read_routes reads = read_table key_of_nb_static_route decode_nb_static_route reads.static_routes

unfoldable pub read_routers : EntryReads → Option (List NbLogicalRouter)
unfolding read_table
read_routers reads = read_table key_of_nb_logical_router decode_nb_logical_router reads.routers

unfoldable pub read_bindings : EntryReads → List Txn → Option (List NbStaticMacBinding)
unfolding read_table
read_bindings reads h =
    read_table key_of_nb_static_mac_binding decode_nb_static_mac_binding (reads.bindings h)

abbrev pub with_list : {T : Type 0} → Option (List T) → (List T → M Bool) → M Bool
with_list none k = pure false
with_list (some rows) k = k rows

-- A route and its place in the router go in one transaction; an operation that cannot be built is
-- passed over.
abbrev pub removal : (router route : String) → Txn
removal router route = unlink_route router route ∷ delete_route route ∷ []

unfoldable pub remove_route : Database → NbStaticRoute → Option NbLogicalRouter → M Bool
unfolding transact_ops
remove_route db route none = pure true
remove_route db route (some router) =
    if db.builds (delete_route route.uuid)
    then transact_ops db (removal router.uuid route.uuid)
    else pure false

unfoldable pub remove_binding : Database → NbStaticMacBinding → M Bool
unfolding transact_ops
remove_binding db b =
    if db.builds (delete_binding b.uuid)
    then transact_ops db (delete_binding b.uuid ∷ [])
    else pure false

unfoldable pub uuids_of : List LocalRouterInfo → List String
unfolding add
uuids_of [] = []
uuids_of (lr ∷ lrs) = add lr.router_uuid (uuids_of lrs)

unfoldable pub ports_of : List LocalRouterInfo → List String
unfolding add
ports_of [] = []
ports_of (lr ∷ lrs) = add lr.lrp_name (ports_of lrs)

-- The first local router that holds the route.
unfoldable pub local_owner :
    (local : List String) → List NbLogicalRouter → NbStaticRoute → Option NbLogicalRouter
unfolding find elem
local_owner local routers route =
    find (λ r. elem r.uuid local && elem route.uuid r.static_routes) routers

unfoldable pub remove_managed_routes :
    Database → (local : List String) → List NbLogicalRouter → List NbStaticRoute → M Bool
unfolding remove_route local_owner lookup
remove_managed_routes db local routers [] = pure true
remove_managed_routes db local routers (route ∷ routes) =
    (if is_managed_route route
      then remove_route db route (local_owner local routers route)
      else pure true)
    >> remove_managed_routes db local routers routes

-- The bindings that a test selects.
unfoldable pub remove_bindings :
    Database → (NbStaticMacBinding → Bool) → List NbStaticMacBinding → M Bool
unfolding remove_binding
remove_bindings db selected [] = pure true
remove_bindings db selected (b ∷ bs) =
    (if selected b then remove_binding db b else pure true) >> remove_bindings db selected bs

abbrev pub on_port : List String → NbStaticMacBinding → Bool
on_port ports b = elem b.logical_port ports

-- `RemoveManagedNBEntries`, true where it returns no error
unfoldable pub remove_managed_nb_entries :
    Database → EntryReads → (local_routers : List LocalRouterInfo) → M Bool
unfolding read_routes read_routers read_bindings remove_managed_routes remove_bindings uuids_of
    ports_of
remove_managed_nb_entries db reads [] = pure true
remove_managed_nb_entries db reads (lr ∷ lrs) = with_list (read_routes reads) (λ routes.
    with_list (read_routers reads) (λ routers.
      remove_managed_routes db (uuids_of (lr ∷ lrs)) routers routes >> λ h.
      with_list (read_bindings reads h) (remove_bindings db (on_port (ports_of (lr ∷ lrs)))) h))

unfoldable pub chassis_tags : List NbStaticRoute → List String
unfolding lookup add
chassis_tags [] = []
chassis_tags (route ∷ routes) =
    let rest = chassis_tags routes in
    if is_managed_route route && not (chassis_tag route == "")
    then add (chassis_tag route) rest
    else rest

abbrev tags_or_none : Option (List NbStaticRoute) → Option (List String)
tags_or_none none = none
tags_or_none (some routes) = some (chassis_tags routes)

-- `ListManagedRouteChassis`, none for nil
unfoldable pub list_managed_route_chassis : EntryReads → Option (List String)
unfolding read_routes chassis_tags
list_managed_route_chassis reads = tags_or_none (read_routes reads)

abbrev pub is_stale : (stale : List String) → NbStaticRoute → Bool
is_stale stale route =
    is_managed_route route && not (chassis_tag route == "") && elem (chassis_tag route) stale

abbrev pub is_live : (stale : List String) → NbStaticRoute → Bool
is_live stale route =
    is_managed_route route && not (chassis_tag route == "") && not (elem (chassis_tag route) stale)

abbrev pub on_output : (port : String) → Option String → Bool
on_output port none = false
on_output port (some p) = p == port

-- The port still has a route of a chassis that is not stale.
unfoldable pub is_live_port : (stale : List String) → List NbStaticRoute → String → Bool
unfolding any elem lookup
is_live_port stale routes port = any (λ r. is_live stale r && on_output port r.output_port) routes

unfoldable pub claim_routes :
    NbLogicalRouter
    → List String
    → List (String × NbLogicalRouter)
    → List (String × NbLogicalRouter)
unfolding insert
claim_routes router [] m = m
claim_routes router (uuid ∷ uuids) m = claim_routes router uuids (insert uuid router m)

-- `routeToRouter`
unfoldable pub route_to_router :
    List NbLogicalRouter → List (String × NbLogicalRouter) → List (String × NbLogicalRouter)
unfolding claim_routes
route_to_router [] m = m
route_to_router (r ∷ rs) m = route_to_router rs (claim_routes r r.static_routes m)

abbrev pub owned_by : Option NbLogicalRouter → Bool
owned_by none = false
owned_by (some router) = true

-- `staleBindingKeys`: the binding belongs to a stale route whose port has no live owner.
unfoldable pub is_stale_binding :
    (stale : List String)
    → List NbStaticRoute
    → List (String × NbLogicalRouter)
    → NbStaticMacBinding
    → Bool
unfolding any elem lookup is_live_port
is_stale_binding stale routes owners b =
    any
      (λ r.
        is_stale stale r
        && owned_by (lookup r.uuid owners)
        && on_output b.logical_port r.output_port
        && not (is_live_port stale routes b.logical_port)
        && r.nexthop == b.ip)
      routes

unfoldable pub remove_stale_routes :
    Database → (stale : List String) → List (String × NbLogicalRouter) → List NbStaticRoute → M Bool
unfolding remove_route elem lookup
remove_stale_routes db stale owners [] = pure true
remove_stale_routes db stale owners (route ∷ routes) =
    (if is_stale stale route then remove_route db route (lookup route.uuid owners) else pure true)
    >> remove_stale_routes db stale owners routes

-- Whether `staleBindingKeys` has an entry.
unfoldable pub has_stale_binding :
    (stale : List String) → List NbStaticRoute → List (String × NbLogicalRouter) → Bool
unfolding any elem lookup is_live_port
has_stale_binding stale routes owners =
    any (λ r. is_stale stale r && owned_by (lookup r.uuid owners) && not_live r.output_port) routes
  where
    not_live : Option String → Bool
    not_live none = false
    not_live (some port) = not (is_live_port stale routes port)

-- `CleanupStaleChassisManagedEntries`, true where it returns no error
unfoldable pub cleanup_stale_chassis_managed_entries :
    Database → EntryReads → (stale : List String) → M Bool
unfolding read_routes read_routers read_bindings route_to_router remove_stale_routes remove_bindings
    is_stale_binding has_stale_binding
cleanup_stale_chassis_managed_entries db reads stale = with_list (read_routes reads) (λ routes.
    with_list (read_routers reads) (λ routers.
      let owners = route_to_router routers [] in
      remove_stale_routes db stale owners routes >> λ h.
      if has_stale_binding stale routes owners
      then with_list (read_bindings reads h)
          (remove_bindings db (is_stale_binding stale routes owners)) h
      else (true, h)))
