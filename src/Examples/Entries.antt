-- ===== src/Examples/Entries.antt =====
-- Sample NB entries: a managed route of a chassis that is gone, with its MAC binding.
use ovn_route_agent.Base.{
  pos, ◌+◌, ◌*◌, ◌/◌, ◌^◌, ◌-◌, true, ◌≡◌, refl, inl, none, some, List, [], ◌∷◌, In, All, elem,
  lookup, insert, arith,
}
use ovn_route_agent.Ovn.Rows.{NbStaticRoute, NbStaticMacBinding, NbLogicalRouter}
use ovn_route_agent.Ovn.Cache.{direct_select}
use ovn_route_agent.Ovn.State.Refresh.{read_table}
use ovn_route_agent.Ovn.Gateway.Defs.{LocalRouterInfo, Txn, delete_binding}
use ovn_route_agent.Ovn.Gateway.Routing.{
  NbCache, is_managed_route, last_usable, ensure_gateway_routing,
}
use ovn_route_agent.Ovn.Gateway.Managed.{
  EntryReads, read_routes, read_routers, read_bindings, removal, uuids_of, ports_of, local_owner,
  route_to_router, claim_routes, remove_managed_nb_entries, cleanup_stale_chassis_managed_entries,
}
use ovn_route_agent.Ovn.Gateway.Removed.{IsRemoval, remove_managed_nb_entries-IsRemoval}
use ovn_route_agent.Ovn.Gateway.Sent.{remove_managed_nb_entries_complete, cleanup_stale_complete}
use ovn_route_agent.Ovn.Gateway.Virtual.{last_usable-eq}
use ovn_route_agent.Ovn.Gateway.Untouched.{AllowedTxn, ensure_gateway_routing-Allowed}
use ovn_route_agent.Agent.Spared.{IsOrphan, OrphanBinding, stale_cycle, stale_cycle-IsRemoval}
use ovn_route_agent.Examples.Gateway.{working}

abbrev route : NbStaticRoute
route = record {
  uuid = "s1";
  ip_prefix = "0.0.0.0/0";
  nexthop = "192.0.2.254";
  output_port = some "lrp-a";
  external_ids = ("ovn-network-agent", "managed") ∷ ("ovn-network-agent-chassis", "gone") ∷ [];
}

abbrev router : NbLogicalRouter
router = record { uuid = "r1"; name = "a"; ports = "l1" ∷ []; nat = []; static_routes = "s1" ∷ [] }

abbrev binding : NbStaticMacBinding
binding = record {
  uuid = "b1";
  logical_port = "lrp-a";
  ip = "192.0.2.254";
  mac = "fa:16:3e:00:00:02";
}

abbrev pub info : LocalRouterInfo
info = record {
  router_name = "a";
  router_uuid = "r1";
  lrp_name = "lrp-a";
  lrp_uuid = "l1";
  lrp_mac = "fa:16:3e:00:00:01";
  lrp_networks = "192.0.2.5/24" ∷ [];
  cr_port = "cr-lrp-a";
}

abbrev reads : EntryReads
reads = record {
  static_routes = record { cached = some (route ∷ []); check = none; full = none };
  routers = record { cached = some (router ∷ []); check = none; full = none };
  bindings = λ h. record { cached = some (binding ∷ []); check = none; full = none };
}

routes-read : read_routes reads ≡ some (route ∷ [])
unfolding read_routes read_table direct_select
routes-read = refl

routers-read : read_routers reads ≡ some (router ∷ [])
unfolding read_routers read_table direct_select
routers-read = refl

bindings-read : (h : List Txn) → read_bindings reads h ≡ some (binding ∷ [])
unfolding read_bindings read_table direct_select
bindings-read h = refl

remove_managed_nb_entries-IsRemoval_example :
    All
      (IsRemoval reads
        (λ route router. elem router.uuid (uuids_of (info ∷ [])) ≡ true)
        (λ b. elem b.logical_port (ports_of (info ∷ [])) ≡ true))
      (remove_managed_nb_entries working reads (info ∷ []) []).1
remove_managed_nb_entries-IsRemoval_example =
    remove_managed_nb_entries-IsRemoval working reads (info ∷ [])

remove_managed_nb_entries_complete_example :
    ((r : NbStaticRoute) (o : NbLogicalRouter)
      → In r (route ∷ [])
      → is_managed_route r ≡ true
      → local_owner (uuids_of (info ∷ [])) (router ∷ []) r ≡ some o
      → In (removal o.uuid r.uuid) (remove_managed_nb_entries working reads (info ∷ []) []).1)
    × ((b : NbStaticMacBinding)
        → In b (binding ∷ [])
        → elem b.logical_port (ports_of (info ∷ [])) ≡ true
        → In
            (delete_binding b.uuid ∷ [])
            (remove_managed_nb_entries working reads (info ∷ []) []).1)
remove_managed_nb_entries_complete_example =
    remove_managed_nb_entries_complete working reads info [] (route ∷ []) (router ∷ [])
      (binding ∷ []) (λ op. refl) routes-read routers-read bindings-read

cleanup_stale_complete_example :
    In (removal "r1" "s1") (cleanup_stale_chassis_managed_entries working reads ("gone" ∷ []) []).1
unfolding elem lookup insert route_to_router claim_routes
cleanup_stale_complete_example =
    cleanup_stale_complete working reads ("gone" ∷ []) (route ∷ []) (router ∷ []) (binding ∷ [])
      route router (λ op. refl) routes-read routers-read bindings-read (inl refl) refl refl

last_usable-eq_example :
    last_usable 24 3221225984 + 2 ≡ 3221225984 / 2 ^ (32 - 24) * 2 ^ (32 - 24) + 2 ^ (32 - 24)
last_usable-eq_example = last_usable-eq 24 3221225984 (omega arith) (omega arith)

abbrev cache : NbCache
cache = record {
  static_routes = λ h. some (route ∷ []);
  routers = λ h. some (router ∷ []);
  bindings = λ h. some (binding ∷ []);
}

ensure_gateway_routing-Allowed_example :
    All
      (AllowedTxn cache "node1" "fa:16:3e:00:00:09")
      (ensure_gateway_routing working cache "node1" (info ∷ []) "fa:16:3e:00:00:09" []).1
ensure_gateway_routing-Allowed_example =
    ensure_gateway_routing-Allowed working cache "node1" (info ∷ []) "fa:16:3e:00:00:09"

stale_cycle-IsRemoval_example :
    All
      (IsRemoval reads
        (λ route router. IsOrphan ("node1" ∷ []) route)
        (OrphanBinding ("node1" ∷ []) (route ∷ [])))
      (stale_cycle working reads reads 500 (pos 300) 30 ("node1" ∷ []) (("gone", 100) ∷ []))
stale_cycle-IsRemoval_example =
    stale_cycle-IsRemoval working reads reads 500 (pos 300) 30 ("node1" ∷ []) (("gone", 100) ∷ [])
      (route ∷ []) routes-read
