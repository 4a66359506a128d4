-- ===== src/Ovn/State/Routers.antt =====
-- Steps 1 to 3 of `refreshState` in ovn.go: the ports that are active here, and their routers.
use ovn_route_agent.Base.{
  String, Bool, not, ◌&&◌, Option, none, some, List, [], ◌∷◌, ◌++◌, ◌==◌, if◌then◌else◌, find, elem,
  add, lookup, insert, or_empty, strip_prefix,
}
use ovn_route_agent.Ovn.Rows.{SbPortBinding, NbLogicalRouter, NbLogicalRouterPort}
use ovn_route_agent.Ovn.Gateway.Defs.{LocalRouterInfo}
use ovn_route_agent.Ovn.Gateway.Lead.{is_bound}

-- Step 1: the names of the router ports that are active here, with their chassisredirect ports.
abbrev pub is_here : (gateway_port here : String) → List (String × String) → SbPortBinding → Bool
is_here gateway_port here hosts pb =
    is_bound pb
    && not (not (gateway_port == "") && not (pb.logical_port == gateway_port))
    && or_empty (lookup (or_empty pb.chassis) hosts) == here

unfoldable pub local_lrp_names :
    (gateway_port here : String)
    → List (String × String)
    → List SbPortBinding
    → List (String × String)
    → List (String × String)
unfolding lookup insert strip_prefix
local_lrp_names gateway_port here hosts [] m = m
local_lrp_names gateway_port here hosts (pb ∷ pbs) m = local_lrp_names gateway_port here hosts pbs (
    if is_here gateway_port here hosts pb
    then insert (strip_prefix pb.logical_port "cr-") pb.logical_port m
    else m)

-- Step 2: the maps of the router ports.
unfoldable pub lrp_uuids :
    List NbLogicalRouterPort → List (String × String) → List (String × String)
unfolding insert
lrp_uuids [] m = m
lrp_uuids (p ∷ ps) m = lrp_uuids ps (insert p.name p.uuid m)

unfoldable pub lrp_macs : List NbLogicalRouterPort → List (String × String) → List (String × String)
unfolding insert
lrp_macs [] m = m
lrp_macs (p ∷ ps) m = lrp_macs ps (insert p.name p.mac m)

unfoldable pub lrp_by_uuid :
    List NbLogicalRouterPort
    → List (String × NbLogicalRouterPort)
    → List (String × NbLogicalRouterPort)
unfolding insert
lrp_by_uuid [] m = m
lrp_by_uuid (p ∷ ps) m = lrp_by_uuid ps (insert p.uuid p m)

abbrev pub add_some : Option String → List String → List String
add_some none xs = xs
add_some (some x) xs = add x xs

unfoldable pub local_lrp_uuids : (names : List String) → List (String × String) → List String
unfolding lookup add
local_lrp_uuids [] uuids = []
local_lrp_uuids (name ∷ names) uuids = add_some (lookup name uuids) (local_lrp_uuids names uuids)

-- Step 3: the routers with a local port, and the MAC of that port for each NAT of such a router.
pub record RouterAcc : Type 0 where
  pub local_routers : List LocalRouterInfo
  pub nat_macs : List (String × String)

abbrev zero_lrp : NbLogicalRouterPort
zero_lrp = record { uuid = ""; name = ""; mac = ""; networks = [] }

abbrev lrp_or_zero : Option NbLogicalRouterPort → NbLogicalRouterPort
lrp_or_zero none = zero_lrp
lrp_or_zero (some p) = p

abbrev matched_by : Option String → List (String × NbLogicalRouterPort) → Option NbLogicalRouterPort
matched_by none ports = none
matched_by (some uuid) ports = some (lrp_or_zero (lookup uuid ports))

unfoldable pub matched_lrp :
    (local_uuids : List String)
    → List (String × NbLogicalRouterPort)
    → NbLogicalRouter
    → Option NbLogicalRouterPort
unfolding find elem lookup
matched_lrp local_uuids ports router =
    matched_by (find (λ uuid. elem uuid local_uuids) router.ports) ports

unfoldable pub own_nats :
    (mac : String) → List String → List (String × String) → List (String × String)
unfolding insert
own_nats mac [] m = m
own_nats mac (uuid ∷ uuids) m = own_nats mac uuids (if mac == "" then m else insert uuid mac m)

abbrev pub router_info :
    List (String × String) → NbLogicalRouter → NbLogicalRouterPort → LocalRouterInfo
router_info names router p = record {
  router_name = router.name;
  router_uuid = router.uuid;
  lrp_name = p.name;
  lrp_uuid = p.uuid;
  lrp_mac = p.mac;
  lrp_networks = p.networks;
  cr_port = or_empty (lookup p.name names);
}

abbrev pub join_router :
    List (String × String) → NbLogicalRouter → Option NbLogicalRouterPort → RouterAcc → RouterAcc
join_router names router none acc = acc
join_router names router (some p) acc = record {
  local_routers = acc.local_routers ++ (router_info names router p ∷ []);
  nat_macs = own_nats p.mac router.nat acc.nat_macs;
}

unfoldable pub collect_routers :
    List (String × String)
    → (local_uuids : List String) → List (String × NbLogicalRouterPort)
    → List NbLogicalRouter
    → RouterAcc
    → RouterAcc
unfolding matched_lrp own_nats
collect_routers names local_uuids ports [] acc = acc
collect_routers names local_uuids ports (router ∷ routers) acc =
    collect_routers names local_uuids ports routers
      (join_router names router (matched_lrp local_uuids ports router) acc)
