-- ===== src/Ovn/Gateway/Routing.antt =====
-- `EnsureGatewayRouting` of ovn_gateway.go: the default route and the MAC binding of each local router.
use ovn_route_agent.Base.{
  ℕ, ◌+◌, ◌-◌, ◌*◌, ◌/◌, ◌%◌, ◌^◌, String, Bool, true, false, not, ◌&&◌, Option, none, some, List,
  [], ◌∷◌, ◌==◌, eqb, find, elem, lookup, or_empty, if◌then◌else◌,
}
use ovn_route_agent.Net.{Ip, v4, v6, IpNet, parse_cidr, is_v4, ip_text}
use ovn_route_agent.Ovn.Rows.{NbStaticRoute, NbStaticMacBinding, NbLogicalRouter}
use ovn_route_agent.Ovn.Gateway.Defs.{
  LocalRouterInfo, Op, set_route_chassis, set_route_target, insert_route, link_route,
  set_binding_mac, insert_binding, Txn, Database, M, ◌>>=◌, ◌>>◌, pure, transact_ops,
}

-- `uint32(1)<<(32-ones) - 1`, with its wrap-around
abbrev pub host_bits : ℕ → ℕ
host_bits ones = (2 ^ (32 - ones) % 2 ^ 32 + (2 ^ 32 - 1)) % 2 ^ 32

-- `netInt | hostBits - 1`, where Go's `|` and `-` bind alike: the low bits are set first.
abbrev pub last_usable : (ones net : ℕ) → ℕ
last_usable ones net =
    (net / 2 ^ (32 - ones) * 2 ^ (32 - ones) + host_bits ones + (2 ^ 32 - 1)) % 2 ^ 32

abbrev pub usable : Ip × IpNet → Bool
usable (ip, net) = is_v4 ip && not (eqb net.ones 32) && eqb net.bits 32

abbrev pub gateway_in : Ip → (ones : ℕ) → Option Ip
gateway_in (v4 n) ones = some (v4 (last_usable ones n))
gateway_in (v6 n) ones = none

abbrev gateway_or : Option (Ip × IpNet) → Option Ip → Option Ip
gateway_or none rest = rest
gateway_or (some (ip, net)) rest = if usable (ip, net) then gateway_in net.ip net.ones else rest

-- `virtualGatewayIP`, none where it returns an error
unfoldable pub virtual_gateway_ip : List String → Option Ip
unfolding parse_cidr
virtual_gateway_ip [] = none
virtual_gateway_ip (cidr ∷ cidrs) = gateway_or (parse_cidr cidr) (virtual_gateway_ip cidrs)

abbrev pub is_managed_route : NbStaticRoute → Bool
is_managed_route route = or_empty (lookup "ovn-network-agent" route.external_ids) == "managed"

abbrev pub chassis_tag : NbStaticRoute → String
chassis_tag route = or_empty (lookup "ovn-network-agent-chassis" route.external_ids)

-- The cached tables of the NB database, by the transactions sent before; none where a listing fails.
pub record NbCache : Type 0 where
  pub static_routes : List Txn → Option (List NbStaticRoute)
  pub routers : List Txn → Option (List NbLogicalRouter)
  pub bindings : List Txn → Option (List NbStaticMacBinding)

-- The operation is built, and sent with those that need no building.
unfoldable pub write_op : Database → Op → Txn → M Bool
unfolding transact_ops
write_op db op more = if db.builds op then transact_ops db (op ∷ more) else pure false

unfoldable pub default_route : NbLogicalRouter → List NbStaticRoute → Option NbStaticRoute
unfolding find elem
default_route router =
    find (λ route. elem route.uuid router.static_routes && route.ip_prefix == "0.0.0.0/0")

-- The change that the default route of a router needs.
unfoldable pub route_ops : (here vgw : String) → LocalRouterInfo → Option NbStaticRoute → Txn
unfolding lookup
route_ops here vgw lr none =
    insert_route vgw lr.lrp_name here ∷ link_route lr.router_uuid "new_route" ∷ []
route_ops here vgw lr (some route) =
    if not (is_managed_route route)
    then []
    else if route.nexthop == vgw
    then if chassis_tag route == here then [] else set_route_chassis route.uuid here ∷ []
    else set_route_target route.uuid vgw lr.lrp_name here ∷ []

unfoldable pub write_ops : Database → Txn → M Bool
unfolding write_op
write_ops db [] = pure true
write_ops db (op ∷ more) = write_op db op more

abbrev pub ensure_route_of :
    Database
    → (here vgw : String) → LocalRouterInfo
    → List NbStaticRoute
    → Option NbLogicalRouter
    → M Bool
ensure_route_of db here vgw lr routes none = pure false
ensure_route_of db here vgw lr routes (some router) =
    write_ops db (route_ops here vgw lr (default_route router routes))

abbrev pub with_rows : {T : Type 0} → Option (List T) → (List T → M Bool) → M Bool
with_rows none k = pure false
with_rows (some rows) k = k rows

-- `ensureDefaultRoute`, true where it returns no error
unfoldable pub ensure_default_route :
    Database → NbCache → (here : String) → LocalRouterInfo → (vgw : String) → M Bool
unfolding route_ops default_route write_ops find
ensure_default_route db cache here lr vgw h =
    with_rows (cache.static_routes h)
      (λ routes. with_rows (cache.routers h) (λ routers.
        ensure_route_of db here vgw lr routes (find (λ r. r.uuid == lr.router_uuid) routers)))
      h

unfoldable pub binding_ops : (port ip mac : String) → Option NbStaticMacBinding → Txn
binding_ops port ip mac none = insert_binding port ip mac ∷ []
binding_ops port ip mac (some b) = if b.mac == mac then [] else set_binding_mac b.uuid mac ∷ []

-- `ensureStaticMACBinding`
unfoldable pub ensure_static_mac_binding : Database → NbCache → (port ip mac : String) → M Bool
unfolding binding_ops write_ops find
ensure_static_mac_binding db cache port ip mac h =
    with_rows (cache.bindings h)
      (λ bindings.
        write_ops db
          (binding_ops port ip mac (find (λ b. b.logical_port == port && b.ip == ip) bindings)))
      h

abbrev pub then_binding : Database → NbCache → (port ip mac : String) → Bool → M Bool
then_binding db cache port ip mac true = ensure_static_mac_binding db cache port ip mac
then_binding db cache port ip mac false = pure false

abbrev pub ensure_router :
    Database → NbCache → (here mac : String) → LocalRouterInfo → Option Ip → M Bool
ensure_router db cache here mac lr none = pure false
ensure_router db cache here mac lr (some vgw) =
    ensure_default_route db cache here lr (ip_text vgw)
    >>= then_binding db cache lr.lrp_name (ip_text vgw) mac

-- `EnsureGatewayRouting`: errors are logged and passed over.
unfoldable pub ensure_gateway_routing :
    Database → NbCache → (here : String) → List LocalRouterInfo → (mac : String) → M Bool
unfolding virtual_gateway_ip ensure_default_route ensure_static_mac_binding ip_text
ensure_gateway_routing db cache here [] mac = pure true
ensure_gateway_routing db cache here (lr ∷ lrs) mac =
    ensure_router db cache here mac lr (virtual_gateway_ip lr.lrp_networks)
    >> ensure_gateway_routing db cache here lrs mac
