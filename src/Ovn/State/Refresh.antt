-- ===== src/Ovn/State/Refresh.antt =====
-- `refreshState` of ovn.go from its listings to the new state, `ovsdbEndpoints` and `getHostname`.
use ovn_route_agent.Base.{
  String, Bool, not, Option, none, some, List, [], ◌∷◌, map, ◌==◌, eqb, is_empty, filter, set_of,
  keys, split_by, trim_space,
}
use ovn_route_agent.Net.{IpNet}
use ovn_route_agent.Config.{Config}
use ovn_route_agent.Ovn.Rows.{
  SbPortBinding, SbChassis, NbNat, NbLogicalRouter, NbLogicalRouterPort, Row, decode_sb_chassis,
  decode_sb_port_binding, decode_nb_logical_router, decode_nb_logical_router_port, decode_nb_nat,
}
use ovn_route_agent.Ovn.Cache.{
  cached_list, key_of_sb_port_binding, key_of_sb_chassis, key_of_nb_logical_router,
  key_of_nb_logical_router_port, key_of_nb_nat,
}
use ovn_route_agent.Ovn.Gateway.Defs.{LocalRouterInfo}
use ovn_route_agent.Ovn.Gateway.Lead.{hosts_by_ref}
use ovn_route_agent.Ovn.State.Routers.{
  local_lrp_names, lrp_uuids, lrp_macs, lrp_by_uuid, local_lrp_uuids, RouterAcc, collect_routers,
}
use ovn_route_agent.Ovn.State.Nets.{router_networks, unique_networks}
use ovn_route_agent.Ovn.State.Nats.{
  effective_network_filters, NatAcc, collect_nats, collect_patches,
}

-- `OVNState`
pub record OvnState : Type 0 where
  pub local_chassis_name : String
  pub local_routers : List LocalRouterInfo
  pub has_local_routers : Bool
  pub fips : List String
  pub snat_ips : List String
  pub nat_ip_to_router_mac : List (String × String)
  pub discovered_networks : List IpNet
  pub all_chassis_names : List String

-- What `cachedList` works on for one table: the cache and the two selects, none where one fails.
pub record TableReads (T : Type 0) : Type 0 where
  pub cached : Option (List T)
  pub check : Option (List (List Row))
  pub full : Option (List (List Row))

pub record Reads : Type 0 where
  pub port_bindings : TableReads SbPortBinding
  pub chassis : TableReads SbChassis
  pub router_ports : TableReads NbLogicalRouterPort
  pub routers : TableReads NbLogicalRouter
  pub nats : TableReads NbNat

unfoldable pub read_table : {T : Type 0} → (T → String) → (Row → T) → TableReads T → Option (List T)
unfolding cached_list
read_table key_of decode reads = cached_list key_of decode reads.cached reads.check reads.full

unfoldable pub host_names : List SbChassis → List String
host_names [] = []
host_names (c ∷ cs) = c.hostname ∷ host_names cs

-- The rows that all five listings give.
pub record Tables : Type 0 where
  pub port_bindings : List SbPortBinding
  pub chassis : List SbChassis
  pub router_ports : List NbLogicalRouterPort
  pub routers : List NbLogicalRouter
  pub nats : List NbNat

-- The steps on the rows of one refresh.
unfoldable pub active_lrps : Config → (here : String) → Tables → List (String × String)
unfolding local_lrp_names hosts_by_ref
active_lrps cfg here t =
    local_lrp_names cfg.gateway_port here (hosts_by_ref t.chassis []) t.port_bindings []

unfoldable pub active_routers : Config → (here : String) → Tables → RouterAcc
unfolding active_lrps local_lrp_uuids lrp_uuids lrp_by_uuid collect_routers
active_routers cfg here t =
    let names = active_lrps cfg here t in
    collect_routers names (local_lrp_uuids (keys names) (lrp_uuids t.router_ports []))
      (lrp_by_uuid t.router_ports []) t.routers (record { local_routers = []; nat_macs = [] })

unfoldable pub active_networks : Config → (here : String) → Tables → List IpNet
unfolding active_routers unique_networks router_networks
active_networks cfg here t =
    unique_networks (router_networks (active_routers cfg here t).local_routers)

unfoldable pub active_filters : Config → (here : String) → Tables → List IpNet
unfolding active_networks effective_network_filters
active_filters cfg here t =
    effective_network_filters cfg.network_filters (active_networks cfg here t)

unfoldable pub active_nats : Config → (here : String) → Tables → NatAcc
unfolding active_filters active_lrps active_routers collect_nats collect_patches lrp_macs
active_nats cfg here t =
    let filters = active_filters cfg here t in
    collect_patches filters (active_lrps cfg here t) (lrp_macs t.router_ports []) t.port_bindings (
      collect_nats filters (active_routers cfg here t).nat_macs t.nats
        (record { fips = []; snat_ips = []; macs = [] }))

-- Step 6
unfoldable pub derive_state : Config → (here : String) → Tables → OvnState
unfolding active_routers active_networks active_nats set_of host_names
derive_state cfg here t = record {
  local_chassis_name = here;
  local_routers = (active_routers cfg here t).local_routers;
  has_local_routers = not (is_empty (active_routers cfg here t).local_routers);
  fips = (active_nats cfg here t).fips;
  snat_ips = (active_nats cfg here t).snat_ips;
  nat_ip_to_router_mac = (active_nats cfg here t).macs;
  discovered_networks = active_networks cfg here t;
  all_chassis_names = set_of (host_names t.chassis);
}

infixl 5 ◌>>=◌
abbrev ◌>>=◌ {ℓ κ} : {A : Type ℓ} {B : Type κ} → Option A → (A → Option B) → Option B
none >>= next = none
some a >>= next = next a

-- The five listings in order; the first that fails ends the refresh.
unfoldable pub read_tables : Reads → Option Tables
unfolding read_table
read_tables reads = do
  port_bindings ← read_table key_of_sb_port_binding decode_sb_port_binding reads.port_bindings
  chassis ← read_table key_of_sb_chassis decode_sb_chassis reads.chassis
  router_ports ←
      read_table key_of_nb_logical_router_port decode_nb_logical_router_port reads.router_ports
  routers ← read_table key_of_nb_logical_router decode_nb_logical_router reads.routers
  nats ← read_table key_of_nb_nat decode_nb_nat reads.nats
  some (record {
    port_bindings = port_bindings;
    chassis = chassis;
    router_ports = router_ports;
    routers = routers;
    nats = nats;
  })

abbrev pub refreshed : Config → OvnState → Option Tables → OvnState
refreshed cfg state none = state
refreshed cfg state (some t) = derive_state cfg state.local_chassis_name t

-- `refreshState`
unfoldable pub refresh_state : Config → Reads → OvnState → OvnState
unfolding read_tables derive_state
refresh_state cfg reads state = refreshed cfg state (read_tables reads)

-- `ovsdbEndpoints`
unfoldable pub ovsdb_endpoints : String → List String
unfolding split_by trim_space filter
ovsdb_endpoints remote =
    filter (λ p. not (p == "")) (map trim_space (split_by (λ c. eqb c b',') remote))

abbrev first_label : List String → String
first_label [] = ""
first_label (label ∷ labels) = label

-- `getHostname` behind `os.Hostname`: the text before the first dot.
unfoldable pub short_hostname : String → String
unfolding split_by
short_hostname h = first_label (split_by (λ c. eqb c b'.') h)
