-- ===== src/Examples/State.antt =====
-- Sample tables: the gateway of one router is bound to this chassis.
use ovn_route_agent.Base.{false, ◌≡◌, refl, none, some, List, [], ◌∷◌, split_by, trim_space, filter}
use ovn_route_agent.Ovn.Rows.{SbPortBinding, SbChassis, NbNat, NbLogicalRouter, NbLogicalRouterPort}
use ovn_route_agent.Ovn.State.Refresh.{
  OvnState, Reads, Tables, TableReads, short_hostname, ovsdb_endpoints,
}

abbrev rows_of : {T : Type 0} → List T → TableReads T
rows_of rows = record { cached = some rows; check = none; full = none }

abbrev pub cr_port : SbPortBinding
cr_port = record {
  uuid = "p1";
  logical_port = "cr-lrp-a";
  type = "chassisredirect";
  chassis = some "c1";
  options = [];
  nat_addresses = [];
  external_ids = [];
}

abbrev patch : SbPortBinding
patch = record {
  uuid = "p2";
  logical_port = "x";
  type = "patch";
  chassis = none;
  options = ("peer", "lrp-a") ∷ [];
  nat_addresses = "fa:16:3e:00:00:01 192.0.2.20 is_chassis_resident(\"cr-lrp-a\")" ∷ [];
  external_ids = ("neutron:device_owner", "network:router_gateway") ∷ [];
}

abbrev here : SbChassis
here = record { uuid = "c1"; name = "one"; hostname = "node1" }

abbrev port : NbLogicalRouterPort
port = record {
  uuid = "l1";
  name = "lrp-a";
  mac = "fa:16:3e:00:00:01";
  networks = "192.0.2.5/24" ∷ [];
}

abbrev router : NbLogicalRouter
router = record { uuid = "r1"; name = "a"; ports = "l1" ∷ []; nat = "n1" ∷ []; static_routes = [] }

abbrev nat : NbNat
nat = record { uuid = "n1"; type = "dnat_and_snat"; external_ip = "192.0.2.7" }

abbrev tables : Tables
tables = record {
  port_bindings = cr_port ∷ patch ∷ [];
  chassis = here ∷ [];
  router_ports = port ∷ [];
  routers = router ∷ [];
  nats = nat ∷ [];
}

abbrev reads : Reads
reads = record {
  port_bindings = rows_of (cr_port ∷ patch ∷ []);
  chassis = rows_of (here ∷ []);
  router_ports = rows_of (port ∷ []);
  routers = rows_of (router ∷ []);
  nats = rows_of (nat ∷ []);
}

abbrev start : OvnState
start = record {
  local_chassis_name = "node1";
  local_routers = [];
  has_local_routers = false;
  fips = [];
  snat_ips = [];
  nat_ip_to_router_mac = [];
  discovered_networks = [];
  all_chassis_names = [];
}

hostname-cut : short_hostname "node1.example.org" ≡ "node1"
unfolding short_hostname split_by
hostname-cut = refl

endpoints-trimmed : ovsdb_endpoints "tcp:a:1, ,tcp:b:2" ≡ "tcp:a:1" ∷ "tcp:b:2" ∷ []
unfolding ovsdb_endpoints split_by trim_space filter
endpoints-trimmed = refl
