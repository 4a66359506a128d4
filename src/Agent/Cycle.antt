-- ===== src/Agent/Cycle.antt =====
-- The life of the agent in agent.go: start, one reconcile cycle and shutdown, as the calls that it
-- makes, in order.
use ovn_route_agent.Base.{
  String, Bool, true, false, not, ◌&&◌, ◌||◌, Option, none, some, List, [], ◌∷◌, ◌++◌, ◌==◌, map,
  keys, insert, is_empty, sort_strings, or_empty, if◌then◌else◌,
}
use ovn_route_agent.Net.{Ip, IpNet, parse_cidr, ip_text}
use ovn_route_agent.Config.{Config, PortForwardVip}
use ovn_route_agent.Ovn.Gateway.Defs.{LocalRouterInfo}
use ovn_route_agent.Ovn.State.Refresh.{OvnState}
use ovn_route_agent.Ovn.State.Nats.{effective_network_filters}
use ovn_route_agent.Agent.Defs.{unique_ips}

-- The calls to the route manager, to the OVN client and to the parts of the agent. An error of one
-- of them is logged and passed over, except during the start.
pub data Step : Type 0 where
  check_bridge_device : Step
  ensure_bridge_ip : (address : String) → Step
  enable_proxy_arp : Step
  setup_veth_leak : Step
  setup_port_forward : Step
  connect : Step
  restore_drained : Step
  ensure_ovs_flows : Step
  reconcile_hairpin_flows : (macs : List (String × String)) → Step
  ensure_gateway_routing : (bridge_mac : String) → Step
  ensure_active_lead : Step
  reconcile_veth_leak : List IpNet → Step
  reconcile_prefix_list : List IpNet → Step
  reconcile_port_forward : List IpNet → (snat_ips : List String) → Step
  ensure_routes : (desired : List String) → Step
  remove_all_routes : Step
  check_route_activity : (desired : List String) → Step
  cleanup_stale_chassis : (names : List String) → Step
  drain_gateways : Step
  -- A call of `refreshState`, which keeps the old state where a listing fails.
  refresh_state : Step
  remove_ovs_flows : Step
  cleanup_routing_table : Step
  teardown_port_forward : Step
  teardown_veth_leak : Step
  remove_bridge_ip : (address : String) → Step
  remove_nb_entries : Step
  close_ovn : Step

abbrev pub when : Bool → List Step → List Step
when b steps = if b then steps else []

-- `connectWithRetry`: the results of the attempts until the context ends.
unfoldable pub connect_with_retry : (attempts : List Bool) → Bool
connect_with_retry [] = false
connect_with_retry (true ∷ attempts) = true
connect_with_retry (false ∷ attempts) = connect_with_retry attempts

-- The steps of `Run` before the main loop, of which the first that fails ends the run.
unfoldable pub setup : Config → List Step
setup cfg =
    when (not cfg.port_forward_only)
      (check_bridge_device ∷ ensure_bridge_ip cfg.bridge_ip ∷ enable_proxy_arp ∷ [])
    ++ (setup_veth_leak ∷ setup_port_forward ∷ [])
    ++ when (not cfg.port_forward_only) (connect ∷ [])

unfoldable pub run_until_failure : (succeeds : Step → Bool) → List Step → List Step × Bool
run_until_failure succeeds [] = ([], true)
run_until_failure succeeds (s ∷ steps) =
    let (done, ok) = run_until_failure succeeds steps in
    if succeeds s then (s ∷ done, ok) else (s ∷ [], false)

-- The state of a client that does not exist
abbrev pub zero_state : OvnState
zero_state = record {
  local_chassis_name = "";
  local_routers = [];
  has_local_routers = false;
  fips = [];
  snat_ips = [];
  nat_ip_to_router_mac = [];
  discovered_networks = [];
  all_chassis_names = [];
}

abbrev pub seen_state : Config → OvnState → OvnState
seen_state cfg state = if cfg.port_forward_only then zero_state else state

-- The gateway addresses of a local router, with its MAC.
abbrev pub add_address :
    (mac : String) → Option (Ip × IpNet) → List (String × String) → List (String × String)
add_address mac none m = m
add_address mac (some (ip, net)) m = if not (mac == "") then insert (ip_text ip) mac m else m

unfoldable pub add_cidrs :
    (mac : String) → List String → List (String × String) → List (String × String)
unfolding parse_cidr insert ip_text
add_cidrs mac [] m = m
add_cidrs mac (cidr ∷ cidrs) m = add_cidrs mac cidrs (add_address mac (parse_cidr cidr) m)

unfoldable pub add_gateways : List LocalRouterInfo → List (String × String) → List (String × String)
unfolding add_cidrs
add_gateways [] m = m
add_gateways (lr ∷ lrs) m = add_gateways lrs (add_cidrs lr.lrp_mac lr.lrp_networks m)

-- `hairpinMACMap`
unfoldable pub hairpin_macs : OvnState → List (String × String)
unfolding add_gateways
hairpin_macs state = add_gateways state.local_routers state.nat_ip_to_router_mac

abbrev pub vip_of : PortForwardVip → String
vip_of pf = pf.vip

-- `desiredIPs`
unfoldable pub desired_ips : Config → OvnState → List String
unfolding hairpin_macs unique_ips sort_strings
desired_ips cfg state =
    unique_ips (sort_strings (keys (hairpin_macs state)) ++ map vip_of cfg.port_forwards)

-- The MAC that is cached, or else the one that the bridge gives.
abbrev pub bridge_mac : (cached : String) → (fetched : Option String) → String
bridge_mac cached fetched = if cached == "" then or_empty fetched else cached

-- The three cases of the cycle: port forwarding only, active, and not active.
unfoldable pub reconcile_gateway :
    Config → OvnState → (networks : List IpNet) → (mac : String) → List Step
unfolding hairpin_macs
reconcile_gateway cfg state networks mac =
    if cfg.port_forward_only
    then []
    else if state.has_local_routers
    then (ensure_ovs_flows ∷ reconcile_hairpin_flows (hairpin_macs state) ∷ [])
      ++ when (not (mac == "")) (ensure_gateway_routing mac ∷ [])
      ++ (ensure_active_lead ∷ reconcile_veth_leak networks ∷ reconcile_prefix_list networks ∷ [])
    else reconcile_veth_leak [] ∷ reconcile_prefix_list [] ∷ reconcile_hairpin_flows [] ∷ []

abbrev pub reconcile_routes : (desired : List String) → (has_local_routers : Bool) → Step
reconcile_routes desired has_local_routers =
    if not (is_empty desired) || has_local_routers then ensure_routes desired else remove_all_routes

abbrev pub cycle : Config → OvnState → (mac : String) → List Step
cycle cfg state mac =
    let networks = effective_network_filters cfg.network_filters state.discovered_networks in
    let desired = desired_ips cfg state in
    reconcile_gateway cfg state networks mac
    ++ (reconcile_port_forward networks state.snat_ips
        ∷ reconcile_routes desired state.has_local_routers
        ∷ check_route_activity desired
        ∷ [])
    ++ when (not cfg.port_forward_only) (cleanup_stale_chassis state.all_chassis_names ∷ [])

-- `reconcile`
unfoldable pub reconcile : Config → OvnState → (mac : String) → List Step
unfolding desired_ips effective_network_filters reconcile_gateway
reconcile cfg state mac = cycle cfg (seen_state cfg state) mac

-- `cleanup`
unfoldable pub cleanup : Config → List Step
cleanup cfg =
    (remove_all_routes ∷ reconcile_prefix_list [] ∷ [])
    ++ when (not cfg.port_forward_only) (remove_ovs_flows ∷ cleanup_routing_table ∷ [])
    ++ (teardown_port_forward ∷ teardown_veth_leak ∷ [])
    ++ when (not cfg.port_forward_only) (remove_bridge_ip cfg.bridge_ip ∷ remove_nb_entries ∷ [])

-- The end of `Run`, with the deferred `Close`.
unfoldable pub shutdown : Config → List Step
unfolding cleanup
shutdown cfg =
    when (not cfg.port_forward_only && cfg.drain_on_shutdown) (drain_gateways ∷ refresh_state ∷ [])
    ++ when cfg.cleanup_on_shutdown (cleanup cfg)
    ++ when (not cfg.port_forward_only) (close_ovn ∷ [])

-- `Run`: the states and MACs are those that the reconcile cycles find, the start's first.
unfoldable pub cycles : Config → List (OvnState × String) → List Step
unfolding reconcile
cycles cfg [] = []
cycles cfg ((state, mac) ∷ rest) = reconcile cfg state mac ++ cycles cfg rest

abbrev pub run_on : Config → List (OvnState × String) → List Step × Bool → List Step
run_on cfg found (done, true) =
    done
    ++ when (not cfg.port_forward_only && cfg.drain_on_shutdown) (restore_drained ∷ [])
    ++ cycles cfg found
    ++ shutdown cfg
run_on cfg found (done, false) = done

unfoldable pub run :
    Config → (succeeds : Step → Bool) → (found : List (OvnState × String)) → List Step
unfolding setup run_until_failure cycles shutdown
run cfg succeeds found = run_on cfg found (run_until_failure succeeds (setup cfg))
