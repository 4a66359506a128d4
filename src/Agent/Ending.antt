-- ===== src/Agent/Ending.antt =====
-- The order of a run of agent.go in which it leaves OVN.
use ovn_route_agent.Base.{
  String, Bool, true, false, not, ◌&&◌, ◌||◌, ◌≡◌, refl, List, [], ◌∷◌, ◌++◌, ◌==◌, is_empty, All,
  All-append, if◌then◌else◌,
}
use ovn_route_agent.Config.{Config}
use ovn_route_agent.Net.{IpNet}
use ovn_route_agent.Ovn.State.Nats.{effective_network_filters}
use ovn_route_agent.Ovn.State.Refresh.{OvnState}
use ovn_route_agent.Agent.Cycle.{
  Step, ensure_ovs_flows, reconcile_hairpin_flows, hairpin_macs, ensure_gateway_routing, cycle,
  desired_ips, cleanup_stale_chassis, reconcile_port_forward, check_route_activity,
  check_bridge_device, ensure_bridge_ip, enable_proxy_arp, setup_veth_leak, setup_port_forward,
  connect, drain_gateways, refresh_state, remove_nb_entries, close_ovn, restore_drained,
  ensure_routes, remove_all_routes, reconcile_prefix_list, remove_ovs_flows, cleanup_routing_table,
  teardown_port_forward, teardown_veth_leak, remove_bridge_ip, when, setup, reconcile,
  reconcile_gateway, reconcile_routes, cycles, cleanup, shutdown, run, run_on, seen_state,
}
use ovn_route_agent.Agent.Standalone.{run_until_failure-All}

-- While the connection is open: NB entries go only where `refreshState` has been called since the last
-- drain, whether its listings succeed or not, and nothing is drained, refreshed or removed once the connection is closed.
abbrev pub LeavesSafely : (linked fresh : Bool) → List Step → Type 0
LeavesSafely linked fresh [] = Unit
LeavesSafely linked fresh (drain_gateways ∷ steps) =
    (linked ≡ true) × LeavesSafely linked false steps
LeavesSafely linked fresh (refresh_state ∷ steps) = (linked ≡ true) × LeavesSafely linked true steps
LeavesSafely linked fresh (remove_nb_entries ∷ steps) =
    (linked ≡ true) × (fresh ≡ true) × LeavesSafely linked fresh steps
LeavesSafely linked fresh (close_ovn ∷ steps) = LeavesSafely false fresh steps
LeavesSafely linked fresh (_ ∷ steps) = LeavesSafely linked fresh steps

-- Steps that leave both as they are.
abbrev Plain : Step → Type 0
Plain s =
    (linked fresh : Bool) (steps : List Step)
    → LeavesSafely linked fresh steps
    → LeavesSafely linked fresh (s ∷ steps)

append-Plain :
    (linked fresh : Bool) (steps rest : List Step)
    → All Plain steps
    → LeavesSafely linked fresh rest
    → LeavesSafely linked fresh (steps ++ rest)
append-Plain linked fresh [] rest plain safe = safe
append-Plain linked fresh (s ∷ steps) rest plain safe =
    plain.0 linked fresh (steps ++ rest) (append-Plain linked fresh steps rest plain.1 safe)

Plain-LeavesSafely : (steps : List Step) → All Plain steps → LeavesSafely true true steps
Plain-LeavesSafely [] plain = tt
Plain-LeavesSafely (s ∷ steps) plain = plain.0 true true steps (Plain-LeavesSafely steps plain.1)

if-Plain :
    (b : Bool) (xs ys : List Step) → All Plain xs → All Plain ys → All Plain (if b then xs else ys)
if-Plain true xs ys p q = p
if-Plain false xs ys p q = q

setup-Plain : (cfg : Config) → All Plain (setup cfg)
unfolding setup
setup-Plain cfg =
    let full = not cfg.port_forward_only in
    let bridge = check_bridge_device ∷ ensure_bridge_ip cfg.bridge_ip ∷ enable_proxy_arp ∷ [] in
    All-append _ (when full bridge ++ (setup_veth_leak ∷ setup_port_forward ∷ []))
      (when full (connect ∷ []))
      (All-append _ (when full bridge) _
        (if-Plain full bridge [] ((λ o f s x. x), ((λ o f s x. x), ((λ o f s x. x), tt))) tt)
        ((λ o f s x. x), ((λ o f s x. x), tt)))
      (if-Plain full (connect ∷ []) [] ((λ o f s x. x), tt) tt)

reconcile_gateway-Plain :
    (cfg : Config) (state : OvnState) (networks : List IpNet) (mac : String)
    → All Plain (reconcile_gateway cfg state networks mac)
unfolding reconcile_gateway
reconcile_gateway-Plain cfg state networks mac =
    let flows = ensure_ovs_flows ∷ reconcile_hairpin_flows (hairpin_macs state) ∷ [] in
    let routed = ensure_gateway_routing mac ∷ [] in
    if-Plain cfg.port_forward_only [] _ tt (
      if-Plain state.has_local_routers _ _
        (All-append Plain (flows ++ when (not (mac == "")) routed) _
          (All-append Plain flows (when (not (mac == "")) routed)
            ((λ o f s x. x), ((λ o f s x. x), tt))
            (if-Plain (not (mac == "")) routed [] ((λ o f s x. x), tt) tt))
          ((λ o f s x. x), ((λ o f s x. x), ((λ o f s x. x), tt))))
        ((λ o f s x. x), ((λ o f s x. x), ((λ o f s x. x), tt))))

if_step-Plain : (b : Bool) (s t : Step) → Plain s → Plain t → Plain (if b then s else t)
if_step-Plain true s t p q = p
if_step-Plain false s t p q = q

cycle-Plain : (cfg : Config) (state : OvnState) (mac : String) → All Plain (cycle cfg state mac)
cycle-Plain cfg state mac =
    let networks = effective_network_filters cfg.network_filters state.discovered_networks in
    let desired = desired_ips cfg state in
    let names = cleanup_stale_chassis state.all_chassis_names ∷ [] in
    let middle =
      reconcile_port_forward networks state.snat_ips
      ∷ reconcile_routes desired state.has_local_routers
      ∷ check_route_activity desired
      ∷ [] in
    let gateway = reconcile_gateway cfg state networks mac in
    All-append Plain (gateway ++ middle) (when (not cfg.port_forward_only) names)
      (All-append Plain gateway middle (reconcile_gateway-Plain cfg state networks mac) (
        (λ o f s x. x),
        (
          if_step-Plain (not (is_empty desired) || state.has_local_routers) (ensure_routes desired)
              remove_all_routes (λ o f s x. x) (λ o f s x. x),
          ((λ o f s x. x), tt),
        ),
      ))
      (if-Plain (not cfg.port_forward_only) names [] ((λ o f s x. x), tt) tt)

reconcile-Plain :
    (cfg : Config) (state : OvnState) (mac : String) → All Plain (reconcile cfg state mac)
unfolding reconcile
reconcile-Plain cfg state mac = cycle-Plain cfg (seen_state cfg state) mac

cycles-Plain : (cfg : Config) (found : List (OvnState × String)) → All Plain (cycles cfg found)
unfolding cycles
cycles-Plain cfg [] = tt
cycles-Plain cfg ((state, mac) ∷ rest) =
    All-append _ (reconcile cfg state mac) (cycles cfg rest) (reconcile-Plain cfg state mac)
      (cycles-Plain cfg rest)

shutdown-LeavesSafely :
    (only drain clean : Bool) (address : String)
    → LeavesSafely true true (
        when (not only && drain) (drain_gateways ∷ refresh_state ∷ [])
        ++ when clean (
            (remove_all_routes ∷ reconcile_prefix_list [] ∷ [])
            ++ when (not only) (remove_ovs_flows ∷ cleanup_routing_table ∷ [])
            ++ (teardown_port_forward ∷ teardown_veth_leak ∷ [])
            ++ when (not only) (remove_bridge_ip address ∷ remove_nb_entries ∷ []))
        ++ when (not only) (close_ovn ∷ []))
shutdown-LeavesSafely true true true address = tt
shutdown-LeavesSafely true true false address = tt
shutdown-LeavesSafely true false true address = tt
shutdown-LeavesSafely true false false address = tt
shutdown-LeavesSafely false true true address = (refl, (refl, (refl, refl, tt)))
shutdown-LeavesSafely false true false address = (refl, (refl, tt))
shutdown-LeavesSafely false false true address = (refl, refl, tt)
shutdown-LeavesSafely false false false address = tt

-- In a whole run, managed NB entries are removed only where `refreshState` has been called after the
-- last drain, a call that keeps the old state where one of its listings fails; and nothing is drained,
-- refreshed or removed in OVN after the connection is closed, whatever fails during the start and
-- whatever the cycles find.
pub run-LeavesSafely :
    (cfg : Config) (succeeds : Step → Bool) (found : List (OvnState × String))
    → LeavesSafely true true (run cfg succeeds found)
unfolding run shutdown cleanup
run-LeavesSafely cfg succeeds found =
    ended _ _ (run_until_failure-All Plain succeeds (setup cfg) (setup-Plain cfg))
  where
    ended :
        (done : List Step) (ok : Bool)
        → All Plain done
        → LeavesSafely true true (run_on cfg found (done, ok))
    ended done false plain = Plain-LeavesSafely done plain
    ended done true plain =
        let restored =
          when (not cfg.port_forward_only && cfg.drain_on_shutdown) (restore_drained ∷ []) in
        append-Plain true true (done ++ restored ++ cycles cfg found) (shutdown cfg)
          (All-append Plain (done ++ restored) (cycles cfg found)
            (All-append Plain done restored plain (
              if-Plain (not cfg.port_forward_only && cfg.drain_on_shutdown) (restore_drained ∷ [])
                [] ((λ o f s x. x), tt) tt))
            (cycles-Plain cfg found))
          (shutdown-LeavesSafely cfg.port_forward_only cfg.drain_on_shutdown cfg.cleanup_on_shutdown
            cfg.bridge_ip)
