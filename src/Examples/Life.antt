-- ===== src/Examples/Life.antt =====
-- Sample runs: a node with one local router, and a node in port-forward-only mode.
use ovn_route_agent.Base.{
  String, Bool, true, false, not, ◌&&◌, ◌||◌, ◌≡◌, refl, [], ◌∷◌, ◌==◌, any, elem, keys, trim_space,
  IsSorted,
}
use ovn_route_agent.Config.{Config, PortForwardVip, defaults}
use ovn_route_agent.Ovn.State.Refresh.{OvnState}
use ovn_route_agent.Agent.Cycle.{Step, desired_ips, run, connect_with_retry}
use ovn_route_agent.Agent.Desired.{gateway_is, desired_ips-elem}
use ovn_route_agent.Agent.Standalone.{Local, run-Local}
use ovn_route_agent.Agent.Ending.{LeavesSafely, run-LeavesSafely}
use ovn_route_agent.Examples.Entries.{info}

abbrev vip : PortForwardVip
vip = record {
  vip = " 198.51.100.9";
  manage_vip = true;
  masquerade = false;
  hairpin_masquerade = false;
  router_masquerade = false;
  rules = [];
}

abbrev gateway : Config
gateway = record defaults {
  drain_on_shutdown = true;
  cleanup_on_shutdown = true;
  port_forwards = vip ∷ [];
}

abbrev standalone : Config
standalone = record gateway { port_forward_only = true }

abbrev active : OvnState
active = record {
  local_chassis_name = "node1";
  local_routers = info ∷ [];
  has_local_routers = true;
  fips = "192.0.2.7" ∷ [];
  snat_ips = [];
  nat_ip_to_router_mac = ("192.0.2.7", "fa:16:3e:00:00:01") ∷ [];
  discovered_networks = [];
  all_chassis_names = "node1" ∷ [];
}

abbrev works : Step → Bool
works step = true

second-attempt : connect_with_retry (false ∷ true ∷ []) ≡ true
unfolding connect_with_retry
second-attempt = refl

desired_ips-elem_example :
    IsSorted (desired_ips gateway active)
    × ((ip : String)
        → elem ip (desired_ips gateway active) ≡ (
            not (ip == "")
            && (any (λ x. trim_space x == ip) (keys active.nat_ip_to_router_mac)
                || any (gateway_is (λ x. trim_space x == ip)) active.local_routers
                || any (λ pf. trim_space pf.vip == ip) gateway.port_forwards)))
desired_ips-elem_example = desired_ips-elem gateway active

run-Local_example : Local (run standalone works ((active, "fa:16:3e:00:00:09") ∷ []))
run-Local_example = run-Local standalone works ((active, "fa:16:3e:00:00:09") ∷ []) refl

run-LeavesSafely_example :
    LeavesSafely true true (run gateway works ((active, "fa:16:3e:00:00:09") ∷ []))
run-LeavesSafely_example = run-LeavesSafely gateway works ((active, "fa:16:3e:00:00:09") ∷ [])
