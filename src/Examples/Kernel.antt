-- ===== src/Examples/Kernel.antt =====
-- A sample host.
use ovn_route_agent.Base.{pos, true, false, refl, some, [], ◌∷◌}
use ovn_route_agent.Net.{v4}
use ovn_route_agent.Linux.Defs.{Manager, Link, Route, Kernel, done}
use ovn_route_agent.Linux.Forward.{
  setup_port_forward, reconcile_port_forward, teardown_port_forward,
}
use ovn_route_agent.Linux.Log.{AllOf}
use ovn_route_agent.Linux.Synced.{Synced}
use ovn_route_agent.Linux.Reverted.{Reverted, teardown_port_forward-Reverted}
use ovn_route_agent.Examples.Forwarding.{forwards, provider}

abbrev manager : Manager
manager = record {
  bridge_dev = "br-ex";
  vrf_name = "vrf-provider";
  veth_nexthop = "169.254.0.1";
  route_table_id = pos 100;
  dry_run = false;
  veth_leak_enabled = true;
  veth_provider_ip = "169.254.0.2";
  veth_leak_table_id = pos 200;
  veth_leak_rule_priority = pos 2000;
  network_filters = [];
  port_forward_enabled = true;
  port_forward_dev = "loopback1";
  port_forward_table_id = pos 201;
  port_forward_l3mdev_accept = true;
  port_forward_ct_zone = pos 64000;
  port_forwards = forwards;
}

abbrev device : Link
device = record {
  index = 7;
  is_up = true;
  hardware_addr = "fa:16:3e:00:00:07";
  vrf_table = some (pos 10);
}

-- A network that is no longer wanted, as the agent has set it.
abbrev old_route : Route
old_route = record {
  link_index = 7;
  dst = some (record { ip = v4 3325256704; ones = 24; bits = 32 });
  gw = some (v4 2851995649);
  scope_link = false;
  table = pos 10;
  protocol = 44;
}

-- All calls succeed, and each listing of routes shows the old one.
abbrev host : Kernel
host = record {
  is_root = true;
  links = λ h name. some device;
  addrs = λ h link. some [];
  routes = λ h f. some (old_route ∷ []);
  rules = λ h. some [];
  has_nft = true;
  lists_table = λ h. true;
  outcome = λ h c. done;
}

teardown_port_forward-Reverted_example :
    let reverted =
      Reverted manager device (old_route ∷ []) (teardown_port_forward host manager []).1 in
    AllOf reverted (setup_port_forward host manager []).1
    × AllOf reverted (reconcile_port_forward host manager (provider ∷ []) ("192.0.2.9" ∷ []) []).1
teardown_port_forward-Reverted_example =
    teardown_port_forward-Reverted host host manager (provider ∷ []) ("192.0.2.9" ∷ []) device
      (old_route ∷ []) refl refl (λ h. refl) (λ h. refl)
