-- ===== src/Linux/Dry.antt =====
-- Dry-run mode.
use ovn_route_agent.Base.{String, Bool, true, ◌||◌, ◌≡◌, ap, List, arith, if◌then◌else◌}
use ovn_route_agent.Net.{IpNet}
use ovn_route_agent.Linux.Defs.{Manager, Kernel, History, Method, ok}
use ovn_route_agent.Linux.Host.{
  check_bridge_device, ensure_bridge_ip, remove_bridge_ip, enable_proxy_arp, add_kernel_route,
  del_kernel_route, cleanup_routing_table,
}
use ovn_route_agent.Linux.Leak.{reconcile_veth_leak_networks}
use ovn_route_agent.Linux.Pair.{setup_veth_leak, teardown_veth_leak}
use ovn_route_agent.Linux.Forward.{
  setup_port_forward, reconcile_port_forward, teardown_port_forward,
}

if_then-eq : (b : Bool) (m n : Method) (h : History) → b ≡ true → (if b then m else n) h ≡ m h
if_then-eq b m n h e = ap (λ c. (if c then m else n) h) e

if_or-eq : (a b : Bool) (m n : Method) (h : History) → b ≡ true → (if a || b then m else n) h ≡ m h
if_or-eq a b m n h e = if_then-eq (a || b) m n h (ground (arith, e))

-- The method returns no error and makes no call that changes the host.
abbrev pub Idle : History → Method → Type 0
Idle h m = m h ≡ (true, h)

-- In dry-run mode none of the methods on the bridge, the routes and rules, the leak and the port
-- forwarding changes the host, and none returns an error, whatever the kernel answers.
pub dry_run-Idle :
    (k : Kernel) (rm : Manager) (ip : String) (networks : List IpNet) (snat_ips : List String)
    (h : History)
    → rm.dry_run ≡ true
    → Idle h (check_bridge_device k rm)
      × Idle h (ensure_bridge_ip k rm ip)
      × Idle h (remove_bridge_ip k rm ip)
      × Idle h (enable_proxy_arp k rm)
      × Idle h (add_kernel_route k rm ip)
      × Idle h (del_kernel_route k rm ip)
      × Idle h (cleanup_routing_table k rm)
      × Idle h (setup_veth_leak k rm)
      × Idle h (reconcile_veth_leak_networks k rm networks)
      × Idle h (teardown_veth_leak k rm)
      × Idle h (setup_port_forward k rm)
      × Idle h (reconcile_port_forward k rm networks snat_ips)
      × Idle h (teardown_port_forward k rm)
unfolding check_bridge_device ensure_bridge_ip remove_bridge_ip enable_proxy_arp add_kernel_route
    del_kernel_route cleanup_routing_table setup_veth_leak reconcile_veth_leak_networks
    teardown_veth_leak setup_port_forward reconcile_port_forward teardown_port_forward
dry_run-Idle k rm ip networks snat_ips h dry = (
  if_then-eq rm.dry_run ok _ h dry,
  if_then-eq rm.dry_run ok _ h dry,
  if_then-eq rm.dry_run ok _ h dry,
  if_then-eq rm.dry_run ok _ h dry,
  if_then-eq rm.dry_run ok _ h dry,
  if_then-eq rm.dry_run ok _ h dry,
  if_or-eq _ rm.dry_run ok _ h dry,
  if_or-eq _ rm.dry_run ok _ h dry,
  if_or-eq _ rm.dry_run ok _ h dry,
  if_or-eq _ rm.dry_run ok _ h dry,
  if_or-eq _ rm.dry_run ok _ h dry,
  if_or-eq _ rm.dry_run ok _ h dry,
  if_or-eq _ rm.dry_run ok _ h dry,
)
