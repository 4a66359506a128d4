-- ===== src/Linux/Pair.antt =====
-- `SetupVethLeak` and `TeardownVethLeak` of routing_linux.go.
use ovn_route_agent.Base.{ℤ, false, not, ◌||◌, Option, none, some, is_empty, if◌then◌else◌}
use ovn_route_agent.Net.{Ip, parse_ip}
use ovn_route_agent.Nft.Rules.{veth_default_name, veth_provider_name}
use ovn_route_agent.Linux.Defs.{
  Manager, Link, Route, Addr, RouteFilter, link_add, link_set_master, addr_replace, link_set_up,
  neigh_set, route_replace, route_del, link_del, Kernel, Method, ok, fail, ◌>>◌, must, attempt,
  reading, link_by_name,
}
use ovn_route_agent.Linux.Host.{remove_rules_where, remove_routes}
use ovn_route_agent.Linux.Leak.{is_leak_rule, get_vrf_table_id, reconcile_veth_leak_networks}

-- The address with `vethPrefixLen`.
abbrev pub veth_addr : Option Ip → Addr
veth_addr ip = record { ip = ip; prefix = 30 }

-- The default route of the leak table.
abbrev pub leak_default : Manager → Link → Route
leak_default rm veth_default = record {
  link_index = veth_default.index;
  dst = none;
  gw = parse_ip rm.veth_provider_ip;
  scope_link = false;
  table = rm.veth_leak_table_id;
  protocol = 0;
}

-- Step 1: the pair that is there, or a new one.
abbrev pub create_pair : Kernel → (Link → Method) → Method
create_pair k rest =
    must k (link_add veth_default_name veth_provider_name)
    >> reading (link_by_name k veth_default_name) fail rest

-- Steps 2 to 4, on the two ends of the pair.
unfoldable pub set_up_ends : Kernel → Manager → (veth_default veth_provider : Link) → Method
unfolding parse_ip
set_up_ends k rm veth_default veth_provider = reading (link_by_name k rm.vrf_name) fail λ vrf.
    must k (link_set_master veth_provider vrf)
    >> must k (addr_replace veth_default (veth_addr (parse_ip rm.veth_nexthop)))
    >> must k (addr_replace veth_provider (veth_addr (parse_ip rm.veth_provider_ip)))
    >> must k (link_set_up veth_default)
    >> must k (link_set_up veth_provider)

-- Steps 5 and 6, on the two ends fetched again, and the configured networks.
unfoldable pub set_up_paths : Kernel → Manager → (veth_default veth_provider : Link) → Method
unfolding parse_ip reconcile_veth_leak_networks
set_up_paths k rm veth_default veth_provider =
    must k (neigh_set veth_default.index (parse_ip rm.veth_provider_ip) veth_provider.hardware_addr)
    >> must k (neigh_set veth_provider.index (parse_ip rm.veth_nexthop) veth_default.hardware_addr)
    >> must k (route_replace (leak_default rm veth_default))
    >> (if is_empty rm.network_filters
        then ok
        else reconcile_veth_leak_networks k rm rm.network_filters)

abbrev pub set_up_pair : Kernel → Manager → (veth_default : Link) → Method
set_up_pair k rm veth_default = reading (link_by_name k veth_provider_name) fail λ veth_provider.
    set_up_ends k rm veth_default veth_provider
    >> reading (link_by_name k veth_default_name) fail λ default_again.
      reading (link_by_name k veth_provider_name) fail
        λ provider_again. set_up_paths k rm default_again provider_again

-- `SetupVethLeak`
unfoldable pub setup_veth_leak : Kernel → Manager → Method
unfolding set_up_ends set_up_paths
setup_veth_leak k rm =
    if not rm.veth_leak_enabled || rm.dry_run
    then ok
    else reading (link_by_name k veth_default_name) (create_pair k (set_up_pair k rm))
        (set_up_pair k rm)

abbrev pub provider_filter : Link → (table : ℤ) → RouteFilter
provider_filter provider table = record {
  link_index = some provider.index;
  table = some table;
  protocol = none;
}

-- Steps 1 to 3 of the teardown, whose errors are passed over.
unfoldable pub remove_leak_state : Kernel → Manager → Method
unfolding get_vrf_table_id remove_rules_where remove_routes parse_ip
remove_leak_state k rm =
    reading k.rules ok (remove_rules_where k (is_leak_rule rm))
    >> reading (link_by_name k veth_default_name) ok
        (λ veth_default. attempt k (route_del (leak_default rm veth_default)))
    >> reading (link_by_name k veth_provider_name) ok λ provider.
      reading (get_vrf_table_id k rm) ok
        λ table. reading (λ h. k.routes h (provider_filter provider table)) ok (remove_routes k)

-- `TeardownVethLeak`
unfoldable pub teardown_veth_leak : Kernel → Manager → Method
unfolding remove_leak_state
teardown_veth_leak k rm =
    if not rm.veth_leak_enabled || rm.dry_run
    then ok
    else remove_leak_state k rm
      >> reading (link_by_name k veth_default_name) ok
          (λ veth_default. must k (link_del veth_default))
