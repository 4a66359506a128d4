-- ===== src/Linux/Host.antt =====
-- The bridge device, the routes to single hosts and their table: the first part of routing_linux.go.
use ovn_route_agent.Base.{
  ℤ, pos, ltb_ℤ, eqb_ℤ, String, Bool, true, not, ◌||◌, Option, none, some, List, [], ◌∷◌, eqb, any,
  if◌then◌else◌,
}
use ovn_route_agent.Net.{Ip, IpNet, parse_ip, ip_text}
use ovn_route_agent.Linux.Defs.{
  Manager, Link, Route, IpRule, Addr, RouteFilter, link_set_up, addr_add, addr_del, route_replace,
  route_del, rule_add, rule_del, write_one, Kernel, History, Method, ok, fail, ◌>>◌, call, must,
  attempt, is_done_or_exists, is_done_or_absent, reading, on_found, link_by_name, ip_equal,
  host_net, sysctl_path,
}

-- `CheckBridgeDevice`
unfoldable pub check_bridge_device : Kernel → Manager → Method
check_bridge_device k rm =
    if rm.dry_run
    then ok
    else if not k.is_root
    then fail
    else reading (link_by_name k rm.bridge_dev) fail
        λ link. if not link.is_up then must k (link_set_up link) else ok

abbrev pub host_addr : Ip → Addr
host_addr ip = record { ip = some ip; prefix = 32 }

-- `EnsureBridgeIP`
unfoldable pub ensure_bridge_ip : Kernel → Manager → (ip : String) → Method
unfolding parse_ip any
ensure_bridge_ip k rm ip =
    if rm.dry_run
    then ok
    else on_found fail
        (λ parsed. reading (link_by_name k rm.bridge_dev) fail λ link.
          reading (λ h. k.addrs h link) fail
            λ addrs.
              if any (λ a. ip_equal a parsed) addrs
              then ok
              else must k (addr_add link (host_addr parsed)))
        (parse_ip ip)

-- `RemoveBridgeIP`
unfoldable pub remove_bridge_ip : Kernel → Manager → (ip : String) → Method
unfolding parse_ip
remove_bridge_ip k rm ip =
    if rm.dry_run
    then ok
    else on_found fail
        (λ parsed.
          reading (link_by_name k rm.bridge_dev) fail
            λ link. must k (addr_del link (host_addr parsed)))
        (parse_ip ip)

-- `EnableProxyARP`
unfoldable pub enable_proxy_arp : Kernel → Manager → Method
enable_proxy_arp k rm =
    if rm.dry_run then ok else must k (write_one (sysctl_path rm.bridge_dev "proxy_arp"))

-- The route and the rule for one address.
abbrev pub host_route : Manager → Link → Ip → Route
host_route rm link ip = record {
  link_index = link.index;
  dst = some (host_net ip);
  gw = none;
  scope_link = true;
  table = if ltb_ℤ (pos 0) rm.route_table_id then rm.route_table_id else pos 0;
  protocol = 0;
}

abbrev pub host_rule : Manager → Ip → IpRule
host_rule rm ip = record {
  src = none;
  dst = some (host_net ip);
  table = rm.route_table_id;
  priority = pos 1000;
  mark = none;
}

-- `ensureIPRule`
abbrev pub ensure_ip_rule : Kernel → Manager → Ip → Method
ensure_ip_rule k rm ip = call k is_done_or_exists (rule_add (host_rule rm ip))

-- A rule that fails takes the route back.
abbrev pub or_roll_back : Kernel → Route → Method → Method
or_roll_back k route step h =
    let (b, h') = step h in (if b then ok else (attempt k (route_del route) >> fail)) h'

-- `AddKernelRoute`
unfoldable pub add_kernel_route : Kernel → Manager → (ip : String) → Method
unfolding parse_ip
add_kernel_route k rm ip =
    if rm.dry_run
    then ok
    else reading (link_by_name k rm.bridge_dev) fail λ link.
      on_found fail
        (λ parsed.
          must k (route_replace (host_route rm link parsed))
          >> (if ltb_ℤ (pos 0) rm.route_table_id
              then or_roll_back k (host_route rm link parsed) (ensure_ip_rule k rm parsed)
              else ok))
        (parse_ip ip)

-- `DelKernelRoute`
unfoldable pub del_kernel_route : Kernel → Manager → (ip : String) → Method
unfolding parse_ip is_done_or_absent
del_kernel_route k rm ip =
    if rm.dry_run
    then ok
    else reading (link_by_name k rm.bridge_dev) fail λ link.
      on_found fail
        (λ parsed.
          (if ltb_ℤ (pos 0) rm.route_table_id
            then attempt k (rule_del (host_rule rm parsed))
            else ok)
          >> call k is_done_or_absent (route_del (host_route rm link parsed)))
        (parse_ip ip)

-- The addresses of the routes to single hosts.
abbrev pub host_text : Option IpNet → List String → List String
host_text none ips = ips
host_text (some net) ips = if eqb net.ones 32 then ip_text net.ip ∷ ips else ips

unfoldable pub host_texts : List Route → List String
unfolding ip_text
host_texts [] = []
host_texts (r ∷ rs) = host_text r.dst (host_texts rs)

abbrev pub listed_hosts : Option (List Route) → Option (List String)
listed_hosts none = none
listed_hosts (some routes) = some (host_texts routes)

abbrev pub bridge_filter : Manager → Link → RouteFilter
bridge_filter rm link = record {
  link_index = some link.index;
  table = if ltb_ℤ (pos 0) rm.route_table_id then some rm.route_table_id else none;
  protocol = none;
}

abbrev pub hosts_on : Kernel → Manager → History → Option Link → Option (List String)
hosts_on k rm h none = none
hosts_on k rm h (some link) = listed_hosts (k.routes h (bridge_filter rm link))

-- `ListKernelRoutes`
unfoldable pub list_kernel_routes : Kernel → Manager → History → Option (List String)
unfolding host_texts
list_kernel_routes k rm h =
    if rm.dry_run then some [] else hosts_on k rm h (k.links h rm.bridge_dev)

unfoldable pub remove_rules_where : Kernel → (IpRule → Bool) → List IpRule → Method
remove_rules_where k p [] = ok
remove_rules_where k p (r ∷ rs) =
    (if p r then attempt k (rule_del r) else ok) >> remove_rules_where k p rs

unfoldable pub remove_routes : Kernel → List Route → Method
remove_routes k [] = ok
remove_routes k (r ∷ rs) = attempt k (route_del r) >> remove_routes k rs

abbrev pub of_table : (table : ℤ) → RouteFilter
of_table table = record { link_index = none; table = some table; protocol = none }

-- `CleanupRoutingTable`
unfoldable pub cleanup_routing_table : Kernel → Manager → Method
unfolding remove_rules_where remove_routes
cleanup_routing_table k rm =
    if eqb_ℤ rm.route_table_id (pos 0) || rm.dry_run
    then ok
    else reading k.rules fail λ rules.
      remove_rules_where k (λ r. eqb_ℤ r.table rm.route_table_id) rules
      >> reading (λ h. k.routes h (of_table rm.route_table_id)) fail (remove_routes k)
