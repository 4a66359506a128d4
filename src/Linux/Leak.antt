-- ===== src/Linux/Leak.antt =====
-- `ReconcileVethLeakNetworks` of routing_linux.go.
use ovn_route_agent.Base.{
  ℕ, ℤ, eqb_ℤ, String, Bool, true, false, not, ◌&&◌, ◌||◌, Option, none, some, List, [], ◌∷◌, eqb,
  elem, add, keys, insert, if◌then◌else◌,
}
use ovn_route_agent.Net.{Ip, IpNet, parse_ip, parse_cidr, net_text}
use ovn_route_agent.Nft.Rules.{veth_provider_name}
use ovn_route_agent.Linux.Defs.{
  Manager, Link, Route, IpRule, RouteFilter, route_replace, route_del, rule_add, rule_del, Kernel,
  History, Method, ok, fail, ◌>>◌, call, must, attempt, is_done_or_exists, reading, link_by_name,
  ip_equal,
}

-- `rtProtoOVNNetworkAgent`
abbrev pub agent_protocol : ℕ
agent_protocol = 44

-- `getVRFTableID`
abbrev pub table_of : Option Link → Option ℤ
table_of none = none
table_of (some link) = link.vrf_table

unfoldable pub get_vrf_table_id : Kernel → Manager → History → Option ℤ
get_vrf_table_id k rm h = table_of (k.links h rm.vrf_name)

abbrev pub leak_filter : Link → (table : ℤ) → RouteFilter
leak_filter provider table = record {
  link_index = some provider.index;
  table = some table;
  protocol = some agent_protocol;
}

abbrev pub leak_route : Manager → Link → (table : ℤ) → IpNet → Route
leak_route rm provider table network = record {
  link_index = provider.index;
  dst = some network;
  gw = parse_ip rm.veth_nexthop;
  scope_link = false;
  table = table;
  protocol = agent_protocol;
}

abbrev pub leak_rule : Manager → IpNet → IpRule
leak_rule rm network = record {
  src = some network;
  dst = none;
  table = rm.veth_leak_table_id;
  priority = rm.veth_leak_rule_priority;
  mark = none;
}

abbrev pub is_nexthop : (nexthop : Option Ip) → Option Ip → Bool
is_nexthop (some a) (some b) = ip_equal b a
is_nexthop _ _ = false

abbrev pub with_key : Bool → Option IpNet → List String → List String
with_key true (some net) keys = add (net_text net) keys
with_key _ _ keys = keys

-- `currentNets`
unfoldable pub current_nets : (nexthop : Option Ip) → List Route → List String
unfolding add net_text
current_nets nexthop [] = []
current_nets nexthop (r ∷ rs) =
    with_key (is_nexthop nexthop r.gw && eqb r.protocol agent_protocol) r.dst
      (current_nets nexthop rs)

abbrev pub is_leak_rule : Manager → IpRule → Bool
is_leak_rule rm r =
    eqb_ℤ r.table rm.veth_leak_table_id && eqb_ℤ r.priority rm.veth_leak_rule_priority

-- `currentRules`
unfoldable pub current_rules : Manager → List IpRule → List String
unfolding add net_text
current_rules rm [] = []
current_rules rm (r ∷ rs) = with_key (is_leak_rule rm r) r.src (current_rules rm rs)

abbrev pub or_no_rules : Option (List IpRule) → List IpRule
or_no_rules none = []
or_no_rules (some rules) = rules

-- `desiredSet`
unfoldable pub desired_set : List IpNet → List (String × IpNet) → List (String × IpNet)
unfolding insert net_text
desired_set [] m = m
desired_set (n ∷ ns) m = desired_set ns (insert (net_text n) n m)

unfoldable pub add_leak_routes :
    Kernel → Manager → Link → (table : ℤ) → (current : List String) → List (String × IpNet) → Method
unfolding elem parse_ip
add_leak_routes k rm provider table current [] = ok
add_leak_routes k rm provider table current ((key, network) ∷ desired) =
    (if elem key current then ok else must k (route_replace (leak_route rm provider table network)))
    >> add_leak_routes k rm provider table current desired

unfoldable pub add_leak_rules :
    Kernel → Manager → (current : List String) → List (String × IpNet) → Method
unfolding elem
add_leak_rules k rm current [] = ok
add_leak_rules k rm current ((key, network) ∷ desired) =
    (if elem key current then ok else call k is_done_or_exists (rule_add (leak_rule rm network)))
    >> add_leak_rules k rm current desired

abbrev pub remove_leak_route : Kernel → Manager → Link → (table : ℤ) → Option (Ip × IpNet) → Method
remove_leak_route k rm provider table none = ok
remove_leak_route k rm provider table (some (ip, net)) =
    attempt k (route_del (leak_route rm provider table net))

unfoldable pub remove_leak_routes :
    Kernel → Manager → Link → (table : ℤ) → (desired current : List String) → Method
unfolding elem parse_ip parse_cidr
remove_leak_routes k rm provider table desired [] = ok
remove_leak_routes k rm provider table desired (key ∷ current) =
    (if elem key desired then ok else remove_leak_route k rm provider table (parse_cidr key))
    >> remove_leak_routes k rm provider table desired current

abbrev pub is_unwanted : (desired : List String) → Option IpNet → Bool
is_unwanted desired none = false
is_unwanted desired (some net) = not (elem (net_text net) desired)

unfoldable pub remove_leak_rules : Kernel → Manager → (desired : List String) → List IpRule → Method
unfolding elem net_text
remove_leak_rules k rm desired [] = ok
remove_leak_rules k rm desired (r ∷ rs) =
    (if is_leak_rule rm r && is_unwanted desired r.src then attempt k (rule_del r) else ok)
    >> remove_leak_rules k rm desired rs

-- From the listings on: missing routes, missing rules, stale routes, and stale rules of a new listing.
unfoldable pub sync_leak :
    Kernel
    → Manager
    → Link
    → (table : ℤ) → List (String × IpNet)
    → (nets rules : List String) → Method
unfolding add_leak_routes add_leak_rules remove_leak_routes remove_leak_rules
sync_leak k rm provider table desired nets rules =
    add_leak_routes k rm provider table nets desired
    >> add_leak_rules k rm rules desired
    >> remove_leak_routes k rm provider table (keys desired) nets
    >> reading k.rules ok (remove_leak_rules k rm (keys desired))

-- `ReconcileVethLeakNetworks`
unfoldable pub reconcile_veth_leak_networks : Kernel → Manager → (desired : List IpNet) → Method
unfolding get_vrf_table_id current_nets current_rules desired_set sync_leak
reconcile_veth_leak_networks k rm desired =
    if not rm.veth_leak_enabled || rm.dry_run
    then ok
    else reading (link_by_name k veth_provider_name) fail λ provider.
      reading (get_vrf_table_id k rm) fail λ table.
        reading (λ h. k.routes h (leak_filter provider table)) fail
          λ routes h.
            sync_leak k rm provider table (desired_set desired [])
              (current_nets (parse_ip rm.veth_nexthop) routes)
              (current_rules rm (or_no_rules (k.rules h))) h
