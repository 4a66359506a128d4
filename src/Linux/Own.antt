-- ===== src/Linux/Own.antt =====
-- `ReconcileVethLeakNetworks` touches its own routes and rules only.
use ovn_route_agent.Base.{String, false, ◌≡◌, some, List, map, elem, In, All}
use ovn_route_agent.Net.{Ip, IpNet, parse_ip, parse_cidr, net_text}
use ovn_route_agent.Linux.Defs.{
  Manager, Route, IpRule, RouteFilter, Change, route_replace, route_del, rule_add, rule_del, Kernel,
  History,
}
use ovn_route_agent.Linux.Leak.{agent_protocol}
use ovn_route_agent.Linux.Log.{AllOf}

-- A route of the agent that the kernel lists, with this text of its network.
abbrev pub ListedRoute : Kernel → (key : String) → Type 0
ListedRoute k key =
    (h : History) × (f : RouteFilter) × (rs : List Route) × (r : Route) × (n : IpNet) × (k.routes h
        f
      ≡ some rs)
    × In r rs
    × (r.protocol ≡ agent_protocol)
    × (r.dst ≡ some n)
    × (net_text n ≡ key)

abbrev pub ListedRule : Kernel → IpRule → Type 0
ListedRule k r = (h : History) × (rs : List IpRule) × (k.rules h ≡ some rs) × In r rs

-- What a reconciliation of these networks may do.
abbrev pub Fits : Kernel → Manager → List IpNet → Change → Type 0
Fits k rm desired (route_replace r) =
    (r.protocol ≡ agent_protocol)
    × (r.gw ≡ parse_ip rm.veth_nexthop)
    × ((n : IpNet) × In n desired × (r.dst ≡ some n))
Fits k rm desired (route_del r) =
    (r.protocol ≡ agent_protocol)
    × (r.gw ≡ parse_ip rm.veth_nexthop)
    × ((key : String) × (ip : Ip) × (n : IpNet) × ListedRoute k key
        × (elem key (map net_text desired) ≡ false)
        × (parse_cidr key ≡ some (ip, n))
        × (r.dst ≡ some n))
Fits k rm desired (rule_add r) =
    (r.table ≡ rm.veth_leak_table_id)
    × (r.priority ≡ rm.veth_leak_rule_priority)
    × ((n : IpNet) × In n desired × (r.src ≡ some n))
Fits k rm desired (rule_del r) =
    (r.table ≡ rm.veth_leak_table_id)
    × (r.priority ≡ rm.veth_leak_rule_priority)
    × ListedRule k r
    × ((n : IpNet) × (r.src ≡ some n) × (elem (net_text n) (map net_text desired) ≡ false))
Fits k rm desired _ = ⊥

module _ (k : Kernel) (rm : Manager) (desired : List IpNet) where
  abbrev Own : History → Type 0
  Own = AllOf (Fits k rm desired)

  -- An entry of a set of which each comes from the desired networks.
  abbrev Desired : List (String × IpNet) → Type 0
  Desired m = All (λ e. In e.1 desired) m
