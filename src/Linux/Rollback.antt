-- ===== src/Linux/Rollback.antt =====
-- How `AddKernelRoute` ends.
use ovn_route_agent.Base.{
  pos, ltb_ℤ, String, Bool, true, false, ◌≡◌, ◌⊎◌, some, [], ◌∷◌, if◌then◌else◌,
}
use ovn_route_agent.Net.{Ip, parse_ip}
use ovn_route_agent.Linux.Defs.{
  Manager, Link, Route, IpRule, Change, Outcome, route_replace, route_del, rule_add, Kernel,
  History, Method, ok, ◌>>◌, call, must, is_done, is_done_or_exists,
}
use ovn_route_agent.Linux.Host.{host_route, host_rule, or_roll_back}
use ovn_route_agent.Linux.Log.{Made, MadeWith}

-- The route of a change.
abbrev route_in : Route → Change → Route
route_in other (route_replace r) = r
route_in other _ = other

-- For every route that was set the removal has been asked for, whatever its outcome.
abbrev pub RemovalSent : History → Type 0
RemovalSent sent = (r : Route) → MadeWith is_done (route_replace r) sent → Made (route_del r) sent

-- The route is set, and in a table of its own there is its rule.
abbrev pub RouteSet : (own_table : Bool) → Route → IpRule → History → Type 0
RouteSet own_table route rule sent =
    MadeWith is_done (route_replace route) sent
    × ((own_table ≡ false) ⊎ MadeWith is_done_or_exists (rule_add rule) sent)

abbrev pub Ends : (History → Type 0) → Bool × History → Type 0
Ends Set (succeeded, sent) =
    ((succeeded ≡ true) × Set sent) ⊎ ((succeeded ≡ false) × RemovalSent sent)

module _ (k : Kernel) (route : Route) (rule : IpRule) where
  abbrev ensured : (own_table : Bool) → Method
  ensured own_table =
      must k (route_replace route)
      >> (if own_table then or_roll_back k route (call k is_done_or_exists (rule_add rule)) else ok)

  abbrev first : Outcome
  first = k.outcome [] (route_replace route)

  abbrev second : Outcome
  second = k.outcome ((route_replace route, first) ∷ []) (rule_add rule)

-- The device and the address are found, and the route of this address is set on it.
abbrev pub HostRouteSet : Kernel → Manager → (ip : String) → History → Type 0
HostRouteSet k rm ip sent =
    (link : Link) × (address : Ip) × (k.links [] rm.bridge_dev ≡ some link)
    × (parse_ip ip ≡ some address)
    × RouteSet (ltb_ℤ (pos 0) rm.route_table_id) (host_route rm link address) (host_rule rm address)
        sent
