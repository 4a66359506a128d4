-- ===== src/Linux/Synced.antt =====
-- A reconciliation of the leak networks that returns no error is complete.
use ovn_route_agent.Base.{ℤ, String, true, false, ◌≡◌, some, List, map, elem, In}
use ovn_route_agent.Net.{Ip, IpNet, parse_cidr, net_text}
use ovn_route_agent.Linux.Defs.{
  Manager, Link, route_replace, route_del, rule_add, Kernel, History, is_done, is_done_or_exists,
}
use ovn_route_agent.Linux.Leak.{leak_route, leak_rule}
use ovn_route_agent.Linux.Complete.{There}
use ovn_route_agent.Linux.Log.{Made}

-- Every desired network has its route and its rule, listed or just set, and for every listed network
-- that is not desired the removal of its route has been asked for, whatever its outcome.
pub record Synced (k : Kernel) (rm : Manager) (desired : List IpNet) (provider : Link) (table : ℤ)
    (nets rules : List String) (sent : History) : Type 0 where
  pub route :
      (n : IpNet)
      → In n desired
      → (x : IpNet) × (net_text x ≡ net_text n)
        × There k rm is_done (route_replace (leak_route rm provider table x)) nets (net_text n) sent
  pub rule :
      (n : IpNet)
      → In n desired
      → (x : IpNet) × (net_text x ≡ net_text n)
        × There k rm is_done_or_exists (rule_add (leak_rule rm x)) rules (net_text n) sent
  pub removed :
      (key : String) (ip : Ip) (n : IpNet)
      → elem key nets ≡ true
      → elem key (map net_text desired) ≡ false
      → parse_cidr key ≡ some (ip, n)
      → Made (route_del (leak_route rm provider table n)) sent
