-- ===== src/Examples/Routing.antt =====
-- Sample routes: one address to add, one managed address to remove, one foreign address to leave.
use ovn_route_agent.Base.{String, false, not, ◌&&◌, ◌≡◌, List, [], ◌∷◌, elem, All}
use ovn_route_agent.Net.{v4}
use ovn_route_agent.Agent.Defs.{Agent, is_managed, ensure_routes, remove_all_routes}
use ovn_route_agent.Agent.Routes.{IsAllowed, ensure_routes-IsAllowed}
use ovn_route_agent.Agent.Order.{IsOrdered, ensure_routes-IsOrdered}
use ovn_route_agent.Agent.Replay.{World, after, faithful}
use ovn_route_agent.Agent.Converge.{target_frr, target_kernel, ensure_routes-Converges}
use ovn_route_agent.Agent.Remove.{remove_all_routes-Clears}

-- 192.0.2.0/24
abbrev agent : Agent
agent = record {
  port_forward_only = false;
  effective_filters = record { ip = v4 3221225984; ones = 24; bits = 32 } ∷ [];
  consecutive_re_adds = 0;
}

abbrev world : World
world = record { kernel = "192.0.2.9" ∷ "10.0.0.1" ∷ []; frr = "192.0.2.9" ∷ [] }

abbrev desired : List String
desired = "192.0.2.7" ∷ []

ensure_routes-IsAllowed_example :
    All (IsAllowed agent desired) (ensure_routes (faithful world) agent desired []).1
ensure_routes-IsAllowed_example = ensure_routes-IsAllowed agent desired (faithful world)

ensure_routes-IsOrdered_example : IsOrdered (ensure_routes (faithful world) agent desired []).1
ensure_routes-IsOrdered_example = ensure_routes-IsOrdered (faithful world) agent desired

ensure_routes-Converges_example :
    (elem "192.0.2.9" (after world (ensure_routes (faithful world) agent desired []).1).frr
      ≡ target_frr world agent desired "192.0.2.9")
    × (elem "192.0.2.9" (after world (ensure_routes (faithful world) agent desired []).1).kernel
        ≡ target_kernel world agent desired "192.0.2.9")
ensure_routes-Converges_example = ensure_routes-Converges world agent desired "192.0.2.9"

remove_all_routes-Clears_example :
    (elem "192.0.2.9" (after world (remove_all_routes (faithful world) agent []).1).frr
      ≡ (elem "192.0.2.9" world.frr && not (is_managed agent "192.0.2.9")))
    × (elem "192.0.2.9" (after world (remove_all_routes (faithful world) agent []).1).kernel
        ≡ (elem "192.0.2.9" world.kernel && not (is_managed agent "192.0.2.9")))
remove_all_routes-Clears_example = remove_all_routes-Clears world agent "192.0.2.9"
