-- ===== src/Examples/Chassis.antt =====
-- Sample chassis: one that is missing for longer than the grace period.
use ovn_route_agent.Base.{pos, String, Bool, true, ◌≡◌, ◌↔◌, List, [], ◌∷◌, some, elem}
use ovn_route_agent.Agent.Stale.{Missing, cleanup_stale_chassis}
use ovn_route_agent.Agent.Overdue.{IsDue, cleanup_stale_chassis_iff}

abbrev working : List String → Bool
working names = true

abbrev named : List String
named = "gone" ∷ "here" ∷ []

abbrev tracker : Missing
tracker = ("gone", 100) ∷ []

cleanup_stale_chassis_iff_example :
    (elem "gone"
        (cleanup_stale_chassis working 500 (pos 300) 30 ("here" ∷ []) (some named) tracker).0
      ≡ true)
    ↔ IsDue 500 (pos 300) 30 ("here" ∷ []) (some named) tracker "gone"
cleanup_stale_chassis_iff_example =
    cleanup_stale_chassis_iff working 500 (pos 300) 30 ("here" ∷ []) (some named) tracker "gone"
