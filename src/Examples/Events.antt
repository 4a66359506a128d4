-- ===== src/Examples/Events.antt =====
-- Sample events: a chassisredirect port moves while the debounce timer runs.
use ovn_route_agent.Base.{true, false, ◌≡◌, refl, ◌≤◌, none, [], ◌∷◌, any}
use ovn_route_agent.Ovn.Events.Loop.{
  Client, Event, Arm, debounce, debounce_fire, reconcile_fire, run_arm, nb_add,
}
use ovn_route_agent.Ovn.Events.Schedule.{World, Tracked, pending}
use ovn_route_agent.Ovn.Events.Quiet.{run_arms, run_arms-length}
use ovn_route_agent.Ovn.Events.Lost.{undrained, after_connect, connect_loses}

abbrev idle : Client
idle = record {
  ready = true;
  debounce_ch = false;
  immediate_ch = false;
  debounce_timer = false;
  reconcile_timer = false;
}

abbrev busy : Client
busy = record idle { debounce_ch = true; debounce_timer = true }

abbrev start_world : World
start_world = record {
  client = idle;
  unhandled = [];
  unseen = false;
  stale = false;
  failed = false;
  unreported = false;
}

abbrev nat_added : Event
nat_added = nb_add "NAT"

abbrev signalled : World
signalled = record start_world {
  client = record idle { debounce_ch = true };
  unseen = true;
  stale = true;
}

run_arms-length_example : 3 ≤ 7
unfolding run_arms run_arm
run_arms-length_example =
    run_arms-length true (debounce ∷ debounce_fire ∷ reconcile_fire ∷ []) busy idle refl

connect_loses_example :
    (pending (undrained [] [] (nat_added ∷ [])) ≡ true)
    × ((a : Arm) → run_arm true a (after_connect [] [] (nat_added ∷ [])).client ≡ none)
    × (¬ (Tracked true (after_connect [] [] (nat_added ∷ []))))
unfolding any
connect_loses_example = connect_loses [] [] (nat_added ∷ []) true refl
