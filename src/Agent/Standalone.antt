-- ===== src/Agent/Standalone.antt =====
-- Which calls a run of agent.go makes in port-forward-only mode, and their order at the end.
use ovn_route_agent.Base.{
  String, Bool, true, false, not, ◌&&◌, ◌≡◌, refl, List, [], ◌∷◌, ◌++◌, All, All-append, is_empty,
  Bool-cases, arith, inl, inr,
}
use ovn_route_agent.Config.{Config}
use ovn_route_agent.Ovn.State.Refresh.{OvnState}
use ovn_route_agent.Agent.Cycle.{
  Step, setup_veth_leak, setup_port_forward, reconcile_prefix_list, reconcile_port_forward,
  ensure_routes, remove_all_routes, check_route_activity, teardown_port_forward, teardown_veth_leak,
  setup, run_until_failure, reconcile, reconcile_gateway, reconcile_routes, cycles, cleanup,
  shutdown, run, run_on, zero_state, desired_ips, when, restore_drained,
}

-- Port forwarding, its veth pair and the routes; not OVN, its flows or its bridge.
abbrev pub is_local : Step → Bool
is_local setup_veth_leak = true
is_local setup_port_forward = true
is_local (reconcile_port_forward networks snat_ips) = true
is_local (ensure_routes desired) = true
is_local remove_all_routes = true
is_local (check_route_activity desired) = true
is_local (reconcile_prefix_list networks) = is_empty networks
is_local teardown_port_forward = true
is_local teardown_veth_leak = true
is_local _ = false

abbrev pub Local : List Step → Type 0
Local steps = All (λ s. is_local s ≡ true) steps

pub run_until_failure-All :
    (P : Step → Type 0) (succeeds : Step → Bool) (steps : List Step)
    → All P steps
    → All P (run_until_failure succeeds steps).0
unfolding run_until_failure
run_until_failure-All P succeeds [] l = tt
run_until_failure-All P succeeds (s ∷ steps) l = elim (Bool-cases (succeeds s)) [
  | inl e ↦ rw e (l.0, run_until_failure-All P succeeds steps l.1)
  | inr e ↦ rw e (l.0, tt)
]

reconcile_routes-local :
    (desired : List String) (b : Bool) → is_local (reconcile_routes desired b) ≡ true
reconcile_routes-local [] true = refl
reconcile_routes-local [] false = refl
reconcile_routes-local (ip ∷ ips) b = refl

reconcile-Local :
    (cfg : Config) (state : OvnState) (mac : String)
    → cfg.port_forward_only ≡ true
    → Local (reconcile cfg state mac)
unfolding reconcile reconcile_gateway
reconcile-Local cfg state mac only =
    rw only (refl, (reconcile_routes-local (desired_ips cfg zero_state) false, (refl, tt)))

cycles-Local :
    (cfg : Config) (found : List (OvnState × String))
    → cfg.port_forward_only ≡ true
    → Local (cycles cfg found)
unfolding cycles
cycles-Local cfg [] only = tt
cycles-Local cfg ((state, mac) ∷ rest) only =
    All-append _ (reconcile cfg state mac) (cycles cfg rest) (reconcile-Local cfg state mac only)
      (cycles-Local cfg rest only)

shutdown-Local : (cfg : Config) → cfg.port_forward_only ≡ true → Local (shutdown cfg)
unfolding shutdown cleanup
shutdown-Local cfg only = elim (Bool-cases cfg.cleanup_on_shutdown) [
  | inl e ↦ rw (only, e) (refl, (refl, (refl, (refl, tt))))
  | inr e ↦ rw (only, e) tt
]

setup-Local : (cfg : Config) → cfg.port_forward_only ≡ true → Local (setup cfg)
unfolding setup
setup-Local cfg only = rw only (refl, (refl, tt))

when-Local : (b : Bool) (steps : List Step) → b ≡ false → Local (when b steps)
when-Local b steps e = rw e tt

run_on-Local :
    (cfg : Config) (found : List (OvnState × String)) (done : List Step) (ok : Bool)
    → cfg.port_forward_only ≡ true
    → Local done
    → Local (run_on cfg found (done, ok))
run_on-Local cfg found done false only l = l
run_on-Local cfg found done true only l =
    let restored =
      when (not cfg.port_forward_only && cfg.drain_on_shutdown) (restore_drained ∷ []) in
    All-append _ (done ++ restored ++ cycles cfg found) (shutdown cfg)
      (All-append _ (done ++ restored) (cycles cfg found)
        (All-append _ done restored l (
          when-Local (not cfg.port_forward_only && cfg.drain_on_shutdown) (restore_drained ∷ [])
            (ground (arith, only))))
        (cycles-Local cfg found only))
      (shutdown-Local cfg only)

-- In port-forward-only mode a whole run makes no call that concerns OVN, the OVS flows or the
-- bridge, whatever fails during the start and whatever its cycles find.
pub run-Local :
    (cfg : Config) (succeeds : Step → Bool) (found : List (OvnState × String))
    → cfg.port_forward_only ≡ true
    → Local (run cfg succeeds found)
unfolding run
run-Local cfg succeeds found only =
    run_on-Local cfg found _ _ only
      (run_until_failure-All _ succeeds (setup cfg) (setup-Local cfg only))
