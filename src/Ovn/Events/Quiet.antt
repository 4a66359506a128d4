-- ===== src/Ovn/Events/Quiet.antt =====
-- The refresh loop of ovn.go comes to rest, and what holds when it does.
use ovn_route_agent.Base.{
  ℕ, ◌+◌, ◌≤◌, ◌<◌, String, Bool, true, false, ◌≡◌, refl, if◌then◌else◌, Option, none, some, List,
  [], ◌∷◌, arith, length, subst,
}
use ovn_route_agent.Ovn.Rows.{SbPortBinding}
use ovn_route_agent.Ovn.Events.Loop.{
  Client, sb_update, is_chassis_redirect, handle, sb_handle, immediate_state_refresh, Arm, debounce,
  debounce_fire, reconcile_fire, immediate, Call, refresh, report, run_arm,
}
use ovn_route_agent.Ovn.Events.Schedule.{if_some}

-- The arms one after the other, without an event between them.
abbrev next : (Client → Option Client) → Option (Client × List Call) → Option Client
next rest none = none
next rest (some (c, calls)) = rest c

unfoldable pub run_arms : (has_callback : Bool) → List Arm → Client → Option Client
unfolding run_arm
run_arms has_callback [] c = some c
run_arms has_callback (a ∷ arms) c = next (run_arms has_callback arms) (run_arm has_callback a c)

abbrev weight : Bool → ℕ → ℕ
weight b n = if b then n else 0

-- The rounds that the signals and the timers can still cause.
abbrev pub work : Client → ℕ
work c =
    weight c.debounce_ch 3
    + weight c.immediate_ch 1
    + weight c.debounce_timer 2
    + weight c.reconcile_timer 1

run_arm-work :
    (has_callback : Bool) (a : Arm) (c d : Client) (calls : List Call)
    → run_arm has_callback a c ≡ some (d, calls)
    → work d < work c
unfolding run_arm
run_arm-work has_callback debounce c d calls e =
    let (on, eq) = if_some c.debounce_ch _ (d, calls) e in
    subst (λ p. work p.0 < work c) eq (ground arith)
run_arm-work has_callback debounce_fire c d calls e =
    let (on, eq) = if_some c.debounce_timer _ (d, calls) e in
    subst (λ p. work p.0 < work c) eq (ground arith)
run_arm-work has_callback reconcile_fire c d calls e =
    let (on, eq) = if_some c.reconcile_timer _ (d, calls) e in
    subst (λ p. work p.0 < work c) eq (ground arith)
run_arm-work has_callback immediate c d calls e =
    let (on, eq) = if_some c.immediate_ch _ (d, calls) e in
    subst (λ p. work p.0 < work c) eq (ground arith)

next-some :
    (rest : Client → Option Client) (o : Option (Client × List Call)) (d : Client)
    → next rest o ≡ some d
    → (p : Client × List Call) × (o ≡ some p) × (rest p.0 ≡ some d)
next-some rest none d e = cc
next-some rest (some p) d e = (p, refl, e)

run_arms-work :
    (has_callback : Bool) (arms : List Arm) (c d : Client)
    → run_arms has_callback arms c ≡ some d
    → length arms ≤ work c
unfolding run_arms
run_arms-work has_callback [] c d e = omega arith
run_arms-work has_callback (a ∷ arms) c d e =
    let (p, first, later) = next-some (run_arms has_callback arms) (run_arm has_callback a c) d e in
    omega (
      arith,
      run_arm-work has_callback a c p.0 p.1 first,
      run_arms-work has_callback arms p.0 d later,
    )

-- The loop runs at most seven rounds without a new event.
pub run_arms-length :
    (has_callback : Bool) (arms : List Arm) (c d : Client)
    → run_arms has_callback arms c ≡ some d
    → length arms ≤ 7
run_arms-length has_callback arms c d e = ground (arith, run_arms-work has_callback arms c d e)

-- A change of a chassisredirect port is refreshed and reported by one round of the loop, whatever
-- timers are set, and ends a debounce timer.
pub redirect_immediate :
    (has_callback : Bool) (table : String) (old new : Option SbPortBinding) (c : Client)
    → c.ready ≡ true
    → is_chassis_redirect table new ≡ true
    → run_arm has_callback immediate (handle (sb_update table old new) c)
      ≡ some
          (record c { immediate_ch = false; debounce_timer = false }, refresh ∷ report has_callback)
unfolding run_arm handle sb_handle immediate_state_refresh
redirect_immediate has_callback table old new c r e = rw (e, r) refl
