-- ===== src/Ovn/Events/Lost.antt =====
-- What the end of `Connect` in ovn.go leaves to the refresh loop.
use mathlib.Core.Bool.{false≢true}
use ovn_route_agent.Base.{
  String, Bool, true, false, not, ◌≡◌, ◌||◌, ◌++◌, arith, refl, sym, ◌∙◌, if◌then◌else◌, Option,
  none, List, [], ◌∷◌, any,
}
use ovn_route_agent.Ovn.Rows.{SbPortBinding}
use ovn_route_agent.Ovn.Events.Loop.{
  Client, Event, sb_update, is_chassis_redirect, handle, sb_handle, sb_handle_change,
  nb_handle_change, debounce_state_refresh, sb_add, sb_delete, nb_add, nb_update, nb_delete,
  sb_watched, nb_watched, immediate_state_refresh, handle_all, drain_signals, fresh, connected, Arm,
  debounce, debounce_fire, reconcile_fire, immediate, run_arm,
}
use ovn_route_agent.Ovn.Events.Schedule.{World, Tracked, relevant, pending, handle-Signals}

if_false : {A : Type 0} (b : Bool) (x y : A) → b ≡ false → (if b then x else y) ≡ y
if_false b x y e = rw e refl

if_kept :
    {A : Type 0} (f : A → Bool) (b : Bool) (x y : A) (z : Bool)
    → f x ≡ z
    → f y ≡ z
    → f (if b then x else y) ≡ z
if_kept f true x y z p q = p
if_kept f false x y z p q = q

-- What no signal changes, no handler changes.
module _ (f : Client → Bool) (debounced : (c : Client) → f (record c { debounce_ch = true }) ≡ f c)
    (at_once : (c : Client) → f (record c { immediate_ch = true }) ≡ f c) where
  debounce-kept : (b : Bool) (c : Client) → f (if b then debounce_state_refresh c else c) ≡ f c
  unfolding debounce_state_refresh
  debounce-kept b c =
      if_kept f b _ c (f c) (if_kept f (not c.ready) c _ (f c) refl (debounced c)) refl

  sb_handle-kept :
      (table : String) (m : Option SbPortBinding) (c : Client) → f (sb_handle table m c) ≡ f c
  unfolding sb_handle sb_handle_change immediate_state_refresh
  sb_handle-kept table m c =
      if_kept f (is_chassis_redirect table m) _ _ (f c)
        (if_kept f (not c.ready) c _ (f c) refl (at_once c)) (debounce-kept (sb_watched table) c)

  handle-kept : (e : Event) (c : Client) → f (handle e c) ≡ f c
  unfolding handle nb_handle_change
  handle-kept (sb_add table m) c = sb_handle-kept table m c
  handle-kept (sb_update table old new) c = sb_handle-kept table new c
  handle-kept (sb_delete table m) c = sb_handle-kept table m c
  handle-kept (nb_add table) c = debounce-kept (nb_watched table) c
  handle-kept (nb_update table) c = debounce-kept (nb_watched table) c
  handle-kept (nb_delete table) c = debounce-kept (nb_watched table) c

  handle_all-kept : (es : List Event) (c : Client) → f (handle_all es c) ≡ f c
  unfolding handle_all
  handle_all-kept [] c = refl
  handle_all-kept (e ∷ es) c = handle_all-kept es (handle e c) ∙ handle-kept e c

connected-off :
    (f : Client → Bool)
    → ((c : Client) → f (record c { debounce_ch = true }) ≡ f c)
    → ((c : Client) → f (record c { immediate_ch = true }) ≡ f c)
    → ((c : Client) → f (record c { ready = true }) ≡ f c)
    → ((c : Client) → f (record c { debounce_ch = false; immediate_ch = false }) ≡ f c)
    → f fresh ≡ false
    → (before after : List Event) → f (connected before after) ≡ false
unfolding connected drain_signals
connected-off f d i r n start before after =
    let c = handle_all before fresh in
    n (handle_all after (record c { ready = true }))
    ∙ handle_all-kept f d i after (record c { ready = true })
    ∙ r c
    ∙ handle_all-kept f d i before fresh
    ∙ start

idle_pending : (before after : List Event) → pending (connected before after) ≡ false
unfolding connected drain_signals
idle_pending before after =
    connected-off (λ c. c.debounce_timer) (λ c. refl) (λ c. refl) (λ c. refl) (λ c. refl) refl
      before after

connected_idle :
    (before after : List Event) (has_callback : Bool) (a : Arm)
    → run_arm has_callback a (connected before after) ≡ none
unfolding run_arm connected drain_signals
connected_idle before after has_callback debounce = refl
connected_idle before after has_callback debounce_fire = if_false _ _ _ (
    connected-off (λ c. c.debounce_timer) (λ c. refl) (λ c. refl) (λ c. refl) (λ c. refl) refl
      before after)
connected_idle before after has_callback reconcile_fire = if_false _ _ _ (
    connected-off (λ c. c.reconcile_timer) (λ c. refl) (λ c. refl) (λ c. refl) (λ c. refl) refl
      before after)
connected_idle before after has_callback immediate = refl

-- A relevant change among those handled leaves a signal.
handle_all-pending :
    (es : List Event) (c : Client)
    → c.ready ≡ true
    → (any relevant es || pending c) ≡ true
    → pending (handle_all es c) ≡ true
unfolding handle_all any
handle_all-pending [] c r e = ground arith
handle_all-pending (f ∷ es) c r e =
    let (ready, signal, timer) = handle-Signals f c r in
    handle_all-pending es (handle f c) ready (ground (arith, signal))

any-behind : (xs ys : List Event) → any relevant ys ≡ true → any relevant (xs ++ ys) ≡ true
unfolding any
any-behind [] ys e = e
any-behind (x ∷ xs) ys e = ground (arith, any-behind xs ys e)

-- Before the signals are drained: of the changes whose handlers run once `ready` is set, the caches
-- took in `listed` before `refreshState` listed their tables, and `late` after that.
abbrev pub undrained : (before listed late : List Event) → Client
undrained before listed late =
    handle_all (listed ++ late) (record (handle_all before fresh) { ready = true })

-- The end of `Connect` in the terms of the loop, where the listings succeed: the changes in `late` are
-- newer than the state.
abbrev pub after_connect : (before listed late : List Event) → World
after_connect before listed late = record {
  client = connected before (listed ++ late);
  unhandled = [];
  unseen = any relevant late;
  stale = any relevant late;
  failed = false;
  unreported = false;
}

-- Where the caches take in a relevant change after `refreshState` has listed its table and its handler
-- runs before `drainSignals`, the handler has left a signal, and the drain discards it: no arm of the
-- loop can run before another event, and the loop does not start in a state that is tracked, as the
-- change has no call of `refreshState` after it and none on its way.
pub connect_loses :
    (before listed late : List Event) (has_callback : Bool)
    → any relevant late ≡ true
    → (pending (undrained before listed late) ≡ true)
      × ((a : Arm) → run_arm has_callback a (after_connect before listed late).client ≡ none)
      × (¬ (Tracked has_callback (after_connect before listed late)))
unfolding any
connect_loses before listed late has_callback lost = (
  handle_all-pending (listed ++ late) (record (handle_all before fresh) { ready = true }) refl
      (ground (arith, any-behind listed late lost)),
  connected_idle before (listed ++ late) has_callback,
  λ t. false≢true (sym (idle_pending before (listed ++ late)) ∙ t.1 lost),
)
