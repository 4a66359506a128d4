-- ===== src/Ovn/Events/Schedule.antt =====
-- Changes, handlers and the refresh loop of ovn.go, interleaved in any order.
use ovn_route_agent.Base.{
  String, Bool, true, false, not, ◌==◌, ◌&&◌, ◌||◌, if◌then◌else◌, Bool-cases, subst, inl, inr, ◌≡◌,
  refl, Option, none, some, List, [], ◌∷◌, ◌++◌, arith, any,
}
use mathlib.Core.Option.{some-injective}
use ovn_route_agent.Ovn.Rows.{SbPortBinding}
use ovn_route_agent.Ovn.Events.Loop.{
  Client, Event, sb_add, sb_update, sb_delete, nb_add, nb_update, nb_delete, is_chassis_redirect,
  sb_watched, nb_watched, debounce_state_refresh, immediate_state_refresh, sb_handle_change,
  nb_handle_change, sb_handle, handle, Arm, Call, refresh, on_change, run_arm,
}

abbrev pub is_among : String → List String → Bool
is_among table [] = false
is_among table (t ∷ ts) = table == t || is_among table ts

-- The tables that `refreshState` lists, and `Gateway_Chassis`, whose rows the reconciliation after a
-- refresh reads.
abbrev pub sb_tables : List String
sb_tables = "Port_Binding" ∷ "Chassis" ∷ []

abbrev pub nb_tables : List String
nb_tables = "Logical_Router_Port" ∷ "Logical_Router" ∷ "NAT" ∷ "Gateway_Chassis" ∷ []

-- The change is one of a row that the agent reads.
abbrev pub relevant : Event → Bool
relevant (sb_add table m) = is_among table sb_tables
relevant (sb_update table old new) = is_among table sb_tables
relevant (sb_delete table m) = is_among table sb_tables
relevant (nb_add table) = is_among table nb_tables
relevant (nb_update table) = is_among table nb_tables
relevant (nb_delete table) = is_among table nb_tables

-- The client among the caches: the changes whose handler has not run yet, the next one first;
-- whether a relevant change is newer than the last call of `refreshState`, and whether one is newer
-- than the last call whose listings all succeeded; whether the last call failed to list; and whether a
-- call is newer than the last call of the callback. A call that runs while a change arrives counts as
-- older.
pub record World : Type 0 where
  pub client : Client
  pub unhandled : List Event
  pub unseen : Bool
  pub stale : Bool
  pub failed : Bool
  pub unreported : Bool

-- What the calls of a round do; `lists` tells whether the listings of the refresh succeed. A refresh
-- that fails to list keeps the old state.
abbrev pub effect : (has_callback lists : Bool) → List Call → World → World
effect has_callback lists [] w = w
effect has_callback lists (refresh ∷ calls) w = effect has_callback lists calls (record w {
  unseen = false;
  stale = w.stale && not lists;
  failed = not lists;
  unreported = has_callback;
})
effect has_callback lists (on_change ∷ calls) w =
    effect has_callback lists calls (record w { unreported = false })

pub data Step (has_callback : Bool) (w : World) : World → Type 0 where
  -- A cache takes a change in, and will call its handler.
  change :
      (e : Event)
      → Step has_callback w (record w {
        unhandled = w.unhandled ++ (e ∷ []);
        unseen = w.unseen || relevant e;
        stale = w.stale || relevant e;
      })
  call_handler :
      (e : Event) (es : List Event)
      → w.unhandled ≡ e ∷ es
      → Step has_callback w (record w { client = handle e w.client; unhandled = es })
  loop :
      (a : Arm) (lists : Bool) {c : Client} {calls : List Call}
      → run_arm has_callback a w.client ≡ some (c, calls)
      → Step has_callback w (effect has_callback lists calls (record w { client = c }))

-- What can follow when the loop starts on a state that is up to date.
pub data Reach (has_callback : Bool) (c : Client) : World → Type 0 where
  start : Reach has_callback c (record {
    client = c;
    unhandled = [];
    unseen = false;
    stale = false;
    failed = false;
    unreported = false;
  })
  later : {w v : World} → Reach has_callback c w → Step has_callback w v → Reach has_callback c v

abbrev pub pending : Client → Bool
pending c = c.debounce_ch || c.immediate_ch || c.debounce_timer

-- Each relevant change without a later call of `refreshState` is on its way to one, each such call is
-- on its way to a call of the callback, and the state is only old where such a change or a call that
-- failed is the reason.
abbrev pub Tracked : (has_callback : Bool) → World → Type 0
Tracked has_callback w =
    (w.client.ready ≡ true)
    × (w.unseen ≡ true → (any relevant w.unhandled || pending w.client) ≡ true)
    × (w.unreported ≡ true → (has_callback && w.client.reconcile_timer) ≡ true)
    × (w.stale ≡ true → (w.unseen || w.failed) ≡ true)

-- What a handler does to a client that is ready, by whether it signals.
abbrev Signals : Bool → (before after : Client) → Type 0
Signals b c d =
    (d.ready ≡ true) × (pending d ≡ (b || pending c)) × (d.reconcile_timer ≡ c.reconcile_timer)

debounce_state_refresh-Signals :
    (b : Bool) (c : Client)
    → c.ready ≡ true
    → Signals b c (if b then debounce_state_refresh c else c)
unfolding debounce_state_refresh
debounce_state_refresh-Signals true c r = rw r (refl, refl, refl)
debounce_state_refresh-Signals false c r = (r, refl, refl)

redirect_among :
    (table : String) (m : Option SbPortBinding)
    → is_chassis_redirect table m ≡ true
    → is_among table sb_tables ≡ true
redirect_among table none e = cc
redirect_among table (some pb) e = ground arith

sb_handle-Signals :
    (table : String) (m : Option SbPortBinding) (c : Client)
    → c.ready ≡ true
    → Signals (is_among table sb_tables) c (sb_handle table m c)
unfolding sb_handle sb_handle_change immediate_state_refresh
sb_handle-Signals table m c r = elim (Bool-cases (is_chassis_redirect table m)) [
  | inl e ↦ rw (e, r) (refl, ground (arith, redirect_among table m e), refl)
  | inr e ↦ rw e (
      subst (λ b. Signals b c (if sb_watched table then debounce_state_refresh c else c))
        (watched table) (debounce_state_refresh-Signals (sb_watched table) c r))
]
  where
    watched : (t : String) → sb_watched t ≡ is_among t sb_tables
    watched t = ground arith

nb_handle_change-Signals :
    (table : String) (c : Client)
    → c.ready ≡ true
    → Signals (is_among table nb_tables) c (nb_handle_change table c)
unfolding nb_handle_change
nb_handle_change-Signals table c r =
    subst (λ b. Signals b c (if nb_watched table then debounce_state_refresh c else c))
      (watched table) (debounce_state_refresh-Signals (nb_watched table) c r)
  where
    watched : (t : String) → nb_watched t ≡ is_among t nb_tables
    watched t = ground arith

pub handle-Signals : (e : Event) (c : Client) → c.ready ≡ true → Signals (relevant e) c (handle e c)
unfolding handle
handle-Signals (sb_add table m) c r = sb_handle-Signals table m c r
handle-Signals (sb_update table old new) c r = sb_handle-Signals table new c r
handle-Signals (sb_delete table m) c r = sb_handle-Signals table m c r
handle-Signals (nb_add table) c r = nb_handle_change-Signals table c r
handle-Signals (nb_update table) c r = nb_handle_change-Signals table c r
handle-Signals (nb_delete table) c r = nb_handle_change-Signals table c r

pub if_some :
    {A : Type 0} (b : Bool) (x y : A) → (if b then some x else none) ≡ some y → (b ≡ true) × (x ≡ y)
if_some true x y e = (refl, some-injective x y e)
if_some false x y e = cc
