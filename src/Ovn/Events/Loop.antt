-- ===== src/Ovn/Events/Loop.antt =====
-- The event handlers, `refreshLoop`, its signals, and the end of `Connect`, of ovn.go.
use ovn_route_agent.Base.{
  String, Bool, true, false, not, ◌&&◌, ◌||◌, Option, none, some, List, [], ◌∷◌, ◌==◌,
  if◌then◌else◌,
}
use ovn_route_agent.Ovn.Rows.{SbPortBinding}

-- What the handlers and the loop share, and the loop's timers: a channel of capacity one is full or
-- empty, and a timer is set or not.
pub record Client : Type 0 where
  pub ready : Bool
  pub debounce_ch : Bool
  pub immediate_ch : Bool
  pub debounce_timer : Bool
  pub reconcile_timer : Bool

-- `debounceStateRefresh`
unfoldable pub debounce_state_refresh : Client → Client
debounce_state_refresh c = if not c.ready then c else record c { debounce_ch = true }

-- `immediateStateRefresh`
unfoldable pub immediate_state_refresh : Client → Client
immediate_state_refresh c = if not c.ready then c else record c { immediate_ch = true }

-- A change of a cached row; the row is given where it is a port binding.
pub data Event : Type 0 where
  sb_add : (table : String) → Option SbPortBinding → Event
  sb_update : (table : String) → (old new : Option SbPortBinding) → Event
  sb_delete : (table : String) → Option SbPortBinding → Event
  nb_add : (table : String) → Event
  nb_update : (table : String) → Event
  nb_delete : (table : String) → Event

-- `isChassisRedirect`
abbrev pub is_chassis_redirect : String → Option SbPortBinding → Bool
is_chassis_redirect table none = false
is_chassis_redirect table (some pb) = table == "Port_Binding" && pb.type == "chassisredirect"

-- `handleChange` of the southbound and of the northbound handler
abbrev pub sb_watched : String → Bool
sb_watched table = table == "Port_Binding" || table == "Chassis"

abbrev pub nb_watched : String → Bool
nb_watched table =
    table == "NAT"
    || table == "Logical_Router"
    || table == "Logical_Router_Port"
    || table == "Gateway_Chassis"

unfoldable pub sb_handle_change : String → Client → Client
unfolding debounce_state_refresh
sb_handle_change table c = if sb_watched table then debounce_state_refresh c else c

unfoldable pub nb_handle_change : String → Client → Client
unfolding debounce_state_refresh
nb_handle_change table c = if nb_watched table then debounce_state_refresh c else c

-- The body that the three methods of the southbound handler share.
unfoldable pub sb_handle : String → Option SbPortBinding → Client → Client
unfolding immediate_state_refresh sb_handle_change
sb_handle table m c =
    if is_chassis_redirect table m then immediate_state_refresh c else sb_handle_change table c

unfoldable pub handle : Event → Client → Client
unfolding sb_handle nb_handle_change
handle (sb_add table m) c = sb_handle table m c
handle (sb_update table old new) c = sb_handle table new c
handle (sb_delete table m) c = sb_handle table m c
handle (nb_add table) c = nb_handle_change table c
handle (nb_update table) c = nb_handle_change table c
handle (nb_delete table) c = nb_handle_change table c

unfoldable pub handle_all : List Event → Client → Client
unfolding handle
handle_all [] c = c
handle_all (e ∷ es) c = handle_all es (handle e c)

-- `drainSignals`
unfoldable pub drain_signals : Client → Client
drain_signals c = record c { debounce_ch = false; immediate_ch = false }

-- The arms of the loop's `select` until the context ends, and what an arm calls, in order.
pub data Arm : Type 0 where
  debounce : Arm
  debounce_fire : Arm
  reconcile_fire : Arm
  immediate : Arm

pub data Call : Type 0 where
  refresh : Call
  on_change : Call

abbrev pub report : (has_callback : Bool) → List Call
report has_callback = if has_callback then on_change ∷ [] else []

-- One round of `refreshLoop`; none where the arm is not ready.
unfoldable pub run_arm : (has_callback : Bool) → Arm → Client → Option (Client × List Call)
run_arm has_callback debounce c =
    if c.debounce_ch
    then some (record c { debounce_ch = false; debounce_timer = true }, [])
    else none
run_arm has_callback debounce_fire c =
    if c.debounce_timer
    then some (
      record c { debounce_timer = false; reconcile_timer = c.reconcile_timer || has_callback },
      refresh ∷ [],
    )
    else none
run_arm has_callback reconcile_fire c =
    if c.reconcile_timer
    then some (record c { reconcile_timer = false }, report has_callback)
    else none
run_arm has_callback immediate c =
    if c.immediate_ch
    then some
        (record c { immediate_ch = false; debounce_timer = false }, refresh ∷ report has_callback)
    else none

-- The end of `Connect`: the events of the monitors come `before` it sets `ready`, while it lists the
-- tables, or `after` that and before it drains the signals.
abbrev pub fresh : Client
fresh = record {
  ready = false;
  debounce_ch = false;
  immediate_ch = false;
  debounce_timer = false;
  reconcile_timer = false;
}

unfoldable pub connected : (before after : List Event) → Client
unfolding handle_all drain_signals
connected before after =
    drain_signals (handle_all after (record (handle_all before fresh) { ready = true }))
