-- ===== src/Firmware/Serial/Rules.antt =====
-- What the system of the device asks of the calls on the parts of the serial profile.
use flipper_agent_indicator.Prelude.{
  ◌≡◌, ap, Bool, true, false, not, ◌&&◌, List, [], ◌∷◌, ◌++◌, Option, none, some,
}
use flipper_agent_indicator.Firmware.Serial.{
  DeviceCall, record_open, record_close, profile_start, profile_restore_default, set_event_callback,
  set_rpc_active, set_status_changed_callback, timer_alloc, timer_start, timer_stop, timer_free,
  serial_tx,
}

pub data Timer : Type 0 where
  absent allocated ticking : Timer

-- The system, as far as the module holds parts of it.
pub record Held : Type 0 where
  pub opened : Bool
  pub started : Bool
  pub watching : Bool
  pub timer : Timer

abbrev pub untouched : Held
untouched = record { opened = false; started = false; watching = false; timer = absent }

abbrev pub only_if : Bool → Held → Option Held
only_if true d = some d
only_if false d = none

abbrev pub change_timer : Timer → Timer → Held → Option Held
change_timer allocated ticking d = some (record d { timer = ticking })
change_timer ticking allocated d = some (record d { timer = allocated })
change_timer allocated absent d = some (record d { timer = absent })
change_timer _ _ d = none

abbrev pub is_absent : Timer → Bool
is_absent absent = true
is_absent _ = false

-- The rules: a record is opened once and closed when nothing of it is in use, a profile is started once,
-- used only while it runs, and ended when neither the timer nor a callback can use it, and the timer is
-- allocated, started, stopped and freed in this order.
abbrev pub allowed : DeviceCall → Held → Option Held
allowed record_open d = only_if (not d.opened) (record d { opened = true })
allowed record_close d =
    only_if (d.opened && not d.started && not d.watching) (record d { opened = false })
allowed (profile_start started) d =
    only_if (d.opened && not d.started) (record d { started = started })
allowed profile_restore_default d =
    only_if (d.started && not d.watching && is_absent d.timer) (record d { started = false })
allowed set_event_callback d = only_if d.started d
allowed (set_rpc_active active) d = only_if d.started d
allowed (set_status_changed_callback given) d = only_if d.opened (record d { watching = given })
allowed timer_alloc d = only_if (is_absent d.timer) (record d { timer = allocated })
allowed timer_start d = change_timer d.timer ticking d
allowed timer_stop d = change_timer d.timer allocated d
allowed timer_free d = change_timer d.timer absent d
allowed (serial_tx bytes) d = only_if d.started d

abbrev pub all_allowed : List DeviceCall → Option Held → Option Held
all_allowed calls none = none
all_allowed [] (some d) = some d
all_allowed (c ∷ calls) (some d) = all_allowed calls (allowed c d)

pub all_allowed-append :
    (calls later : List DeviceCall) (o : Option Held) (e : Held)
    → all_allowed calls o ≡ some e
    → all_allowed (calls ++ later) o ≡ all_allowed later (some e)
all_allowed-append [] later (some d) e h = ap (all_allowed later) h
all_allowed-append [] later none e h = cc
all_allowed-append (c ∷ calls) later none e h = cc
all_allowed-append (c ∷ calls) later (some d) e h = all_allowed-append calls later (allowed c d) e h
