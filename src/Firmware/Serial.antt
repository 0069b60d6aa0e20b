-- ===== src/Firmware/Serial.antt =====
-- firmware/flipper_agent_indicator/ble_serial.c: the set-up and the end of the serial profile, its
-- callbacks and `ble_serial_send`. A pointer is the flag that it is set; the answers of the system of the
-- device are arguments. The receive buffer is that of Firmware.Receiver.
pub mod Rules
pub mod Resources
mod Tests
use flipper_agent_indicator.Prelude.{
  ◌%◌, ◌^◌, Bool, true, false, not, ◌&&◌, ◌||◌, List, [], ◌∷◌, ◌++◌, Option, none, some,
  if◌then◌else◌, length, take, ◌==◌,
}
use flipper_agent_indicator.Utf8.{Bytes}
use flipper_agent_indicator.Firmware.Receiver.{Received, SerialEvent, rx_callback}

-- What is called of the system.
pub data DeviceCall : Type 0 where
  record_open record_close : DeviceCall
  profile_start : (started : Bool) → DeviceCall
  profile_restore_default : DeviceCall
  set_event_callback : DeviceCall
  set_rpc_active : (active : Bool) → DeviceCall
  set_status_changed_callback : (given : Bool) → DeviceCall
  timer_alloc timer_start timer_stop timer_free : DeviceCall
  serial_tx : Bytes → DeviceCall

-- `FaiBleSerial`
pub record BleSerial : Type 0 where
  pub bt : Bool
  pub profile : Bool
  pub out_queue : Bool
  pub rpc_guard : Bool
  pub rx_buf : Bytes
  pub initialized : Bool

-- static FaiBleSerial g_ble = {0}
abbrev pub g_ble : BleSerial
g_ble = record {
  bt = false;
  profile = false;
  out_queue = false;
  rpc_guard = false;
  rx_buf = [];
  initialized = false;
}

abbrev pub Called : Type 0
Called = BleSerial × List DeviceCall

-- The callback is installed, and the passing on to the RPC service ended.
abbrev pub attach : List DeviceCall
attach = set_event_callback ∷ set_rpc_active false ∷ []

-- `fai_rpc_guard_tick`
unfoldable pub guard_tick : BleSerial → Called
guard_tick g = (g, if g.profile then attach else [])

pub data BtStatus : Type 0 where
  connected advertising other_status : BtStatus

-- `fai_bt_status_cb`
unfoldable pub status_cb : BtStatus → BleSerial → Called
status_cb connected g = (g, if g.profile then attach else [])
status_cb _ g = (g, [])

-- `ble_serial_init` behind its check, by the answer of `bt_profile_start`.
unfoldable pub init_started : Bool → BleSerial → Called
init_started false g = (
  record g { out_queue = false; rx_buf = []; bt = false; profile = false },
  record_open ∷ profile_start false ∷ record_close ∷ [],
)
init_started true g = (
  record g {
    out_queue = true;
    rx_buf = [];
    bt = true;
    profile = true;
    rpc_guard = true;
    initialized = true;
  },
  record_open
      ∷ profile_start true
      ∷ (attach ++ set_status_changed_callback true ∷ timer_alloc ∷ timer_start ∷ []),
)

unfoldable pub ble_serial_init : Bool → BleSerial → Called
unfolding init_started
ble_serial_init started g = if g.initialized then (g, []) else init_started started g

-- `ble_serial_send`: its result, and what is sent; `buf` may be NULL, and the answer is that of
-- `ble_profile_serial_tx`.
unfoldable pub send_buf : Bool → Bytes → Bool × List DeviceCall
send_buf answer buf =
    if length buf == 0
    then (false, [])
    else (answer, serial_tx (take (length buf % 2 ^ 16) buf) ∷ [])

unfoldable pub ble_serial_send : Bool → Option Bytes → BleSerial → Bool × List DeviceCall
unfolding send_buf
ble_serial_send answer none g = (false, [])
ble_serial_send answer (some buf) g = if g.initialized then send_buf answer buf else (false, [])

unfoldable pub stop_guard : Bool → List DeviceCall
stop_guard true = timer_stop ∷ timer_free ∷ []
stop_guard false = []

unfoldable pub ble_serial_deinit : BleSerial → Called
unfolding stop_guard
ble_serial_deinit g =
    if g.initialized
    then (
      g_ble,
      stop_guard g.rpc_guard
          ++ set_status_changed_callback false ∷ profile_restore_default ∷ record_close ∷ [],
    )
    else (g, [])

-- What happens to the module; the frames that a call of the callback delivers are said in
-- Firmware.Receiver.
pub data Operation : Type 0 where
  init : (started : Bool) → Operation
  deinit tick : Operation
  status_changed : BtStatus → Operation
  sends : (answer : Bool) → Option Bytes → Operation
  receives : SerialEvent → Operation

unfoldable pub kept : BleSerial → Option Received → Option Called
kept g none = none
kept g (some r) = some (record g { rx_buf = r.rx }, [])

unfoldable pub operate : Operation → BleSerial → Option Called
unfolding guard_tick status_cb ble_serial_init ble_serial_send ble_serial_deinit kept rx_callback
operate (init started) g = some (ble_serial_init started g)
operate deinit g = some (ble_serial_deinit g)
operate tick g = some (guard_tick g)
operate (status_changed s) g = some (status_cb s g)
operate (sends answer buf) g = some (g, (ble_serial_send answer buf g).1)
operate (receives e) g = kept g (rx_callback g.rx_buf e)

-- The operations one after the other.
unfoldable pub called_before : List DeviceCall → Option Called → Option Called
called_before calls none = none
called_before calls (some (g, later)) = some (g, calls ++ later)

unfoldable pub operate_all : List Operation → BleSerial → Option Called
unfolding operate called_before
operate_all [] g = some (g, [])
operate_all (o ∷ os) g = elim (operate o g) [
  | none ↦ none
  | some c ↦ called_before c.1 (operate_all os c.0)
]
