-- ===== src/Firmware/Serial/Tests.antt =====
-- A start that fails, one that succeeds, and what happens then.
use flipper_agent_indicator.Prelude.{◌<◌, ◌≡◌, refl, true, false, List, [], ◌∷◌, ◌++◌, some, length}
use flipper_agent_indicator.Firmware.Receiver.{data_received, rx_callback}
use flipper_agent_indicator.Firmware.{fai_protocol_decode}
use flipper_agent_indicator.Firmware.Serial.{
  DeviceCall, record_open, record_close, profile_start, profile_restore_default, set_event_callback,
  set_rpc_active, set_status_changed_callback, timer_alloc, timer_start, timer_stop, timer_free,
  BleSerial, g_ble, connected, Operation, init, deinit, tick, status_changed, sends, receives,
  operate_all, ble_serial_deinit, serial_tx,
}
use flipper_agent_indicator.Firmware.Serial.Rules.{Held, untouched, all_allowed}
use flipper_agent_indicator.Firmware.Serial.Resources.{operations-allowed}

-- The first byte of a frame comes, and an ACK is sent.
abbrev happenings : List Operation
happenings =
    init false
    ∷ sends true (some (0x81 ∷ 0 ∷ []))
    ∷ init true
    ∷ status_changed connected
    ∷ receives (data_received (1 ∷ []))
    ∷ tick
    ∷ sends true (some (0x81 ∷ 0 ∷ []))
    ∷ []

happenings_run :
    operate_all
      (init true
        ∷ receives (data_received (1 ∷ []))
        ∷ sends true (some (0x81 ∷ 0 ∷ []))
        ∷ deinit
        ∷ deinit
        ∷ [])
      g_ble
    ≡ some (
      g_ble,
      record_open
          ∷ profile_start true
          ∷ set_event_callback
          ∷ set_rpc_active false
          ∷ set_status_changed_callback true
          ∷ timer_alloc
          ∷ timer_start
          ∷ serial_tx (0x81 ∷ 0 ∷ [])
          ∷ timer_stop
          ∷ timer_free
          ∷ set_status_changed_callback false
          ∷ profile_restore_default
          ∷ record_close
          ∷ [],
    )
unfolding operate_all rx_callback fai_protocol_decode
happenings_run = refl

operations-allowed_example :
    (g : BleSerial) × (calls : List DeviceCall) × (d : Held) × (operate_all happenings g_ble
      ≡ some (g, calls))
    × (all_allowed calls (some untouched) ≡ some d)
    × ((g.initialized ≡ d.started) × (length g.rx_buf < 136))
    × (all_allowed (calls ++ (ble_serial_deinit g).1) (some untouched) ≡ some untouched)
operations-allowed_example = operations-allowed happenings
