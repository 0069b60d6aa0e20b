-- ===== src/Firmware/App/Tests.antt =====
-- Runs of the app, and the theorems at them.
use flipper_agent_indicator.Prelude.{true, ◌≡◌, refl, List, [], ◌∷◌, ◌++◌, some, none}
use flipper_agent_indicator.Utf8.{Bytes, utf8, utf8_char}
use flipper_agent_indicator.Text.{codes}
use flipper_agent_indicator.Protocol.{Notification, codex, claude, done, needs_input, notify}
use flipper_agent_indicator.Bridge.{TmuxBridge, started}
use flipper_agent_indicator.Daemon
use flipper_agent_indicator.Daemon.{handle_incoming}
use flipper_agent_indicator.Daemon.Incoming.{expected}
use flipper_agent_indicator.Firmware.{fai_frame_ping, cleared}
use flipper_agent_indicator.Firmware.Effects.{effects_clear}
use flipper_agent_indicator.Firmware.Interop.{on_device}
use flipper_agent_indicator.Firmware.App.{
  start_app, ui_idle, ble_sent, view_port_updated, messages, fai_handle_frame, fai_handle_input,
  fai_send_ack, fai_send_pong, InputEvent, short, back, Taken, app_loop,
}
use flipper_agent_indicator.Firmware.App.Acks.{acks}
use flipper_agent_indicator.Firmware.App.Shows.{ok_key, ok_clears_pane}

abbrev finished : Notification
finished = record { agent = codex; state = done; text = [] }

abbrev asks : Notification
asks = record { agent = claude; state = needs_input; text = [] }

abbrev back_key : InputEvent
back_key = record { type = short; key = back }

-- Two notifications, of which the second is acknowledged, once; the frame behind the Back key is not
-- read.
abbrev rounds : List Taken
rounds =
    (some (on_device (notify finished)), none)
    ∷ (some (on_device (notify asks)), some ok_key)
    ∷ (none, some ok_key)
    ∷ (some (cleared fai_frame_ping), some back_key)
    ∷ (some (cleared fai_frame_ping), none)
    ∷ []

acks_run :
    (acks (app_loop start_app rounds).1 ≡ 0 ∷ [])
    × ((app_loop start_app rounds).0.ui.mode ≡ ui_idle)
unfolding app_loop fai_send_ack fai_send_pong cleared utf8 utf8_char
acks_run = (refl, refl)

abbrev bridge : TmuxBridge
bridge = record { script = codes "/agent-state.sh"; enabled = true }

ok_clears_pane_example :
    let showing = (fai_handle_frame start_app (on_device (notify asks))).0 in
    let (after, outputs) = fai_handle_input showing ok_key in
    (after.ui.mode ≡ ui_idle)
    × (fai_handle_input after ok_key ≡ (after, []))
    × ((bytes : Bytes) × (outputs
          ≡ ble_sent bytes ∷ (messages (effects_clear true) ++ view_port_updated ∷ []))
        × (handle_incoming bridge started bytes
            ≡ Daemon.cleared claude (expected bridge claude started)))
ok_clears_pane_example = ok_clears_pane start_app asks bridge started

abbrev pieces : List Bytes
pieces = (1 ∷ 1 ∷ 3 ∷ 0 ∷ 1 ∷ 0 ∷ []) ∷ (2 ∷ 0 ∷ []) ∷ []
