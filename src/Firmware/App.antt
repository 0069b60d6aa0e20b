-- ===== src/Firmware/App.antt =====
-- firmware/flipper_agent_indicator/flipper_agent_indicator.c: what the app shows and sends, from its
-- start to the Back key. The mutex orders the drawing thread only; the two queues come as what each
-- round of the loop takes from them.
pub mod Acks
pub mod Shows
mod Tests
use mathlib.Core.List.{map}
use flipper_agent_indicator.Prelude.{
  ℕ, Bool, true, false, List, [], ◌∷◌, ◌++◌, Option, none, some, ltb, if◌then◌else◌, length, take,
  ◌-◌,
}
use flipper_agent_indicator.Utf8.{Bytes}
use flipper_agent_indicator.Firmware.{
  FaiFrame, FaiFrameKind, fai_frame_notify, fai_frame_ack, fai_frame_ping, fai_frame_pong, cleared,
  fai_protocol_encode,
}
use flipper_agent_indicator.Firmware.Render.{Drawing, render_notification, render_idle}
use flipper_agent_indicator.Firmware.Effects.{NotificationSequence, effects_apply, effects_clear}

pub data UiMode : Type 0 where
  ui_idle ui_notification : UiMode

pub record UiState : Type 0 where
  pub mode : UiMode
  pub current : FaiFrame

pub record App : Type 0 where
  pub ui : UiState
  pub running : Bool

-- `fai_draw_cb`
unfoldable pub fai_draw_cb : UiMode → FaiFrame → List Drawing
fai_draw_cb ui_notification current = render_notification current
fai_draw_cb ui_idle current = render_idle

-- What the app does to the world: bytes for `ble_serial_send`, lights and vibration, a new drawing.
pub data Output : Type 0 where
  ble_sent : Bytes → Output
  notification_message : NotificationSequence → Output
  view_port_updated : Output

-- FaiApp app = {0}, with an idle display and `running` set
abbrev pub start_app : App
start_app = record {
  ui = record { mode = ui_idle; current = cleared fai_frame_notify };
  running = true;
}

-- ble_serial_send(buf, n), if n > 0
unfoldable pub send_encoded : Option Bytes → List Output
send_encoded none = []
send_encoded (some bytes) = if ltb 0 (length bytes) then ble_sent bytes ∷ [] else []

unfoldable pub fai_send_ack : ℕ → List Output
unfolding send_encoded fai_protocol_encode
fai_send_ack agent =
    send_encoded (fai_protocol_encode (record (cleared fai_frame_ack) { agent = agent }) 4)

unfoldable pub fai_send_pong : List Output
unfolding send_encoded fai_protocol_encode
fai_send_pong = send_encoded (fai_protocol_encode (cleared fai_frame_pong) 2)

abbrev pub messages : List NotificationSequence → List Output
messages sequences = map notification_message sequences

-- `fai_handle_frame`, by the kind of the frame
unfoldable pub handle_kind : App → FaiFrame → FaiFrameKind → App × List Output
unfolding effects_apply fai_send_pong
handle_kind app frame fai_frame_notify = (
  record app { ui = record { mode = ui_notification; current = frame } },
  messages (effects_apply true frame) ++ view_port_updated ∷ [],
)
handle_kind app frame fai_frame_ping = (app, fai_send_pong)
handle_kind app frame fai_frame_ack = (app, [])
handle_kind app frame fai_frame_pong = (app, [])

unfoldable pub fai_handle_frame : App → FaiFrame → App × List Output
unfolding handle_kind
fai_handle_frame app frame = handle_kind app frame frame.kind

pub data InputType : Type 0 where
  press release short long repeat : InputType

pub data InputKey : Type 0 where
  up down right left ok back : InputKey

pub record InputEvent : Type 0 where
  pub type : InputType
  pub key : InputKey

-- What becomes of the queue of frames, which has `FAI_QUEUE_LEN` places, when the callback puts some
-- more without waiting: those that find no place are dropped.
abbrev pub fai_queue_len : ℕ
fai_queue_len = 8

abbrev pub put_frames : List FaiFrame → List FaiFrame → List FaiFrame
put_frames queue frames = take fai_queue_len (queue ++ frames)

abbrev pub dropped_frames : List FaiFrame → List FaiFrame → ℕ
dropped_frames queue frames = length (queue ++ frames) - fai_queue_len

-- The Ok key: a notification that is shown is acknowledged and removed.
unfoldable pub acknowledge : App → UiMode → App × List Output
unfolding fai_send_ack effects_clear
acknowledge app ui_idle = (app, [])
acknowledge app ui_notification = (
  record app { ui = record { mode = ui_idle; current = cleared fai_frame_notify } },
  fai_send_ack app.ui.current.agent ++ (messages (effects_clear true) ++ view_port_updated ∷ []),
)

unfoldable pub handle_key : App → InputKey → App × List Output
unfolding acknowledge
handle_key app back = (record app { running = false }, [])
handle_key app ok = acknowledge app app.ui.mode
handle_key app _ = (app, [])

unfoldable pub handle_input : App → InputType → InputKey → App × List Output
unfolding handle_key
handle_input app short key = handle_key app key
handle_input app _ key = (app, [])

-- `fai_handle_input`
unfoldable pub fai_handle_input : App → InputEvent → App × List Output
unfolding handle_input
fai_handle_input app event = handle_input app event.type event.key

-- A call for what was taken from a queue, if anything was.
unfoldable pub handled {ℓ} :
    {E : Type ℓ} → (App → E → App × List Output) → App → Option E → App × List Output
handled f app none = (app, [])
handled f app (some e) = f app e

-- What one round of the loop takes from the two queues.
abbrev pub Taken : Type 0
Taken = Option FaiFrame × Option InputEvent

unfoldable pub app_round : App → Taken → App × List Output
unfolding handled fai_handle_frame fai_handle_input
app_round app (frame, input) =
    let (shown, first) = handled fai_handle_frame app frame in
    let (after, second) = handled fai_handle_input shown input in (after, first ++ second)

-- The loop of `flipper_agent_indicator_app`, which the Back key ends.
unfoldable pub app_loop : App → List Taken → App × List Output
unfolding app_round
app_loop app [] = (app, [])
app_loop app (taken ∷ rounds) =
    let (after, outputs) = app_round app taken in
    let (end, later) = app_loop after rounds in
    if app.running then (end, outputs ++ later) else (app, [])
