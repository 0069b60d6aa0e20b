-- ===== src/Firmware/App/Shows.antt =====
-- What the app shows of the notifications that the daemon sends, and what the Ok key makes of it.
use mathlib.Core.List.{map, map-append}
use flipper_agent_indicator.Prelude.{
  Bool, if◌then◌else◌, ◌≡◌, ◌≤◌, refl, ap, ◌∙◌, true, List, [], ◌∷◌, ◌++◌, none, some, All, length,
}
use flipper_agent_indicator.Utf8.{Bytes}
use flipper_agent_indicator.Protocol.{Frame, notify, Notification, agent_value}
use flipper_agent_indicator.Protocol.Accepts.{an_ack}
use flipper_agent_indicator.Bridge.{TmuxBridge, Spawn}
use flipper_agent_indicator.Daemon.{handle_incoming}
use flipper_agent_indicator.Daemon
use flipper_agent_indicator.Daemon.Incoming.{expected, cleared_iff}
use flipper_agent_indicator.Firmware.{FaiFrame, FaiFrameKind, cleared, fai_frame_notify}
use flipper_agent_indicator.Firmware.Effects.{effects_clear}
use flipper_agent_indicator.Firmware.Interop.{on_device}
use flipper_agent_indicator.Firmware.Receiver.{receive_all}
use flipper_agent_indicator.Firmware.Receiver.Streams.{stream, joined, receive_all-stream}
use flipper_agent_indicator.Firmware.App.{
  ui_idle, ui_notification, App, start_app, Output, ble_sent, view_port_updated, messages,
  handle_kind, fai_handle_frame, InputEvent, short, ok, fai_handle_input, handled, Taken, app_round,
  app_loop, fai_send_ack,
}

abbrev pub ok_key : InputEvent
ok_key = record { type = short; key = ok }

-- While a notification of the daemon is shown, the Ok key removes it and sends bytes for which the
-- daemon clears the tmux pane of the agent that notified, and no other pane; pressed again, it does
-- nothing.
pub ok_clears_pane :
    (app : App) (n : Notification) (bridge : TmuxBridge) (spawn : Spawn)
    → let showing = (fai_handle_frame app (on_device (notify n))).0 in
      let (after, outputs) = fai_handle_input showing ok_key in
      (after.ui.mode ≡ ui_idle)
      × (fai_handle_input after ok_key ≡ (after, []))
      × ((bytes : Bytes) × (outputs
            ≡ ble_sent bytes ∷ (messages (effects_clear true) ++ view_port_updated ∷ []))
          × (handle_incoming bridge spawn bytes
              ≡ Daemon.cleared n.agent (expected bridge n.agent spawn)))
unfolding fai_handle_frame fai_handle_input fai_send_ack cleared
ok_clears_pane app n bridge spawn = (
  refl,
  refl,
  (
    0x81 ∷ agent_value n.agent ∷ [],
    refl,
    (cleared_iff bridge spawn _ n.agent (expected bridge n.agent spawn)).0.1
        (an_ack n.agent [], refl),
  ),
)

-- The rounds of an app that takes one frame after the other, and no key.
abbrev pub one_by_one : List FaiFrame → List Taken
one_by_one = map (λ f. (some f, none))

abbrev pub frames_of : List Notification → List Frame
frames_of = map notify

app_loop_step :
    (app : App) (taken : Taken) (rounds : List Taken)
    → app.running ≡ true
    → (app_loop app (taken ∷ rounds)).0 ≡ (app_loop (app_round app taken).0 rounds).0
unfolding app_loop
app_loop_step app taken rounds on =
    let round = app_round app taken in
    let rest = app_loop round.0 rounds in
    let result : Bool → App × List Output =
      λ b. if b then (rest.0, round.1 ++ rest.1) else (app, []) in
    ap (λ b. (result b).0) on

handle_kind-running :
    (app : App) (frame : FaiFrame) (kind : FaiFrameKind)
    → (handle_kind app frame kind).0.running ≡ app.running
unfolding handle_kind
handle_kind-running app frame fai_frame_notify = refl
handle_kind-running app frame _ = refl

app_round-running :
    (app : App) (frame : FaiFrame) → (app_round app (some frame, none)).0.running ≡ app.running
unfolding app_round handled fai_handle_frame
app_round-running app frame = handle_kind-running app frame frame.kind

app_loop-shows :
    (frames : List FaiFrame) (n : Notification) (app : App)
    → app.running ≡ true
    → (app_loop app (one_by_one (frames ++ on_device (notify n) ∷ []))).0.ui
      ≡ record { mode = ui_notification; current = on_device (notify n) }
app_loop-shows [] n app on =
    ap (λ (a : App). a.ui) (app_loop_step app (some (on_device (notify n)), none) [] on)
    ∙ unfold app_loop app_round handled fai_handle_frame in refl
app_loop-shows (f ∷ frames) n app on =
    ap (λ (a : App). a.ui) (app_loop_step app (some f, none) _ on)
    ∙ app_loop-shows frames n (app_round app (some f, none)).0 (app_round-running app f ∙ on)

-- Of the notifications that the daemon writes, in pieces of any size up to 69 bytes, the device shows
-- the last one when each frame was put on the app's queue, the app has taken them all, and no key was
-- pressed.
pub shows_latest :
    (ns : List Notification) (n : Notification) (pieces : List Bytes)
    → joined pieces ≡ stream (frames_of (ns ++ n ∷ []))
    → All (λ p. length p ≤ 69) pieces
    → (frames : List FaiFrame) × (receive_all [] pieces ≡ some (frames, []))
      × ((app_loop start_app (one_by_one frames)).0.ui
          ≡ record { mode = ui_notification; current = on_device (notify n) })
shows_latest ns n pieces h fits =
    let last_one : map on_device (frames_of (ns ++ n ∷ []))
        ≡ map on_device (frames_of ns) ++ on_device (notify n) ∷ [] =
      ap (map on_device) (map-append notify ns (n ∷ []))
      ∙ map-append on_device (frames_of ns) (notify n ∷ []) in
    (
      map on_device (frames_of (ns ++ n ∷ [])),
      receive_all-stream (frames_of (ns ++ n ∷ [])) pieces h fits,
      rw last_one (app_loop-shows (map on_device (frames_of ns)) n start_app refl),
    )
