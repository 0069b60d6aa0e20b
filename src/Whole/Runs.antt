-- ===== src/Whole/Runs.antt =====
-- A frame whose response is lost, and the theorems at it.
use mathlib.Core.List.{map}
use flipper_agent_indicator.Prelude.{◌≡◌, ◌⊎◌, refl, true, [], ◌∷◌, none, some, last, arith}
use flipper_agent_indicator.Prelude.Repeats.{Repeats}
use flipper_agent_indicator.Prelude.Sub.{Sub}
use flipper_agent_indicator.Bridge.{TmuxBridge, started}
use flipper_agent_indicator.Daemon.{handle_incoming}
use flipper_agent_indicator.Firmware.Effects.{effects_clear}
use flipper_agent_indicator.Firmware.App.Shows.{ok_key}
use flipper_agent_indicator.Whole.Answered.{cleared-handled}
use flipper_agent_indicator.Whole.Heard.{frame_agents}
use flipper_agent_indicator.Protocol.{opencode, decode, agent_value}
use flipper_agent_indicator.Firmware.{cleared, fai_frame_notify}
use flipper_agent_indicator.Firmware.App.{fai_handle_input, fai_send_ack}
use flipper_agent_indicator.Whole.Rig.{presses, hears}
use flipper_agent_indicator.Text.{codes}
use flipper_agent_indicator.Utf8.{Bytes, utf8, utf8_char}
use flipper_agent_indicator.Protocol.{Notification, done}
use flipper_agent_indicator.Ble.{Client, next_frame, keep}
use flipper_agent_indicator.Daemon.Forward.{forward_notify-clean}
use flipper_agent_indicator.Firmware.{fai_protocol_decode}
use flipper_agent_indicator.Firmware.Receiver.{rx_callback}
use flipper_agent_indicator.Firmware.App.{ui_idle, ui_notification, fai_handle_frame}
use flipper_agent_indicator.Whole.Rig.{
  Rig, forwards, connects, takes, sends, arrives, returns, raises_sent, handles, Reach, here, next,
  start,
}
use flipper_agent_indicator.Whole.Arrived.{device_frame}
use flipper_agent_indicator.Whole.Lands.{Onward}
use flipper_agent_indicator.Whole.Displayed.{handled-Repeats, IsQuiet, quiet_shows_latest}
use flipper_agent_indicator.Whole.Settles.{settles}
use flipper_agent_indicator.Whole.Plugin.{opencode-displayed}
use flipper_agent_indicator.Hooks.OpenCode.{event, run_plugin}
use flipper_agent_indicator.Hooks.Delivery.{opencode_note}

abbrev n : Notification
n = opencode_note done

abbrev f : Bytes
f = 1 ∷ 2 ∷ 3 ∷ 0 ∷ []

abbrev fresh : Client
fresh = record { outgoing = []; pending = none; had_success = true }

-- The frame is sent in two pieces, and its response is lost.
abbrev resent : Rig
resent = record start {
  client = record fresh { pending = some f };
  queue = device_frame n ∷ [];
  forwarded = n ∷ [];
  sent = f ∷ [];
}

-- It is sent again, and the app has handled both.
abbrev displayed : Rig
displayed = record resent {
  client = fresh;
  queue = [];
  app = record { ui = record { mode = ui_notification; current = device_frame n }; running = true };
  sent = f ∷ f ∷ [];
  handled = device_frame n ∷ device_frame n ∷ [];
}

lost_response : Reach start resent
unfolding utf8 utf8_char next_frame keep rx_callback fai_protocol_decode
lost_response =
    next
      (next
        (next
          (next
            (next
              (next (next here (connects refl))
                (forwards [] n _ _ tt (forward_notify-clean [] n [] tt) refl))
              (takes f fresh refl refl refl))
            (sends f ((1 ∷ 2 ∷ 3 ∷ []) ∷ (0 ∷ []) ∷ []) refl refl (omega arith) refl))
          (arrives (1 ∷ 2 ∷ 3 ∷ []) _ (record { frames = []; took = 3; rx = 1 ∷ 2 ∷ 3 ∷ [] }) refl
            refl refl))
        (arrives (0 ∷ []) _ (record { frames = device_frame n ∷ []; took = 1; rx = [] }) refl refl
          refl))
      (raises_sent f refl refl refl)

twice : Reach start displayed
unfolding utf8 utf8_char next_frame keep rx_callback fai_protocol_decode fai_handle_frame
twice =
    next
      (next
        (next
          (next
            (next (next lost_response (takes f fresh refl refl refl))
              (sends f (f ∷ []) refl refl (omega arith) refl))
            (arrives f [] (record { frames = device_frame n ∷ []; took = 4; rx = [] }) refl refl
              refl))
          (returns f refl refl refl))
        (handles (device_frame n) (device_frame n ∷ []) refl refl refl))
      (handles (device_frame n) [] refl refl refl)

handled-Repeats_example : Repeats displayed.handled (map device_frame displayed.forwarded)
handled-Repeats_example = handled-Repeats twice

quiet_shows_latest_example :
    (last displayed.handled ≡ last (map device_frame displayed.forwarded))
    × ((displayed.app.ui.mode ≡ ui_idle)
        ⊎ (some displayed.app.ui.current ≡ last (map device_frame displayed.forwarded)))
quiet_shows_latest_example =
    quiet_shows_latest twice
      (record { flight = refl; pending = refl; outgoing = refl; wire = refl; queue = refl }) refl

settles_example :
    (q : Rig) × Onward resent q
    × IsQuiet q
    × (last q.handled ≡ last (map device_frame resent.forwarded))
    × ((q.app.ui.mode ≡ ui_idle)
        ⊎ (some q.app.ui.current ≡ last (map device_frame resent.forwarded)))
settles_example = settles lost_response refl refl

-- The plugin gives done for the end of a session.
opencode-displayed_example :
    (last displayed.handled ≡ some (device_frame (opencode_note done)))
    × ((displayed.app.ui.mode ≡ ui_idle)
        ⊎ (displayed.app.ui.current ≡ device_frame (opencode_note done)))
unfolding run_plugin
opencode-displayed_example =
    opencode-displayed ((7000, event (codes "session.idle") []) ∷ []) done refl twice refl
      (record { flight = refl; pending = refl; outgoing = refl; wire = refl; queue = refl }) refl

abbrev bridge : TmuxBridge
bridge = record { script = codes "/agent-state.sh"; enabled = true }

-- The Ok key is pressed, and the daemon reads the ACK.
abbrev answered : Rig
answered = record displayed {
  app = record {
    ui = record { mode = ui_idle; current = cleared fai_frame_notify };
    running = true;
  };
  cleared = opencode ∷ [];
}

answer : Reach start answered
unfolding fai_handle_input fai_send_ack effects_clear handle_incoming decode cleared
answer =
    next (next twice (presses ok_key refl refl)) (hears bridge started (0x81 ∷ 2 ∷ []) [] refl refl)

cleared-handled_example :
    Sub (map agent_value answered.cleared) (frame_agents answered.handled)
    × Repeats (map agent_value answered.cleared) (map (λ n. agent_value n.agent) answered.forwarded)
cleared-handled_example = cleared-handled answer
