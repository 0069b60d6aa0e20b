-- ===== src/Whole/Tests.antt =====
-- The whole way of one command.
use flipper_agent_indicator.Prelude.{◌≡◌, refl, true, List, [], ◌∷◌, ◌++◌, some, ok, take, arith}
use flipper_agent_indicator.Text.{codes, before, rstrip, is_space}
use flipper_agent_indicator.Utf8
use flipper_agent_indicator.Utf8.{Bytes, utf8, utf8_char}
use flipper_agent_indicator.Protocol.{opencode, done, max_text_bytes, encode}
use flipper_agent_indicator.Bridge.{TmuxBridge, started}
use flipper_agent_indicator.Socket.{sent, handle, closed}
use flipper_agent_indicator.Cli
use flipper_agent_indicator.Cli.{notify_line, connected, exit_zero}
use flipper_agent_indicator.Cli.Delivery.{shown}
use flipper_agent_indicator.Daemon
use flipper_agent_indicator.Daemon.{forward_notifies, handle_incoming}
use flipper_agent_indicator.Daemon.Incoming.{expected}
use flipper_agent_indicator.Firmware.{FaiFrame}
use flipper_agent_indicator.Firmware.Effects.{effects_clear}
use flipper_agent_indicator.Patterns.{agent_label}
use flipper_agent_indicator.Firmware.Render.{
  canvas_clear, canvas_set_font, canvas_draw_str, canvas_draw_icon, font_primary, font_secondary,
  wrap_lines, draw_lines,
}
use flipper_agent_indicator.Firmware.Render.Drawn.{mascot_of}
use flipper_agent_indicator.Socket.Choices.{state_name}
use flipper_agent_indicator.Firmware.Receiver.{receive_all}
use flipper_agent_indicator.Firmware.App.{
  start_app, ui_notification, fai_draw_cb, fai_handle_frame, fai_handle_input, ble_sent, messages,
  view_port_updated,
}
use flipper_agent_indicator.Firmware.App.Shows.{ok_key}
use flipper_agent_indicator.Whole.{asked, notify-shows}

abbrev bridge : TmuxBridge
bridge = record { script = codes "/agent-state.sh"; enabled = true }

abbrev pieces : List Bytes
pieces = (1 ∷ 2 ∷ 3 ∷ 3 ∷ 0x68 ∷ []) ∷ (0xC3 ∷ 0xA9 ∷ []) ∷ []

notify-shows_example : record {
  payload : Bytes;
  frame : FaiFrame;
  reply : Bytes;
  sends :
      Cli.notify true connected (codes "opencode") (codes "done") (codes "hé")
      ≡ record { arrived = some payload; exit = exit_zero };
  queues : handle [] (sent payload) ≡ (asked opencode done (codes "hé") ∷ [], closed);
  forwards :
      forward_notifies [] (asked opencode done (codes "hé") ∷ []) []
      ≡ ok ((1 ∷ 2 ∷ 3 ∷ 3 ∷ 0x68 ∷ 0xC3 ∷ 0xA9 ∷ []) ∷ []);
  receives : receive_all [] pieces ≡ some (frame ∷ [], []);
  shows :
      (fai_handle_frame start_app frame).0.ui ≡ record { mode = ui_notification; current = frame };
  draws :
      fai_draw_cb ui_notification frame
      ≡ canvas_clear
        ∷ canvas_draw_icon 0 0 (mascot_of done)
        ∷ canvas_set_font font_primary
        ∷ canvas_draw_str 36 12 (agent_label opencode)
        ∷ canvas_set_font font_secondary
        ∷ canvas_draw_str 36 26 (state_name done)
        ∷ (draw_lines 44 (wrap_lines 2 (before 0 (take max_text_bytes (utf8 (shown (codes "hé"))))))
            ++ canvas_set_font font_secondary ∷ canvas_draw_str 82 62 (codes "OK dismiss") ∷ []);
  answers :
      (fai_handle_input (fai_handle_frame start_app frame).0 ok_key).1
      ≡ ble_sent reply ∷ (messages (effects_clear true) ++ view_port_updated ∷ []);
  clears :
      handle_incoming bridge started reply
      ≡ Daemon.cleared opencode (expected bridge opencode started);
}
unfolding notify_line utf8 utf8_char before rstrip is_space encode Utf8.encode
notify-shows_example =
    notify-shows opencode done (codes "hé") [] pieces start_app bridge started refl (omega arith)
      refl (omega arith)
