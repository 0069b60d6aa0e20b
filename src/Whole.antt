-- ===== src/Whole.antt =====
-- The whole way of a notification: from the command line (cli.py) over the socket (socket_server.py),
-- the daemon (daemon.py, protocol.py) and the receive buffer of the device (ble_serial.c, protocol.c) to
-- its display (flipper_agent_indicator.c), and from the Ok key back to the tmux pane (bridge.py).
pub mod Rig
pub mod Carried
pub mod Arrived
pub mod Sound
pub mod Displayed
pub mod Lands
pub mod Settles
pub mod Plugin
pub mod Heard
pub mod Answered
mod Tests
mod Runs
use flipper_agent_indicator.Prelude.{
  ◌≡◌, ◌≤◌, refl, sym, ap, ◌∙◌, true, List, [], ◌∷◌, ◌++◌, some, ok, all, All, append-nil, length,
  take, take-append_self,
}
use flipper_agent_indicator.Text.{Str, before, codes}
use flipper_agent_indicator.Utf8.{Bytes, is_scalar, utf8}
use flipper_agent_indicator.Protocol
use flipper_agent_indicator.Protocol.{
  AgentId, State, Notification, notify, agent_value, state_value, max_text_bytes,
}
use flipper_agent_indicator.Protocol.RoundTrip.{layout, label_bytes, encode-layout}
use flipper_agent_indicator.Patterns.{Overrides}
use flipper_agent_indicator.Bridge.{TmuxBridge, Spawn}
use flipper_agent_indicator.Socket.{sent, stream_limit, handle, closed}
use flipper_agent_indicator.Socket.Choices.{agent_name, state_name}
use flipper_agent_indicator.Cli
use flipper_agent_indicator.Cli.{notify_line, connected, exit_zero}
use flipper_agent_indicator.Cli.Delivery.{shown, notify-handle}
use flipper_agent_indicator.Daemon
use flipper_agent_indicator.Daemon.{forward_notifies, handle_incoming}
use flipper_agent_indicator.Daemon.Incoming.{expected}
use flipper_agent_indicator.Daemon.Forward.{forward_notifies-clean}
use flipper_agent_indicator.Daemon.EndToEnd.{shown-All}
use flipper_agent_indicator.Utf8.Scalars.{All-is_scalar}
use flipper_agent_indicator.Firmware.{FaiFrame}
use flipper_agent_indicator.Firmware.Effects.{effects_clear}
use flipper_agent_indicator.Firmware.Interop.{on_device}
use flipper_agent_indicator.Patterns.{agent_label}
use flipper_agent_indicator.Firmware.Render.{
  canvas_clear, canvas_set_font, canvas_draw_str, canvas_draw_icon, font_primary, font_secondary,
  wrap_lines, draw_lines,
}
use flipper_agent_indicator.Firmware.Render.Drawn.{mascot_of, render_notification-on_device}
use flipper_agent_indicator.Firmware.Receiver.{receive_all}
use flipper_agent_indicator.Firmware.Receiver.Streams.{joined, receive_all-stream}
use flipper_agent_indicator.Firmware.App.{
  App, ui_notification, fai_draw_cb, ui_idle, fai_handle_frame, fai_handle_input, ble_sent,
  messages, view_port_updated,
}
use flipper_agent_indicator.Firmware.App.Shows.{ok_key, ok_clears_pane}

-- What the socket server makes of the line.
abbrev pub asked : AgentId → State → Str → Notification
asked a s text = record { agent = a; state = s; text = shown text }

-- A notify command that finds the path of the socket and reaches the daemon, for a text that can be
-- encoded and in a line that the daemon reads, ends with status 0, and the daemon queues and forwards one frame. When BLE delivers that frame to the device in
-- pieces of at most 69 bytes, the app shows it: it draws the mascot of the state, the label of the
-- agent, the word for the state, and the first line of the text without the white space at its end, cut
-- to 64 bytes and before a zero byte, wrapped into lines. The Ok key then sends bytes for which the daemon
-- clears the tmux pane of this agent.
pub notify-shows :
    (a : AgentId) (s : State) (text : Str) (patterns : Overrides) (pieces : List Bytes) (app : App)
    (bridge : TmuxBridge) (spawn : Spawn)
    → all is_scalar text ≡ true
    → length (before b'\n' (utf8 (notify_line (agent_name a) (state_name s) text))) ≤ stream_limit
    → Protocol.encode (notify (asked a s text)) ≡ ok (joined pieces)
    → All (λ p. length p ≤ 69) pieces
    → record {
      payload : Bytes;
      frame : FaiFrame;
      reply : Bytes;
      sends :
          Cli.notify true connected (agent_name a) (state_name s) text
          ≡ record { arrived = some payload; exit = exit_zero };
      queues : handle [] (sent payload) ≡ (asked a s text ∷ [], closed);
      forwards : forward_notifies patterns (asked a s text ∷ []) [] ≡ ok (joined pieces ∷ []);
      receives : receive_all [] pieces ≡ some (frame ∷ [], []);
      shows :
          (fai_handle_frame app frame).0.ui ≡ record { mode = ui_notification; current = frame };
      draws :
          fai_draw_cb ui_notification frame
          ≡ canvas_clear
            ∷ canvas_draw_icon 0 0 (mascot_of s)
            ∷ canvas_set_font font_primary
            ∷ canvas_draw_str 36 12 (agent_label a)
            ∷ canvas_set_font font_secondary
            ∷ canvas_draw_str 36 26 (state_name s)
            ∷ (draw_lines 44 (wrap_lines 2 (before 0 (take max_text_bytes (utf8 (shown text)))))
                ++ canvas_set_font font_secondary
                  ∷ canvas_draw_str 82 62 (codes "OK dismiss")
                  ∷ []);
      answers :
          (fai_handle_input (fai_handle_frame app frame).0 ok_key).1
          ≡ ble_sent reply ∷ (messages (effects_clear true) ++ view_port_updated ∷ []);
      clears : handle_incoming bridge spawn reply ≡ Daemon.cleared a (expected bridge a spawn);
    }
unfolding fai_handle_frame fai_draw_cb
notify-shows a s text patterns pieces app bridge spawn can fits encodes small =
    let n = asked a s text in
    let clean = shown-All text can in
    let whole : joined pieces ≡ layout (notify n) = cc (encode-layout (notify n) clean, encodes) in
    let (payload, arrives, handles) = notify-handle a s text [] can fits in
    let (_, _, (reply, answers, clears)) = ok_clears_pane app n bridge spawn in
    record {
      payload = payload;
      frame = on_device (notify n);
      reply = reply;
      sends = arrives;
      queues = handles;
      forwards =
          forward_notifies-clean patterns (n ∷ []) [] (All-is_scalar _ clean, tt)
          ∙ ap (λ b. ok (b ∷ [])) (sym whole);
      receives =
          receive_all-stream (notify n ∷ []) pieces (whole ∙ sym (append-nil (layout (notify n))))
            small;
      shows = refl;
      draws = render_notification-on_device n;
      answers = answers;
      clears = clears;
    }
