-- ===== src/Daemon/EndToEnd.antt =====
-- From the command line to the frame that the Flipper reads.
use flipper_agent_indicator.Prelude.{
  ◌≤◌, ◌≡◌, true, List, [], ◌∷◌, append-nil, some, all, length, ok,
}
use flipper_agent_indicator.Text.{Str, before}
use flipper_agent_indicator.Text.Laws.{All-rstrip, all-before}
use flipper_agent_indicator.Utf8.{Bytes, is_scalar, utf8}
use flipper_agent_indicator.Utf8.Scalars.{IsScalar, All-is_scalar, all-is_scalar}
use flipper_agent_indicator.Utf8.Cut.{fit}
use flipper_agent_indicator.Protocol.{AgentId, State, Notification, notify, max_text_bytes, decode}
use flipper_agent_indicator.Protocol.RoundTrip.{layout, decode-layout}
use flipper_agent_indicator.Patterns.{Overrides}
use flipper_agent_indicator.Socket.{sent, stream_limit, handle, closed}
use flipper_agent_indicator.Socket.Choices.{agent_name, state_name}
use flipper_agent_indicator.Cli
use flipper_agent_indicator.Cli.{notify_line, connected, Run, exit_zero}
use flipper_agent_indicator.Cli.Delivery.{shown, notify-handle}
use flipper_agent_indicator.Daemon.{forward_notifies}
use flipper_agent_indicator.Daemon.Forward.{forward_notifies-clean}

pub shown-All : (text : Str) → all is_scalar text ≡ true → all is_scalar (shown text) ≡ true
shown-All text h =
    all-is_scalar (shown text) (
      All-rstrip IsScalar (before b'\n' text) (All-is_scalar _ (all-before is_scalar b'\n' text h)))

-- What a user asks for by `notify --agent --state --text` is what the Flipper is told: for a text
-- that can be encoded, in a line that the daemon reads, the command ends with status 0, the daemon
-- queues one notification, and forwards one frame, which decodes to the agent, the state, and the
-- first line of the text without white space at its end, cut to what fits in 64 bytes.
pub notify-frame :
    (a : AgentId) (s : State) (text : Str) (patterns : Overrides)
    → all is_scalar text ≡ true
    → length (before b'\n' (utf8 (notify_line (agent_name a) (state_name s) text))) ≤ stream_limit
    → record {
      payload : Bytes;
      queued : List Notification;
      frame : Bytes;
      sends :
          Cli.notify true connected (agent_name a) (state_name s) text
          ≡ record { arrived = some payload; exit = exit_zero };
      queues : handle [] (sent payload) ≡ (queued, closed);
      forwards : forward_notifies patterns queued [] ≡ ok (frame ∷ []);
      decodes :
          decode frame
          ≡ ok (notify (record { agent = a; state = s; text = fit max_text_bytes (shown text) }));
    }
notify-frame a s text patterns can fits =
    let n : Notification = record { agent = a; state = s; text = shown text } in
    let clean = shown-All text can in
    let (payload, arrives, handles) = notify-handle a s text [] can fits in
    record {
      payload = payload;
      queued = n ∷ [];
      frame = layout (notify n);
      sends = arrives;
      queues = handles;
      forwards = forward_notifies-clean patterns (n ∷ []) [] (All-is_scalar _ clean, tt);
      decodes = rw (← append-nil (layout (notify n))) (decode-layout (notify n) [] clean);
    }
