-- ===== src/Whole/Rig.antt =====
-- The daemon, the radio and the device at once: what each of them does between two waits, in any order.
-- A write with response returns when its pieces have arrived; it may also raise then, if the response is
-- lost, or before any piece has arrived. A link that breaks between two pieces of a frame is left out, as
-- is the end of the daemon.
use flipper_agent_indicator.Prelude.{
  ℕ, ◌+◌, ◌≤◌, ◌≡◌, true, false, List, [], ◌∷◌, ◌++◌, none, some, All, length, singleton?, ok,
}
use flipper_agent_indicator.Text.{Str}
use flipper_agent_indicator.Utf8.{Bytes}
use flipper_agent_indicator.Protocol.{AgentId, Notification, notify}
use flipper_agent_indicator.Protocol.RoundTrip.{layout}
use flipper_agent_indicator.Patterns.{Overrides}
use flipper_agent_indicator.Outbox.{Queue}
use flipper_agent_indicator.Ble.{Client, next_frame, keep}
use flipper_agent_indicator.Bridge.{TmuxBridge, Spawn}
use flipper_agent_indicator.Daemon.{forward_notify, handle_incoming, is_flow_control}
use flipper_agent_indicator.Daemon.Incoming.{cleared_by}
use flipper_agent_indicator.Daemon.Forward.{IsClean}
use flipper_agent_indicator.Firmware.{FaiFrame}
use flipper_agent_indicator.Firmware.Receiver.{Received, rx_callback, data_received}
use flipper_agent_indicator.Firmware.Receiver.Streams.{joined}
use flipper_agent_indicator.Firmware.App.{
  Output, ble_sent, notification_message, view_port_updated, App, InputEvent, put_frames,
  dropped_frames, start_app, fai_handle_frame, fai_handle_input,
}

-- Whether a frame is being written: none is, it is taken and not sent, or it has been sent and the
-- response is awaited.
pub data Flight : Type 0 where
  at_rest : Flight
  taken on_air : Bytes → Flight

-- The client and its write; the pieces that are on the air; the buffer, the queue and the app of the
-- device; the history: the notifications that were forwarded, the frames that were sent, those that the
-- app has handled, and how many found no place in its queue; and what the device has sent and the daemon
-- has not read, and the agents whose panes the daemon has cleared. The serial service of the device sends
-- the size of its buffer at any time.
pub record Rig : Type 0 where
  pub client : Client
  pub flight : Flight
  pub wire : List Bytes
  pub rx : Bytes
  pub queue : List FaiFrame
  pub app : App
  pub forwarded : List Notification
  pub sent : List Bytes
  pub handled : List FaiFrame
  pub lost : ℕ
  pub upward : List Bytes
  pub cleared : List AgentId

-- What the app sends to the daemon.
abbrev pub sent_bytes : List Output → List Bytes
sent_bytes [] = []
sent_bytes (ble_sent bytes ∷ outputs) = bytes ∷ sent_bytes outputs
sent_bytes (notification_message s ∷ outputs) = sent_bytes outputs
sent_bytes (view_port_updated ∷ outputs) = sent_bytes outputs

pub data Move (p q : Rig) : Type 0 where
  forwards :
      (patterns : Overrides) (n : Notification) (label : Str) (queue : Queue)
      → IsClean n
      → forward_notify patterns n p.client.outgoing ≡ ok (label, some queue)
      → q ≡ record p {
        client = record p.client { outgoing = queue };
        forwarded = p.forwarded ++ n ∷ [];
      }
      → Move p q
  connects : q ≡ record p { client = record p.client { had_success = true } } → Move p q
  takes :
      (f : Bytes) (c : Client)
      → p.flight ≡ at_rest
      → next_frame p.client ≡ some (f, c)
      → q ≡ record p { client = c; flight = taken f }
      → Move p q
  finds_link_down :
      (f : Bytes) (c : Client)
      → p.flight ≡ at_rest
      → next_frame p.client ≡ some (f, c)
      → q ≡ record p { client = keep c f }
      → Move p q
  sends :
      (f : Bytes) (pieces : List Bytes)
      → p.flight ≡ taken f
      → joined pieces ≡ f
      → All (λ b. length b ≤ 69) pieces
      → q ≡ record p { flight = on_air f; wire = p.wire ++ pieces; sent = p.sent ++ f ∷ [] }
      → Move p q
  arrives :
      (piece : Bytes) (later : List Bytes) (r : Received)
      → p.wire ≡ piece ∷ later
      → rx_callback p.rx (data_received piece) ≡ some r
      → q ≡ record p {
        wire = later;
        rx = r.rx;
        queue = put_frames p.queue r.frames;
        lost = p.lost + dropped_frames p.queue r.frames;
      }
      → Move p q
  returns :
      (f : Bytes) → p.flight ≡ on_air f → p.wire ≡ [] → q ≡ record p { flight = at_rest } → Move p q
  raises_unsent :
      (f : Bytes)
      → p.flight ≡ taken f
      → q ≡ record p { client = keep p.client f; flight = at_rest }
      → Move p q
  raises_sent :
      (f : Bytes)
      → p.flight ≡ on_air f
      → p.wire ≡ []
      → q ≡ record p { client = keep p.client f; flight = at_rest }
      → Move p q
  handles :
      (frame : FaiFrame) (later : List FaiFrame)
      → p.queue ≡ frame ∷ later
      → p.app.running ≡ true
      → q ≡ record p {
        queue = later;
        app = (fai_handle_frame p.app frame).0;
        handled = p.handled ++ frame ∷ [];
        upward = p.upward ++ sent_bytes (fai_handle_frame p.app frame).1;
      }
      → Move p q
  presses :
      (event : InputEvent)
      → p.app.running ≡ true
      → q ≡ record p {
        app = (fai_handle_input p.app event).0;
        upward = p.upward ++ sent_bytes (fai_handle_input p.app event).1;
      }
      → Move p q
  announces :
      (raw : Bytes)
      → is_flow_control raw ≡ true
      → q ≡ record p { upward = p.upward ++ raw ∷ [] }
      → Move p q
  hears :
      (bridge : TmuxBridge) (spawn : Spawn) (raw : Bytes) (later : List Bytes)
      → p.upward ≡ raw ∷ later
      → q ≡ record p {
        upward = later;
        cleared = p.cleared ++ cleared_by (handle_incoming bridge spawn raw);
      }
      → Move p q

pub data Reach (p : Rig) : Rig → Type 0 where
  here : Reach p p
  next : {q r : Rig} → Reach p q → Move q r → Reach p r

abbrev pub start : Rig
start = record {
  client = record { outgoing = []; pending = none; had_success = false };
  flight = at_rest;
  wire = [];
  rx = [];
  queue = [];
  app = start_app;
  forwarded = [];
  sent = [];
  handled = [];
  lost = 0;
  upward = [];
  cleared = [];
}

-- The frame of a notification, as the daemon encodes it.
abbrev pub frame_bytes : Notification → Bytes
frame_bytes n = layout (notify n)

abbrev pub unsent : Flight → List Bytes
unsent (taken f) = f ∷ []
unsent _ = []

-- The frames that can still be sent, oldest first.
abbrev pub waiting : Rig → List Bytes
waiting p = unsent p.flight ++ (singleton? p.client.pending ++ p.client.outgoing)
