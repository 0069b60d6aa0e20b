-- ===== src/Daemon.antt =====
-- daemon/flipper_indicator/daemon.py: the two tasks between the queues.
pub mod Start
pub mod Finish
pub mod Incoming
pub mod Forward
pub mod EndToEnd
mod Tests
use flipper_agent_indicator.Prelude.{
  ℕ, Bool, true, false, ◌&&◌, List, [], ◌∷◌, ◌++◌, Option, none, some, if◌then◌else◌, ◌==◌, length,
  Result, ok, err, ◌>>=◌,
}
use flipper_agent_indicator.Text.{Str}
use flipper_agent_indicator.Utf8.{Bytes}
use flipper_agent_indicator.Protocol
use flipper_agent_indicator.Protocol.{
  AgentId, Notification, Frame, notify, ack, ping, pong, EncodeError, DecodeError,
}
use flipper_agent_indicator.Patterns
use flipper_agent_indicator.Patterns.{Overrides}
use flipper_agent_indicator.Bridge.{TmuxBridge, Spawn, Cleared, clear}
use flipper_agent_indicator.Outbox.{Queue, offer}

-- One round of `_forward_notifies`: the label that is logged, and the queue after the put, `none`
-- where the put waits. An exception of `encode` ends the task.
unfoldable pub forward_notify :
    Overrides → Notification → Queue → Result EncodeError (Str × Option Queue)
forward_notify patterns n outgoing = do
  let pattern = Patterns.get patterns n.agent n.state
  frame ← Protocol.encode (notify n)
  ok (pattern.label, offer frame outgoing)

-- What a round of `_handle_incoming` comes to.
pub data Reaction : Type 0 where
  flow_control : Reaction
  decode_failed : DecodeError → Reaction
  cleared : AgentId → Cleared → Reaction
  other_frame : Frame → Reaction

pub is_flow_control : Bytes → Bool
is_flow_control [] = false
is_flow_control (b ∷ bs) = length (b ∷ bs) == 4 && b == 0

react : TmuxBridge → Spawn → Result DecodeError Frame → Reaction
react bridge spawn (err e) = decode_failed e
react bridge spawn (ok (ack agent)) = cleared agent (clear bridge agent spawn)
react bridge spawn (ok frame) = other_frame frame

-- One round of `_handle_incoming`.
unfoldable pub handle_incoming : TmuxBridge → Spawn → Bytes → Reaction
unfolding is_flow_control react
handle_incoming bridge spawn raw =
    if is_flow_control raw then flow_control else react bridge spawn (Protocol.decode raw)

-- `_forward_notifies` over the notifications that come out of its queue; it stays at one whose put
-- waits.
unfoldable pub forward_notifies : Overrides → List Notification → Queue → Result EncodeError Queue
forward_notifies patterns [] outgoing = ok outgoing
forward_notifies patterns (n ∷ ns) outgoing = do
  (label, queue) ← forward_notify patterns n outgoing
  elim queue [ none ↦ ok outgoing | some next ↦ forward_notifies patterns ns next ]
