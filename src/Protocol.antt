-- ===== src/Protocol.antt =====
-- daemon/flipper_indicator/protocol.py: the frames between host and Flipper, and their codec.
pub mod RoundTrip
pub mod Accepts
pub mod Size
pub mod Values
mod Tests
use flipper_agent_indicator.Prelude.{
  ℕ, zero, suc, ◌≤◌, List, [], ◌∷◌, ◌++◌, Option, none, some, ltb, ◌==◌, if◌then◌else◌, not, length,
  take, Result, ok, err, ◌>>=◌,
}
use flipper_agent_indicator.Text.{Str}
use flipper_agent_indicator.Utf8
use flipper_agent_indicator.Utf8.{Bytes}

abbrev pub tag_notify : ℕ
tag_notify = 0x01

abbrev pub tag_ping : ℕ
tag_ping = 0x02

abbrev pub tag_ack : ℕ
tag_ack = 0x81

abbrev pub tag_pong : ℕ
tag_pong = 0x82

abbrev pub max_text_bytes : ℕ
max_text_bytes = 64

pub data AgentId : Type 0 where
  claude codex opencode generic : AgentId

pub data State : Type 0 where
  off running needs_input done : State

-- int(agent), int(state)
abbrev pub agent_value : AgentId → ℕ
agent_value claude = 0
agent_value codex = 1
agent_value opencode = 2
agent_value generic = 0xFF

abbrev pub state_value : State → ℕ
state_value off = 0
state_value running = 1
state_value needs_input = 2
state_value done = 3

pub record Notification : Type 0 where
  pub agent : AgentId
  pub state : State
  pub text : Str

pub data Frame : Type 0 where
  notify : Notification → Frame
  ack : AgentId → Frame
  ping pong : Frame

-- `encode` raises `UnicodeEncodeError` at a text with a surrogate.
pub data EncodeError : Type 0 where
  unicode_encode_error : EncodeError

-- The `ValueError`s of `decode`, those of `AgentId(...)` and `State(...)` among them.
pub data DecodeError : Type 0 where
  empty_frame notify_header_truncated notify_text_truncated ack_header_truncated : DecodeError
  not_an_agent not_a_state unknown_tag : ℕ → DecodeError

encode_notify : Notification → Option Bytes → Result EncodeError Bytes
encode_notify n none = err unicode_encode_error
encode_notify n (some encoded) =
    let text = take max_text_bytes encoded in
    ok (tag_notify ∷ agent_value n.agent ∷ state_value n.state ∷ length text ∷ text)

unfoldable pub encode : Frame → Result EncodeError Bytes
unfolding encode_notify
encode (notify n) = encode_notify n (Utf8.encode n.text)
encode (ack agent) = ok (tag_ack ∷ agent_value agent ∷ [])
encode ping = ok (tag_ping ∷ [])
encode pong = ok (tag_pong ∷ [])

-- AgentId(value), State(value)
unfoldable pub agent_of : ℕ → Result DecodeError AgentId
agent_of v =
    if v == 0
    then ok claude
    else if v == 1
    then ok codex
    else if v == 2
    then ok opencode
    else if v == 0xFF
    then ok generic
    else err (not_an_agent v)

unfoldable pub state_of : ℕ → Result DecodeError State
state_of v =
    if v == 0
    then ok off
    else if v == 1
    then ok running
    else if v == 2
    then ok needs_input
    else if v == 3
    then ok done
    else err (not_a_state v)

-- The bytes behind the tag NOTIFY: the two tests on lengths, then the two enumerations.
unfoldable pub decode_notify : Bytes → Result DecodeError Frame
unfolding agent_of state_of
decode_notify (agent ∷ state ∷ text_len ∷ body) =
    let payload = take text_len body in
    if not (length payload == text_len) then err notify_text_truncated else do
      a ← agent_of agent
      s ← state_of state
      ok (notify (record { agent = a; state = s; text = Utf8.decode payload }))
decode_notify _ = err notify_header_truncated

unfoldable pub decode_ack : Bytes → Result DecodeError Frame
unfolding agent_of
decode_ack [] = err ack_header_truncated
decode_ack (agent ∷ _) = do a ← agent_of agent; ok (ack a)

unfoldable pub decode : Bytes → Result DecodeError Frame
unfolding decode_notify decode_ack
decode [] = err empty_frame
decode (tag ∷ rest) =
    if tag == tag_notify
    then decode_notify rest
    else if tag == tag_ack
    then decode_ack rest
    else if tag == tag_ping
    then ok ping
    else if tag == tag_pong
    then ok pong
    else err (unknown_tag tag)
