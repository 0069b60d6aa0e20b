-- ===== src/Daemon/Incoming.antt =====
-- What the daemon makes of the bytes that the Flipper sends.
use flipper_agent_indicator.Prelude.{
  ◌≡◌, ◌≢◌, refl, ap, ◌∙◌, sym, ◌↔◌, true, false, &&-eq-true, Bool-cases, inl, inr, List, [], ◌∷◌,
  none, some, arith, ◌==◌, ==_iff, length, Result, ok, err,
}
use flipper_agent_indicator.Text.{Str, codes}
use flipper_agent_indicator.Utf8.{Bytes}
use flipper_agent_indicator.Protocol.{
  AgentId, claude, codex, opencode, generic, Frame, notify, ack, ping, pong, DecodeError,
  unknown_tag, decode,
}
use flipper_agent_indicator.Protocol.Accepts.{Holds, decode_iff}
use flipper_agent_indicator.Socket.{agent_by_name}
use flipper_agent_indicator.Bridge.{
  TmuxBridge, Spawn, started, os_error, other_error, Cleared, clear,
}
use flipper_agent_indicator.Daemon.{
  Reaction, flow_control, cleared, is_flow_control, react, handle_incoming,
}

flow_control-tag : (raw : Bytes) → is_flow_control raw ≡ true → decode raw ≡ err (unknown_tag 0)
unfolding is_flow_control decode
flow_control-tag [] h = cc
flow_control-tag (b ∷ bs) h =
    let (_, zero_tag) = &&-eq-true (length (b ∷ bs) == 4) (b == 0) h in rw ((==_iff b 0).0 zero_tag)

react-ne-flow_control :
    (bridge : TmuxBridge) (spawn : Spawn) (r : Result DecodeError Frame)
    → react bridge spawn r ≢ flow_control
unfolding react
react-ne-flow_control bridge spawn (err e) h = cc
react-ne-flow_control bridge spawn (ok (ack a)) h = cc
react-ne-flow_control bridge spawn (ok (notify n)) h = cc
react-ne-flow_control bridge spawn (ok ping) h = cc
react-ne-flow_control bridge spawn (ok pong) h = cc

-- What is dropped as a flow-control message is no frame: decoding it would only have been refused.
pub flow_control_hides_nothing :
    (bridge : TmuxBridge) (spawn : Spawn) (raw : Bytes)
    → handle_incoming bridge spawn raw ≡ flow_control
    → decode raw ≡ err (unknown_tag 0)
unfolding handle_incoming
flow_control_hides_nothing bridge spawn raw h = elim (Bool-cases (is_flow_control raw)) [
  | inl e ↦ flow_control-tag raw e
  | inr e ↦ absurd (react-ne-flow_control bridge spawn (decode raw) (rw (e, handle_incoming) at h))
]

react-cleared :
    (bridge : TmuxBridge) (spawn : Spawn) (r : Result DecodeError Frame) {a : AgentId} {c : Cleared}
    → react bridge spawn r ≡ cleared a c
    → (r ≡ ok (ack a)) × (c ≡ clear bridge a spawn)
unfolding react
react-cleared bridge spawn (err e) h = cc
react-cleared bridge spawn (ok (ack b)) {a} {c} h =
    let same : b ≡ a = cc in (ap (λ x. ok (ack x)) same, rw (← same) (cc))
react-cleared bridge spawn (ok (notify n)) h = cc
react-cleared bridge spawn (ok ping) h = cc
react-cleared bridge spawn (ok pong) h = cc

-- The name that the script is called with.
abbrev pub bridge_name : AgentId → Str
bridge_name claude = codes "claude"
bridge_name codex = codes "codex"
bridge_name opencode = codes "opencode"
bridge_name generic = codes "generic"

-- The call that an enabled bridge makes, and none otherwise; only an exception that is no `OSError`
-- leaves it.
abbrev pub expected : TmuxBridge → AgentId → Spawn → Cleared
expected bridge a spawn = elim bridge.enabled [
  | false ↦ record { command = none; escaped = false }
  | true ↦ record {
    command =
        some (bridge.script ∷ codes "--agent" ∷ bridge_name a ∷ codes "--state" ∷ codes "off" ∷ []);
    escaped = elim spawn [ started ↦ false | os_error ↦ false | other_error ↦ true ];
  }
]

clear-expected :
    (bridge : TmuxBridge) (a : AgentId) (spawn : Spawn)
    → clear bridge a spawn ≡ expected bridge a spawn
unfolding clear
clear-expected bridge claude spawn = ground arith
clear-expected bridge codex spawn = ground arith
clear-expected bridge opencode spawn = ground arith
clear-expected bridge generic spawn = ground arith

bridge_name-agent : (a : AgentId) → agent_by_name (bridge_name a) ≡ some a
unfolding agent_by_name
bridge_name-agent claude = refl
bridge_name-agent _ = refl

-- The tmux pane of an agent is cleared exactly for the buffers that hold an ACK of this agent, by
-- one call of the script with the name under which the socket knows the agent; a disabled bridge
-- makes no call, and a script that cannot be started is passed over.
pub cleared_iff :
    (bridge : TmuxBridge) (spawn : Spawn) (raw : Bytes) (a : AgentId) (c : Cleared)
    → ((handle_incoming bridge spawn raw ≡ cleared a c)
        ↔ (Holds raw (ack a) × (c ≡ expected bridge a spawn)))
      × (agent_by_name (bridge_name a) ≡ some a)
unfolding handle_incoming
cleared_iff bridge spawn raw a c = ((to, from), bridge_name-agent a)
  where
    to :
        handle_incoming bridge spawn raw ≡ cleared a c
        → Holds raw (ack a) × (c ≡ expected bridge a spawn)
    to h = elim (Bool-cases (is_flow_control raw)) [
      | inl e ↦ cc (rw (e, handle_incoming) at h)
      | inr e ↦
          let (got, made) =
            react-cleared bridge spawn (decode raw) (rw (e, handle_incoming) at h) in
          ((decode_iff raw (ack a)).0 got, made ∙ clear-expected bridge a spawn)
    ]

    from :
        Holds raw (ack a) × (c ≡ expected bridge a spawn)
        → handle_incoming bridge spawn raw ≡ cleared a c
    from (holds, made) = elim (Bool-cases (is_flow_control raw)) [
      | inl e ↦ cc (flow_control-tag raw e, (decode_iff raw (ack a)).1 holds)
      | inr e ↦
          rw (e, (decode_iff raw (ack a)).1 holds, handle_incoming)
            (unfold react in ap (cleared a) (clear-expected bridge a spawn ∙ sym made))
    ]

-- The agent whose pane a round clears, and the one that some bytes acknowledge.
abbrev pub cleared_by : Reaction → List AgentId
cleared_by (cleared a c) = a ∷ []
cleared_by _ = []

abbrev pub acked_by : Result DecodeError Frame → List AgentId
acked_by (ok (ack a)) = a ∷ []
acked_by _ = []

react-acked :
    (bridge : TmuxBridge) (spawn : Spawn) (r : Result DecodeError Frame)
    → cleared_by (react bridge spawn r) ≡ acked_by r
unfolding react
react-acked bridge spawn (err e) = refl
react-acked bridge spawn (ok (ack a)) = refl
react-acked bridge spawn (ok (notify n)) = refl
react-acked bridge spawn (ok ping) = refl
react-acked bridge spawn (ok pong) = refl

pub handle_incoming-acked :
    (bridge : TmuxBridge) (spawn : Spawn) (raw : Bytes)
    → cleared_by (handle_incoming bridge spawn raw) ≡ acked_by (decode raw)
unfolding handle_incoming
handle_incoming-acked bridge spawn raw = elim (Bool-cases (is_flow_control raw)) [
  | inl e ↦ rw (e, flow_control-tag raw e) refl
  | inr e ↦ rw (e, handle_incoming) (react-acked bridge spawn (decode raw))
]

pub flow_control-acked : (raw : Bytes) → is_flow_control raw ≡ true → acked_by (decode raw) ≡ []
flow_control-acked raw h = rw (flow_control-tag raw h) refl
