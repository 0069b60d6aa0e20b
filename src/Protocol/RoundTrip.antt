-- ===== src/Protocol/RoundTrip.antt =====
-- `decode` after `encode`.
use flipper_agent_indicator.Prelude.{
  ◌≤◌, ◌≡◌, refl, ap, ◌∙◌, true, [], ◌∷◌, ◌++◌, arith, length, take, append-nil, take_all,
  take-append_left, all, ok, ==_refl,
}
use flipper_agent_indicator.Utf8
use flipper_agent_indicator.Utf8.{Bytes, is_scalar, utf8}
use flipper_agent_indicator.Utf8.Cut.{fit, fit_all, decode_from-take-utf8}
use flipper_agent_indicator.Protocol.{
  max_text_bytes, AgentId, claude, State, off, agent_value, state_value, Notification, Frame,
  notify, ack, ping, pong, encode, agent_of, state_of, decode_notify, decode_ack, decode,
}

pub agent_of-agent_value : (a : AgentId) → agent_of (agent_value a) ≡ ok a
unfolding agent_of
agent_of-agent_value claude = refl
agent_of-agent_value _ = refl

pub state_of-state_value : (s : State) → state_of (state_value s) ≡ ok s
unfolding state_of
state_of-state_value off = refl
state_of-state_value _ = refl

-- What the other side makes of a frame: the text is cut to what fits in `max_text_bytes` bytes.
abbrev pub received : Frame → Frame
received (notify n) = notify (record n { text = fit max_text_bytes n.text })
received f = f

-- The texts that can be encoded.
abbrev pub IsEncodable : Frame → Type 0
IsEncodable (notify n) = all is_scalar n.text ≡ true
IsEncodable f = Unit {0}

-- The layout of a frame, as PLAN.md gives it.
abbrev pub label_bytes : Notification → Bytes
label_bytes n = take max_text_bytes (utf8 n.text)

abbrev pub layout : Frame → Bytes
layout (notify n) =
    0x01 ∷ agent_value n.agent ∷ state_value n.state ∷ length (label_bytes n) ∷ label_bytes n
layout (ack a) = 0x81 ∷ agent_value a ∷ []
layout ping = 0x02 ∷ []
layout pong = 0x82 ∷ []

pub encode-layout : (f : Frame) → IsEncodable f → encode f ≡ ok (layout f)
unfolding encode Utf8.encode
encode-layout (notify n) h = rw h
encode-layout (ack a) h = refl
encode-layout ping h = refl
encode-layout pong h = refl

take-payload : (xs extra : Bytes) → take (length xs) (xs ++ extra) ≡ xs
take-payload xs extra =
    take-append_left xs extra (length xs) (omega arith) ∙ take_all (length xs) xs (omega arith)

decode_notify-layout :
    (n : Notification) (extra : Bytes)
    → all is_scalar n.text ≡ true
    → decode_notify (
        agent_value n.agent
        ∷ state_value n.state
        ∷ length (label_bytes n)
        ∷ (label_bytes n ++ extra))
      ≡ ok (received (notify n))
unfolding decode_notify Utf8.decode
decode_notify-layout n extra h = rw (
  take-payload (label_bytes n) extra,
  ==_refl (length (label_bytes n)),
  agent_of-agent_value n.agent,
  state_of-state_value n.state,
  decode_from-take-utf8 n.text max_text_bytes h,
)

pub decode-layout :
    (f : Frame) (extra : Bytes) → IsEncodable f → decode (layout f ++ extra) ≡ ok (received f)
unfolding decode decode_ack
decode-layout (notify n) extra h = decode_notify-layout n extra h
decode-layout (ack a) extra h = rw (agent_of-agent_value a)
decode-layout ping extra h = refl
decode-layout pong extra h = refl

-- A frame whose text can be encoded is encoded, and whatever bytes follow it in the buffer, it is
-- decoded to the same frame with its text cut to the characters that fit in 64 bytes, with one
-- U+FFFD behind them if the cut falls inside a character.
pub decode-encode :
    (f : Frame) (extra : Bytes)
    → IsEncodable f
    → (bytes : Bytes) × (encode f ≡ ok bytes) × (decode (bytes ++ extra) ≡ ok (received f))
decode-encode f extra h = (layout f, encode-layout f h, decode-layout f extra h)

-- The text of a frame takes at most 64 bytes.
abbrev pub IsShort : Frame → Type 0
IsShort (notify n) = length (utf8 n.text) ≤ max_text_bytes
IsShort f = Unit {0}

received_short : (f : Frame) → IsShort f → received f ≡ f
received_short (notify n) h =
    ap (λ t. notify (record n { text = t })) (fit_all n.text max_text_bytes h)
received_short (ack a) h = refl
received_short ping h = refl
received_short pong h = refl

-- A frame whose text can be encoded in at most 64 bytes comes back unchanged.
pub decode-encode_short :
    (f : Frame)
    → IsEncodable f
    → IsShort f
    → (bytes : Bytes) × (encode f ≡ ok bytes) × (decode bytes ≡ ok f)
decode-encode_short f h k = (
  layout f,
  encode-layout f h,
  rw (← append-nil (layout f)) (decode-layout f [] h ∙ ap ok (received_short f k)),
)
