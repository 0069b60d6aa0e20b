-- ===== src/Protocol/Size.antt =====
-- How long an encoded frame is, and that it is made of bytes.
use flipper_agent_indicator.Prelude.{
  ℕ, zero, suc, ◌≤◌, ◌<◌, ◌≡◌, subst, true, [], ◌∷◌, arith, length, length-take, take, all, All,
  All-append, ok, &&-eq-true, Bool-cases, inl, inr,
}
use flipper_agent_indicator.Text.{Str}
use flipper_agent_indicator.Utf8
use flipper_agent_indicator.Utf8.{Bytes, is_scalar, utf8, utf8_char}
use flipper_agent_indicator.Protocol.{
  max_text_bytes, AgentId, claude, State, off, agent_value, state_value, Notification, Frame,
  notify, ack, ping, pong, encode,
}
use flipper_agent_indicator.Protocol.RoundTrip.{IsEncodable, encode-layout, layout, label_bytes}

abbrev pub IsByte : ℕ → Type 0
IsByte b = b < 256

utf8_char-IsByte : (c : ℕ) → is_scalar c ≡ true → All IsByte (utf8_char c)
unfolding utf8_char
utf8_char-IsByte c h = ground arith

utf8-IsByte : (s : Str) → all is_scalar s ≡ true → All IsByte (utf8 s)
unfolding utf8
utf8-IsByte [] h = tt
utf8-IsByte (c ∷ cs) h =
    let (hc, hs) = &&-eq-true (is_scalar c) (all is_scalar cs) h in
    All-append IsByte (utf8_char c) (utf8 cs) (utf8_char-IsByte c hc) (utf8-IsByte cs hs)

All-take {ℓ} : (P : ℕ → Type ℓ) (n : ℕ) (xs : Bytes) → All P xs → All P (take n xs)
All-take P zero xs h = tt
All-take P (suc n) [] h = tt
All-take P (suc n) (x ∷ xs) h = (h.0, All-take P n xs h.1)

agent_value-IsByte : (a : AgentId) → IsByte (agent_value a)
agent_value-IsByte claude = omega arith
agent_value-IsByte _ = omega arith

state_value-IsByte : (s : State) → IsByte (state_value s)
state_value-IsByte off = omega arith
state_value-IsByte _ = omega arith

label_bounds : (n : Notification) → length (label_bytes n) ≤ max_text_bytes
label_bounds n = omega (arith, length-take max_text_bytes (utf8 n.text))

-- Every element is a byte, and there are at most 68: under the 100 that the protocol allows.
abbrev pub IsSized : Bytes → Type 0
IsSized bytes = (length bytes ≤ 68) × All IsByte bytes

layout-IsSized : (f : Frame) → IsEncodable f → IsSized (layout f)
layout-IsSized (notify n) h = (
  omega (arith, label_bounds n),
  (
    omega arith,
    (
      agent_value-IsByte n.agent,
      (
        state_value-IsByte n.state,
        (
          omega (arith, label_bounds n),
          All-take IsByte max_text_bytes (utf8 n.text) (utf8-IsByte n.text h),
        ),
      ),
    ),
  ),
)
layout-IsSized (ack a) h = (omega arith, (omega arith, (agent_value-IsByte a, tt)))
layout-IsSized ping h = omega arith
layout-IsSized pong h = omega arith

-- Only a text with a surrogate makes `encode` raise.
encode-IsEncodable : (f : Frame) (bytes : Bytes) → encode f ≡ ok bytes → IsEncodable f
unfolding encode Utf8.encode
encode-IsEncodable (notify n) bytes h = elim (Bool-cases (all is_scalar n.text)) [
  | inl e ↦ e
  | inr e ↦ cc (rw (e, Utf8.encode) at h)
]
encode-IsEncodable _ bytes h = tt

-- Whatever is encoded, the frame is at most 68 bytes long, under the 100 that the protocol allows,
-- and every element of it is a byte.
pub encode-IsSized : (f : Frame) (bytes : Bytes) → encode f ≡ ok bytes → IsSized bytes
encode-IsSized f bytes h =
    let can = encode-IsEncodable f bytes h in
    let same : layout f ≡ bytes = cc (encode-layout f can) in
    subst IsSized same (layout-IsSized f can)
