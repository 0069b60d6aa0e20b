-- ===== src/Firmware.antt =====
-- firmware/flipper_agent_indicator/protocol.c: the codec of the frames on the device. The pointers are
-- taken not to be null; `none` is the return value -1.
pub mod Interop
pub mod Buffer
pub mod Receiver
pub mod Effects
pub mod Render
pub mod App
pub mod Serial
mod Tests
use flipper_agent_indicator.Prelude.{
  ℕ, zero, suc, ◌+◌, ◌-◌, Bool, List, [], ◌∷◌, ◌++◌, Option, none, some, ltb, ◌==◌, if◌then◌else◌,
  length, take,
}
use flipper_agent_indicator.Utf8.{Bytes}

abbrev pub fai_tag_notify : ℕ
fai_tag_notify = 0x01

abbrev pub fai_tag_ping : ℕ
fai_tag_ping = 0x02

abbrev pub fai_tag_ack : ℕ
fai_tag_ack = 0x81

abbrev pub fai_tag_pong : ℕ
fai_tag_pong = 0x82

abbrev pub fai_max_text_bytes : ℕ
fai_max_text_bytes = 64

pub data FaiFrameKind : Type 0 where
  fai_frame_notify fai_frame_ack fai_frame_ping fai_frame_pong : FaiFrameKind

-- `text` is the whole array, of FAI_MAX_TEXT_BYTES + 1 bytes.
pub record FaiFrame : Type 0 where
  pub kind : FaiFrameKind
  pub agent : ℕ
  pub state : ℕ
  pub text_len : ℕ
  pub text : Bytes

-- n bytes that are 0
abbrev pub zeros : ℕ → Bytes
zeros zero = []
zeros (suc n) = 0 ∷ zeros n

-- memset(out, 0, sizeof(*out)), and the kind
unfoldable pub cleared : FaiFrameKind → FaiFrame
cleared k = record {
  kind = k;
  agent = 0;
  state = 0;
  text_len = 0;
  text = zeros (fai_max_text_bytes + 1);
}

-- `fai_protocol_encode`: the bytes that are written to `out`.
unfoldable pub fai_protocol_encode : FaiFrame → ℕ → Option Bytes
fai_protocol_encode f out_cap = elim f.kind [
  | fai_frame_notify ↦
      if ltb fai_max_text_bytes f.text_len
      then none
      else if ltb out_cap (4 + f.text_len)
      then none
      else some (fai_tag_notify ∷ f.agent ∷ f.state ∷ f.text_len ∷ take f.text_len f.text)
  | fai_frame_ack ↦ if ltb out_cap 2 then none else some (fai_tag_ack ∷ f.agent ∷ [])
  | fai_frame_ping ↦ if ltb out_cap 1 then none else some (fai_tag_ping ∷ [])
  | fai_frame_pong ↦ if ltb out_cap 1 then none else some (fai_tag_pong ∷ [])
]

-- memcpy(out->text, &buf[4], text_len), over the zeros, and the terminator behind it
unfoldable pub text_array : ℕ → Bytes → Bytes
text_array text_len body = take text_len body ++ zeros (fai_max_text_bytes + 1 - text_len)

-- The case FAI_TAG_NOTIFY, behind the tag.
unfoldable pub read_notify : Bytes → Option FaiFrame
unfolding text_array
read_notify (agent ∷ state ∷ text_len ∷ body) =
    if ltb fai_max_text_bytes text_len
    then none
    else if ltb (4 + length body) (4 + text_len)
    then none
    else some (record {
      kind = fai_frame_notify;
      agent = agent;
      state = state;
      text_len = text_len;
      text = text_array text_len body;
    })
read_notify _ = none

-- The case FAI_TAG_ACK, behind the tag.
unfoldable pub read_ack : Bytes → Option FaiFrame
unfolding cleared
read_ack [] = none
read_ack (agent ∷ rest) = some (record (cleared fai_frame_ack) { agent = agent })

-- `fai_protocol_decode`
unfoldable pub fai_protocol_decode : Bytes → Option FaiFrame
unfolding read_notify read_ack cleared
fai_protocol_decode [] = none
fai_protocol_decode (tag ∷ rest) =
    if tag == fai_tag_notify
    then read_notify rest
    else if tag == fai_tag_ack
    then read_ack rest
    else if tag == fai_tag_ping
    then some (cleared fai_frame_ping)
    else if tag == fai_tag_pong
    then some (cleared fai_frame_pong)
    else none
