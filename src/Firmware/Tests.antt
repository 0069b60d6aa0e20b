-- ===== src/Firmware/Tests.antt =====
-- Frames on the device, and the theorems at them.
use flipper_agent_indicator.Prelude.{◌≡◌, refl, [], ◌∷◌, some, none, ok}
use flipper_agent_indicator.Text.{codes}
use flipper_agent_indicator.Utf8.{Bytes}
use flipper_agent_indicator.Protocol
use flipper_agent_indicator.Protocol.{Frame, notify, codex, done}
use flipper_agent_indicator.Firmware.{
  FaiFrame, fai_frame_notify, zeros, fai_protocol_decode, fai_protocol_encode,
}
use flipper_agent_indicator.Firmware.Interop.{on_device, fai_protocol_decode-encode}
use flipper_agent_indicator.Firmware.Buffer.{IsTerminated, fai_protocol_decode-IsTerminated}

abbrev finished : Frame
finished = notify (record { agent = codex; state = done; text = codes "ok" })

abbrev buffer : Bytes
buffer = 1 ∷ 1 ∷ 3 ∷ 2 ∷ 0x6F ∷ 0x6B ∷ []

abbrev decoded : FaiFrame
decoded = record {
  kind = fai_frame_notify;
  agent = 1;
  state = 3;
  text_len = 2;
  text = 0x6F ∷ 0x6B ∷ zeros 63;
}

decodes : fai_protocol_decode buffer ≡ some decoded
unfolding fai_protocol_decode
decodes = refl

-- A text length beyond the array, or beyond the buffer, is refused.
refused :
    (fai_protocol_decode (1 ∷ 1 ∷ 3 ∷ 65 ∷ zeros 65) ≡ none)
    × (fai_protocol_decode (1 ∷ 1 ∷ 3 ∷ 3 ∷ 0x6F ∷ []) ≡ none)
unfolding fai_protocol_decode
refused = (refl, refl)

encodes : fai_protocol_encode decoded 6 ≡ some buffer
unfolding fai_protocol_encode
encodes = refl

fai_protocol_decode-encode_example :
    (bytes : Bytes) × (Protocol.encode finished ≡ ok bytes)
    × (fai_protocol_decode bytes ≡ some (on_device finished))
fai_protocol_decode-encode_example = fai_protocol_decode-encode finished refl

fai_protocol_decode-IsTerminated_example : IsTerminated decoded
fai_protocol_decode-IsTerminated_example = fai_protocol_decode-IsTerminated buffer decodes
