-- ===== src/Firmware/Interop.antt =====
-- The device reads what the daemon writes, and the daemon what the device writes.
use flipper_agent_indicator.Prelude.{
  ◌<◌, length-append, take-append_self, ◌≡◌, ◌≤◌, subst, append-nil, take-append_left, refl, [],
  ◌++◌, ◌-◌, ◌+◌, some, ok, length, take_all, length-take, arith, le→ltb_false,
}
use flipper_agent_indicator.Utf8.{Bytes, utf8}
use flipper_agent_indicator.Protocol
use flipper_agent_indicator.Protocol.{
  Frame, notify, ack, ping, pong, agent_value, state_value, max_text_bytes, Notification, AgentId,
  decode_ack,
}
use flipper_agent_indicator.Protocol.RoundTrip.{
  received, IsEncodable, encode-layout, layout, label_bytes, decode-layout,
}
use flipper_agent_indicator.Firmware.{
  FaiFrame, fai_frame_notify, fai_frame_ack, fai_frame_ping, fai_frame_pong, cleared, text_array,
  zeros, fai_max_text_bytes, read_notify, read_ack, fai_protocol_decode, fai_protocol_encode,
}

-- A frame as the device holds it.
abbrev pub on_device : Frame → FaiFrame
on_device (notify n) = record {
  kind = fai_frame_notify;
  agent = agent_value n.agent;
  state = state_value n.state;
  text_len = length (label_bytes n);
  text = label_bytes n ++ zeros (fai_max_text_bytes + 1 - length (label_bytes n));
}
on_device (ack a) = record (cleared fai_frame_ack) { agent = agent_value a }
on_device ping = cleared fai_frame_ping
on_device pong = cleared fai_frame_pong

pub label-fits : (n : Notification) → length (label_bytes n) ≤ 64
label-fits n = omega (arith, length-take max_text_bytes (utf8 n.text))

pub length-layout : (f : Frame) → (0 < length (layout f)) × (length (layout f) ≤ 68)
length-layout (notify n) = omega (arith, label-fits n)
length-layout (ack a) = omega arith
length-layout ping = omega arith
length-layout pong = omega arith

-- Whatever bytes follow a frame in the buffer.
pub device-layout-append :
    (f : Frame) (extra : Bytes) → fai_protocol_decode (layout f ++ extra) ≡ some (on_device f)
unfolding fai_protocol_decode read_notify read_ack text_array cleared
device-layout-append (notify n) extra =
    let long_enough : 4 + length (label_bytes n) ≤ 4 + length (label_bytes n ++ extra) =
      omega (arith, length-append (label_bytes n) extra) in
    rw
      (
        le→ltb_false 64 (length (label_bytes n)) (label-fits n),
        le→ltb_false _ _ long_enough,
        take-append_self (label_bytes n) extra,
      )
      refl
device-layout-append (ack a) extra = refl
device-layout-append ping extra = refl
device-layout-append pong extra = refl

pub device-layout : (f : Frame) → fai_protocol_decode (layout f) ≡ some (on_device f)
device-layout f =
    subst (λ b. fai_protocol_decode b ≡ some (on_device f)) (append-nil (layout f))
      (device-layout-append f [])

-- The device decodes what the daemon encodes: the values of the agent and the state, and the first 64
-- bytes of the text, behind which its array is filled with zeros.
pub fai_protocol_decode-encode :
    (f : Frame)
    → IsEncodable f
    → (bytes : Bytes) × (Protocol.encode f ≡ ok bytes)
      × (fai_protocol_decode bytes ≡ some (on_device f))
fai_protocol_decode-encode f h = (layout f, encode-layout f h, device-layout f)

device-encode : (f : Frame) → fai_protocol_encode (on_device f) 68 ≡ some (layout f)
unfolding fai_protocol_encode cleared
device-encode (notify n) =
    rw
      (
        le→ltb_false 64 (length (label_bytes n)) (label-fits n),
        le→ltb_false 68 (4 + length (label_bytes n)) (omega (arith, label-fits n)),
        take-append_left (label_bytes n) (zeros (65 - length (label_bytes n)))
            (length (label_bytes n)) (omega arith),
        take_all (length (label_bytes n)) (label_bytes n) (omega arith),
      )
      refl
device-encode (ack a) = refl
device-encode ping = refl
device-encode pong = refl

-- The daemon decodes what the device encodes of such a frame into a buffer of 68 bytes, which is large
-- enough: the frame with its text cut to what fits in 64 bytes.
pub decode-fai_protocol_encode :
    (f : Frame)
    → IsEncodable f
    → (bytes : Bytes) × (fai_protocol_encode (on_device f) 68 ≡ some bytes)
      × (Protocol.decode bytes ≡ ok (received f))
decode-fai_protocol_encode f h = (
  layout f,
  device-encode f,
  subst (λ b. Protocol.decode b ≡ ok (received f)) (append-nil (layout f)) (decode-layout f [] h),
)
