-- ===== src/Firmware/Receiver.antt =====
-- firmware/flipper_agent_indicator/ble_serial.c: the buffer that collects received bytes, and the loop
-- that takes the frames out of it. What is put on the queue of frames is returned in its order.
pub mod Rounds
pub mod Streams
pub mod Stalls
pub mod Mixed
pub mod Cut
mod Tests
use flipper_agent_indicator.Prelude.{
  ℕ, zero, suc, ◌+◌, ◌-◌, ◌*◌, min, Bool, ◌||◌, List, [], ◌∷◌, ◌++◌, Option, none, some, ltb, leb,
  ◌==◌, if◌then◌else◌, length, take, drop,
}
use flipper_agent_indicator.Utf8.{Bytes}
use flipper_agent_indicator.Firmware.{
  FaiFrame, FaiFrameKind, fai_frame_notify, fai_frame_ack, fai_frame_ping, fai_frame_pong,
  fai_max_text_bytes, fai_protocol_decode,
}

abbrev pub fai_rx_buf_cap : ℕ
fai_rx_buf_cap = (4 + fai_max_text_bytes) * 2

-- The bytes that a decoded frame took.
abbrev pub consumed_by : FaiFrameKind → ℕ → ℕ
consumed_by fai_frame_notify text_len = 4 + text_len
consumed_by fai_frame_ack text_len = 2
consumed_by fai_frame_ping text_len = 1
consumed_by fai_frame_pong text_len = 1

-- A round of the loop: it returns and leaves some bytes, or puts a frame on the queue and goes on.
pub data Round : Type 0 where
  returns : Bytes → Round
  puts : FaiFrame → Bytes → Round

-- Behind a failed decode: the bytes are dropped if the buffer is full.
unfoldable pub undecoded : Bytes → Round
undecoded rx = returns (if leb fai_rx_buf_cap (length rx) then [] else rx)

unfoldable pub decoded : Bytes → FaiFrame → Round
decoded rx frame =
    let consumed = consumed_by frame.kind frame.text_len in
    if consumed == 0 || ltb (length rx) consumed then returns [] else puts frame (drop consumed rx)

unfoldable pub parse_round : Bytes → Round
unfolding undecoded decoded
parse_round rx = elim (fai_protocol_decode rx) [
  | none ↦ undecoded rx
  | some frame ↦ decoded rx frame
]

-- The frames, and the bytes that stay in the buffer.
abbrev pub Parsed : Type 0
Parsed = List FaiFrame × Bytes

unfoldable pub with_frame : FaiFrame → Option Parsed → Option Parsed
with_frame frame none = none
with_frame frame (some (frames, rx)) = some (frame ∷ frames, rx)

-- `fai_ble_try_parse`, with fuel for its rounds; `none` where that is used up.
unfoldable pub try_parse : ℕ → Bytes → Option Parsed
unfolding parse_round with_frame
try_parse fuel [] = some ([], [])
try_parse zero (b ∷ bs) = none
try_parse (suc fuel) (b ∷ bs) = elim (parse_round (b ∷ bs)) [
  | returns rx ↦ some ([], rx)
  | puts frame rx ↦ with_frame frame (try_parse fuel rx)
]

pub data SerialEvent : Type 0 where
  data_received : Bytes → SerialEvent
  other_event : SerialEvent

-- What a call of the callback does: the frames it puts, the number that it returns, and the buffer.
pub record Received : Type 0 where
  pub frames : List FaiFrame
  pub took : ℕ
  pub rx : Bytes

unfoldable pub parsed_as : ℕ → Option Parsed → Option Received
parsed_as took none = none
parsed_as took (some (frames, rx)) = some (record { frames = frames; took = took; rx = rx })

-- `fai_ble_rx_callback`; a round takes a byte at least, so there is fuel for each byte.
unfoldable pub rx_callback : Bytes → SerialEvent → Option Received
unfolding parsed_as try_parse
rx_callback rx other_event = some (record { frames = []; took = 0; rx = rx })
rx_callback rx (data_received bytes) =
    let space = fai_rx_buf_cap - length rx in
    let took = min (length bytes) space in
    let filled = rx ++ take took bytes in
    if space == 0
    then some (record { frames = []; took = 0; rx = [] })
    else parsed_as took (try_parse (length filled) filled)

-- The calls for some pieces of a stream, one after the other: all frames, and the buffer.
unfoldable pub join_received : Received → Option Parsed → Option Parsed
join_received r none = none
join_received r (some (frames, rx)) = some (r.frames ++ frames, rx)

unfoldable pub receive_all : Bytes → List Bytes → Option Parsed
unfolding rx_callback join_received
receive_all rx [] = some ([], rx)
receive_all rx (piece ∷ pieces) = elim (rx_callback rx (data_received piece)) [
  | none ↦ none
  | some r ↦ join_received r (receive_all r.rx pieces)
]
