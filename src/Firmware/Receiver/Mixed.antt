-- ===== src/Firmware/Receiver/Mixed.antt =====
-- ble_serial.c: what a call of the receive callback makes of a buffer with a part of a frame.
use flipper_agent_indicator.Prelude.{
  false, ℕ, suc, ◌+◌, ◌≤◌, ◌<◌, ◌≡◌, refl, ap, ◌∙◌, List, ◌∷◌, ◌++◌, some, length, take, drop,
  length-take, length-drop, length-append, arith, tests, le→ltb_false, ◌==◌,
}
use flipper_agent_indicator.Utf8.{Bytes}
use flipper_agent_indicator.Protocol.{Notification, notify, agent_value, state_value}
use flipper_agent_indicator.Protocol.RoundTrip.{layout, label_bytes}
use flipper_agent_indicator.Firmware.{FaiFrame, fai_protocol_decode, read_notify, text_array}
use flipper_agent_indicator.Firmware.Interop.{on_device, label-fits, length-layout}
use flipper_agent_indicator.Firmware.Receiver.{
  puts, decoded, parse_round, with_frame, try_parse, data_received, Received, parsed_as,
  rx_callback,
}
use flipper_agent_indicator.Firmware.Receiver.Rounds.{
  rx_callback_fits, try_parse_round, try_parse-Ends,
}

-- A frame with `k` bytes of its text.
abbrev pub cut_frame : Notification → ℕ → Bytes
cut_frame n k =
    0x01
    ∷ agent_value n.agent
    ∷ state_value n.state
    ∷ length (label_bytes n)
    ∷ take k (label_bytes n)

-- The frame of a notification with another text behind its header.
abbrev pub with_text : Notification → Bytes → FaiFrame
with_text n body = record (on_device (notify n)) { text = text_array (length (label_bytes n)) body }

decode-body :
    (n : Notification) (body : Bytes)
    → length (label_bytes n) ≤ length body
    → fai_protocol_decode
        (0x01 ∷ agent_value n.agent ∷ state_value n.state ∷ length (label_bytes n) ∷ body)
      ≡ some (with_text n body)
unfolding fai_protocol_decode read_notify
decode-body n body h =
    rw
      (
        le→ltb_false 64 (length (label_bytes n)) (label-fits n),
        le→ltb_false (4 + length body) (4 + length (label_bytes n)) (omega arith),
      )
      refl

decoded-body :
    (n : Notification) (body : Bytes)
    → length (label_bytes n) ≤ length body
    → decoded
        (0x01 ∷ agent_value n.agent ∷ state_value n.state ∷ length (label_bytes n) ∷ body)
        (with_text n body)
      ≡ puts (with_text n body) (drop (length (label_bytes n)) body)
unfolding decoded
decoded-body n body h =
    let took : 4 + length (label_bytes n) ≡ suc (suc (suc (suc (length (label_bytes n))))) =
      omega arith in
    let positive : (suc (suc (suc (suc (length (label_bytes n))))) == 0) ≡ false =
      grind (tests, h) in
    let whole =
      le→ltb_false (suc (suc (suc (suc (length body)))))
        (suc (suc (suc (suc (length (label_bytes n)))))) (omega arith) in
    rw (took, positive, whole) refl

parse_round-body :
    (n : Notification) (body : Bytes)
    → length (label_bytes n) ≤ length body
    → parse_round (0x01 ∷ agent_value n.agent ∷ state_value n.state ∷ length (label_bytes n) ∷ body)
      ≡ puts (with_text n body) (drop (length (label_bytes n)) body)
unfolding parse_round
parse_round-body n body h = rw (decode-body n body h, parse_round) (decoded-body n body h)

-- What the loop makes of it.
try_parse-body :
    (n : Notification) (body : Bytes)
    → length (label_bytes n) ≤ length body
    → (later : List FaiFrame) × (left : Bytes) × (try_parse
          (suc (suc (suc (suc (length body)))))
          (0x01 ∷ agent_value n.agent ∷ state_value n.state ∷ length (label_bytes n) ∷ body)
        ≡ some (with_text n body ∷ later, left))
unfolding with_frame
try_parse-body n body h =
    let (frames, left, ends, room) =
      try_parse-Ends (suc (suc (suc (length body)))) (drop (length (label_bytes n)) body)
        (omega (arith, length-drop (length (label_bytes n)) body)) in
    (
      frames,
      left,
      try_parse_round (suc (suc (suc (length body)))) _ _
          ∙ rw (parse_round-body n body h) (ap (with_frame (with_text n body)) ends),
    )

pub rx_callback-mixes :
    (n m : Notification) (k : ℕ)
    → k < length (label_bytes n)
    → length (label_bytes n) ≤ k + length (layout (notify m))
    → (r : Received) × (later : List FaiFrame) × (rx_callback
          (cut_frame n k)
          (data_received (layout (notify m)))
        ≡ some r)
      × (r.frames ≡ with_text n (take k (label_bytes n) ++ layout (notify m)) ∷ later)
unfolding parsed_as
rx_callback-mixes n m k part enough =
    let body = take k (label_bytes n) ++ layout (notify m) in
    let size = length-take k (label_bytes n) in
    let short : length (cut_frame n k) < 68 = omega (arith, label-fits n) in
    let (later, left, result) =
      try_parse-body n body
        (omega (arith, length-append (take k (label_bytes n)) (layout (notify m)))) in
    (
      record { frames = with_text n body ∷ later; took = length (layout (notify m)); rx = left },
      later,
      rx_callback_fits (cut_frame n k) (layout (notify m)) short
            (omega (arith, length-layout (notify m)))
          ∙ ap (parsed_as (length (layout (notify m)))) result,
      refl,
    )
