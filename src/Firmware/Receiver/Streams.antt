-- ===== src/Firmware/Receiver/Streams.antt =====
-- A stream of frames, however it is cut into pieces, is taken apart into its frames.
use mathlib.Core.List.{map, map-append}
use flipper_agent_indicator.Prelude.{
  false, ℕ, zero, suc, ◌+◌, ◌-◌, ◌≤◌, ◌<◌, ◌≡◌, refl, subst, sym, ap, ◌∙◌, inl, inr, List, [], ◌∷◌,
  ◌++◌, append-nil, append_assoc, Option, none, some, All, length, drop-append, append-eq-append,
  length-append, arith, tests, lt→leb_false, le→ltb_false, ◌==◌,
}
use flipper_agent_indicator.Utf8.{Bytes}
use flipper_agent_indicator.Protocol.{Frame, notify, ack, ping, pong}
use flipper_agent_indicator.Protocol.RoundTrip.{layout, label_bytes}
use flipper_agent_indicator.Firmware.{fai_protocol_decode, read_notify, read_ack, cleared}
use flipper_agent_indicator.Firmware.Interop.{on_device, length-layout, device-layout-append}
use flipper_agent_indicator.Firmware.Receiver.{
  puts, undecoded, decoded, parse_round, consumed_by, Parsed, with_frame, try_parse, data_received,
  parsed_as, rx_callback, join_received, receive_all,
}
use flipper_agent_indicator.Firmware.Receiver.Rounds.{try_parse_round, rx_callback_fits}

abbrev pub stream : List Frame → Bytes
stream [] = []
stream (f ∷ fs) = layout f ++ stream fs

abbrev pub joined : List Bytes → Bytes
joined [] = []
joined (p ∷ ps) = p ++ joined ps

-- The beginning of a frame is not decoded.
pub decode_cut :
    (f : Frame) (b more : Bytes)
    → layout f ≡ b ++ more
    → length b < length (layout f)
    → fai_protocol_decode b ≡ none
unfolding fai_protocol_decode read_notify read_ack
decode_cut f [] more e less = refl
decode_cut (notify n) (t ∷ []) more e less = let tag : t ≡ 0x01 = cc in rw tag refl
decode_cut (notify n) (t ∷ a ∷ []) more e less = let tag : t ≡ 0x01 = cc in rw tag refl
decode_cut (notify n) (t ∷ a ∷ s ∷ []) more e less = let tag : t ≡ 0x01 = cc in rw tag refl
decode_cut (notify n) (t ∷ a ∷ s ∷ len ∷ body) more e less =
    let tag : t ≡ 0x01 = cc in
    let declared : len ≡ length (label_bytes n) = cc in rw tag (ground arith)
decode_cut (ack a) (t ∷ []) more e less = let tag : t ≡ 0x81 = cc in rw tag refl
decode_cut (ack a) (t ∷ u ∷ b) more e less = absurd (omega arith)
decode_cut ping (t ∷ b) more e less = absurd (omega arith)
decode_cut pong (t ∷ b) more e less = absurd (omega arith)

pub try_parse_cut :
    (fuel : ℕ) (b : Bytes)
    → fai_protocol_decode b ≡ none
    → length b < 136
    → length b ≤ fuel
    → try_parse fuel b ≡ some ([], b)
unfolding try_parse undecoded
try_parse_cut fuel [] e room h = refl
try_parse_cut zero (x ∷ b) e room h = absurd (omega arith)
try_parse_cut (suc fuel) (x ∷ b) e room h =
    try_parse_round fuel x b ∙ rw (e, parse_round, lt→leb_false 136 (length (x ∷ b)) room) refl

consumed-on_device :
    (f : Frame) → consumed_by (on_device f).kind (on_device f).text_len ≡ length (layout f)
unfolding cleared
consumed-on_device (notify n) = omega arith
consumed-on_device (ack a) = refl
consumed-on_device ping = refl
consumed-on_device pong = refl

decoded-layout :
    (f : Frame) (b : Bytes) → decoded (layout f ++ b) (on_device f) ≡ puts (on_device f) b
unfolding decoded
decoded-layout f b =
    let positive : (length (layout f) == 0) ≡ false = grind (tests, length-layout f) in
    let whole : length (layout f) ≤ length (layout f ++ b) =
      omega (arith, length-append (layout f) b) in
    rw (consumed-on_device f, positive, le→ltb_false _ _ whole, drop-append (layout f) b) refl

parse_round-layout : (f : Frame) (b : Bytes) → parse_round (layout f ++ b) ≡ puts (on_device f) b
unfolding parse_round
parse_round-layout f b = rw (device-layout-append f b, parse_round) (decoded-layout f b)

try_parse-layout :
    (fuel : ℕ) (f : Frame) (b : Bytes)
    → try_parse (suc fuel) (layout f ++ b) ≡ with_frame (on_device f) (try_parse fuel b)
try_parse-layout fuel (notify n) b =
    try_parse_round fuel _ _ ∙ rw (parse_round-layout (notify n) b) refl
try_parse-layout fuel (ack a) b = try_parse_round fuel _ _ ∙ rw (parse_round-layout (ack a) b) refl
try_parse-layout fuel ping b = try_parse_round fuel _ _ ∙ rw (parse_round-layout ping b) refl
try_parse-layout fuel pong b = try_parse_round fuel _ _ ∙ rw (parse_round-layout pong b) refl

-- What waits in the buffer does not yet hold the next frame.
abbrev pub IsCut : Bytes → List Frame → Type 0
IsCut left [] = left ≡ []
IsCut left (f ∷ fs) = length left < length (layout f)

-- The loop has taken the first of the frames, and the others begin with what is left.
abbrev pub Splits : List Frame → Bytes → Option Parsed → Type 0
Splits fs rest o =
    (done : List Frame) × (todo : List Frame) × (left : Bytes) × (fs ≡ done ++ todo)
    × (o ≡ some (map on_device done, left))
    × (left ++ rest ≡ stream todo)
    × IsCut left todo

Splits-with_frame :
    (f : Frame) (fs : List Frame) (rest : Bytes) (o : Option Parsed)
    → Splits fs rest o
    → Splits (f ∷ fs) rest (with_frame (on_device f) o)
unfolding with_frame
Splits-with_frame f fs rest o (done, todo, left, parts, result, follows, cut) =
    (f ∷ done, todo, left, ap (λ l. f ∷ l) parts, rw result refl, follows, cut)

try_parse-Splits :
    (fs : List Frame) (b rest : Bytes) (fuel : ℕ)
    → b ++ rest ≡ stream fs
    → length b ≤ fuel
    → Splits fs rest (try_parse fuel b)
unfolding try_parse
try_parse-Splits [] [] rest fuel h fits = ([], [], [], refl, refl, h, refl)
try_parse-Splits [] (x ∷ b) rest fuel h fits = cc
try_parse-Splits (f ∷ fs) b rest fuel h fits =
    elim (append-eq-append (layout f) (stream fs) b rest h) [
      | inl (more, e, less) ↦ (
        [],
        f ∷ fs,
        b,
        refl,
        try_parse_cut fuel b (decode_cut f b more e less) (omega (arith, length-layout f)) fits,
        h,
        less,
      )
      | inr (more, e, follows) ↦
          (let sizes : length b ≡ length (layout f) + length more =
              ap length e ∙ length-append (layout f) more in
            let counted : suc (fuel - 1) ≡ fuel = omega (arith, length-layout f) in
            let round : try_parse fuel b ≡ with_frame (on_device f) (try_parse (fuel - 1) more) =
              ap (try_parse fuel) e
              ∙ ap (λ n. try_parse n (layout f ++ more)) (sym counted)
              ∙ try_parse-layout (fuel - 1) f more in
            subst (Splits (f ∷ fs) rest) (sym round) (
              Splits-with_frame f fs rest (try_parse (fuel - 1) more) (
                try_parse-Splits fs more rest (fuel - 1) follows (omega (arith, length-layout f)))))
    ]

pub IsCut-lt : (left : Bytes) (todo : List Frame) → IsCut left todo → length left < 68
IsCut-lt left [] h = rw h (omega arith)
IsCut-lt left (f ∷ fs) h = omega (arith, length-layout f)

-- A piece that there is room for, behind a part of a frame.
pub rx_callback-Splits :
    (fs : List Frame) (rx piece rest : Bytes)
    → (rx ++ piece) ++ rest ≡ stream fs
    → length rx < 68
    → length piece ≤ 69
    → (done : List Frame) × (todo : List Frame) × (left : Bytes) × (fs ≡ done ++ todo)
      × (rx_callback rx (data_received piece)
          ≡ some (record { frames = map on_device done; took = length piece; rx = left }))
      × (left ++ rest ≡ stream todo)
      × IsCut left todo
unfolding parsed_as
rx_callback-Splits fs rx piece rest h short fits =
    let (done, todo, left, parts, result, follows, cut) =
      try_parse-Splits fs (rx ++ piece) rest (length (rx ++ piece)) h (omega arith) in
    (
      done,
      todo,
      left,
      parts,
      rx_callback_fits rx piece short fits ∙ ap (parsed_as (length piece)) result,
      follows,
      cut,
    )

receive_all-Splits :
    (pieces : List Bytes) (fs : List Frame) (rx rest : Bytes)
    → rx ++ (joined pieces ++ rest) ≡ stream fs
    → IsCut rx fs
    → All (λ p. length p ≤ 69) pieces
    → Splits fs rest (receive_all rx pieces)
unfolding receive_all join_received
receive_all-Splits [] fs rx rest h cut fits = ([], fs, rx, refl, refl, h, cut)
receive_all-Splits (piece ∷ pieces) fs rx rest h cut fits =
    let regrouped : (rx ++ piece) ++ (joined pieces ++ rest) ≡ stream fs =
      append_assoc rx piece (joined pieces ++ rest)
      ∙ ap (λ l. rx ++ l) (sym (append_assoc piece (joined pieces) rest))
      ∙ h in
    let (done, todo, left, parts, called, follows, now) =
      rx_callback-Splits fs rx piece (joined pieces ++ rest) regrouped (IsCut-lt rx fs cut)
        fits.0 in
    let (later, others, end, parts', result, follows', at_end) =
      receive_all-Splits pieces todo left rest follows now fits.1 in
    (
      done ++ later,
      others,
      end,
      parts ∙ ap (λ l. done ++ l) parts' ∙ sym (append_assoc done later others),
      rw (called, receive_all, result)
          (ap (λ l. some (l, end)) (sym (map-append on_device done later))),
      follows',
      at_end,
    )

pub IsCut-end :
    (left : Bytes) (todo : List Frame)
    → left ++ [] ≡ stream todo
    → IsCut left todo
    → (todo ≡ []) × (left ≡ [])
IsCut-end left [] h cut = (refl, cut)
IsCut-end left (f ∷ fs) h cut =
    absurd
      (omega (arith, ap length (sym (append-nil left) ∙ h), length-append (layout f) (stream fs)))

IsCut-nil : (fs : List Frame) → IsCut [] fs
IsCut-nil [] = refl
IsCut-nil (f ∷ fs) = (length-layout f).0

-- However a stream of frames as the daemon encodes them is cut into pieces of up to 69 bytes, the
-- callback puts exactly these frames on the queue, in their order, and nothing stays in the buffer.
pub receive_all-stream :
    (fs : List Frame) (pieces : List Bytes)
    → joined pieces ≡ stream fs
    → All (λ p. length p ≤ 69) pieces
    → receive_all [] pieces ≡ some (map on_device fs, [])
receive_all-stream fs pieces h fits =
    let (done, todo, left, parts, result, follows, cut) =
      receive_all-Splits pieces fs [] [] (append-nil (joined pieces) ∙ h) (IsCut-nil fs) fits in
    let (all_done, empty) = IsCut-end left todo follows cut in
    let whole : done ≡ fs =
      sym (append-nil done) ∙ ap (λ l. done ++ l) (sym all_done) ∙ sym parts in
    result ∙ rw (empty, whole) refl
