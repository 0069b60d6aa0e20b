-- ===== src/Firmware/Receiver/Rounds.antt =====
-- The parsing loop ends, whatever is in the buffer, and never leaves a full buffer.
use flipper_agent_indicator.Prelude.{
  take_all, false, ◌++◌, ◌-◌, ℕ, zero, suc, ◌≤◌, ◌<◌, ◌≡◌, refl, subst, sym, inl, inr, min, List,
  [], ◌∷◌, Option, some, Option-cases, Bool-cases, length, drop, arith, tests, ◌==◌,
}
use flipper_agent_indicator.Utf8.{Bytes}
use flipper_agent_indicator.Firmware.{FaiFrame, fai_protocol_decode}
use flipper_agent_indicator.Firmware.Receiver.{
  fai_rx_buf_cap, Round, returns, puts, undecoded, decoded, parse_round, consumed_by, Parsed,
  with_frame, try_parse, SerialEvent, data_received, other_event, Received, parsed_as, rx_callback,
}

length-drop : (n : ℕ) (xs : Bytes) → length (drop n xs) ≡ length xs - n
length-drop zero xs = omega arith
length-drop (suc n) [] = omega arith
length-drop (suc n) (x ∷ xs) = omega (arith, length-drop n xs)

-- A round leaves fewer bytes than fill the buffer if it returns, and takes a byte if it goes on.
abbrev IsProgress : Bytes → Round → Type 0
IsProgress rx (returns left) = length left < 136
IsProgress rx (puts frame left) = length left < length rx

decoded-IsProgress : (rx : Bytes) (frame : FaiFrame) → IsProgress rx (decoded rx frame)
unfolding decoded
decoded-IsProgress rx frame = ground (arith, length-drop (consumed_by frame.kind frame.text_len) rx)

undecoded-IsProgress : (rx : Bytes) → IsProgress rx (undecoded rx)
unfolding undecoded
undecoded-IsProgress rx = ground arith

parse_round-IsProgress : (rx : Bytes) → IsProgress rx (parse_round rx)
unfolding parse_round
parse_round-IsProgress rx = elim (Option-cases (fai_protocol_decode rx)) [
  | inl e ↦ rw (e, parse_round) (undecoded-IsProgress rx)
  | inr (frame, e) ↦ rw (e, parse_round) (decoded-IsProgress rx frame)
]

-- What the loop ends with: some frames, and a buffer that is not full.
abbrev pub Ends : Option Parsed → Type 0
Ends o = (frames : List FaiFrame) × (left : Bytes) × (o ≡ some (frames, left)) × (length left < 136)

with_frame-Ends : (frame : FaiFrame) (o : Option Parsed) → Ends o → Ends (with_frame frame o)
unfolding with_frame
with_frame-Ends frame o (frames, left, e, room) = (frame ∷ frames, left, rw e refl, room)

abbrev go_on : ℕ → Round → Option Parsed
go_on fuel (returns left) = some ([], left)
go_on fuel (puts frame left) = with_frame frame (try_parse fuel left)

pub try_parse_round :
    (fuel b : ℕ) (bs : Bytes) → try_parse (suc fuel) (b ∷ bs) ≡ go_on fuel (parse_round (b ∷ bs))
unfolding try_parse
try_parse_round fuel b bs =
    elim (parse_round (b ∷ bs))
      as (λ r.
        elim r as (λ _. Option Parsed) [
          | returns left ↦ some ([], left)
          | puts frame left ↦ with_frame frame (try_parse fuel left)
        ]
        ≡ go_on fuel r) [ returns left ↦ refl | puts frame left ↦ refl ]

go_on-Ends :
    (fuel : ℕ) (rx : Bytes) (r : Round)
    → IsProgress rx r
    → length rx ≤ suc fuel
    → ((left : Bytes) → length left ≤ fuel → Ends (try_parse fuel left))
    → Ends (go_on fuel r)
go_on-Ends fuel rx (returns left) room fits rest = ([], left, refl, room)
go_on-Ends fuel rx (puts frame left) less fits rest =
    with_frame-Ends frame (try_parse fuel left) (rest left (omega arith))

-- Whatever is in the buffer, the loop ends after at most one round for each byte, and leaves a buffer
-- that is not full.
pub try_parse-Ends : (fuel : ℕ) (rx : Bytes) → length rx ≤ fuel → Ends (try_parse fuel rx)
unfolding try_parse
try_parse-Ends fuel [] h = ([], [], refl, omega arith)
try_parse-Ends zero (b ∷ bs) h = absurd (omega arith)
try_parse-Ends (suc fuel) (b ∷ bs) h = subst Ends (sym (try_parse_round fuel b bs)) (
    go_on-Ends fuel (b ∷ bs) (parse_round (b ∷ bs)) (parse_round-IsProgress (b ∷ bs)) h
      (try_parse-Ends fuel))

-- The callback's result: it takes what fits, and the buffer is not full behind it.
abbrev pub Keeps : Bytes → SerialEvent → Option Received → Type 0
Keeps rx other_event o = o ≡ some (record { frames = []; took = 0; rx = rx })
Keeps rx (data_received bytes) o =
    (r : Received) × (o ≡ some r)
    × (length r.rx < 136)
    × (r.took ≡ min (length bytes) (136 - length rx))

parsed_as-Keeps :
    (rx bytes : Bytes) (o : Option Parsed)
    → Ends o
    → Keeps rx (data_received bytes) (parsed_as (min (length bytes) (136 - length rx)) o)
unfolding parsed_as
parsed_as-Keeps rx bytes o (frames, left, e, room) = (
  record { frames = frames; took = min (length bytes) (136 - length rx); rx = left },
  rw e refl,
  room,
  refl,
)

-- Whatever arrives, the callback returns: it takes the bytes that there is room for, its loop ends, and
-- the buffer is not full when it returns, so that there is room at every call.
pub rx_callback-Keeps :
    (rx : Bytes) (event : SerialEvent) → length rx < 136 → Keeps rx event (rx_callback rx event)
unfolding rx_callback
rx_callback-Keeps rx other_event h = refl
rx_callback-Keeps rx (data_received bytes) h = elim (Bool-cases (fai_rx_buf_cap - length rx == 0)) [
  | inl full ↦ absurd (grind (tests, full))
  | inr room ↦ rw room (parsed_as-Keeps rx bytes _ (try_parse-Ends _ _ (omega arith)))
]

-- A piece that there is room for is taken whole.
pub rx_callback_fits :
    (rx piece : Bytes)
    → length rx < 68
    → length piece ≤ 69
    → rx_callback rx (data_received piece)
      ≡ parsed_as (length piece) (try_parse (length (rx ++ piece)) (rx ++ piece))
unfolding rx_callback
rx_callback_fits rx piece short fits =
    let room : (136 - length rx == 0) ≡ false = grind (tests, short) in
    let taken : min (length piece) (136 - length rx) ≡ length piece = omega arith in
    rw (room, taken, take_all (length piece) piece (omega arith)) refl
