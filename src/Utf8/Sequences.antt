-- ===== src/Utf8/Sequences.antt =====
-- What the decoder makes of one character's bytes, whole and cut short.
use flipper_agent_indicator.Prelude.{
  ℕ, suc, ◌+◌, ◌-◌, ◌*◌, ◌≤◌, ◌<◌, ◌≡◌, refl, [], ◌∷◌, arith, ◌==◌, if◌then◌else◌, le→leb, lt→ltb,
}
use flipper_agent_indicator.Utf8.{
  Bytes, replacement, start, more, begin, continue, feed, decode_from,
}

-- What a lead byte of two, three or four bytes leaves to be read.
begin_two : (b : ℕ) → 0xC2 ≤ b → b < 0xE0 → begin b ≡ ([], more 0 (b - 0xC0) 0x80 0xBF)
unfolding begin
begin_two b h k = ground arith

-- The range of the second byte after a lead of three or of four: it shuts out overlong forms,
-- surrogates and values above 0x10FFFF.
abbrev pub low_three : ℕ → ℕ
low_three b = if b == 0xE0 then 0xA0 else 0x80

abbrev pub high_three : ℕ → ℕ
high_three b = if b == 0xED then 0x9F else 0xBF

abbrev pub low_four : ℕ → ℕ
low_four b = if b == 0xF0 then 0x90 else 0x80

abbrev pub high_four : ℕ → ℕ
high_four b = if b == 0xF4 then 0x8F else 0xBF

begin_three :
    (b : ℕ) → 0xE0 ≤ b → b < 0xF0 → begin b ≡ ([], more 1 (b - 0xE0) (low_three b) (high_three b))
unfolding begin
begin_three b h k = ground arith

begin_four :
    (b : ℕ) → 0xF0 ≤ b → b < 0xF5 → begin b ≡ ([], more 2 (b - 0xF0) (low_four b) (high_four b))
unfolding begin
begin_four b h k = ground arith

feed_more :
    (left acc lo hi b : ℕ)
    → lo ≤ b
    → b ≤ hi
    → feed (more left acc lo hi) b ≡ continue left (acc * 64 + (b - 0x80))
unfolding feed
feed_more left acc lo hi b h k = rw (le→leb lo b h, le→leb b hi k)

-- One byte that fits, before the rest of the input.
pub decode_from_more :
    (left acc lo hi b : ℕ) (bs : Bytes)
    → lo ≤ b
    → b ≤ hi
    → decode_from (more (suc left) acc lo hi) (b ∷ bs)
      ≡ decode_from (more left (acc * 64 + (b - 0x80)) 0x80 0xBF) bs
unfolding decode_from continue
decode_from_more left acc lo hi b bs h k = rw (feed_more (suc left) acc lo hi b h k)

pub decode_from_last :
    (acc lo hi b : ℕ) (bs : Bytes)
    → lo ≤ b
    → b ≤ hi
    → decode_from (more 0 acc lo hi) (b ∷ bs) ≡ (acc * 64 + (b - 0x80)) ∷ decode_from start bs
unfolding decode_from continue
decode_from_last acc lo hi b bs h k = rw (feed_more 0 acc lo hi b h k)

pub decode_from_end : (left acc lo hi : ℕ) → decode_from (more left acc lo hi) [] ≡ replacement ∷ []
unfolding decode_from
decode_from_end left acc lo hi = refl

module _ (b : ℕ) (bs : Bytes) where
  pub decode_from_one : b < 0x80 → decode_from start (b ∷ bs) ≡ b ∷ decode_from start bs
  unfolding decode_from begin feed
  decode_from_one h = rw (lt→ltb b 0x80 h)

  pub decode_from_two :
      0xC2 ≤ b
      → b < 0xE0
      → decode_from start (b ∷ bs) ≡ decode_from (more 0 (b - 0xC0) 0x80 0xBF) bs
  unfolding decode_from feed
  decode_from_two h k = rw (begin_two b h k)

  pub decode_from_three :
      0xE0 ≤ b
      → b < 0xF0
      → decode_from start (b ∷ bs) ≡ decode_from (more 1 (b - 0xE0) (low_three b) (high_three b)) bs
  unfolding decode_from feed
  decode_from_three h k = rw (begin_three b h k)

  pub decode_from_four :
      0xF0 ≤ b
      → b < 0xF5
      → decode_from start (b ∷ bs) ≡ decode_from (more 2 (b - 0xF0) (low_four b) (high_four b)) bs
  unfolding decode_from feed
  decode_from_four h k = rw (begin_four b h k)
