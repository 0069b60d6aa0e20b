-- ===== src/Utf8/Scalars.antt =====
-- Whatever the bytes, the decoder puts out scalar values only, which can be encoded again.
use flipper_agent_indicator.Prelude.{
  ℕ, zero, suc, ◌+◌, ◌-◌, ◌*◌, ◌≤◌, ◌<◌, ◌≡◌, refl, true, [], ◌∷◌, arith, ltb, leb, ◌==◌, All,
  All-append, if◌then◌else◌, all, Bool-cases, inl, inr, &&-eq-true, ◌&&◌, leb→le,
}
use flipper_agent_indicator.Text.{Str}
use flipper_agent_indicator.Utf8.{
  Bytes, is_scalar, Decoder, start, more, begin, continue, feed, decode_from, decode,
}

abbrev pub IsScalar : ℕ → Type 0
IsScalar c = is_scalar c ≡ true

-- However the wanted bytes come out, the character is a scalar value.
abbrev Good : ℕ → ℕ → Type 0
Good zero acc = IsScalar acc
Good (suc left) acc = (b : ℕ) → 0x80 ≤ b → b ≤ 0xBF → Good left (acc * 64 + (b - 0x80))

abbrev IsGood : Decoder → Type 0
IsGood start = Unit {0}
IsGood (more left acc lo hi) = (b : ℕ) → lo ≤ b → b ≤ hi → Good left (acc * 64 + (b - 0x80))

abbrev Puts : Str × Decoder → Type 0
Puts r = All IsScalar r.0 × IsGood r.1

lead_two : (b : ℕ) → 0xC2 ≤ b → b < 0xE0 → IsGood (more 0 (b - 0xC0) 0x80 0xBF)
lead_two b h k c lo hi = ground arith

lead_three :
    (b : ℕ)
    → 0xE0 ≤ b
    → b < 0xF0
    → IsGood
        (more 1 (b - 0xE0) (if b == 0xE0 then 0xA0 else 0x80) (if b == 0xED then 0x9F else 0xBF))
lead_three b h k c lo hi d e f = ground arith

lead_four :
    (b : ℕ)
    → 0xF0 ≤ b
    → b < 0xF5
    → IsGood
        (more 2 (b - 0xF0) (if b == 0xF0 then 0x90 else 0x80) (if b == 0xF4 then 0x8F else 0xBF))
lead_four b h k c lo hi d e f g i j = ground arith

begin-Puts : (b : ℕ) → Puts (begin b)
unfolding begin
begin-Puts b = elim (Bool-cases (ltb b 0x80)) [
  | inl h ↦ rw h ((ground arith, tt), tt)
  | inr h ↦ elim (Bool-cases (ltb b 0xC2)) [
    | inl k ↦ rw (h, k) ((refl, tt), tt)
    | inr k ↦ elim (Bool-cases (ltb b 0xE0)) [
      | inl m ↦ rw (h, k, m) (tt, lead_two b (ground arith) (ground arith))
      | inr m ↦ elim (Bool-cases (ltb b 0xF0)) [
        | inl n ↦ rw (h, k, m, n) (tt, lead_three b (ground arith) (ground arith))
        | inr n ↦ elim (Bool-cases (ltb b 0xF5)) [
          | inl o ↦ rw (h, k, m, n, o) (tt, lead_four b (ground arith) (ground arith))
          | inr o ↦ rw (h, k, m, n, o) ((refl, tt), tt)
        ]
      ]
    ]
  ]
]

continue-Puts : (left acc : ℕ) → Good left acc → Puts (continue left acc)
unfolding continue
continue-Puts zero acc h = ((h, tt), tt)
continue-Puts (suc left) acc h = (tt, h)

feed-Puts : (st : Decoder) (b : ℕ) → IsGood st → Puts (feed st b)
unfolding feed
feed-Puts start b h = begin-Puts b
feed-Puts (more left acc lo hi) b h = elim (Bool-cases (leb lo b && leb b hi)) [
  | inl e ↦
      let (low, high) = &&-eq-true (leb lo b) (leb b hi) e in
      rw e (continue-Puts left _ (h b (leb→le lo b low) (leb→le b hi high)))
  | inr e ↦ let (out, good) = begin-Puts b in rw e ((refl, out), good)
]

decode_from-All : (bs : Bytes) (st : Decoder) → IsGood st → All IsScalar (decode_from st bs)
unfolding decode_from
decode_from-All [] start h = tt
decode_from-All [] (more left acc lo hi) h = (refl, tt)
decode_from-All (b ∷ bs) st h =
    let (out, good) = feed-Puts st b h in
    All-append IsScalar (feed st b).0 (decode_from (feed st b).1 bs) out
      (decode_from-All bs (feed st b).1 good)

pub decode-All : (bs : Bytes) → All IsScalar (decode bs)
unfolding decode decode_from
decode-All bs = decode_from-All bs start tt

pub all-is_scalar : (s : Str) → All IsScalar s → all is_scalar s ≡ true
all-is_scalar [] h = refl
all-is_scalar (c ∷ cs) h = rw (h.0, all-is_scalar cs h.1)

pub All-is_scalar : (s : Str) → all is_scalar s ≡ true → All IsScalar s
All-is_scalar [] h = tt
All-is_scalar (c ∷ cs) h =
    let (hc, hs) = &&-eq-true (is_scalar c) (all is_scalar cs) h in (hc, All-is_scalar cs hs)
