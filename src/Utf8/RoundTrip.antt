-- ===== src/Utf8/RoundTrip.antt =====
-- Decoding what was encoded.
use flipper_agent_indicator.Prelude.{
  sym, ℕ, ◌+◌, ◌/◌, ◌%◌, ◌≤◌, ◌<◌, ◌≡◌, refl, ap, ◌∙◌, true, [], ◌∷◌, ◌++◌, append-nil,
  append_assoc, arith, ltb, lt→ltb, le→ltb_false, Bool-cases, inl, inr, &&-eq-true, all, ltb→lt,
}
use flipper_agent_indicator.Text.{Str}
use flipper_agent_indicator.Utf8.{Bytes, is_scalar, utf8_char, utf8, start, decode_from, decode}
use flipper_agent_indicator.Utf8.Sequences.{
  decode_from_one, decode_from_two, decode_from_three, decode_from_four, decode_from_more,
  decode_from_last, low_three, high_three, low_four, high_four,
}

-- The bytes of a character, by its width.
module _ (c : ℕ) where
  pub utf8_char_one : c < 0x80 → utf8_char c ≡ c ∷ []
  unfolding utf8_char
  utf8_char_one h = rw (lt→ltb c 0x80 h)

  pub utf8_char_two : 0x80 ≤ c → c < 0x800 → utf8_char c ≡ (0xC0 + c / 64) ∷ (0x80 + c % 64) ∷ []
  unfolding utf8_char
  utf8_char_two h k = rw (le→ltb_false c 0x80 h, lt→ltb c 0x800 k)

  pub utf8_char_three :
      0x800 ≤ c
      → c < 0x10000
      → utf8_char c ≡ (0xE0 + c / 4096) ∷ (0x80 + c / 64 % 64) ∷ (0x80 + c % 64) ∷ []
  unfolding utf8_char
  utf8_char_three h k =
      rw (le→ltb_false c 0x80 (omega arith), le→ltb_false c 0x800 h, lt→ltb c 0x10000 k)

  pub utf8_char_four :
      0x10000 ≤ c
      → utf8_char c
        ≡ (0xF0 + c / 262144) ∷ (0x80 + c / 4096 % 64) ∷ (0x80 + c / 64 % 64) ∷ (0x80 + c % 64) ∷ []
  unfolding utf8_char
  utf8_char_four h = rw (
    le→ltb_false c 0x80 (omega arith),
    le→ltb_false c 0x800 (omega arith),
    le→ltb_false c 0x10000 h,
  )

abbrev pub ThreeOk : ℕ → Type 0
ThreeOk c =
    (low_three (0xE0 + c / 4096) ≤ 0x80 + c / 64 % 64)
    × (0x80 + c / 64 % 64 ≤ high_three (0xE0 + c / 4096))

pub three_range : (c : ℕ) → is_scalar c ≡ true → 0x800 ≤ c → c < 0x10000 → ThreeOk c
three_range c s h k = ground arith

abbrev pub FourOk : ℕ → Type 0
FourOk c =
    (low_four (0xF0 + c / 262144) ≤ 0x80 + c / 4096 % 64)
    × (0x80 + c / 4096 % 64 ≤ high_four (0xF0 + c / 262144))

pub four_range : (c : ℕ) → c < 0x110000 → 0x10000 ≤ c → FourOk c
four_range c s h = ground arith

pub scalar_bound : (c : ℕ) → is_scalar c ≡ true → c < 0x110000
scalar_bound c s = ground arith

module _ (c : ℕ) (bs : Bytes) where
  round_one : c < 0x80 → decode_from start (utf8_char c ++ bs) ≡ c ∷ decode_from start bs
  round_one h = rw (utf8_char_one c h) (decode_from_one c bs h)

  round_two :
      0x80 ≤ c → c < 0x800 → decode_from start (utf8_char c ++ bs) ≡ c ∷ decode_from start bs
  round_two h k = rw (utf8_char_two c h k) (
      decode_from_two _ _ (omega arith) (omega arith)
      ∙ decode_from_last _ _ _ _ bs (omega arith) (omega arith)
      ∙ ap (λ v. v ∷ decode_from start bs) (omega arith))

  round_three :
      is_scalar c ≡ true
      → 0x800 ≤ c
      → c < 0x10000
      → decode_from start (utf8_char c ++ bs) ≡ c ∷ decode_from start bs
  round_three s h k =
      let (low, high) = three_range c s h k in
      rw (utf8_char_three c h k) (
        decode_from_three _ _ (omega arith) (omega arith)
        ∙ decode_from_more 0 _ _ _ _ _ low high
        ∙ decode_from_last _ _ _ _ bs (omega arith) (omega arith)
        ∙ ap (λ v. v ∷ decode_from start bs) (omega arith))

  round_four :
      c < 0x110000 → 0x10000 ≤ c → decode_from start (utf8_char c ++ bs) ≡ c ∷ decode_from start bs
  round_four s h =
      let (low, high) = four_range c s h in
      rw (utf8_char_four c h) (
        decode_from_four _ _ (omega arith) (omega arith)
        ∙ decode_from_more 1 _ _ _ _ _ low high
        ∙ decode_from_more 0 _ _ _ _ _ (omega arith) (omega arith)
        ∙ decode_from_last _ _ _ _ bs (omega arith) (omega arith)
        ∙ ap (λ v. v ∷ decode_from start bs) (omega arith))

  -- The decoder reads back one encoded character, and goes on with the rest.
  pub decode_from-utf8_char :
      is_scalar c ≡ true → decode_from start (utf8_char c ++ bs) ≡ c ∷ decode_from start bs
  decode_from-utf8_char s = elim (Bool-cases (ltb c 0x80)) [
    | inl h ↦ round_one (ltb→lt c 0x80 h)
    | inr h ↦ elim (Bool-cases (ltb c 0x800)) [
      | inl k ↦ round_two (ground arith) (ltb→lt c 0x800 k)
      | inr k ↦ elim (Bool-cases (ltb c 0x10000)) [
        | inl m ↦ round_three s (ground arith) (ltb→lt c 0x10000 m)
        | inr m ↦ round_four (scalar_bound c s) (ground arith)
      ]
    ]
  ]

pub decode_from-utf8 :
    (s : Str) (bs : Bytes)
    → all is_scalar s ≡ true
    → decode_from start (utf8 s ++ bs) ≡ s ++ decode_from start bs
unfolding utf8
decode_from-utf8 [] bs h = refl
decode_from-utf8 (c ∷ cs) bs h =
    let (hc, hs) = &&-eq-true (is_scalar c) (all is_scalar cs) h in
    rw append_assoc
      (decode_from-utf8_char c (utf8 cs ++ bs) hc ∙ ap (λ t. c ∷ t) (decode_from-utf8 cs bs hs))

pub decode-utf8 : (s : Str) → all is_scalar s ≡ true → decode (utf8 s) ≡ s
unfolding decode decode_from
decode-utf8 s h = rw (← append-nil (utf8 s)) (decode_from-utf8 s [] h ∙ append-nil s)

pub utf8-append : (s t : Str) → utf8 (s ++ t) ≡ utf8 s ++ utf8 t
unfolding utf8
utf8-append [] t = refl
utf8-append (c ∷ cs) t =
    ap (λ u. utf8_char c ++ u) (utf8-append cs t)
    ∙ sym (append_assoc (utf8_char c) (utf8 cs) (utf8 t))
