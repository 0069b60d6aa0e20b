-- ===== src/Utf8/Cut.antt =====
-- Decoding the first bytes of an encoded text, as a frame carries them.
use flipper_agent_indicator.Prelude.{
  ℕ, zero, suc, ◌+◌, ◌-◌, ◌≤◌, ◌<◌, ◌≡◌, refl, ap, ◌∙◌, true, [], ◌∷◌, ◌++◌, arith, ltb, leb, ◌==◌,
  if◌then◌else◌, le→leb, Bool-cases, inl, inr, &&-eq-true, all, ltb→lt, leb→le, length,
  length-append, take, take-append, take-append_left,
}
use flipper_agent_indicator.Text.{Str}
use flipper_agent_indicator.Utf8.{is_scalar, utf8_char, utf8, start, decode_from, replacement}
use flipper_agent_indicator.Utf8.Sequences.{
  decode_from_end, decode_from_two, decode_from_three, decode_from_four, decode_from_more,
}
use flipper_agent_indicator.Utf8.RoundTrip.{
  utf8_char_one, utf8_char_two, utf8_char_three, utf8_char_four, decode_from-utf8_char, three_range,
  four_range, scalar_bound,
}

-- The number of bytes of a character.
abbrev pub size : ℕ → ℕ
size c = if ltb c 0x80 then 1 else if ltb c 0x800 then 2 else if ltb c 0x10000 then 3 else 4

-- What a reader sees of a text that was cut to `n` bytes: the characters that fit whole, and one
-- replacement if the cut fell inside a character.
pub fit : ℕ → Str → Str
fit n [] = []
fit n (c ∷ cs) =
    let rest = fit (n - size c) cs in
    if leb (size c) n then c ∷ rest else if n == 0 then [] else replacement ∷ []

pub length-utf8_char : (c : ℕ) → length (utf8_char c) ≡ size c
unfolding utf8_char
length-utf8_char c = ground arith

abbrev stump : ℕ → Str
stump n = if n == 0 then [] else replacement ∷ []

nothing : decode_from start [] ≡ []
unfolding decode_from
nothing = refl

-- Less than all of a character's bytes decode to one replacement.
module _ (c : ℕ) where
  cut_one : (n : ℕ) → n < 1 → decode_from start (take n (c ∷ [])) ≡ stump n
  unfolding decode_from
  cut_one zero h = refl
  cut_one (suc n) h = absurd (omega arith)

  cut_two :
      (n : ℕ) (a b : ℕ)
      → n < 2
      → 0xC2 ≤ a
      → a < 0xE0
      → decode_from start (take n (a ∷ b ∷ [])) ≡ stump n
  cut_two zero a b h la ha = nothing
  cut_two (suc zero) a b h la ha = decode_from_two a [] la ha ∙ decode_from_end _ _ _ _
  cut_two (suc (suc n)) a b h la ha = absurd (omega arith)

  cut_three :
      (n : ℕ)
      → n < 3
      → is_scalar c ≡ true
      → 0x800 ≤ c
      → c < 0x10000
      → decode_from start (take n (utf8_char c)) ≡ stump n
  cut_three zero h s l u = nothing
  cut_three (suc zero) h s l u =
      rw (utf8_char_three c l u)
        (decode_from_three _ [] (omega arith) (omega arith) ∙ decode_from_end _ _ _ _)
  cut_three (suc (suc zero)) h s l u =
      let (low, high) = three_range c s l u in
      rw (utf8_char_three c l u) (
        decode_from_three _ _ (omega arith) (omega arith)
        ∙ decode_from_more 0 _ _ _ _ [] low high
        ∙ decode_from_end _ _ _ _)
  cut_three (suc (suc (suc n))) h s l u = absurd (omega arith)

  cut_four :
      (n : ℕ)
      → n < 4
      → c < 0x110000
      → 0x10000 ≤ c
      → decode_from start (take n (utf8_char c)) ≡ stump n
  cut_four zero h s l = nothing
  cut_four (suc zero) h s l =
      rw (utf8_char_four c l)
        (decode_from_four _ [] (omega arith) (omega arith) ∙ decode_from_end _ _ _ _)
  cut_four (suc (suc zero)) h s l =
      let (low, high) = four_range c s l in
      rw (utf8_char_four c l) (
        decode_from_four _ _ (omega arith) (omega arith)
        ∙ decode_from_more 1 _ _ _ _ [] low high
        ∙ decode_from_end _ _ _ _)
  cut_four (suc (suc (suc zero))) h s l =
      let (low, high) = four_range c s l in
      rw (utf8_char_four c l) (
        decode_from_four _ _ (omega arith) (omega arith)
        ∙ decode_from_more 1 _ _ _ _ _ low high
        ∙ decode_from_more 0 _ _ _ _ [] (omega arith) (omega arith)
        ∙ decode_from_end _ _ _ _)
  cut_four (suc (suc (suc (suc n)))) h s l = absurd (omega arith)

  decode_from-take_char :
      (n : ℕ) → is_scalar c ≡ true → n < size c → decode_from start (take n (utf8_char c)) ≡ stump n
  decode_from-take_char n s h = elim (Bool-cases (ltb c 0x80)) [
    | inl e ↦ rw (utf8_char_one c (ltb→lt c 0x80 e)) (cut_one n (ground arith))
    | inr e ↦ elim (Bool-cases (ltb c 0x800)) [
      | inl k ↦
          rw (utf8_char_two c (ground arith) (ltb→lt c 0x800 k))
            (cut_two n _ _ (ground arith) (ground arith) (ground arith))
      | inr k ↦ elim (Bool-cases (ltb c 0x10000)) [
        | inl m ↦ cut_three n (ground arith) s (ground arith) (ltb→lt c 0x10000 m)
        | inr m ↦ cut_four n (ground arith) (scalar_bound c s) (ground arith)
      ]
    ]
  ]

-- A text cut to `n` bytes decodes to what fits.
pub decode_from-take-utf8 :
    (s : Str) (n : ℕ) → all is_scalar s ≡ true → decode_from start (take n (utf8 s)) ≡ fit n s
unfolding utf8 fit
decode_from-take-utf8 [] zero h = unfold decode_from in refl
decode_from-take-utf8 [] (suc n) h = unfold decode_from in refl
decode_from-take-utf8 (c ∷ cs) n h =
    let (hc, hs) = &&-eq-true (is_scalar c) (all is_scalar cs) h in
    elim (Bool-cases (leb (size c) n)) [
      | inl e ↦
          rw (take-append (utf8_char c) (utf8 cs) n (rw (length-utf8_char c) (leb→le _ n e)), e)
            (decode_from-utf8_char c _ hc
              ∙ rw (length-utf8_char c)
                  (ap (λ t. c ∷ t) (decode_from-take-utf8 cs (n - size c) hs)))
      | inr e ↦
          let short : n < size c = ground arith in
          rw (take-append_left (utf8_char c) (utf8 cs) n (rw (length-utf8_char c) (omega arith)), e)
            (decode_from-take_char c n hc short)
    ]

-- A text of at most `n` bytes fits whole.
pub fit_all : (s : Str) (n : ℕ) → length (utf8 s) ≤ n → fit n s ≡ s
unfolding fit utf8
fit_all [] n h = refl
fit_all (c ∷ cs) n h =
    let e : length (utf8_char c ++ utf8 cs) ≡ size c + length (utf8 cs) =
      length-append (utf8_char c) (utf8 cs) ∙ ap (λ k. k + length (utf8 cs)) (length-utf8_char c) in
    rw (le→leb (size c) n (omega arith)) (ap (λ t. c ∷ t) (fit_all cs (n - size c) (omega arith)))
