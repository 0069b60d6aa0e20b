-- ===== src/Utf8/Newline.antt =====
-- An ASCII byte stands in an encoded text only for its own character: a line of bytes is a line of
-- text.
use flipper_agent_indicator.Prelude.{
  ℕ, ◌<◌, ◌≡◌, refl, ap, ◌∙◌, ◌||◌, [], ◌∷◌, ◌++◌, arith, ◌==◌, if◌then◌else◌, Bool-cases, inl, inr,
}
use flipper_agent_indicator.Text.{Str, before, contains}
use flipper_agent_indicator.Utf8.{Bytes, utf8_char, utf8}

module _ (sep : ℕ) (ascii : sep < 0x80) where
  before-utf8_char :
      (c : ℕ) (bs : Bytes)
      → before sep (utf8_char c ++ bs) ≡ (if c == sep then [] else utf8_char c ++ before sep bs)
  unfolding utf8_char before
  before-utf8_char c bs = ground arith

  contains-utf8_char :
      (c : ℕ) (bs : Bytes) → contains sep (utf8_char c ++ bs) ≡ (c == sep || contains sep bs)
  unfolding utf8_char contains
  contains-utf8_char c bs = ground arith

  pub before-utf8 : (s : Str) → before sep (utf8 s) ≡ utf8 (before sep s)
  unfolding utf8 before
  before-utf8 [] = refl
  before-utf8 (c ∷ cs) = elim (Bool-cases (c == sep)) [
    | inl e ↦ before-utf8_char c (utf8 cs) ∙ rw e
    | inr e ↦ before-utf8_char c (utf8 cs) ∙ rw e (ap (λ t. utf8_char c ++ t) (before-utf8 cs))
  ]

  pub contains-utf8 : (s : Str) → contains sep (utf8 s) ≡ contains sep s
  unfolding utf8 contains
  contains-utf8 [] = refl
  contains-utf8 (c ∷ cs) =
      contains-utf8_char c (utf8 cs) ∙ ap (λ b. c == sep || b) (contains-utf8 cs)
