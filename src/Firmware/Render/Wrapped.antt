-- ===== src/Firmware/Render/Wrapped.antt =====
-- The lines into which a text is wrapped.
use flipper_agent_indicator.Prelude.{
  take-append-drop, ℕ, zero, suc, ◌≡◌, ◌≤◌, ◌<◌, ◌⊎◌, inl, inr, refl, sym, ap, ◌∙◌, leb→le,
  Bool-cases, List, [], ◌∷◌, ◌++◌, append-nil, append_assoc, Option, none, some, All, min, leb,
  ◌==◌, if◌then◌else◌, length, take, drop, take_all, length-take, get_elem?, arith,
}
use flipper_agent_indicator.Text.{before}
use flipper_agent_indicator.Utf8.{Bytes}
use flipper_agent_indicator.Firmware.Render.{
  fai_copy_span, space_at, last_space, split_at, skip_spaces, wrap_lines, fai_wrap,
}

-- A text without its spaces.
unfoldable pub squeezed : Bytes → Bytes
squeezed [] = []
squeezed (c ∷ cs) = let rest = squeezed cs in if c == b' ' then rest else c ∷ rest

abbrev pub concat_lines : List Bytes → Bytes
concat_lines [] = []
concat_lines (l ∷ ls) = l ++ concat_lines ls

squeezed-append : (s t : Bytes) → squeezed (s ++ t) ≡ squeezed s ++ squeezed t
unfolding squeezed
squeezed-append [] t = refl
squeezed-append (c ∷ cs) t = elim (Bool-cases (c == b' ')) [
  | inl e ↦ rw e (squeezed-append cs t)
  | inr e ↦ rw (e, squeezed-append cs t) refl
]

squeezed-skip_spaces : (s : Bytes) → squeezed (skip_spaces s) ≡ squeezed s
unfolding squeezed skip_spaces
squeezed-skip_spaces [] = refl
squeezed-skip_spaces (c ∷ cs) = elim (Bool-cases (c == b' ')) [
  | inl e ↦ rw e (squeezed-skip_spaces cs)
  | inr e ↦ let stays : skip_spaces (c ∷ cs) ≡ c ∷ cs = rw e refl in ap squeezed stays
]

space_at-lt :
    (o : Option ℕ) (i : ℕ) (earlier : Option ℕ) (k : ℕ)
    → ((m : ℕ) → earlier ≡ some m → m < i)
    → space_at o i earlier ≡ some k
    → k < suc i
unfolding space_at
space_at-lt none i earlier k before_it h = omega (arith, before_it k h)
space_at-lt (some c) i earlier k before_it h = elim (Bool-cases (c == b' ')) [
  | inl e ↦ let same : i ≡ k = cc (rw e at h) in omega arith
  | inr e ↦ omega (arith, before_it k (rw e at h))
]

last_space-lt : (i : ℕ) (text : Bytes) {k : ℕ} → last_space i text ≡ some k → k < i
unfolding last_space
last_space-lt zero text h = cc
last_space-lt (suc i) text h =
    space_at-lt (get_elem? text i) i (last_space i text) _ (λ m. last_space-lt i text) h

split_at-bounds :
    (o : Option ℕ) → ((k : ℕ) → o ≡ some k → k < 21) → (0 < split_at o) × (split_at o ≤ 21)
unfolding split_at
split_at-bounds none h = omega arith
split_at-bounds (some zero) h = omega arith
split_at-bounds (some (suc i)) h = omega (arith, h (suc i) refl)

-- What wrapping text into some lines gives: no more lines, none of them too long, and all characters
-- but spaces in their order; what is left out at the end is left out for want of lines.
pub record IsWrapped (n : ℕ) (text : Bytes) (lines : List Bytes) : Type 0 where
  pub few : length lines ≤ n
  pub narrow : All (λ l. length l ≤ 21) lines
  pub left : Bytes
  pub keeps : squeezed text ≡ squeezed (concat_lines lines) ++ squeezed left
  pub full : (left ≡ []) ⊎ (length lines ≡ n)

IsWrapped-one :
    (n : ℕ) (text : Bytes)
    → length text ≤ 21
    → IsWrapped (suc n) text (fai_copy_span 22 text (length text) ∷ [])
unfolding fai_copy_span squeezed
IsWrapped-one n text h =
    let whole : take (min (length text) 21) text ≡ text =
      take_all (min (length text) 21) text (omega arith) in
    record {
      few = omega arith;
      narrow = (rw whole h, tt);
      left = [];
      keeps = rw (whole, append-nil text, append-nil (squeezed text)) refl;
      full = inl refl;
    }

IsWrapped-more :
    (n : ℕ) (text : Bytes) (split : ℕ) (later : List Bytes)
    → split ≤ 21
    → IsWrapped n (skip_spaces (drop split text)) later
    → IsWrapped (suc n) text (fai_copy_span 22 text split ∷ later)
unfolding fai_copy_span
IsWrapped-more n text split later h w =
    let taken : min split 21 ≡ split = omega arith in
    record {
      few = omega (arith, w.few);
      narrow = (omega (arith, length-take (min split 21) text), w.narrow);
      left = w.left;
      keeps =
          ap squeezed (sym (take-append-drop split text))
          ∙ squeezed-append (take split text) (drop split text)
          ∙ ap (λ t. squeezed (take split text) ++ t)
              (sym (squeezed-skip_spaces (drop split text)) ∙ w.keeps)
          ∙ rw (taken, squeezed-append (take split text) (concat_lines later))
              (sym (
                append_assoc (squeezed (take split text)) (squeezed (concat_lines later))
                  (squeezed w.left)));
      full = elim w.full [ inl e ↦ inl e | inr e ↦ inr (ap suc e) ];
    }

wrap_lines-IsWrapped : (n : ℕ) (text : Bytes) → IsWrapped n text (wrap_lines n text)
unfolding wrap_lines squeezed
wrap_lines-IsWrapped zero text = record {
  few = omega arith;
  narrow = tt;
  left = text;
  keeps = refl;
  full = inr refl;
}
wrap_lines-IsWrapped (suc n) [] = record {
  few = omega arith;
  narrow = tt;
  left = [];
  keeps = refl;
  full = inl refl;
}
wrap_lines-IsWrapped (suc n) (c ∷ cs) = elim (Bool-cases (leb (length (c ∷ cs)) 21)) [
  | inl e ↦ rw e (IsWrapped-one n (c ∷ cs) (leb→le _ _ e))
  | inr e ↦
      let text = c ∷ cs in
      let split = split_at (last_space 21 text) in
      rw e (
        IsWrapped-more n text split (wrap_lines n (skip_spaces (drop split text)))
          (split_at-bounds (last_space 21 text) (λ k. last_space-lt 21 text)).1
          (wrap_lines-IsWrapped n (skip_spaces (drop split text))))
]

-- The text of a frame is wrapped into at most two lines of at most 21 characters. Together they have
-- the characters of the text before its first zero byte, but for spaces, in their order; what is left
-- out at the end is left out only if both lines are used.
pub fai_wrap-IsWrapped : (text : Bytes) → IsWrapped 2 (before 0 text) (fai_wrap text)
unfolding fai_wrap
fai_wrap-IsWrapped text = wrap_lines-IsWrapped 2 (before 0 text)
