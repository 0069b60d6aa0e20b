-- ===== src/Art/Safety.antt =====
-- `putpixel` raises an exception for a place that is not in the image: which drawings are safe.
use flipper_agent_indicator.Prelude.{
  ℕ, zero, suc, ◌≡◌, refl, Bool, true, false, ◌&&◌, [], ◌∷◌, if◌then◌else◌,
}
use flipper_agent_indicator.Prelude.Int.{ℤ, pos, ◌+ℤ◌}
use flipper_agent_indicator.Art.{
  Call, Calls, putpixel, point, rectangle, line, range_length, for_range, inside, put, rect_place,
  rect, rounded_head,
}

-- Whether a call of `putpixel` is in the image.
abbrev pub in_image : ℕ → ℕ → Call → Bool
in_image width height (putpixel x y c) = inside width height x y
in_image width height (point x y c) = true
in_image width height (rectangle x0 y0 x1 y1 c) = true
in_image width height (line x0 y0 x1 y1 c) = true

abbrev pub all_in_image : ℕ → ℕ → Calls → Bool
all_in_image width height [] = true
all_in_image width height (c ∷ img) = in_image width height c && all_in_image width height img

for_range_keeps :
    (ok : Calls → Bool) (draw : ℤ → Calls → Calls)
    → ((i : ℤ) (img : Calls) → ok img ≡ true → ok (draw i img) ≡ true)
    → (n : ℕ) (i : ℤ) (img : Calls) → ok img ≡ true
    → ok (for_range n i draw img) ≡ true
unfolding for_range
for_range_keeps ok draw h zero i img s = s
for_range_keeps ok draw h (suc n) i img s =
    for_range_keeps ok draw h n (i +ℤ pos 1) (draw i img) (h i img s)

if_keeps :
    (ok : Calls → Bool) (b : Bool) (drawn img : Calls)
    → ok img ≡ true
    → (b ≡ true → ok drawn ≡ true)
    → ok (if b then drawn else img) ≡ true
if_keeps ok true drawn img s t = t refl
if_keeps ok false drawn img s t = s

and_four : (a b c d : Bool) → (a && (b && (c && (d && true)))) ≡ (a && b && c && d)
and_four true true true true = refl
and_four true true true false = refl
and_four true true false d = refl
and_four true false c d = refl
and_four false b c d = refl

module _ (width height : ℕ) where
  put_keeps :
      (x y : ℤ) (img : Calls)
      → all_in_image width height img ≡ true
      → all_in_image width height (put width height x y img) ≡ true
  unfolding put
  put_keeps x y img s =
      if_keeps (all_in_image width height) (inside width height x y) (putpixel x y 0 ∷ img) img s
        λ t. rw t s

  rect_keeps :
      (x0 y0 x1 y1 : ℤ) (fill : Bool) (img : Calls)
      → all_in_image width height img ≡ true
      → all_in_image width height (rect width height x0 y0 x1 y1 fill img) ≡ true
  unfolding rect rect_place
  rect_keeps x0 y0 x1 y1 fill =
      for_range_keeps (all_in_image width height) _
        (λ y.
          for_range_keeps (all_in_image width height) _
            (λ x img s.
              if_keeps (all_in_image width height) _ (put width height x y img) img s
                λ t. put_keeps x y img s)
            (range_length x0 (x1 +ℤ pos 1)) x0)
        (range_length y0 (y1 +ℤ pos 1)) y0

  -- On an image without a call outside of it, `rounded_head` makes no such call exactly if the four
  -- corners of the head are in the image; the rest of the head may reach beyond it.
  pub rounded_head-in_image :
      (x0 y0 x1 y1 : ℤ) (img : Calls)
      → all_in_image width height img ≡ true
      → all_in_image width height (rounded_head width height x0 y0 x1 y1 img) ≡ (
          inside width height x1 y1
          && inside width height x0 y1
          && inside width height x1 y0
          && inside width height x0 y0)
  unfolding rounded_head
  rounded_head-in_image x0 y0 x1 y1 img s = rw (rect_keeps x0 y0 x1 y1 true img s) (
      and_four (inside width height x1 y1) (inside width height x0 y1) (inside width height x1 y0)
        (inside width height x0 y0))
