-- ===== src/Art.antt =====
-- scripts/generate-art.py: the drawing functions. An image is its size, a parameter here, and the calls
-- that are made on it, the newest first; what the imaging library makes of them is not modelled.
pub mod Figures
pub mod Colours
pub mod Safety
mod Tests
use flipper_agent_indicator.Prelude.{
  ℕ, zero, suc, Bool, true, false, ◌&&◌, ◌||◌, List, [], ◌∷◌, if◌then◌else◌,
}
use flipper_agent_indicator.Prelude.Int.{ℤ, pos, negsuc, ◌+ℤ◌, ◌-ℤ◌, pos_part, ltb_ℤ, leb_ℤ, eqb_ℤ}

-- img.putpixel((x, y), color), and the methods of `ImageDraw` that the icon uses.
pub data Call : Type 0 where
  putpixel : ℤ → ℤ → ℕ → Call
  point : ℤ → ℤ → ℕ → Call
  rectangle : ℤ → ℤ → ℤ → ℤ → ℕ → Call
  line : ℤ → ℤ → ℤ → ℤ → ℕ → Call

abbrev pub Calls : Type 0
Calls = List Call

-- len(range(start, stop))
unfoldable pub range_length : ℤ → ℤ → ℕ
range_length start stop = pos_part (stop -ℤ start)

-- for i in range(start, start + n): body
unfoldable pub for_range : ℕ → ℤ → (ℤ → Calls → Calls) → Calls → Calls
for_range zero i body img = img
for_range (suc n) i body img = for_range n (i +ℤ pos 1) body (body i img)

-- for i in (i1, ..., in): body
unfoldable pub for_each : List ℤ → (ℤ → Calls → Calls) → Calls → Calls
for_each [] body img = img
for_each (i ∷ is) body img = for_each is body (body i img)

module _ (width height : ℕ) where
  unfoldable pub inside : ℤ → ℤ → Bool
  inside x y = leb_ℤ (pos 0) x && ltb_ℤ x (pos width) && leb_ℤ (pos 0) y && ltb_ℤ y (pos height)

  unfoldable pub put : ℤ → ℤ → Calls → Calls
  unfolding inside
  put x y img = if inside x y then putpixel x y 0 ∷ img else img

  -- What `rect` does at one place.
  unfoldable pub rect_place : Bool → ℤ → ℤ → ℤ → ℤ → ℤ → ℤ → Calls → Calls
  unfolding put
  rect_place fill x0 y0 x1 y1 y x img =
      if fill || eqb_ℤ x x0 || eqb_ℤ x x1 || eqb_ℤ y y0 || eqb_ℤ y y1 then put x y img else img

  unfoldable pub rect : ℤ → ℤ → ℤ → ℤ → Bool → Calls → Calls
  unfolding rect_place for_range range_length
  rect x0 y0 x1 y1 fill =
      for_range (range_length y0 (y1 +ℤ pos 1)) y0
        λ y. for_range (range_length x0 (x1 +ℤ pos 1)) x0 (rect_place fill x0 y0 x1 y1 y)

  -- The corners are cleared by `putpixel` itself, without a test.
  unfoldable pub rounded_head : ℤ → ℤ → ℤ → ℤ → Calls → Calls
  unfolding rect
  rounded_head x0 y0 x1 y1 img =
      putpixel x1 y1 1
      ∷ putpixel x0 y1 1
      ∷ putpixel x1 y0 1
      ∷ putpixel x0 y0 1
      ∷ rect x0 y0 x1 y1 true img

  unfoldable pub antenna : ℤ → ℤ → Calls → Calls
  unfolding put rect for_range
  antenna head_top_y x img =
      rect (x -ℤ pos 1) (head_top_y -ℤ pos 6) (x +ℤ pos 1) (head_top_y -ℤ pos 5) true
        (for_range 4 (pos 0) (λ dy. put x (head_top_y -ℤ dy)) img)

  unfoldable pub antennae : ℤ → Calls → Calls
  unfolding antenna for_each
  antennae head_top_y = for_each (pos 11 ∷ pos 20 ∷ []) (antenna head_top_y)

  unfoldable pub eyes_open : ℤ → Calls → Calls
  unfolding rect for_each
  eyes_open cy =
      for_each (pos 11 ∷ pos 20 ∷ [])
        λ cx. rect (cx -ℤ pos 1) (cy -ℤ pos 1) (cx +ℤ pos 1) (cy +ℤ pos 1) true

  unfoldable pub eye_happy : ℤ → ℤ → Calls → Calls
  unfolding put
  eye_happy cy cx img = put (cx +ℤ pos 2) (cy +ℤ pos 1) (
      put (cx +ℤ pos 1) cy
        (put cx (cy -ℤ pos 1) (put (cx -ℤ pos 1) cy (put (cx -ℤ pos 2) (cy +ℤ pos 1) img))))

  unfoldable pub eyes_happy : ℤ → Calls → Calls
  unfolding eye_happy for_each
  eyes_happy cy = for_each (pos 11 ∷ pos 20 ∷ []) (eye_happy cy)

  unfoldable pub mouth_line : ℤ → Calls → Calls
  unfolding put for_range
  mouth_line y = for_range 6 (pos 13) (λ x. put x y)

  unfoldable pub mouth_smile : ℤ → Calls → Calls
  unfolding put for_range
  mouth_smile y img = put (pos 19) y (
      put (pos 18) (y +ℤ pos 1) (
        for_range 4 (pos 14) (λ x. put x (y +ℤ pos 2))
          (put (pos 13) (y +ℤ pos 1) (put (pos 12) y img))))

  -- for dx, dy in offsets: put(img, (cx + dx, cy + dy))
  unfoldable pub put_all : ℤ → ℤ → List (ℤ × ℤ) → Calls → Calls
  unfolding put
  put_all cx cy [] img = img
  put_all cx cy ((dx, dy) ∷ offsets) img = put_all cx cy offsets (put (cx +ℤ dx) (cy +ℤ dy) img)

  unfoldable pub mouth_o : ℤ → Calls → Calls
  unfolding put_all
  mouth_o y = put_all (pos 15) y (
      (negsuc 0, negsuc 0)
      ∷ (pos 0, negsuc 0)
      ∷ (pos 1, negsuc 0)
      ∷ (negsuc 1, pos 0)
      ∷ (pos 2, pos 0)
      ∷ (negsuc 0, pos 1)
      ∷ (pos 0, pos 1)
      ∷ (pos 1, pos 1)
      ∷ [])
