-- ===== src/Art/Colours.antt =====
-- Which pixels the drawing functions set, and to what.
use flipper_agent_indicator.Prelude.{
  fun_ext, ℕ, zero, suc, ◌≡◌, refl, ap, ◌∙◌, inl, inr, Bool, true, false, ◌&&◌, ◌||◌, Bool-cases,
  [], ◌∷◌, Option, none, some, if◌then◌else◌, arith,
}
use flipper_agent_indicator.Prelude.Int.{
  ℤ, pos, pos_part, ◌+ℤ◌, ◌-ℤ◌, +ℤ_parts, -ℤ_parts, eqb_ℤ-eq, ltb_ℤ, leb_ℤ, eqb_ℤ,
}
use flipper_agent_indicator.Art.{
  Calls, putpixel, point, rectangle, line, range_length, for_range, inside, put, rect_place, rect,
}

-- The colour that the last `putpixel` at a place has set there, if there was one.
abbrev pub colour_at : ℤ → ℤ → Calls → Option ℕ
colour_at px py [] = none
colour_at px py (putpixel x y c ∷ img) =
    let before = colour_at px py img in if eqb_ℤ x px && eqb_ℤ y py then some c else before
colour_at px py (point x y c ∷ img) = colour_at px py img
colour_at px py (rectangle x0 y0 x1 y1 c ∷ img) = colour_at px py img
colour_at px py (line x0 y0 x1 y1 c ∷ img) = colour_at px py img

-- Whether one of the rounds from `i` on hits.
abbrev any_hit : ℕ → ℤ → (ℤ → Bool) → Bool
any_hit zero i hit = false
any_hit (suc n) i hit = hit i || any_hit n (i +ℤ pos 1) hit

-- A drawing sets a place to 0 if it hits it, and leaves it otherwise.
abbrev Paints : ℤ → ℤ → Bool → (Calls → Calls) → Type 0
Paints px py hit draw =
    (img : Calls) → colour_at px py (draw img) ≡ (if hit then some 0 else colour_at px py img)

Paints-cong :
    (px py : ℤ) (draw : Calls → Calls) {a b : Bool}
    → a ≡ b
    → Paints px py a draw
    → Paints px py b draw
Paints-cong px py draw e h img = h img ∙ ap (λ b. if b then some 0 else colour_at px py img) e

or_else :
    (a b : Bool) (o : Option ℕ)
    → (if b then some 0 else (if a then some 0 else o)) ≡ (if a || b then some 0 else o)
or_else true true o = refl
or_else true false o = refl
or_else false b o = refl

for_range-Paints :
    (px py : ℤ) (hit : ℤ → Bool) (draw : ℤ → Calls → Calls)
    → ((i : ℤ) → Paints px py (hit i) (draw i))
    → (n : ℕ) (i : ℤ) → Paints px py (any_hit n i hit) (for_range n i draw)
unfolding for_range
for_range-Paints px py hit draw h zero i img = refl
for_range-Paints px py hit draw h (suc n) i img =
    for_range-Paints px py hit draw h n (i +ℤ pos 1) (draw i img)
    ∙ rw (h i img) (or_else (hit i) (any_hit n (i +ℤ pos 1) hit) (colour_at px py img))

-- i <= p < i + n
abbrev in_range : ℕ → ℤ → ℤ → Bool
in_range n i p = leb_ℤ i p && ltb_ℤ p (i +ℤ pos n)

any_hit-in_range :
    (p : ℤ) (t : ℤ → Bool) (n : ℕ) (i : ℤ)
    → any_hit n i (λ x. eqb_ℤ x p && t x) ≡ (in_range n i p && t p)
any_hit-in_range p t zero i = ground (arith, +ℤ_parts i (pos 0))
any_hit-in_range p t (suc n) i = elim (Bool-cases (eqb_ℤ i p)) [
  | inl e ↦
      rw (eqb_ℤ-eq i p e)
        (ground (arith, +ℤ_parts p (pos (suc n)), any_hit-in_range p t n (p +ℤ pos 1)))
  | inr e ↦ ground (
    arith,
    +ℤ_parts i (pos 1),
    +ℤ_parts i (pos (suc n)),
    +ℤ_parts (i +ℤ pos 1) (pos n),
    any_hit-in_range p t n (i +ℤ pos 1),
  )
]

any_hit_cong :
    (f g : ℤ → Bool) → ((i : ℤ) → f i ≡ g i) → (n : ℕ) (i : ℤ) → any_hit n i f ≡ any_hit n i g
any_hit_cong f g h n i = ap (any_hit n i) (fun_ext h)

-- i <= p < j
abbrev pub between : ℤ → ℤ → ℤ → Bool
between i j p = leb_ℤ i p && ltb_ℤ p j

in_range-between : (i j p : ℤ) → in_range (range_length i j) i p ≡ between i j p
unfolding range_length
in_range-between i j p = ground (arith, -ℤ_parts j i, +ℤ_parts i (pos (pos_part (j -ℤ i))))

if_guarded :
    (b : Bool) (px py x y : ℤ) (img : Calls)
    → colour_at px py (if b then putpixel x y 0 ∷ img else img)
      ≡ (if b && (eqb_ℤ x px && eqb_ℤ y py) then some 0 else colour_at px py img)
if_guarded true px py x y img = refl
if_guarded false px py x y img = refl

and_last : (a b c : Bool) → (a && (b && c)) ≡ (b && (c && a))
and_last true true true = refl
and_last true true false = refl
and_last true false c = refl
and_last false true true = refl
and_last false true false = refl
and_last false false c = refl

and_swap : (a b c : Bool) → (a && (b && c)) ≡ (b && (a && c))
and_swap true b c = refl
and_swap false true c = refl
and_swap false false c = refl

if_and :
    (a b : Bool) (img shown : Calls)
    → (if a then (if b then img else shown) else shown) ≡ (if a && b then img else shown)
if_and true b img shown = refl
if_and false b img shown = refl

-- A test of the drawn place is one of the place looked at, if they are the same.
at_place :
    (test : ℤ → ℤ → Bool) (px py x y : ℤ)
    → (test x y && (eqb_ℤ x px && eqb_ℤ y py)) ≡ (eqb_ℤ x px && (eqb_ℤ y py && test px py))
at_place test px py x y =
    and_last (test x y) (eqb_ℤ x px) (eqb_ℤ y py) ∙ elim (Bool-cases (eqb_ℤ x px)) [
      | inl e ↦ elim (Bool-cases (eqb_ℤ y py)) [
        | inl f ↦ rw (eqb_ℤ-eq x px e, eqb_ℤ-eq y py f) refl
        | inr f ↦ rw f refl
      ]
      | inr e ↦ rw e refl
    ]

-- The places that `rect` treats alike: all, or those on its border.
abbrev pub on_rect : Bool → ℤ → ℤ → ℤ → ℤ → ℤ → ℤ → Bool
on_rect fill x0 y0 x1 y1 x y = fill || eqb_ℤ x x0 || eqb_ℤ x x1 || eqb_ℤ y y0 || eqb_ℤ y y1

module _ (width height : ℕ) (px py : ℤ) where
  put-Paints :
      (x y : ℤ)
      → Paints px py
          (eqb_ℤ x px && (eqb_ℤ y py && inside width height px py))
          (put width height x y)
  unfolding put
  put-Paints x y img =
      if_guarded (inside width height x y) px py x y img
      ∙ ap (λ b. if b then some 0 else colour_at px py img)
          (at_place (inside width height) px py x y)

  rect_place-Paints :
      (fill : Bool) (x0 y0 x1 y1 x y : ℤ)
      → Paints px py
          (eqb_ℤ x px
            && (eqb_ℤ y py && (on_rect fill x0 y0 x1 y1 px py && inside width height px py)))
          (rect_place width height fill x0 y0 x1 y1 y x)
  unfolding rect_place put
  rect_place-Paints fill x0 y0 x1 y1 x y img =
      ap (colour_at px py)
        (if_and (on_rect fill x0 y0 x1 y1 x y) (inside width height x y) (putpixel x y 0 ∷ img) img)
      ∙ if_guarded (on_rect fill x0 y0 x1 y1 x y && inside width height x y) px py x y img
      ∙ ap (λ b. if b then some 0 else colour_at px py img)
          (at_place (λ i j. on_rect fill x0 y0 x1 y1 i j && inside width height i j) px py x y)

  -- One row of `rect`.
  row-Paints :
      (fill : Bool) (x0 y0 x1 y1 y : ℤ)
      → Paints px py
          (eqb_ℤ y py
            && (between x0 (x1 +ℤ pos 1) px
                && (on_rect fill x0 y0 x1 y1 px py && inside width height px py)))
          (for_range
            (range_length x0 (x1 +ℤ pos 1))
            x0
            (rect_place width height fill x0 y0 x1 y1 y))
  row-Paints fill x0 y0 x1 y1 y =
      Paints-cong px py
        (for_range (range_length x0 (x1 +ℤ pos 1)) x0 (rect_place width height fill x0 y0 x1 y1 y))
        (any_hit-in_range px (λ x. eqb_ℤ y py && K) (range_length x0 (x1 +ℤ pos 1)) x0
          ∙ ap (λ b. b && (eqb_ℤ y py && K)) (in_range-between x0 (x1 +ℤ pos 1) px)
          ∙ and_swap (between x0 (x1 +ℤ pos 1) px) (eqb_ℤ y py) K)
        (for_range-Paints px py (λ x. eqb_ℤ x px && (eqb_ℤ y py && K))
          (rect_place width height fill x0 y0 x1 y1 y) (λ x. rect_place-Paints fill x0 y0 x1 y1 x y)
          (range_length x0 (x1 +ℤ pos 1)) x0)
    where
      K : Bool
      K = on_rect fill x0 y0 x1 y1 px py && inside width height px py

  -- After `rect`, a place has the value 0 if its row and its column are in the given ranges, both ends
  -- included, it is in the image, and the rectangle is filled or the place is on its border; every
  -- other place is as before. Ranges that are empty or reach beyond the image are included.
  pub rect-colours :
      (fill : Bool) (x0 y0 x1 y1 : ℤ) (img : Calls)
      → colour_at px py (rect width height x0 y0 x1 y1 fill img) ≡ (
          if between y0 (y1 +ℤ pos 1) py
            && (between x0 (x1 +ℤ pos 1) px
                && (on_rect fill x0 y0 x1 y1 px py && inside width height px py))
          then some 0
          else colour_at px py img)
  unfolding rect
  rect-colours fill x0 y0 x1 y1 =
      Paints-cong px py (rect width height x0 y0 x1 y1 fill)
        (any_hit-in_range py (λ y. R) (range_length y0 (y1 +ℤ pos 1)) y0
          ∙ ap (λ b. b && R) (in_range-between y0 (y1 +ℤ pos 1) py))
        (for_range-Paints px py (λ y. eqb_ℤ y py && R)
          (λ y.
            for_range (range_length x0 (x1 +ℤ pos 1)) x0
              (rect_place width height fill x0 y0 x1 y1 y))
          (row-Paints fill x0 y0 x1 y1) (range_length y0 (y1 +ℤ pos 1)) y0)
    where
      R : Bool
      R =
          between x0 (x1 +ℤ pos 1) px
          && (on_rect fill x0 y0 x1 y1 px py && inside width height px py)
