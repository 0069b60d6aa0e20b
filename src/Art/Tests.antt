-- ===== src/Art/Tests.antt =====
-- Tests of the drawing functions: the images of scripts/generate-art.py, and the theorems at work.
use flipper_agent_indicator.Prelude.{
  ◌≡◌, refl, true, false, ◌&&◌, [], ◌∷◌, some, none, if◌then◌else◌,
}
use flipper_agent_indicator.Prelude.Int.{pos, negsuc, ◌+ℤ◌, ◌-ℤ◌}
use flipper_agent_indicator.Art.{inside, rect}
use flipper_agent_indicator.Art.Figures.{mascot_idle, mascot_needs_input, mascot_done}
use flipper_agent_indicator.Art.Colours.{colour_at, between, on_rect, rect-colours}
use flipper_agent_indicator.Art.Safety.{all_in_image}

-- The mascots make no call outside of their images.
mascot_idle_inside : all_in_image 32 32 mascot_idle ≡ true
unfolding mascot_idle ◌-ℤ◌ ◌+ℤ◌
mascot_idle_inside = refl

mascot_needs_input_inside : all_in_image 32 32 mascot_needs_input ≡ true
unfolding mascot_needs_input ◌-ℤ◌ ◌+ℤ◌
mascot_needs_input_inside = refl

mascot_done_inside : all_in_image 32 32 mascot_done ≡ true
unfolding mascot_done ◌-ℤ◌ ◌+ℤ◌
mascot_done_inside = refl

-- The bulb at the end of an antenna, the antenna below it, and the row between them, which is blank.
antenna_of_idle :
    (colour_at (pos 11) (pos 0) mascot_idle
      ∷ colour_at (pos 11) (pos 2) mascot_idle
      ∷ colour_at (pos 11) (pos 1) mascot_idle
      ∷ [])
    ≡ (some 0 ∷ some 0 ∷ none ∷ [])
unfolding mascot_idle ◌-ℤ◌ ◌+ℤ◌
antenna_of_idle = refl

-- A border that reaches beyond the left of an image of 4 by 4, seen at (0, 1).
rect-colours_example :
    colour_at (pos 0) (pos 1) (rect 4 4 (negsuc 1) (pos 1) (pos 2) (pos 3) false []) ≡ (
      if between (pos 1) (pos 3 +ℤ pos 1) (pos 1)
        && (between (negsuc 1) (pos 2 +ℤ pos 1) (pos 0)
            && (on_rect false (negsuc 1) (pos 1) (pos 2) (pos 3) (pos 0) (pos 1)
                && inside 4 4 (pos 0) (pos 1)))
      then some 0
      else none)
rect-colours_example = rect-colours 4 4 (pos 0) (pos 1) false (negsuc 1) (pos 1) (pos 2) (pos 3) []
