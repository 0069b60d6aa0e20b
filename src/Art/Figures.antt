-- ===== src/Art/Figures.antt =====
-- scripts/generate-art.py: the parts at fixed places, the mascots and the icon.
use flipper_agent_indicator.Prelude.{ℕ, true, [], ◌∷◌}
use flipper_agent_indicator.Prelude.Int.{pos, ◌+ℤ◌, ◌-ℤ◌}
use flipper_agent_indicator.Art.{
  Calls, putpixel, point, rectangle, line, for_range, for_each, put, rect, rounded_head, antennae,
  eyes_open, eyes_happy, mouth_line, mouth_smile, mouth_o,
}

module _ (width height : ℕ) where
  unfoldable pub body : Calls → Calls
  body img = rect width height (pos 18) (pos 26) (pos 19) (pos 30) true (
      rect width height (pos 12) (pos 26) (pos 13) (pos 30) true
        (rect width height (pos 10) (pos 22) (pos 21) (pos 25) true img))

  unfoldable pub left_arm_down : Calls → Calls
  left_arm_down = rect width height (pos 7) (pos 22) (pos 9) (pos 27) true

  unfoldable pub right_arm_down : Calls → Calls
  right_arm_down = rect width height (pos 22) (pos 22) (pos 24) (pos 27) true

  unfoldable pub right_arm_waving : Calls → Calls
  right_arm_waving img =
      rect width height (pos 27) (pos 15) (pos 29) (pos 17) true
        (for_range 6 (pos 0) (λ i. put width height (pos 22 +ℤ i) (pos 22 -ℤ i)) img)

  unfoldable pub right_arm_thumbs_up : Calls → Calls
  right_arm_thumbs_up img = put width height (pos 24) (pos 13) (
      put width height (pos 25) (pos 14) (
        put width height (pos 25) (pos 15) (
          rect width height (pos 21) (pos 13) (pos 24) (pos 17) true
            (rect width height (pos 22) (pos 18) (pos 24) (pos 25) true img))))

  unfoldable pub exclamation : Calls → Calls
  exclamation img =
      rect width height (pos 1) (pos 19) (pos 2) (pos 20) true
        (rect width height (pos 1) (pos 10) (pos 2) (pos 17) true img)

  unfoldable pub check : Calls → Calls
  check img = put width height (pos 7) (pos 13) (
      put width height (pos 6) (pos 14) (
        put width height (pos 5) (pos 15) (
          put width height (pos 4) (pos 16) (
            put width height (pos 3) (pos 17)
              (put width height (pos 2) (pos 16) (put width height (pos 1) (pos 15) img))))))

-- The two loops of each mascot that clear the face.
unfoldable pub face_cavity : Calls → Calls
unfolding for_range
face_cavity = for_range 12 (pos 8) (λ y. for_range 18 (pos 7) (λ x img. putpixel x y 1 ∷ img))

-- new_img((32, 32)), and what the three mascots begin with
unfoldable pub head : Calls
unfolding face_cavity rounded_head antennae
head =
    face_cavity (rounded_head 32 32 (pos 5) (pos 6) (pos 26) (pos 21) (antennae 32 32 (pos 5) []))

unfoldable pub mascot_idle : Calls
unfolding head eyes_open mouth_line body left_arm_down right_arm_down
mascot_idle =
    right_arm_down 32 32
      (left_arm_down 32 32 (body 32 32 (mouth_line 32 32 (pos 17) (eyes_open 32 32 (pos 12) head))))

unfoldable pub mascot_needs_input : Calls
unfolding head eyes_open mouth_o body left_arm_down right_arm_waving exclamation
mascot_needs_input = exclamation 32 32 (
    right_arm_waving 32 32
      (left_arm_down 32 32 (body 32 32 (mouth_o 32 32 (pos 17) (eyes_open 32 32 (pos 12) head)))))

unfoldable pub mascot_done : Calls
unfolding head eyes_happy mouth_smile body left_arm_down right_arm_thumbs_up check
mascot_done = check 32 32 (
    right_arm_thumbs_up 32 32 (
      left_arm_down 32 32
        (body 32 32 (mouth_smile 32 32 (pos 16) (eyes_happy 32 32 (pos 12) head)))))

unfoldable pub icon_10x10 : Calls
unfolding for_each
icon_10x10 =
    line (pos 3) (pos 7) (pos 6) (pos 7) 0
    ∷ point (pos 6) (pos 4) 0
    ∷ point (pos 3) (pos 4) 0
    ∷ rectangle (pos 1) (pos 2) (pos 8) (pos 8) 0
    ∷ for_each (pos 3 ∷ pos 6 ∷ []) (λ x img. point x (pos 1) 0 ∷ point x (pos 0) 0 ∷ img) []
