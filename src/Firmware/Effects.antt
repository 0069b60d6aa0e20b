-- ===== src/Firmware/Effects.antt =====
-- firmware/flipper_agent_indicator/effects.c: the sequences of lights and vibration for a frame, as the
-- names of the system's notification sequences.
use flipper_agent_indicator.Prelude.{ℕ, Bool, true, false, List, [], ◌∷◌, ◌==◌, if◌then◌else◌}
use flipper_agent_indicator.Firmware.{FaiFrame}

pub data NotificationSequence : Type 0 where
  display_backlight_on reset_rgb reset_vibro double_vibro single_vibro success :
      NotificationSequence
  blink_blue_100 blink_green_100 blink_magenta_100 blink_white_100 : NotificationSequence
  set_only_blue_255 set_only_green_255 : NotificationSequence

unfoldable pub agent_blink : ℕ → NotificationSequence
agent_blink agent =
    if agent == 0
    then blink_blue_100
    else if agent == 1
    then blink_green_100
    else if agent == 2
    then blink_magenta_100
    else blink_white_100

unfoldable pub agent_solid_done : ℕ → NotificationSequence
agent_solid_done agent =
    if agent == 0 then set_only_blue_255 else if agent == 1 then set_only_green_255 else success

-- `effects_apply`; the flag says whether `effects_init` has opened the notification service.
unfoldable pub effects_apply : Bool → FaiFrame → List NotificationSequence
unfolding agent_blink agent_solid_done
effects_apply false frame = []
effects_apply true frame =
    if frame.state == 2
    then display_backlight_on ∷ agent_blink frame.agent ∷ double_vibro ∷ []
    else if frame.state == 3
    then display_backlight_on ∷ agent_solid_done frame.agent ∷ single_vibro ∷ []
    else if frame.state == 1
    then []
    else reset_rgb ∷ []

unfoldable pub effects_clear : Bool → List NotificationSequence
effects_clear false = []
effects_clear true = reset_rgb ∷ reset_vibro ∷ []
