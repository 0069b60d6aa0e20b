-- ===== src/Firmware/Render/Tests.antt =====
-- Texts that are wrapped, and the theorems at them.
use flipper_agent_indicator.Prelude.{◌≡◌, refl, [], ◌∷◌}
use flipper_agent_indicator.Text.{codes, before}
use flipper_agent_indicator.Firmware.Render.{fai_wrap}
use flipper_agent_indicator.Firmware.Render.Wrapped.{IsWrapped, fai_wrap-IsWrapped}

-- Two words of ten characters would fit in the first line, with the space between them; the line is
-- broken behind the first one, since the space behind the second is not looked at.
early : fai_wrap (codes "aaaaaaaaaa bbbbbbbbbb c") ≡ codes "aaaaaaaaaa" ∷ codes "bbbbbbbbbb c" ∷ []
unfolding fai_wrap before
early = refl

-- A long word is broken, and what does not fit in two lines is left out.
hard :
    fai_wrap (codes "aaaaaaaaaaaaaaaaaaaaaaaaaaaaaa bb cc dd ee ff gg hh")
    ≡ codes "aaaaaaaaaaaaaaaaaaaaa" ∷ codes "aaaaaaaaa bb cc dd" ∷ []
unfolding fai_wrap before
hard = refl

fai_wrap-IsWrapped_example :
    IsWrapped 2
      (before 0 (codes "aaaaaaaaaa bbbbbbbbbb c"))
      (fai_wrap (codes "aaaaaaaaaa bbbbbbbbbb c"))
fai_wrap-IsWrapped_example = fai_wrap-IsWrapped (codes "aaaaaaaaaa bbbbbbbbbb c")
