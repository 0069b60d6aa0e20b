-- ===== src/Firmware/Render.antt =====
-- firmware/flipper_agent_indicator/render.c: what is drawn, as the calls of the canvas, and the wrapping
-- of the text. A position in the text is what stands from there on.
pub mod Wrapped
pub mod Drawn
mod Tests
use mathlib.Core.List.{map}
use flipper_agent_indicator.Prelude.{
  ℕ, zero, suc, ◌+◌, ◌-◌, min, List, [], ◌∷◌, ◌++◌, Option, none, some, ltb, leb, ◌==◌,
  if◌then◌else◌, length, take, drop, get_elem?,
}
use flipper_agent_indicator.Text.{Str, codes, before}
use flipper_agent_indicator.Utf8.{Bytes}
use flipper_agent_indicator.Firmware.{FaiFrame}

abbrev pub fai_text_line_chars : ℕ
fai_text_line_chars = 21

abbrev pub fai_text_max_lines : ℕ
fai_text_max_lines = 2

pub data Icon : Type 0 where
  i_mascot_needs_input i_mascot_done i_mascot_idle : Icon

unfoldable pub mascot_for_state : ℕ → Icon
mascot_for_state state =
    if state == 2 then i_mascot_needs_input else if state == 3 then i_mascot_done else i_mascot_idle

unfoldable pub render_agent_name : ℕ → Str
render_agent_name agent =
    if agent == 0
    then codes "Claude"
    else if agent == 1
    then codes "Codex"
    else if agent == 2
    then codes "OpenCode"
    else codes "Agent"

unfoldable pub render_state_name : ℕ → Str
render_state_name state =
    if state == 0
    then codes "off"
    else if state == 1
    then codes "running"
    else if state == 2
    then codes "needs-input"
    else if state == 3
    then codes "done"
    else codes "?"

-- `fai_copy_span`: what stands in the line before its zero byte.
unfoldable pub fai_copy_span : ℕ → Bytes → ℕ → Bytes
fai_copy_span zero src span = []
fai_copy_span (suc room) src span = take (min span room) src

-- A space at a position, or an earlier one.
unfoldable pub space_at : Option ℕ → ℕ → Option ℕ → Option ℕ
space_at none i earlier = earlier
space_at (some c) i earlier = if c == b' ' then some i else earlier

-- The index of the last space before a position.
unfoldable pub last_space : ℕ → Bytes → Option ℕ
unfolding space_at
last_space zero text = none
last_space (suc i) text = space_at (get_elem? text i) i (last_space i text)

-- Where a long text is broken: at the last space of the window, unless there is none but at its front.
unfoldable pub split_at : Option ℕ → ℕ
split_at none = fai_text_line_chars
split_at (some zero) = fai_text_line_chars
split_at (some (suc i)) = suc i

unfoldable pub skip_spaces : Bytes → Bytes
skip_spaces [] = []
skip_spaces (c ∷ cs) = let rest = skip_spaces cs in if c == b' ' then rest else c ∷ cs

-- The loop of `fai_wrap`, with the number of lines that are left.
unfoldable pub wrap_lines : ℕ → Bytes → List Bytes
unfolding fai_copy_span last_space split_at skip_spaces
wrap_lines zero text = []
wrap_lines (suc left) [] = []
wrap_lines (suc left) (c ∷ cs) =
    let text = c ∷ cs in
    let split = split_at (last_space fai_text_line_chars text) in
    let later = wrap_lines left (skip_spaces (drop split text)) in
    if leb (length text) fai_text_line_chars
    then fai_copy_span (fai_text_line_chars + 1) text (length text) ∷ []
    else fai_copy_span (fai_text_line_chars + 1) text split ∷ later

-- `fai_wrap`, of the array before its first zero byte
unfoldable pub fai_wrap : Bytes → List Bytes
unfolding wrap_lines
fai_wrap text = wrap_lines fai_text_max_lines (before 0 text)

pub data Font : Type 0 where
  font_primary font_secondary : Font

pub data Drawing : Type 0 where
  canvas_clear : Drawing
  canvas_set_font : Font → Drawing
  canvas_draw_str : ℕ → ℕ → Bytes → Drawing
  canvas_draw_icon : ℕ → ℕ → Icon → Drawing

unfoldable pub render_idle : List Drawing
render_idle =
    canvas_clear
    ∷ canvas_set_font font_primary
    ∷ canvas_draw_str 4 14 (codes "Agent Indicator")
    ∷ canvas_set_font font_secondary
    ∷ canvas_draw_str 4 32 (codes "Waiting for agents...")
    ∷ canvas_draw_str 4 48 (codes "BLE Serial ready")
    ∷ canvas_draw_str 4 62 (codes "Back: exit")
    ∷ []

unfoldable pub draw_lines : ℕ → List Bytes → List Drawing
draw_lines y [] = []
draw_lines y (l ∷ ls) = canvas_draw_str 2 y l ∷ draw_lines (y + 10) ls

unfoldable pub render_notification : FaiFrame → List Drawing
unfolding mascot_for_state render_agent_name render_state_name draw_lines fai_wrap
render_notification frame =
    canvas_clear
    ∷ canvas_draw_icon 0 0 (mascot_for_state frame.state)
    ∷ canvas_set_font font_primary
    ∷ canvas_draw_str 36 12 (render_agent_name frame.agent)
    ∷ canvas_set_font font_secondary
    ∷ canvas_draw_str 36 26 (render_state_name frame.state)
    ∷ ((if ltb 0 frame.text_len then draw_lines 44 (fai_wrap frame.text) else [])
        ++ canvas_set_font font_secondary ∷ canvas_draw_str 82 62 (codes "OK dismiss") ∷ [])
