-- ===== src/Firmware/Render/Drawn.antt =====
-- What is drawn for a notification of the daemon.
use flipper_agent_indicator.Prelude.{
  ◌≡◌, refl, ap, Bool-cases, inl, inr, true, [], ◌∷◌, ◌++◌, ◌==◌, ◌-◌, suc, ltb, lt→ltb, ◌≤◌,
  length, ℕ, if◌then◌else◌, arith,
}
use flipper_agent_indicator.Text.{codes, before}
use flipper_agent_indicator.Utf8.{Bytes}
use flipper_agent_indicator.Protocol.{
  Notification, notify, AgentId, State, off, running, needs_input, done, claude, codex, opencode,
  generic, agent_value, state_value,
}
use flipper_agent_indicator.Protocol.RoundTrip.{label_bytes}
use flipper_agent_indicator.Patterns.{agent_label}
use flipper_agent_indicator.Socket.Choices.{state_name}
use flipper_agent_indicator.Firmware.{zeros}
use flipper_agent_indicator.Firmware.Interop.{on_device, label-fits}
use flipper_agent_indicator.Firmware.Render.{
  Icon, i_mascot_needs_input, i_mascot_done, i_mascot_idle, font_primary, font_secondary,
  canvas_clear, canvas_set_font, canvas_draw_str, canvas_draw_icon, mascot_for_state,
  render_agent_name, render_state_name, wrap_lines, fai_wrap, draw_lines, render_notification,
}

-- The mascot of each state.
abbrev pub mascot_of : State → Icon
mascot_of needs_input = i_mascot_needs_input
mascot_of done = i_mascot_done
mascot_of _ = i_mascot_idle

mascot_for_state-value : (s : State) → mascot_for_state (state_value s) ≡ mascot_of s
unfolding mascot_for_state
mascot_for_state-value off = refl
mascot_for_state-value running = refl
mascot_for_state-value needs_input = refl
mascot_for_state-value done = refl

render_state_name-value : (s : State) → render_state_name (state_value s) ≡ state_name s
unfolding render_state_name
render_state_name-value off = refl
render_state_name-value running = refl
render_state_name-value needs_input = refl
render_state_name-value done = refl

render_agent_name-value : (a : AgentId) → render_agent_name (agent_value a) ≡ agent_label a
unfolding render_agent_name agent_label
render_agent_name-value claude = refl
render_agent_name-value codex = refl
render_agent_name-value opencode = refl
render_agent_name-value generic = refl

-- The text of an array behind which there are zeros.
before-zeros : (s : Bytes) (n k : ℕ) → n ≡ suc k → before 0 (s ++ zeros n) ≡ before 0 s
unfolding before
before-zeros [] n k h = rw h refl
before-zeros (c ∷ cs) n k h = elim (Bool-cases (c == 0)) [
  | inl e ↦ rw e refl
  | inr e ↦ rw (e, before-zeros cs n k h) refl
]

drawn_text :
    (l : Bytes)
    → length l ≤ 64
    → (if ltb 0 (length l) then draw_lines 44 (fai_wrap (l ++ zeros (65 - length l))) else [])
      ≡ draw_lines 44 (wrap_lines 2 (before 0 l))
unfolding draw_lines fai_wrap wrap_lines before
drawn_text [] h = refl
drawn_text (c ∷ cs) h =
    let shows : ltb 0 (suc (length cs)) ≡ true = lt→ltb _ _ (omega arith) in
    rw shows (
      ap (λ t. draw_lines 44 (wrap_lines 2 t))
        (before-zeros (c ∷ cs) (65 - suc (length cs)) (64 - suc (length cs)) (omega arith)))

-- For a notification of the daemon the device draws the mascot of the state, the daemon's label of the
-- agent, the word that the command line has for the state, and the text, cut to 64 bytes and before its
-- first zero byte, wrapped into at most two lines.
pub render_notification-on_device :
    (n : Notification)
    → render_notification (on_device (notify n))
      ≡ canvas_clear
        ∷ canvas_draw_icon 0 0 (mascot_of n.state)
        ∷ canvas_set_font font_primary
        ∷ canvas_draw_str 36 12 (agent_label n.agent)
        ∷ canvas_set_font font_secondary
        ∷ canvas_draw_str 36 26 (state_name n.state)
        ∷ (draw_lines 44 (wrap_lines 2 (before 0 (label_bytes n)))
            ++ canvas_set_font font_secondary ∷ canvas_draw_str 82 62 (codes "OK dismiss") ∷ [])
unfolding render_notification
render_notification-on_device n =
    rw
      (
        mascot_for_state-value n.state,
        render_agent_name-value n.agent,
        render_state_name-value n.state,
        drawn_text (label_bytes n) (label-fits n),
      )
      refl
