-- ===== src/Hooks/Tests.antt =====
-- Events of the agents, and the theorems at them.
use mathlib.Core.List.{map}
use flipper_agent_indicator.Prelude.{ℕ, ◌≡◌, refl, List, [], ◌∷◌, none, some, ok, last, ◌++◌, inl}
use flipper_agent_indicator.Text.{codes}
use flipper_agent_indicator.Protocol.{off, running, needs_input, done, notify}
use flipper_agent_indicator.Protocol.RoundTrip.{layout}
use flipper_agent_indicator.Daemon.{forward_notifies}
use flipper_agent_indicator.Daemon.Forward.{serve}
use flipper_agent_indicator.Hooks.{codex_state, codex_event, context}
use flipper_agent_indicator.Hooks.OpenCode.{
  PluginCall, event, permission_ask, tool_execute_before, fresh, run_plugin, on_call,
}
use flipper_agent_indicator.Hooks.OpenCode.Changes.{
  changes, all_wanted, IsChanging, run_plugin-wanted, run_plugin-asked,
}
use flipper_agent_indicator.Hooks.Delivery.{arrivals, opencode_note, opencode-shows}

abbrev busy : PluginCall
busy = event (codes "session.status") (codes "busy")

-- A session that works, asks twice, ends, and goes on; its second busy event comes too early.
abbrev opencode_session : List (ℕ × PluginCall)
opencode_session =
    (5000, busy)
    ∷ (6000, permission_ask)
    ∷ (6500, tool_execute_before (codes "question"))
    ∷ (7000, event (codes "session.idle") [])
    ∷ (8000, busy)
    ∷ (9500, busy)
    ∷ []

session_runs :
    run_plugin fresh opencode_session
    ≡ (record { last_state = running; idle_at = 7000 }, running ∷ needs_input ∷ done ∷ running ∷ [])
unfolding run_plugin
session_runs = refl

codex_events :
    (codex_state (codex_event none) ≡ done)
    × (codex_state (codes "permission-asked") ≡ needs_input)
    × (codex_state (codes "turn-start") ≡ running)
unfolding codex_event codex_state
codex_events = (refl, refl, refl)

run_plugin-wanted_example :
    ((run_plugin fresh opencode_session).1 ≡ changes off (all_wanted [] opencode_session))
    × IsChanging off (run_plugin fresh opencode_session).1
    × (last (off ∷ (run_plugin fresh opencode_session).1)
        ≡ last (off ∷ all_wanted [] opencode_session))
run_plugin-wanted_example = run_plugin-wanted opencode_session

-- A question, and then a permission that is asked twice.
abbrev question : List (ℕ × PluginCall)
question = (9000, tool_execute_before (codes "question")) ∷ []

abbrev permissions : List (ℕ × PluginCall)
permissions = (9050, event (codes "permission.updated") []) ∷ (9100, permission_ask) ∷ []

question_given : last (run_plugin fresh question).1 ≡ some needs_input
unfolding run_plugin on_call
question_given = refl

run_plugin-asked_example :
    (run_plugin fresh (question ++ permissions)).1 ≡ (run_plugin fresh question).1
run_plugin-asked_example =
    run_plugin-asked question permissions question_given (inl refl, (inl refl, tt))

opencode-shows_example :
    (serve [] (arrivals (run_plugin fresh opencode_session).1)
      ≡ map opencode_note (run_plugin fresh opencode_session).1)
    × (forward_notifies [] (serve [] (arrivals (run_plugin fresh opencode_session).1)) []
        ≡ ok (layout (notify (opencode_note running)) ∷ []))
opencode-shows_example = opencode-shows [] opencode_session running refl

-- The text of tmux loses the newlines at its end.
text_runs :
    (context (some (codes "s:w\n\n")) ≡ codes "s:w")
    × (context (some (codes "\n")) ≡ [])
    × (context none ≡ [])
unfolding context
text_runs = (refl, refl, refl)
