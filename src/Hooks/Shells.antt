-- ===== src/Hooks/Shells.antt =====
-- The hooks of Codex and Claude: hooks/codex-notify.sh and hooks/claude-notify.sh.
use flipper_agent_indicator.Prelude.{
  ℕ, zero, suc, ◌≡◌, ◌≢◌, ◌⊎◌, Bool, List, [], ◌∷◌, ◌++◌, Option, some, none, last, if◌then◌else◌,
}
use flipper_agent_indicator.Text.{Str, codes}
use flipper_agent_indicator.Protocol.{State, off, running, needs_input, done}

abbrev pub IsOneOf : Str → List Str → Type 0
IsOneOf s [] = ⊥
IsOneOf s (t ∷ ts) = (s ≡ t) ⊎ IsOneOf s ts

abbrev pub Begins : Str → Str → Type 0
Begins s front = (back : Str) × (s ≡ front ++ back)

-- The events of an agent that works, and of one that waits for an answer.
abbrev pub IsStart : Str → Type 0
IsStart event =
    IsOneOf event
      (codes "start" ∷ codes "session-start" ∷ codes "turn-start" ∷ codes "working" ∷ [])

abbrev pub IsQuestion : Str → Type 0
IsQuestion event =
    (Begins event (codes "permission") ⊎ Begins event (codes "approve"))
    ⊎ IsOneOf event (codes "needs-input" ∷ codes "input-required" ∷ codes "ask-user" ∷ [])

-- The state that an event stands for: every other one is an end.
abbrev pub StandsFor : Str → State → Type 0
StandsFor event off = ⊥
StandsFor event running = IsStart event
StandsFor event needs_input = (¬ IsStart event) × IsQuestion event
StandsFor event done = (¬ IsStart event) × (¬ IsQuestion event)

-- The event of an argument: without one, or with an empty one, the end of a turn.
abbrev pub IsEvent : Option Str → Str → Type 0
IsEvent none event = event ≡ codes "agent-turn-complete"
IsEvent (some []) event = event ≡ codes "agent-turn-complete"
IsEvent (some (c ∷ cs)) event = event ≡ c ∷ cs

abbrev pub newlines : ℕ → Str
newlines zero = []
newlines (suc n) = b'\n' ∷ newlines n

case_of : Bool → Bool → State
case_of starts asks = if starts then running else if asks then needs_input else done

-- What the hook takes from tmux: nothing outside of it, else its output without the newlines at the end.
abbrev pub IsText : Option Str → Str → Type 0
IsText none text = text ≡ []
IsText (some output) text = (n : ℕ) × (output ≡ text ++ newlines n) × (last text ≢ some b'\n')
