-- ===== src/Patterns.antt =====
-- daemon/flipper_indicator/patterns.py: the table of patterns, and its look-up.
pub mod Load
use flipper_agent_indicator.Prelude.{
  Bool, ◌&&◌, List, [], ◌∷◌, ◌++◌, Option, none, some, if◌then◌else◌, ◌==◌,
}
use flipper_agent_indicator.Prelude.Int.{ℤ, pos}
use flipper_agent_indicator.Text.{Str, codes}
use flipper_agent_indicator.Protocol.{
  AgentId, claude, codex, opencode, generic, State, off, running, needs_input, done, agent_value,
  state_value,
}

-- The tuples of an override have any length, and their elements any sign.
pub record Pattern : Type 0 where
  pub led_rgb : List ℤ
  pub vibra_sequence : List ℤ
  pub label : Str

-- _AGENT_COLOR, _STATE_VIBRA, _STATE_LABEL, _AGENT_LABEL
unfoldable pub agent_color : AgentId → List ℤ
agent_color claude = pos 40 ∷ pos 100 ∷ pos 255 ∷ []
agent_color codex = pos 40 ∷ pos 220 ∷ pos 120 ∷ []
agent_color opencode = pos 180 ∷ pos 80 ∷ pos 255 ∷ []
agent_color generic = pos 255 ∷ pos 255 ∷ pos 255 ∷ []

unfoldable pub state_vibra : State → List ℤ
state_vibra off = []
state_vibra running = pos 60 ∷ pos 120 ∷ []
state_vibra needs_input = pos 120 ∷ pos 80 ∷ pos 120 ∷ pos 80 ∷ pos 120 ∷ pos 400 ∷ []
state_vibra done = pos 200 ∷ []

unfoldable pub state_label : State → Str
state_label off = codes "off"
state_label running = codes "running"
state_label needs_input = codes "needs input"
state_label done = codes "done"

unfoldable pub agent_label : AgentId → Str
agent_label claude = codes "Claude"
agent_label codex = codes "Codex"
agent_label opencode = codes "OpenCode"
agent_label generic = codes "Agent"

-- The keys of `_overrides`.
abbrev pub Key : Type 0
Key = AgentId × State

-- (a, s) == (b, t): enumeration members are equal if their values are.
abbrev pub eq_key : Key → Key → Bool
eq_key (a, s) (b, t) = agent_value a == agent_value b && state_value s == state_value t

abbrev pub Overrides : Type 0
Overrides = List (Key × Pattern)

-- overrides.get(key)
unfoldable pub lookup : Key → Overrides → Option Pattern
lookup key [] = none
lookup key ((k, p) ∷ rest) = if eq_key k key then some p else lookup key rest

-- overrides[key] = pattern
unfoldable pub insert : Key → Pattern → Overrides → Overrides
insert key p [] = (key, p) ∷ []
insert key p ((k, q) ∷ rest) = if eq_key k key then (key, p) ∷ rest else (k, q) ∷ insert key p rest

unfoldable pub default_label : AgentId → State → Str
unfolding agent_label state_label
default_label a s = agent_label a ++ (codes ": " ++ state_label s)

-- `PatternTable.get`
unfoldable pub get : Overrides → AgentId → State → Pattern
unfolding lookup agent_color state_vibra default_label
get overrides a s = elim (lookup (a, s) overrides) [
  | some p ↦ p
  | none ↦ record {
    led_rgb = agent_color a;
    vibra_sequence = state_vibra s;
    label = default_label a s;
  }
]
