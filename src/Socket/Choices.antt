-- ===== src/Socket/Choices.antt =====
-- `parse_line` on the lines that name an agent and a state.
use flipper_agent_indicator.Prelude.{◌≡◌, refl, ◌∙◌, [], ◌∷◌, ◌++◌, Option, some, ok}
use flipper_agent_indicator.Text.{Str, codes, is_space, rstrip, before, after, contains}
use flipper_agent_indicator.Protocol.{
  AgentId, claude, codex, opencode, generic, State, off, running, needs_input, done,
}
use flipper_agent_indicator.Socket.{
  agent_by_name, state_by_name, Fields, read_token, finish, no_fields, parse_line,
}
use flipper_agent_indicator.Socket.Parse.{IsToken, joined, text_of}
use flipper_agent_indicator.Socket.Lines.{stripped, parse_line-joined}

-- Names of the command line's choices, as `--agent` and `--state` give them.
abbrev pub agent_name : AgentId → Str
agent_name claude = codes "claude"
agent_name codex = codes "codex"
agent_name opencode = codes "opencode"
agent_name generic = codes "generic"

abbrev pub state_name : State → Str
state_name off = codes "off"
state_name running = codes "running"
state_name needs_input = codes "needs-input"
state_name done = codes "done"

abbrev pub agent_token : AgentId → Str
agent_token a = codes "agent=" ++ agent_name a

abbrev pub state_token : State → Str
state_token s = codes "state=" ++ state_name s

agent_token-IsToken : (a : AgentId) → IsToken (agent_token a)
unfolding contains rstrip is_space
agent_token-IsToken claude = record { one_word = refl; no_text = refl; begins = refl; ends = refl }
agent_token-IsToken _ = record { one_word = refl; no_text = refl; begins = refl; ends = refl }

state_token-IsToken : (s : State) → IsToken (state_token s)
unfolding contains rstrip is_space
state_token-IsToken off = record { one_word = refl; no_text = refl; begins = refl; ends = refl }
state_token-IsToken _ = record { one_word = refl; no_text = refl; begins = refl; ends = refl }

read-agent_token :
    (a : AgentId) (f : Fields) → read_token f (agent_token a) ≡ ok (record f { agent = some a })
unfolding read_token agent_by_name contains before after
read-agent_token claude f = refl
read-agent_token _ f = refl

read-state_token :
    (s : State) (f : Fields) → read_token f (state_token s) ≡ ok (record f { state = some s })
unfolding read_token state_by_name contains before after
read-state_token off f = refl
read-state_token _ f = refl

-- The two tokens in either order, with or without a text, make the notification that they name.
pub parse_line-agent_state :
    (a : AgentId) (s : State) (text : Option Str)
    → (parse_line (joined (agent_token a ∷ state_token s ∷ []) text ++ b'\n' ∷ [])
        ≡ ok (record { agent = a; state = s; text = text_of (stripped text) }))
      × (parse_line (joined (state_token s ∷ agent_token a ∷ []) text ++ b'\n' ∷ [])
          ≡ ok (record { agent = a; state = s; text = text_of (stripped text) }))
unfolding finish
parse_line-agent_state a s text =
    let ha = agent_token-IsToken a in
    let hs = state_token-IsToken s in
    (
      parse_line-joined (agent_token a ∷ state_token s ∷ []) text (ha, (hs, tt))
          ∙ rw (
            read-agent_token a no_fields,
            read-state_token s (record no_fields { agent = some a }),
          ),
      parse_line-joined (state_token s ∷ agent_token a ∷ []) text (hs, (ha, tt))
          ∙ rw (
            read-state_token s no_fields,
            read-agent_token a (record no_fields { state = some s }),
          ),
    )
