-- ===== src/Hooks.antt =====
-- The hooks of the agents: hooks/opencode-flipper-indicator.js, hooks/codex-notify.sh and
-- hooks/claude-notify.sh. Each turns what its agent reports into a command of the command line.
pub mod OpenCode
pub mod Delivery
pub mod Shells
mod Tests
use flipper_agent_indicator.Prelude.{
  true, false, Bool, ◌||◌, ◌&&◌, ◌==◌, Option, none, some, List, [], ◌∷◌, if◌then◌else◌,
}
use flipper_agent_indicator.Text.{Str, codes, eq_str, is_empty, starts_with}
use flipper_agent_indicator.Utf8.{Bytes}
use flipper_agent_indicator.Protocol.{State, off, running, needs_input, done}
use flipper_agent_indicator.Cli
use flipper_agent_indicator.Cli.{Transport, Run}

-- The word of the command line for a state.
abbrev pub state_word : State → Str
state_word off = codes "off"
state_word running = codes "running"
state_word needs_input = codes "needs-input"
state_word done = codes "done"

-- s matches one of some patterns without an asterisk.
abbrev pub one_of : Str → List Str → Bool
one_of s [] = false
one_of s (t ∷ ts) = eq_str s t || one_of s ts

-- The `case` of codex-notify.sh.
unfoldable pub codex_state : Str → State
codex_state event =
    if one_of event
      (codes "start" ∷ codes "session-start" ∷ codes "turn-start" ∷ codes "working" ∷ [])
    then running
    else if starts_with event (codes "permission")
        || starts_with event (codes "approve")
        || one_of event (codes "needs-input" ∷ codes "input-required" ∷ codes "ask-user" ∷ [])
    then needs_input
    else done

-- "${1:-agent-turn-complete}": the argument, if there is one and it is not empty.
unfoldable pub codex_event : Option Str → Str
codex_event none = codes "agent-turn-complete"
codex_event (some event) = if is_empty event then codes "agent-turn-complete" else event

-- "$(…)" removes the newlines at the end of the output.
unfoldable pub without_newlines : Str → Str
without_newlines [] = []
without_newlines (c ∷ cs) =
    let rest = without_newlines cs in if is_empty rest && c == b'\n' then [] else c ∷ rest

-- TEXT: what `tmux display-message` writes, or nothing outside of tmux.
unfoldable pub context : Option Str → Str
unfolding without_newlines
context none = []
context (some output) = without_newlines output

-- What a hook sends; the status of its command is dropped by `|| true` and by `catch`. A command
-- without `--text` has the empty text.
unfoldable pub hook_sends : Bool → Transport → Str → Str → Str → Option Bytes
hook_sends loaded transport agent state text =
    (Cli.notify loaded transport agent state text).arrived

-- claude-notify.sh with the state of its argument
unfoldable pub claude_notify : Bool → Transport → State → Option Str → Option Bytes
unfolding hook_sends context
claude_notify loaded transport state tmux =
    hook_sends loaded transport (codes "claude") (state_word state) (context tmux)

-- codex-notify.sh
unfoldable pub codex_notify : Bool → Transport → Option Str → Option Str → Option Bytes
unfolding hook_sends context codex_state codex_event
codex_notify loaded transport argument tmux =
    hook_sends loaded transport (codes "codex") (state_word (codex_state (codex_event argument)))
      (context tmux)

-- The command of the plugin of OpenCode
unfoldable pub opencode_notify : Bool → Transport → State → Option Bytes
unfolding hook_sends
opencode_notify loaded transport state =
    hook_sends loaded transport (codes "opencode") (state_word state) []
