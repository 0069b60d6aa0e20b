-- ===== src/Cli.antt =====
-- The command `flipper-indicator notify` of daemon/flipper_indicator/cli.py.
pub mod Delivery
mod Tests
use flipper_agent_indicator.Prelude.{
  Bool, true, false, List, [], ◌∷◌, ◌++◌, Option, none, some, if◌then◌else◌,
}
use flipper_agent_indicator.Text.{Str, codes, is_empty}
use flipper_agent_indicator.Config.{Config}
use flipper_agent_indicator.Config.Paths.{resolved_socket_path}
use flipper_agent_indicator.Utf8
use flipper_agent_indicator.Utf8.{Bytes}

-- The choices of `--agent` and `--state`; click refuses all other values before `notify` runs.
abbrev pub agent_choices : List Str
agent_choices = codes "claude" ∷ codes "codex" ∷ codes "opencode" ∷ codes "generic" ∷ []

abbrev pub state_choices : List Str
state_choices = codes "off" ∷ codes "running" ∷ codes "needs-input" ∷ codes "done" ∷ []

-- The line that is sent.
unfoldable pub notify_line : Str → Str → Str → Str
notify_line agent state text =
    let line = codes "agent=" ++ (agent ++ (codes " state=" ++ state)) in
    (if is_empty text then line else line ++ (codes " text=" ++ text)) ++ b'\n' ∷ []

-- What the operating system makes of the connection: all is sent, an `OSError` is raised, or, since the
-- path holds a NUL, a `ValueError`.
pub data Transport : Type 0 where
  connected os_error bad_path : Transport

-- What comes of a call: a payload that reaches the socket, nothing, or an exception.
pub data Sending : Type 0 where
  arrives : Bytes → Sending
  lost raises : Sending

-- `_send_line_silent`. An `OSError` is swallowed.
unfoldable pub send_line_silent : Transport → Bytes → Sending
send_line_silent connected payload = arrives payload
send_line_silent os_error payload = lost
send_line_silent bad_path payload = raises

-- `sys.exit(0)`, or an exception that leaves the command.
pub data Exit : Type 0 where
  exit_zero uncaught : Exit

-- A run: what reached the daemon's socket, and how the process ends.
pub record Run : Type 0 where
  pub arrived : Option Bytes
  pub exit : Exit

-- The run behind the call.
unfoldable pub ended : Sending → Run
ended (arrives payload) = record { arrived = some payload; exit = exit_zero }
ended lost = record { arrived = none; exit = exit_zero }
ended raises = record { arrived = none; exit = uncaught }

send : Transport → Option Bytes → Run
unfolding send_line_silent ended
send transport none = record { arrived = none; exit = uncaught }
send transport (some payload) = ended (send_line_silent transport payload)

-- `notify`; `found` says whether `config.load()` and `cfg.resolved_socket_path` returned.
unfoldable pub notify : Bool → Transport → Str → Str → Str → Run
unfolding send
notify false transport agent state text = record { arrived = none; exit = uncaught }
notify true transport agent state text = send transport (Utf8.encode (notify_line agent state text))

unfoldable pub path_found : Option Str → Bool
path_found none = false
path_found (some path) = true

-- The path of the socket was found: the configuration was loaded, and no exception leaves
-- `Path.expanduser`.
unfoldable pub socket_found : (Str → Option Str) → Option Config → Bool
unfolding resolved_socket_path path_found
socket_found expand none = false
socket_found expand (some config) = path_found (resolved_socket_path expand config)

-- `notify` by what `config.load()` returns, or none where it raises.
unfoldable pub notify_loaded :
    (Str → Option Str) → Option Config → Transport → Str → Str → Str → Run
unfolding socket_found notify
notify_loaded expand loaded transport agent state text =
    notify (socket_found expand loaded) transport agent state text
