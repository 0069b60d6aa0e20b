-- ===== src/Bridge.antt =====
-- daemon/flipper_indicator/bridge.py: the call of the tmux plugin's script.
use flipper_agent_indicator.Prelude.{Bool, true, false, List, [], ◌∷◌, Option, none, some}
use flipper_agent_indicator.Text.{Str, codes}
use flipper_agent_indicator.Protocol.{AgentId, claude, codex, opencode, generic}

-- _AGENT_NAME
unfoldable pub agent_name : AgentId → Option Str
agent_name claude = some (codes "claude")
agent_name codex = some (codes "codex")
agent_name opencode = some (codes "opencode")
agent_name generic = some (codes "generic")

-- _AGENT_NAME.get(agent, "generic")
name_or_generic : Option Str → Str
name_or_generic none = codes "generic"
name_or_generic (some name) = name

pub record TmuxBridge : Type 0 where
  pub script : Str
  pub enabled : Bool

-- What `subprocess.Popen` does: it starts the command, or raises an `OSError` (`FileNotFoundError`
-- is one), or another exception, such as `ValueError` for a path with a null character.
pub data Spawn : Type 0 where
  started os_error other_error : Spawn

-- A call of `clear`: the command that was handed to `Popen`, if any, and whether an exception left.
pub record Cleared : Type 0 where
  pub command : Option (List Str)
  pub escaped : Bool

escapes : Spawn → Bool
escapes other_error = true
escapes _ = false

unfoldable pub clear : TmuxBridge → AgentId → Spawn → Cleared
unfolding agent_name name_or_generic escapes
clear bridge agent spawn = elim bridge.enabled [
  | false ↦ record { command = none; escaped = false }
  | true ↦ record {
    command = some (
        bridge.script
        ∷ codes "--agent"
        ∷ name_or_generic (agent_name agent)
        ∷ codes "--state"
        ∷ codes "off"
        ∷ []);
    escaped = escapes spawn;
  }
]
