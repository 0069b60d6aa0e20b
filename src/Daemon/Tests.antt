-- ===== src/Daemon/Tests.antt =====
-- Runs of the daemon's two tasks, and the theorems at such inputs.
use flipper_agent_indicator.Config.{find, Config, str, table, entry, no_entries, truth_or, truth}
use flipper_agent_indicator.Patterns.Load.{Builtins, load_overrides}
use flipper_agent_indicator.Patterns.Load.Named.{named}
use flipper_agent_indicator.Patterns.Load.Loaded.{Makes}
use flipper_agent_indicator.Daemon.Start
use flipper_agent_indicator.Daemon.Finish
use flipper_agent_indicator.Daemon.Finish.{run_end, IsFirst, run_end_iff}
use flipper_agent_indicator.Daemon.Start.{
  Prepared, HasAddress, mac_not_configured, no_home, start-ok_iff,
}
use flipper_agent_indicator.Prelude.{
  ℕ, ◌≡◌, refl, ◌↔◌, All, none, true, List, [], ◌∷◌, some, ok, err, last, false, Option,
  if◌then◌else◌,
}
use flipper_agent_indicator.Text.{Str, codes, starts_with}
use flipper_agent_indicator.Protocol.{claude, generic, ack, pong, decode}
use flipper_agent_indicator.Protocol.Accepts.{Holds}
use flipper_agent_indicator.Socket.{sent, timed_out, agent_by_name}
use flipper_agent_indicator.Bridge.{TmuxBridge, started, os_error, clear}
use flipper_agent_indicator.Daemon.{
  forward_notifies, handle_incoming, flow_control, cleared, other_frame,
}
use flipper_agent_indicator.Daemon.Incoming.{expected, bridge_name, cleared_iff}
use flipper_agent_indicator.Daemon.Forward.{serve, frame_of, forward_notifies-serve}

abbrev bridge : TmuxBridge
bridge = record { script = codes "/x/s.sh"; enabled = true }

incoming_runs :
    (handle_incoming bridge started (0 ∷ 0 ∷ 4 ∷ 0 ∷ []) ≡ flow_control)
    × (handle_incoming bridge os_error (0x81 ∷ 0xFF ∷ [])
        ≡ cleared generic (record {
          command = some (
              codes "/x/s.sh"
              ∷ codes "--agent"
              ∷ codes "generic"
              ∷ codes "--state"
              ∷ codes "off"
              ∷ []);
          escaped = false;
        }))
    × (handle_incoming bridge started (0x82 ∷ []) ≡ other_frame pong)
unfolding handle_incoming decode clear
incoming_runs = (refl, refl, refl)

cleared_iff_example :
    ((handle_incoming bridge started (0x81 ∷ 0 ∷ [])
        ≡ cleared claude (expected bridge claude started))
      ↔ (Holds (0x81 ∷ 0 ∷ []) (ack claude)
          × (expected bridge claude started ≡ expected bridge claude started)))
    × (agent_by_name (bridge_name claude) ≡ some claude)
cleared_iff_example =
    cleared_iff bridge started (0x81 ∷ 0 ∷ []) claude (expected bridge claude started)

forward_notifies-serve_example :
    forward_notifies [] (serve [] (timed_out ∷ sent (codes "agent=claude state=off\n") ∷ [])) []
    ≡ ok (frame_of (last (serve [] (timed_out ∷ sent (codes "agent=claude state=off\n") ∷ []))))
forward_notifies-serve_example =
    forward_notifies-serve [] (timed_out ∷ sent (codes "agent=claude state=off\n") ∷ [])

-- Only the home of the user is known.
abbrev expand : Str → Option Str
expand s = if starts_with s (codes "~nosuchuser") then none else some s

-- A configuration with an address and a label for Codex.
abbrev py : Builtins
py = record { upper = λ s. s; to_int = λ v. none; show = λ v. [] }

abbrev configured : Config
configured = record {
  flipper_mac = some (str (codes "AA:BB"));
  tmux_bridge_enabled = true;
  tmux_bridge_script = [];
  log_path = [];
  socket_path = [];
  patterns =
      entry (codes "CODEX")
        (table (
          entry (codes "DONE") (table (entry (codes "label") (str (codes "x")) no_entries))
            no_entries))
        no_entries;
}

-- Without an address, or with an empty one, it does not start.
no_start :
    (Start.start py expand (record configured { flipper_mac = none }) ≡ err mac_not_configured)
    × (Start.start py expand (record configured { flipper_mac = some (str []) })
        ≡ err mac_not_configured)
unfolding Start.start truth_or truth
no_start = (refl, refl)

-- Neither where its socket would stand in the home of nobody.
no_home_start :
    Start.start py expand (record configured { socket_path = codes "~nosuchuser/x" }) ≡ err no_home
unfolding Start.start truth_or truth load_overrides find
no_home_start = refl

start-ok_iff_example : ((p : Prepared) × (Start.start py expand configured ≡ ok p)) ↔ (
    HasAddress configured.flipper_mac
    × All (Makes py) (named py configured.patterns)
    × ((script : Str) × (expand configured.tmux_bridge_script ≡ some script))
    × ((socket : Str) × (expand configured.socket_path ≡ some socket)))
start-ok_iff_example = start-ok_iff py expand configured

-- The stop event and a task that returned come before a failed one.
abbrev ending : List (Finish.Done ℕ)
ending = Finish.stop_task ∷ Finish.returned ∷ Finish.raised 7 ∷ []
