-- ===== src/Cli/Tests.antt =====
-- Runs of `flipper-indicator notify`, and the theorems at such inputs.
use flipper_agent_indicator.Prelude.{
  ◌≢◌, ◌≡◌, refl, ◌↔◌, true, [], ◌∷◌, all, Option, none, some, if◌then◌else◌,
}
use flipper_agent_indicator.Text.{Str, codes, starts_with}
use flipper_agent_indicator.Config.{default_config}
use flipper_agent_indicator.Utf8
use flipper_agent_indicator.Utf8.{Bytes, utf8, utf8_char, is_scalar}
use flipper_agent_indicator.Protocol.{claude, needs_input}
use flipper_agent_indicator.Cli.{
  notify, notify_loaded, notify_line, connected, os_error, bad_path, exit_zero, uncaught,
}
use flipper_agent_indicator.Cli.Delivery.{HasSocketPath, notify-exit_zero_iff}

line_run :
    notify_line (codes "claude") (codes "needs-input") (codes "ok?")
    ≡ codes "agent=claude state=needs-input text=ok?\n"
unfolding notify_line
line_run = refl

-- A daemon that is down is not noticed; an argument that is not UTF-8 ends the command.
exit_runs :
    ((notify true os_error (codes "claude") (codes "done") []).exit ≡ exit_zero)
    × ((notify true connected (codes "claude") (codes "done") (0xDC80 ∷ [])).exit ≡ uncaught)
unfolding notify notify_line Utf8.encode utf8 utf8_char
exit_runs = (refl, refl)

-- Only the home of the user is known.
abbrev expand : Str → Option Str
expand s = if starts_with s (codes "~nosuchuser") then none else some s

-- A path of the socket in a home that is not known ends the command with an exception.
no_home_run :
    (notify_loaded expand
      (some (default_config (codes "~nosuchuser/x.sock")))
      connected
      (codes "claude")
      (codes "done")
      []).exit
    ≡ uncaught
unfolding notify_loaded notify default_config
no_home_run = refl

notify-exit_zero_iff_example :
    ((notify_loaded expand
        (some (default_config (codes "/x.sock")))
        os_error
        (codes "claude")
        (codes "needs-input")
        (0xDC80 ∷ [])).exit
      ≡ exit_zero)
    ↔ (HasSocketPath expand (some (default_config (codes "/x.sock")))
        × (all is_scalar (0xDC80 ∷ []) ≡ true)
        × (os_error ≢ bad_path))
notify-exit_zero_iff_example =
    notify-exit_zero_iff expand (some (default_config (codes "/x.sock"))) os_error claude
      needs_input (0xDC80 ∷ [])
