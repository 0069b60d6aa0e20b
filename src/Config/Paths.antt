-- ===== src/Config/Paths.antt =====
-- Where config.py finds the socket, and what it loads. `join` is the `/` of pathlib and `expand` is
-- `Path.expanduser`, both on the texts of the paths; `none` is its `RuntimeError` where the path begins
-- with the home of a user that is not known.
use flipper_agent_indicator.Prelude.{
  lt→ltb, ◌<◌, ◌^◌, arith, ℕ, ◌≡◌, refl, sym, ap, ◌∙◌, ◌++◌, Option, none, some, true,
  if◌then◌else◌,
}
use mathlib.Core.List.{append_cancel_left, append_cancel_right}
use flipper_agent_indicator.Prelude.Int.{pos}
use flipper_agent_indicator.Text.{Str, codes, is_empty}
use flipper_agent_indicator.Config.{Value, int, Entries, Config, default_config, from_dict}
use flipper_agent_indicator.Config.Documents.{ReadsNumbers}

-- `default_socket_path`, by the value of XDG_RUNTIME_DIR, if that is set, and the number of the user
unfoldable pub fallback_path : (Value → Str) → ℕ → Str
fallback_path show uid = codes "/tmp/flipper-indicator-" ++ (show (int (pos uid)) ++ codes ".sock")

unfoldable pub default_socket_path : (Str → Str → Str) → (Value → Str) → Option Str → ℕ → Str
unfolding fallback_path
default_socket_path join show none uid = fallback_path show uid
default_socket_path join show (some runtime_dir) uid =
    if is_empty runtime_dir
    then fallback_path show uid
    else join runtime_dir (codes "flipper-indicator.sock")

-- The properties of a configuration.
unfoldable pub resolved_tmux_bridge_script : (Str → Option Str) → Config → Option Str
resolved_tmux_bridge_script expand config = expand config.tmux_bridge_script

unfoldable pub resolved_log_path : (Str → Option Str) → Config → Option Str
resolved_log_path expand config = expand config.log_path

unfoldable pub resolved_socket_path : (Str → Option Str) → Config → Option Str
resolved_socket_path expand config = expand config.socket_path

-- What stands at the path of the configuration: nothing, a file that cannot be opened or is no TOML, or
-- a document.
pub data ConfigFile : Type 0 where
  missing unreadable : ConfigFile
  document : Entries → ConfigFile

-- `load`; none is an exception.
unfoldable pub load : (Value → Str) → Str → ConfigFile → Option Config
unfolding from_dict default_config
load show socket missing = some (default_config socket)
load show socket unreadable = none
load show socket (document raw) = some (from_dict show socket raw)

-- No directory for the run time: it is not set, or empty.
abbrev pub IsUnset : Option Str → Type 0
IsUnset none = Unit
IsUnset (some runtime_dir) = is_empty runtime_dir ≡ true

module _ (join : Str → Str → Str) (show : Value → Str) (number : Str → Option Value)
    (laws : ReadsNumbers show number) where
  falls_back :
      (d : Option Str) (uid : ℕ)
      → IsUnset d
      → default_socket_path join show d uid ≡ fallback_path show uid
  unfolding default_socket_path
  falls_back none uid h = refl
  falls_back (some runtime_dir) uid h = rw h refl

  fallback_path-apart :
      (uid vid : ℕ)
      → uid < 2 ^ 32
      → vid < 2 ^ 32
      → fallback_path show uid ≡ fallback_path show vid
      → uid ≡ vid
  unfolding fallback_path
  fallback_path-apart uid vid few fewer h =
      let one = int (pos uid) in
      let other = int (pos vid) in
      let shown : show one ≡ show other =
        append_cancel_right (show one) (show other) (codes ".sock") (
          append_cancel_left (codes "/tmp/flipper-indicator-") (show one ++ codes ".sock")
            (show other ++ codes ".sock") h) in
      let same : some one ≡ some other =
        sym (laws.reads one (lt→ltb uid _ (omega arith)))
        ∙ ap number shown
        ∙ laws.reads other (lt→ltb vid _ (omega arith)) in
      cc same

  -- Two users without a directory for the run time, who take the default, share a socket only if they
  -- are the same user. The number of a user has 32 bits.
  pub default_socket_path-apart :
      (d e : Option Str) (uid vid : ℕ)
      → IsUnset d
      → IsUnset e
      → uid < 2 ^ 32
      → vid < 2 ^ 32
      → default_socket_path join show d uid ≡ default_socket_path join show e vid
      → uid ≡ vid
  default_socket_path-apart d e uid vid h k few fewer same =
      fallback_path-apart uid vid few fewer (sym (falls_back d uid h) ∙ same ∙ falls_back e vid k)
