-- ===== src/Daemon/Start.antt =====
-- `run` of daemon/flipper_indicator/daemon.py up to the start of the socket server: the checks that a
-- configuration has to pass.
use flipper_agent_indicator.Prelude.{
  zero, suc, ◌%◌, ◌^◌, ◌==◌, ==_iff, [], ◌∷◌, Option, none, ◌≢◌, ◌≡◌, ◌↔◌, refl, Bool, true, false,
  Bool-cases, inl, inr, some, Result, ok, err, if◌then◌else◌, All,
}
use flipper_agent_indicator.Patterns.{Overrides}
use flipper_agent_indicator.Prelude.Int.{pos, negsuc}
use flipper_agent_indicator.Text.{Str}
use flipper_agent_indicator.Config.{
  Value, str, int, float, bool, moment, array, table, no_values, value, no_entries, entry, truth,
  Config, truth_or,
}
use flipper_agent_indicator.Config.Paths.{resolved_tmux_bridge_script, resolved_socket_path}
use flipper_agent_indicator.Patterns.Load.{
  Builtins, LoadError, pattern_table, pattern_table-load_overrides,
}
use flipper_agent_indicator.Patterns.Load.Named.{named}
use flipper_agent_indicator.Patterns.Load.Loaded.{Makes, load_overrides-ok_iff}

-- The `RuntimeError` of `run`, what leaves the constructor of `PatternTable`, or the `RuntimeError` of
-- `Path.expanduser`.
pub data StartError : Type 0 where
  mac_not_configured no_home : StartError
  bad_patterns : LoadError → StartError

-- What the pattern table, the tmux bridge and the socket server are made of.
pub record Prepared : Type 0 where
  pub overrides : Overrides
  pub bridge_script : Str
  pub socket_path : Str

-- bool(config.flipper_mac)
unfoldable pub has_mac : Config → Bool
unfolding truth_or
has_mac config = truth_or false config.flipper_mac

-- The table, the path of the script and the path of the socket, in this order.
unfoldable pub prepare :
    Result LoadError Overrides → Option Str → Option Str → Result StartError Prepared
prepare (err e) script socket = err (bad_patterns e)
prepare (ok o) none socket = err no_home
prepare (ok o) (some script) none = err no_home
prepare (ok o) (some script) (some socket) =
    ok (record { overrides = o; bridge_script = script; socket_path = socket })

-- What a daemon that starts is made of. `expand` is `Path.expanduser`.
unfoldable pub start : Builtins → (Str → Option Str) → Config → Result StartError Prepared
unfolding has_mac prepare pattern_table resolved_tmux_bridge_script resolved_socket_path
start py expand config =
    if has_mac config
    then prepare (pattern_table py (some config.patterns))
        (resolved_tmux_bridge_script expand config) (resolved_socket_path expand config)
    else err mac_not_configured

-- A value that is true: no empty text, number zero of either sign, `false`, empty array or empty table.
abbrev pub IsTrue : Value → Type 0
IsTrue (str s) = s ≢ []
IsTrue (int z) = z ≢ pos 0
IsTrue (float bits) = bits % 2 ^ 63 ≢ 0
IsTrue (bool b) = b ≡ true
IsTrue (moment s) = Unit
IsTrue (array vs) = vs ≢ no_values
IsTrue (table t) = t ≢ no_entries

-- An address is configured.
abbrev pub HasAddress : Option Value → Type 0
HasAddress none = ⊥
HasAddress (some v) = IsTrue v

truth_iff : (v : Value) → (truth v ≡ true) ↔ IsTrue v
unfolding truth
truth_iff (str []) = ((λ h. cc), (λ h. absurd (h refl)))
truth_iff (str (c ∷ cs)) = ((λ h e. cc), (λ h. refl))
truth_iff (int (pos zero)) = ((λ h. cc), (λ h. absurd (h refl)))
truth_iff (int (pos (suc n))) = ((λ h e. cc), (λ h. refl))
truth_iff (int (negsuc n)) = ((λ h e. cc), (λ h. refl))
truth_iff (float bits) = elim (Bool-cases (bits % 2 ^ 63 == 0)) [
  | inl e ↦ ((λ h. cc (rw (e, truth) at h)), (λ h. absurd (h ((==_iff _ _).0 e))))
  | inr e ↦ ((λ h zero. cc ((==_iff _ _).1 zero, e)), (λ h. rw e refl))
]
truth_iff (bool b) = ((λ h. h), (λ h. h))
truth_iff (moment s) = ((λ h. tt), (λ h. refl))
truth_iff (array no_values) = ((λ h. cc), (λ h. absurd (h refl)))
truth_iff (array (value v vs)) = ((λ h e. cc), (λ h. refl))
truth_iff (table no_entries) = ((λ h. cc), (λ h. absurd (h refl)))
truth_iff (table (entry k v rest)) = ((λ h e. cc), (λ h. refl))

truth_or_iff : (v : Option Value) → (truth_or false v ≡ true) ↔ HasAddress v
unfolding truth_or
truth_or_iff none = ((λ h. cc), (λ h. absurd h))
truth_or_iff (some v) = truth_iff v

has_mac-HasAddress : (config : Config) → (has_mac config ≡ true) ↔ HasAddress config.flipper_mac
unfolding has_mac
has_mac-HasAddress config = truth_or_iff config.flipper_mac

prepare-ok_iff :
    (loaded : Result LoadError Overrides) (script socket : Option Str)
    → ((p : Prepared) × (prepare loaded script socket ≡ ok p)) ↔ (
        ((o : Overrides) × (loaded ≡ ok o))
        × ((s : Str) × (script ≡ some s))
        × ((s : Str) × (socket ≡ some s)))
unfolding prepare
prepare-ok_iff (err e) script socket = ((λ (p, h). cc), λ ((o, h), s, t). cc)
prepare-ok_iff (ok o) none socket = ((λ (p, h). cc), λ (loads, (s, h), t). cc)
prepare-ok_iff (ok o) (some script) none = ((λ (p, h). cc), λ (loads, script, (s, h)). cc)
prepare-ok_iff (ok o) (some script) (some socket) =
    ((λ h. ((o, refl), (script, refl), (socket, refl))), (λ h. (_, refl)))

-- A configuration with which a daemon can start.
abbrev pub CanStart : Builtins → (Str → Option Str) → Config → Type 0
CanStart py expand config =
    HasAddress config.flipper_mac
    × All (Makes py) (named py config.patterns)
    × ((script : Str) × (expand config.tmux_bridge_script ≡ some script))
    × ((socket : Str) × (expand config.socket_path ≡ some socket))

-- The daemon gets as far as its socket server exactly if an address is configured, which an empty text and
-- any other false value is not, each table that stands under an agent and a state makes a pattern, and
-- the homes that the paths of the script and of the socket begin with, if they do, are known.
pub start-ok_iff :
    (py : Builtins) (expand : Str → Option Str) (config : Config)
    → ((p : Prepared) × (start py expand config ≡ ok p)) ↔ CanStart py expand config
unfolding start resolved_tmux_bridge_script resolved_socket_path
start-ok_iff py expand config =
    let (has, is) = has_mac-HasAddress config in
    let (to, from) =
      prepare-ok_iff (pattern_table py (some config.patterns)) (expand config.tmux_bridge_script)
        (expand config.socket_path) in
    let (makes, loads) = load_overrides-ok_iff py config.patterns in
    elim (Bool-cases (has_mac config)) [
      | inl e ↦ (
        λ (p, h).
            let (loaded, script, socket) = to (p, rw (e, start) at h) in
            (
              has e,
              makes (rw (pattern_table-load_overrides py config.patterns) at loaded),
              script,
              socket,
            ),
        λ (address, named, script, socket). rw e (
            from
              (rw (pattern_table-load_overrides py config.patterns) (loads named), script, socket)),
      )
      | inr e ↦ ((λ (p, h). cc (rw (e, start) at h)), (λ h. cc (is h.0, e)))
    ]
