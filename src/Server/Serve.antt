-- ===== src/Server/Serve.antt =====
-- The command `serve` of daemon/flipper_indicator/cli.py around `run`, its logging level, and
-- `_install_signal_handlers` of daemon.py. The attributes of the module `logging` and the levels that
-- `basicConfig` takes are arguments, as is whether the event loop has signal handlers.
pub mod Exits
use flipper_agent_indicator.Prelude.{ℕ, Bool, List, [], ◌∷◌, Option, none, some, if◌then◌else◌}
use flipper_agent_indicator.Text.{Str}
use flipper_agent_indicator.Config.{Config}
use flipper_agent_indicator.Patterns.Load.{Builtins}
use flipper_agent_indicator.Cli.{Exit, exit_zero, uncaught}
use flipper_agent_indicator.Daemon.Finish.{Done}
use flipper_agent_indicator.Server.{System}
use flipper_agent_indicator.Server.Run.{RunError, run}

-- What the module `logging` offers: its attributes, and which of them `basicConfig` takes as a level.
pub record Logging {ℓ} (A : Type ℓ) : Type ℓ where
  pub attribute : Str → Option A
  pub info : A
  pub is_level : A → Bool

-- getattr(logging, level.upper(), logging.INFO)
unfoldable pub numeric {ℓ} : {A : Type ℓ} → Logging A → (Str → Str) → Str → A
numeric logging upper level = elim (logging.attribute (upper level)) [
  | none ↦ logging.info
  | some value ↦ value
]

-- `_configure_logging` returns.
unfoldable pub configure_logging {ℓ} : {A : Type ℓ} → Logging A → (Str → Str) → Str → Bool
unfolding numeric
configure_logging logging upper level = logging.is_level (numeric logging upper level)

pub data Signal : Type 0 where
  sigint sigterm : Signal

-- The loop of `_install_signal_handlers`: the signals that set the stop event. Where the event loop
-- raises `NotImplementedError`, none does.
unfoldable pub installed : Bool → List Signal → List Signal
installed has_handlers [] = []
installed has_handlers (s ∷ signals) =
    let rest = installed has_handlers signals in if has_handlers then s ∷ rest else rest

unfoldable pub install_signal_handlers : Bool → List Signal
unfolding installed
install_signal_handlers has_handlers = installed has_handlers (sigint ∷ sigterm ∷ [])

-- What comes of `asyncio.run`: `run` returns or raises, or a SIGINT that no handler takes makes it a
-- `KeyboardInterrupt`.
pub data RunResult {ℓ} (E : Type ℓ) : Type ℓ where
  completed : Option (RunError E) → RunResult E
  keyboard_interrupt : RunResult E

-- `KeyboardInterrupt` is caught; any other exception ends the process with a traceback.
unfoldable pub exit_of {ℓ} : {E : Type ℓ} → RunResult E → Exit
exit_of (completed none) = exit_zero
exit_of (completed (some e)) = uncaught
exit_of keyboard_interrupt = exit_zero

module _ {ℓ} {S : Type 0} {E : Type ℓ} (sys : System S) (process : ℕ) where
  -- `asyncio.run(daemon_mod.run(cfg))`; `interrupted` is the state of the path that a `KeyboardInterrupt`
  -- leaves, if there is one.
  unfoldable pub asyncio_run :
      Builtins
      → (Str → Option Str)
      → (S → S)
      → List (Done E)
      → S
      → Config
      → Option S
      → S × RunResult E
  unfolding run
  asyncio_run py expand meanwhile done s config (some left) = (left, keyboard_interrupt)
  asyncio_run py expand meanwhile done s config none =
      let (after, raised) = run sys process py expand config meanwhile done s in
      (after, completed raised)

  unfoldable pub serve_loaded :
      Builtins
      → (Str → Option Str)
      → (S → S)
      → List (Done E)
      → S
      → Option S
      → Option Config
      → S × Exit
  unfolding exit_of asyncio_run
  serve_loaded py expand meanwhile done s interrupted none = (s, uncaught)
  serve_loaded py expand meanwhile done s interrupted (some config) =
      let (after, ended) = asyncio_run py expand meanwhile done s config interrupted in
      (after, exit_of ended)

  -- `serve`; `loaded` is what `config.load()` returns, or none where it raises.
  unfoldable pub serve {κ} :
      {A : Type κ}
      → Logging A
      → Str
      → Option Config
      → Builtins
      → (Str → Option Str)
      → (S → S)
      → List (Done E)
      → S
      → Option S
      → S × Exit
  unfolding configure_logging serve_loaded
  serve logging level loaded py expand meanwhile done s interrupted =
      if configure_logging logging py.upper level
      then serve_loaded py expand meanwhile done s interrupted loaded
      else (s, uncaught)
