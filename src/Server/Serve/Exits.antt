-- ===== src/Server/Serve/Exits.antt =====
-- When the command `serve` ends with status 0.
use flipper_agent_indicator.Prelude.{ℕ, ◌≡◌, ◌≢◌, ◌⊎◌, true, false, List, All, Option, none, some}
use flipper_agent_indicator.Text.{Str}
use flipper_agent_indicator.Config.{Config}
use flipper_agent_indicator.Patterns.Load.{Builtins}
use flipper_agent_indicator.Daemon.Start
use flipper_agent_indicator.Daemon.Start.{CanStart}
use flipper_agent_indicator.Daemon.Finish.{Done, HasNotFailed}
use flipper_agent_indicator.Server.{System, file_not_found}
use flipper_agent_indicator.Server.Serve.{Logging}

-- No call of the system raises, but that a path to remove may be missing, where it does not exist.
pub record IsCalmSystem {S : Type 0} (sys : System S) : Type 0 where
  pub makes_parent : (s : S) → (sys.make_parent s).1 ≡ none
  pub listens : (k : ℕ) (s : S) → (sys.listen k s).1 ≡ none
  pub chmods : (s : S) → (sys.chmod s).1 ≡ none
  pub unlinks : (s : S) → sys.exists s ≡ true → (sys.unlink s).1 ≡ none
  pub misses : (s : S) → sys.exists s ≡ false → (sys.unlink s).1 ≡ some file_not_found

-- The level names an attribute of the module `logging` that is a level, or none, when `INFO` is one.
abbrev pub IsLevel {ℓ} : {A : Type ℓ} → Logging A → Str → Type ℓ
IsLevel {A = A} logging name =
    ((value : A) × (logging.attribute name ≡ some value) × (logging.is_level value ≡ true))
    ⊎ ((logging.attribute name ≡ none) × (logging.is_level logging.info ≡ true))

-- The process is interrupted, or the daemon can start and no done task failed.
abbrev pub EndsWell {ℓ} :
    {S : Type 0} {E : Type ℓ}
    → Builtins
    → (Str → Option Str)
    → List (Done E)
    → Option S
    → Config
    → Type 0
EndsWell py expand done interrupted config =
    (interrupted ≢ none) ⊎ (CanStart py expand config × All HasNotFailed done)
