-- ===== src/Server/Run.antt =====
-- `run` of daemon/flipper_indicator/daemon.py, from the checks of the configuration to the removal of
-- the socket file. What the four tasks do meanwhile to the path is an argument, as are the tasks that
-- are done first.
use mathlib.Core.Option.{map}
use flipper_agent_indicator.Prelude.{
  ◌↔◌, All, subst, sym, ℕ, ◌≡◌, ◌≢◌, ◌⊎◌, inl, inr, refl, ap, true, List, Option, none, some,
  Result, ok, err,
}
use flipper_agent_indicator.Text.{Str}
use flipper_agent_indicator.Config.{Config}
use flipper_agent_indicator.Patterns.Load.{Builtins}
use flipper_agent_indicator.Daemon.Start
use flipper_agent_indicator.Daemon.Start.{StartError, Prepared}
use flipper_agent_indicator.Daemon.Finish.{
  Done, surfaced, run_end, IsFirst, HasNotFailed, surfaced_iff, surfaced-none_iff,
}
use flipper_agent_indicator.Server.{System, OsError, Effect, start, served, stop}
use flipper_agent_indicator.Server.Laws.{IsSystem, connect-start, connect-stop}

-- What leaves `run`: an exception before the socket server, of the system, or of a task.
pub data RunError {ℓ} (E : Type ℓ) : Type ℓ where
  start_error : StartError → RunError E
  os_error : OsError → RunError E
  task_error : E → RunError E

-- An exception in the `finally` block takes the place of the one that is on its way.
unfoldable pub finally_raised {ℓ} : {E : Type ℓ} → Option OsError → Option E → Option (RunError E)
finally_raised (some e) raised = some (os_error e)
finally_raised none raised = map task_error raised

module _ {ℓ} {S : Type 0} {E : Type ℓ} (sys : System S) (process : ℕ) where
  -- The state of the path in the end, and what is raised.
  unfoldable pub wind_up : (S → S) → List (Done E) → S → S × Option (RunError E)
  unfolding stop served finally_raised run_end
  wind_up meanwhile done s =
      let (after, raised) = stop sys process true (served sys process (meanwhile s)) in
      (after, finally_raised raised (run_end done).raises)

  unfoldable pub with_server : (S → S) → List (Done E) → Effect S → S × Option (RunError E)
  unfolding wind_up
  with_server meanwhile done (s, none) = wind_up meanwhile done s
  with_server meanwhile done (s, some e) = (s, some (os_error e))

  unfoldable pub when_checked :
      (S → S) → List (Done E) → S → Result StartError Prepared → S × Option (RunError E)
  unfolding with_server
  when_checked meanwhile done s (err e) = (s, some (start_error e))
  when_checked meanwhile done s (ok prepared) = with_server meanwhile done (start sys process s)

  -- `run`; `expand` is `Path.expanduser`.
  unfoldable pub run :
      Builtins → (Str → Option Str) → Config → (S → S) → List (Done E) → S → S × Option (RunError E)
  unfolding when_checked
  run py expand config meanwhile done s =
      when_checked meanwhile done s (Start.start py expand config)

  -- A run that the configuration ends leaves the path as it was.
  abbrev pub WasRefused : S → StartError → S × Option (RunError E) → Type ℓ
  WasRefused s e ended = ended ≡ (s, some (start_error e))

  -- What is raised is the exception of the first of the done tasks that failed, if one did.
  abbrev pub RaisesFirst : List (Done E) → Option (RunError E) → Type ℓ
  RaisesFirst done raised =
      ((e : E) → (raised ≡ some (task_error e)) ↔ IsFirst e done)
      × ((raised ≡ none) ↔ All HasNotFailed done)

  -- A run whose server was reached, that no connection reaches in the end, and that raises what the
  -- done tasks say.
  abbrev pub HasServed : S → List (Done E) → S × Option (RunError E) → Type ℓ
  HasServed s done ended =
      ((begun : S) × (start sys process s ≡ (begun, none)) × (sys.connect begun ≡ some process))
      × ((sys.connect ended.0 ≡ none) × RaisesFirst done ended.1)

  mapped_iff :
      (raised : Option E)
      → ((e : E) → (map task_error raised ≡ some (task_error e)) ↔ (raised ≡ some e))
        × ((map task_error raised ≡ none) ↔ (raised ≡ none))
  mapped_iff none = ((λ e. ((λ h. cc), (λ h. cc))), ((λ h. refl), (λ h. refl)))
  mapped_iff (some x) = ((λ e. ((λ h. cc), (λ h. ap (map task_error) h))), ((λ h. cc), (λ h. cc)))

  surfaced-RaisesFirst : (done : List (Done E)) → RaisesFirst done (map task_error (surfaced done))
  surfaced-RaisesFirst done =
      let (some_iff, none_iff) = mapped_iff (surfaced done) in
      (
        λ e.
            let (to, from) = some_iff e in
            let (first, back) = surfaced_iff e done in ((λ h. first (to h)), (λ h. from (back h))),
        let (to, from) = none_iff in
            let (calm, back) = surfaced-none_iff done in ((λ h. calm (to h)), (λ h. from (back h))),
      )

  -- The run raised no exception of the system.
  abbrev pub IsCalm : Option (RunError E) → Type ℓ
  IsCalm raised = (e : OsError) → raised ≢ some (os_error e)

  finally-calm :
      (left : Option OsError) (raised : Option E)
      → IsCalm (finally_raised left raised)
      → (left ≡ none) × (finally_raised left raised ≡ map task_error raised)
  unfolding finally_raised
  finally-calm (some e) raised calm = absurd (calm e refl)
  finally-calm none raised calm = (refl, refl)

  module _ (laws : IsSystem sys) where
    wind_up-served :
        (meanwhile : S → S) (done : List (Done E)) (s : S)
        → IsCalm (wind_up meanwhile done s).1
        → (sys.connect (wind_up meanwhile done s).0 ≡ none)
          × RaisesFirst done (wind_up meanwhile done s).1
    unfolding wind_up run_end
    wind_up-served meanwhile done s calm =
        let left : Effect S = stop sys process true (served sys process (meanwhile s)) in
        let (quiet, raised) = finally-calm left.1 (surfaced done) calm in
        (
          connect-stop sys laws process true (served sys process (meanwhile s)) left.0
              (ap (λ r. (left.0, r)) quiet),
          subst (RaisesFirst done) (sym raised) (surfaced-RaisesFirst done),
        )

    with_server-served :
        (meanwhile : S → S) (done : List (Done E)) (s : S) (started : Effect S)
        → start sys process s ≡ started
        → IsCalm (with_server meanwhile done started).1
        → HasServed s done (with_server meanwhile done started)
    unfolding with_server
    with_server-served meanwhile done s (begun, none) same calm = (
      (begun, same, connect-start sys laws process s begun same),
      wind_up-served meanwhile done begun calm,
    )
    with_server-served meanwhile done s (begun, some e) same calm = absurd (calm e refl)

    when_checked-served :
        (meanwhile : S → S) (done : List (Done E)) (s : S) (checked : Result StartError Prepared)
        → IsCalm (when_checked meanwhile done s checked).1
        → ((e : StartError) × (checked ≡ err e)
            × WasRefused s e (when_checked meanwhile done s checked))
          ⊎ HasServed s done (when_checked meanwhile done s checked)
    unfolding when_checked
    when_checked-served meanwhile done s (err e) calm = inl (e, refl, refl)
    when_checked-served meanwhile done s (ok prepared) calm =
        inr (with_server-served meanwhile done s (start sys process s) refl calm)

    -- A run without an exception of the system either is ended by its configuration, and then leaves the
    -- path as it was, or its server was reached by connections when its tasks began; in the end no
    -- connection reaches anything, and it raises an exception exactly if that is the one of the first done
    -- task that failed, and none exactly if no done task failed.
    pub run-served :
        (py : Builtins) (expand : Str → Option Str) (config : Config) (meanwhile : S → S)
        (done : List (Done E)) (s : S)
        → IsCalm (run py expand config meanwhile done s).1
        → ((e : StartError) × (Start.start py expand config ≡ err e)
            × WasRefused s e (run py expand config meanwhile done s))
          ⊎ HasServed s done (run py expand config meanwhile done s)
    unfolding run
    run-served py expand config meanwhile done s calm =
        when_checked-served meanwhile done s (Start.start py expand config) calm
