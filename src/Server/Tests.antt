-- ===== src/Server/Tests.antt =====
-- Tests of the socket's life, over a system where every call succeeds: the process whose socket file
-- stands at the path, and the processes whose servers are open.
use flipper_agent_indicator.Prelude.{
  ℕ, ◌≡◌, ◌⊎◌, refl, ap, sym, ◌∙◌, Bool, true, false, ◌||◌, List, [], ◌∷◌, Option, none, some, err,
  ◌==◌, ==_refl, if◌then◌else◌,
}
use flipper_agent_indicator.Text.{Str, codes, eq_str}
use flipper_agent_indicator.Cli.{exit_zero, uncaught}
use flipper_agent_indicator.Server.Serve.{Logging, sigint, sigterm, install_signal_handlers, serve}
use flipper_agent_indicator.Config.{Config, str, no_entries, truth, truth_or}
use flipper_agent_indicator.Patterns.Load.{Builtins, load_overrides}
use flipper_agent_indicator.Daemon.Start
use flipper_agent_indicator.Daemon.Start.{StartError}
use flipper_agent_indicator.Daemon.Finish
use flipper_agent_indicator.Server.{System, OsError, file_not_found, Effect, start, stop}
use flipper_agent_indicator.Server.Laws.{IsSystem}
use flipper_agent_indicator.Server.Status.{up, exit_code, status, stop-hides_other}
use flipper_agent_indicator.Server.Run.{
  RunError, task_error, run, WasRefused, HasServed, run-served,
}

abbrev Host : Type 0
Host = Option ℕ × List ℕ

abbrev is_open : ℕ → List ℕ → Bool
is_open k [] = false
is_open k (n ∷ ns) = n == k || is_open k ns

abbrev without : ℕ → List ℕ → List ℕ
without k [] = []
without k (n ∷ ns) = let rest = without k ns in if n == k then rest else n ∷ rest

abbrev has_file : Option ℕ → Bool
has_file none = false
has_file (some k) = true

abbrev reached : Option ℕ → List ℕ → Option ℕ
reached none live = none
reached (some k) live = if is_open k live then some k else none

abbrev removed : Option ℕ → List ℕ → Effect Host
removed none live = ((none, live), some file_not_found)
removed (some k) live = ((none, live), none)

abbrev host : System Host
host = record {
  exists = λ s. has_file s.0;
  make_parent = λ s. (s, none);
  unlink = λ s. removed s.0 s.1;
  listen = λ k s. ((some k, k ∷ s.1), none);
  chmod = λ s. (s, none);
  close = λ k s. (s.0, without k s.1);
  connect = λ s. reached s.0 s.1;
}

removes :
    (file : Option ℕ) (live : List ℕ) {t : Host} {e : Option OsError}
    → removed file live ≡ (t, e)
    → has_file t.0 ≡ false
removes none live h = ap (λ (r : Effect Host). has_file r.0.0) (sym h)
removes (some k) live h = ap (λ (r : Effect Host). has_file r.0.0) (sym h)

needs : (file : Option ℕ) (live : List ℕ) → has_file file ≡ false → reached file live ≡ none
needs none live h = refl
needs (some k) live h = cc

reaches : (k : ℕ) (live : List ℕ) → reached (some k) (k ∷ live) ≡ some k
reaches k live = rw (==_refl k) refl

host-IsSystem : IsSystem host
host-IsSystem = record {
  unlink_removes = λ s t h. removes s.0 s.1 h;
  unlink_misses = λ s t h. removes s.0 s.1 h;
  connect_needs = λ s h. needs s.0 s.1 h;
  listen_reaches = λ k s t h. ap (λ (r : Effect Host). reached r.0.0 r.0.1) (sym h) ∙ reaches k s.1;
  chmod_keeps = λ s t h. ap (λ (r : Effect Host). reached r.0.0 r.0.1) (sym h);
}

-- A socket file of process 3, which was killed, and process 1, which runs.
abbrev stale : Host
stale = (some 3, [])

abbrev running : Host
running = (some 1, 1 ∷ [])

-- Process 2 starts while process 1 runs, which then stops: process 2 is open, and is not reached.
stop-hides_other_example :
    (reached (some 2) (2 ∷ 1 ∷ []) ≡ some 2)
    × (status host true (some 2, 2 ∷ 1 ∷ []) ≡ up)
    × (exit_code (status host true (none, 2 ∷ [])) ≡ 1)
unfolding start stop
stop-hides_other_example =
    stop-hides_other host host-IsSystem 1 2 running (some 2, 2 ∷ 1 ∷ []) (none, 2 ∷ []) refl refl

abbrev py : Builtins
py = record { upper = λ s. s; to_int = λ v. none; show = λ v. [] }

abbrev expand : Str → Option Str
expand s = some s

abbrev configured : Config
configured = record {
  flipper_mac = some (str (codes "AA:BB"));
  tmux_bridge_enabled = true;
  tmux_bridge_script = [];
  log_path = [];
  socket_path = [];
  patterns = no_entries;
}

abbrev ending : List (Finish.Done ℕ)
ending = Finish.returned ∷ Finish.raised 7 ∷ []

-- A run over a stale file, until a task fails.
fails : run host 1 py expand configured (λ s. s) ending stale ≡ ((none, []), some (task_error 7))
unfolding run Start.start truth_or truth load_overrides start
fails = refl

run-served_example :
    ((e : StartError) × (Start.start py expand configured ≡ err e)
      × WasRefused host 1 stale e (run host 1 py expand configured (λ s. s) ending stale))
    ⊎ HasServed host 1 stale ending (run host 1 py expand configured (λ s. s) ending stale)
run-served_example =
    run-served host 1 host-IsSystem py expand configured (λ s. s) ending stale
      λ e h. cc (ap (λ (r : Host × Option (RunError ℕ)). r.1) (sym fails), h)

abbrev logging : Logging ℕ
logging = record {
  attribute = λ s. if eq_str s (codes "DEBUG") then some 10 else none;
  info = 20;
  is_level = λ n. n == 10 || n == 20;
}

-- A daemon that is told to stop by a signal.
abbrev stopping : List (Finish.Done ℕ)
stopping = Finish.stop_task ∷ []

-- Both signals have a handler where the event loop has handlers.
signals :
    (install_signal_handlers true ≡ sigint ∷ sigterm ∷ []) × (install_signal_handlers false ≡ [])
unfolding install_signal_handlers
signals = (refl, refl)

serve_runs :
    (serve host 1 logging (codes "DEBUG") (some configured) py expand (λ s. s) stopping stale none
      ≡ ((none, []), exit_zero))
    × (serve host 1 logging (codes "DEBUG") (some configured) py expand (λ s. s) ending stale none
        ≡ ((none, []), uncaught))
    × (serve host 1 logging
          (codes "DEBUG")
          (some configured)
          py
          expand
          (λ s. s)
          ending
          stale
          (some running)
        ≡ (running, exit_zero))
    × (serve host 1 logging (codes "LOUD") none py expand (λ s. s) stopping stale none
        ≡ (stale, uncaught))
unfolding serve run Start.start truth_or truth load_overrides start
serve_runs = (refl, refl, refl, refl)
