-- ===== src/Ble/Backoff.antt =====
-- `run_forever`: how long it sleeps between sessions.
use native.Mathlib.Nat.{pow-suc}
use flipper_agent_indicator.Prelude.{
  ℕ, zero, suc, ◌*◌, ◌^◌, min, ◌≡◌, refl, ap, ◌∙◌, false, List, [], ◌∷◌, arith, length,
}
use flipper_agent_indicator.Ble.{Client, World, Loop, loop_start, run_forever}
use flipper_agent_indicator.Ble.Retry.{IsLoop, after_pause, runs, gives_up, sleeps, first_ending}

-- The exponential backoff in closed form: from the k-th session on, `n` sleeps.
abbrev pub doublings : ℕ → ℕ → List ℕ
doublings k zero = []
doublings k (suc n) = min (2 ^ k) 30 ∷ doublings (suc k) n

double_step : (k : ℕ) → min (min (2 ^ k) 30 * 2) 30 ≡ min (2 ^ suc k) 30
double_step k = omega (arith, pow-suc 2 k)

run-doublings :
    (ws : List World) (l : Loop) (c : Client) (k : ℕ)
    → IsLoop l c
    → l.backoff ≡ min (2 ^ k) 30
    → (run_forever l c ws).0 ≡ doublings k (length (run_forever l c ws).0)
unfolding run_forever
run-doublings [] l c k ok b = refl
run-doublings (w ∷ ws) l c k ok b = elim (first_ending l c w ws ok) [
  | runs e ↦ rw e
  | gives_up e h many ↦ rw e
  | sleeps c' ok' e ↦ rw e (
      ap (λ n. n ∷ (run_forever (after_pause l w) c' ws).0) b
      ∙ ap (λ s. min (2 ^ k) 30 ∷ s)
          (run-doublings ws (after_pause l w) c' (suc k) ok'
            (ap (λ n. min (n * 2) 30) b ∙ double_step k)))
]

start-IsLoop : (c : Client) → c.had_success ≡ false → IsLoop loop_start c
start-IsLoop c h = record { agree = h; few = omega arith; none_before = λ _. refl }

-- However the sessions of a new client go, connected or not, the k-th sleep (from 0) takes
-- min (2 ^ k) 30 seconds: nothing that happens in a session sets the backoff back.
pub sleeps-doublings :
    (c : Client) (ws : List World)
    → c.had_success ≡ false
    → (run_forever loop_start c ws).0 ≡ doublings 0 (length (run_forever loop_start c ws).0)
sleeps-doublings c ws h = run-doublings ws loop_start c 0 (start-IsLoop c h) refl
