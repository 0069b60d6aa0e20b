-- ===== src/Ble/Restart.antt =====
-- `run_forever`: when it ends the process.
use native.Mathlib.Nat.{zero-add}
use flipper_agent_indicator.Prelude.{
  ◌+◌, ◌≤◌, ◌≡◌, ◌≢◌, refl, ap, sym, ◌∙◌, ◌↔◌, Bool, true, false, List, [], ◌∷◌, arith, Bool-cases,
  inl, inr, length, if◌then◌else◌,
}
use flipper_agent_indicator.Ble.{
  Client, World, Loop, loop_start, in_session, between, exited, run_forever,
}
use flipper_agent_indicator.Ble.Sessions.{connects}
use flipper_agent_indicator.Ble.Retry.{IsLoop, after_pause, runs, gives_up, sleeps, first_ending}

-- The world's first answers that let a session connect, and all that come behind them.
abbrev pub since_first : List World → List World
since_first [] = []
since_first (w ∷ ws) = let rest = since_first ws in if connects w then w ∷ ws else rest

-- The worlds that count, by whether a session has connected before.
abbrev counted : Bool → List World → List World
counted true ws = ws
counted false ws = since_first ws

-- By how much one session brings the process nearer to its end.
counted_step :
    (l : Loop) (w : World) (ws : List World)
    → l.failures + length (counted l.had_success (w ∷ ws))
      ≡ (after_pause l w).failures + length (counted (after_pause l w).had_success ws)
counted_step l w ws = elim (Bool-cases l.had_success) [
  | inl h ↦ rw h (omega arith)
  | inr h ↦ elim (Bool-cases (connects w)) [ inl b ↦ rw (h, b) (omega arith) | inr b ↦ rw (h, b) ]
]

status_nil : (l : Loop) (c : Client) → (run_forever l c []).1 ≡ between
unfolding run_forever
status_nil l c = refl

none_counted : (h : Bool) → length (counted h []) ≡ 0
none_counted true = refl
none_counted false = refl

exited_iff :
    (ws : List World) (l : Loop) (c : Client)
    → IsLoop l c
    → (run_forever l c ws).1 ≢ in_session
    → ((run_forever l c ws).1 ≡ exited) ↔ (3 ≤ l.failures + length (counted l.had_success ws))
exited_iff [] l c ok ended =
    ((λ h. cc (status_nil l c)), (λ h. absurd (omega (arith, ok.few, none_counted l.had_success))))
exited_iff (w ∷ ws) l c ok ended = elim (first_ending l c w ws ok) [
  | runs e ↦ absurd (ended (ap (λ r. r.1) e))
  | gives_up e h many ↦
      ((λ _. rw (counted_step l w ws) (rw h (omega arith))), (λ _. ap (λ r. r.1) e))
  | sleeps c' ok' e ↦
      let status : (run_forever l c (w ∷ ws)).1 ≡ (run_forever (after_pause l w) c' ws).1 =
        ap (λ r. r.1) e in
      let (to, from) = exited_iff ws (after_pause l w) c' ok' (λ h. ended (status ∙ h)) in
      (
        (λ h. rw (counted_step l w ws) (to (sym status ∙ h))),
        (λ h. status ∙ from (rw (counted_step l w ws) at h)),
      )
]

-- Once no session runs, the process has ended exactly if three sessions have failed since the first
-- one that connected, that one included. It makes no difference whether the later ones connected,
-- nor how long they lasted and what they sent: no session sets the count back.
pub exited_after_three_iff :
    (c : Client) (ws : List World)
    → c.had_success ≡ false
    → (run_forever loop_start c ws).1 ≢ in_session
    → ((run_forever loop_start c ws).1 ≡ exited) ↔ (3 ≤ length (since_first ws))
exited_after_three_iff c ws h ended =
    let ok : IsLoop loop_start c = record {
      agree = h;
      few = omega arith;
      none_before = λ _. refl;
    } in
    rw (zero-add (length (since_first ws))) at (exited_iff ws loop_start c ok ended)
