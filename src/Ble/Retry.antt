-- ===== src/Ble/Retry.antt =====
-- `run_forever`: what one session that ends makes of the loop.
use flipper_agent_indicator.Prelude.{
  min, refl, ◌+◌, ◌*◌, ◌≤◌, ◌<◌, ◌≡◌, ◌∙◌, Bool, true, false, ◌||◌, List, [], ◌∷◌, some, arith,
  Bool-cases, inl, inr, if◌then◌else◌, leb, leb→le,
}
use flipper_agent_indicator.Ble.{
  pause, SessionError, go_on, Client, Progress, waiting, returned, raised, World, session, Loop,
  sleep, exit, fail, session_end, in_session, exited, run_forever,
}
use flipper_agent_indicator.Ble.Sessions.{
  connects, client_of, progress_of, session-ne-returned, had_success-session,
}

-- The loop and the client agree on whether a session has connected, and failures were counted only
-- after that.
pub record IsLoop (l : Loop) (c : Client) : Type 0 where
  pub agree : c.had_success ≡ l.had_success
  pub few : l.failures < 3
  pub none_before : l.had_success ≡ false → l.failures ≡ 0

-- The loop after a session that failed and was followed by a sleep.
abbrev pub after_pause : Loop → World → Loop
after_pause l w = record l {
  backoff = min (l.backoff * 2) 30;
  had_success = l.had_success || connects w;
  failures = if l.had_success || connects w then l.failures + 1 else l.failures;
}

-- The three ways in which the first session of a run ends.
pub data Ending (l : Loop) (c : Client) (w : World) (ws : List World) : Type 0 where
  runs : run_forever l c (w ∷ ws) ≡ ([], in_session) → Ending l c w ws
  gives_up :
      run_forever l c (w ∷ ws) ≡ ([], exited)
      → (l.had_success || connects w) ≡ true
      → 3 ≤ l.failures + 1
      → Ending l c w ws
  sleeps :
      (c' : Client)
      → IsLoop (after_pause l w) c'
      → run_forever l c (w ∷ ws) ≡ (
        l.backoff ∷ (run_forever (after_pause l w) c' ws).0,
        (run_forever (after_pause l w) c' ws).1,
      )
      → Ending l c w ws

or_absorb : (a b : Bool) → (a || (a || b)) ≡ (a || b)
or_absorb true b = refl
or_absorb false b = refl

module _ (l : Loop) (c : Client) (w : World) (ws : List World) where
  next_client : Client
  next_client = client_of (session c w)

  run_waiting : progress_of (session c w) ≡ waiting → run_forever l c (w ∷ ws) ≡ ([], in_session)
  unfolding run_forever session_end go_on
  run_waiting e = rw e

  run_raised :
      (x : SessionError)
      → IsLoop l c
      → progress_of (session c w) ≡ raised x
      → run_forever l c (w ∷ ws)
        ≡ go_on
            (some (fail (record l { had_success = l.had_success || connects w })))
            (λ l'. run_forever l' next_client ws)
  unfolding run_forever session_end next_client
  run_raised x ok e =
      rw (e, had_success-session c w, ok.agree, or_absorb l.had_success (connects w))

  succeeded : IsLoop l c → next_client.had_success ≡ (l.had_success || connects w)
  unfolding next_client
  succeeded ok = rw (← ok.agree) (had_success-session c w)

  -- The loop with the success of this session noted.
  noted : Loop
  noted = record l { had_success = l.had_success || connects w }

  fail_early :
      (l.had_success || connects w) ≡ false → fail noted ≡ (after_pause l w, sleep l.backoff)
  unfolding fail pause noted
  fail_early h = rw h

  fail_again :
      (l.had_success || connects w) ≡ true
      → leb 3 (l.failures + 1) ≡ false
      → fail noted ≡ (after_pause l w, sleep l.backoff)
  unfolding fail pause noted
  fail_again h few = rw (h, few)

  fail_last :
      (l.had_success || connects w) ≡ true
      → leb 3 (l.failures + 1) ≡ true
      → fail noted ≡ (record noted { failures = l.failures + 1 }, exit)
  unfolding fail pause noted
  fail_last h many = rw (h, many)

  slept :
      (x : SessionError)
      → IsLoop l c
      → progress_of (session c w) ≡ raised x
      → fail noted ≡ (after_pause l w, sleep l.backoff)
      → IsLoop (after_pause l w) next_client
      → Ending l c w ws
  unfolding noted go_on
  slept x ok e f next = sleeps next_client next (run_raised x ok e ∙ rw f)

  raised_ending :
      (x : SessionError) → IsLoop l c → progress_of (session c w) ≡ raised x → Ending l c w ws
  unfolding noted go_on
  raised_ending x ok e = elim (Bool-cases (l.had_success || connects w)) [
    | inr h ↦
        let fresh : l.had_success ≡ false = ground arith in
        slept x ok e (fail_early h) (record {
          agree = succeeded ok;
          few = rw h ok.few;
          none_before = λ _. rw h (ok.none_before fresh);
        })
    | inl h ↦ elim (Bool-cases (leb 3 (l.failures + 1))) [
      | inl many ↦ gives_up (run_raised x ok e ∙ rw (fail_last h many)) h (leb→le _ _ many)
      | inr few ↦ slept x ok e (fail_again h few) (record {
        agree = succeeded ok;
        few = rw h (ground arith);
        none_before = λ no. cc (h, no);
      })
    ]
  ]

pub first_ending :
    (l : Loop) (c : Client) (w : World) (ws : List World) → IsLoop l c → Ending l c w ws
first_ending l c w ws ok = by_progress (progress_of (session c w)) refl
  where
    by_progress : (p : Progress) → progress_of (session c w) ≡ p → Ending l c w ws
    by_progress waiting e = runs (run_waiting l c w ws e)
    by_progress returned e = absurd (session-ne-returned c w e)
    by_progress (raised x) e = raised_ending l c w ws x ok e
