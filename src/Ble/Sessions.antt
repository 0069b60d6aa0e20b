-- ===== src/Ble/Sessions.antt =====
-- How one session of the BLE client ends.
use flipper_agent_indicator.Prelude.{
  ◌≡◌, ◌≢◌, refl, ◌∙◌, Bool, true, false, ◌||◌, List, [], ◌∷◌, none, some, arith, Option-cases, inl,
  inr,
}
use flipper_agent_indicator.Utf8.{Bytes}
use flipper_agent_indicator.Ble.{
  Client, next_frame, Reply, returns, raises, Progress, returned, Link, down, up, arrive, Round,
  waits, sends, fails, send_frame, pump_round, Ended, and_then, pump, World, connecting, serving,
  session,
}

-- The session gets as far as a connection.
unfoldable pub connects : World → Bool
connects w = elim (connecting w) [ none ↦ true | some e ↦ false ]

abbrev pub client_of : Ended → Client
client_of r = r.1

abbrev pub progress_of : Ended → Progress
progress_of r = r.2

and_then-ne-returned :
    (r : Round) (rest : Client → Ended)
    → ((c : Client) → progress_of (rest c) ≢ returned)
    → progress_of (and_then r rest) ≢ returned
unfolding and_then
and_then-ne-returned (waits c) rest h e = cc
and_then-ne-returned (fails x c) rest h e = cc
and_then-ne-returned (sends f c) rest h e = h c e

pump-ne-returned :
    (rounds : List (List Bytes × Link)) (c : Client) → progress_of (pump c rounds) ≢ returned
unfolding pump
pump-ne-returned [] c e = cc
pump-ne-returned ((arrivals, link) ∷ rounds) c e =
    and_then-ne-returned (pump_round c arrivals link) (λ c'. pump c' rounds)
      (pump-ne-returned rounds) e

serving-ne-returned :
    (c : Client) (r : Reply) (rounds : List (List Bytes × Link))
    → progress_of (serving c r rounds) ≢ returned
unfolding serving
serving-ne-returned c raises rounds e = cc
serving-ne-returned c returns rounds e = pump-ne-returned rounds c e

-- A session never ends by returning: it still runs, or an exception has ended it.
pub session-ne-returned : (c : Client) (w : World) → progress_of (session c w) ≢ returned
unfolding session
session-ne-returned c w e = elim (Option-cases (connecting w)) [
  | inl h ↦ serving-ne-returned _ w.subscribe w.rounds (rw (h, session) at e)
  | inr (x, h) ↦ cc (rw (h, session) at e)
]

-- The pump leaves `_had_success` alone.
abbrev round_client : Round → Client
round_client (waits c) = c
round_client (sends f c) = c
round_client (fails e c) = c

had_success-send_frame :
    (f : Bytes) (c : Client) (link : Link)
    → (round_client (send_frame f c link)).had_success ≡ c.had_success
unfolding send_frame
had_success-send_frame f c down = refl
had_success-send_frame f c (up meanwhile raises) = refl
had_success-send_frame f c (up meanwhile returns) = refl

had_success-next_frame :
    (c : Client) {f : Bytes} {c' : Client}
    → next_frame c ≡ some (f, c')
    → c'.had_success ≡ c.had_success
unfolding next_frame
had_success-next_frame c h = ground arith

had_success-arrive :
    (c : Client) (arrivals : List Bytes) → (arrive c arrivals).had_success ≡ c.had_success
unfolding arrive
had_success-arrive c arrivals = refl

had_success-pump_round :
    (c : Client) (arrivals : List Bytes) (link : Link)
    → (round_client (pump_round c arrivals link)).had_success ≡ c.had_success
unfolding pump_round
had_success-pump_round c arrivals link = elim (Option-cases (next_frame (arrive c arrivals))) [
  | inl e ↦ rw (e, pump_round) (had_success-arrive c arrivals)
  | inr ((f, c'), e) ↦
      rw (e, pump_round)
        (had_success-send_frame f c' link
          ∙ had_success-next_frame (arrive c arrivals) e
          ∙ (had_success-arrive c arrivals))
]

had_success-and_then :
    (r : Round) (rest : Client → Ended)
    → ((c : Client) → (client_of (rest c)).had_success ≡ c.had_success)
    → (client_of (and_then r rest)).had_success ≡ (round_client r).had_success
unfolding and_then
had_success-and_then (waits c) rest h = refl
had_success-and_then (fails e c) rest h = refl
had_success-and_then (sends f c) rest h = h c

had_success-pump :
    (rounds : List (List Bytes × Link)) (c : Client)
    → (client_of (pump c rounds)).had_success ≡ c.had_success
unfolding pump
had_success-pump [] c = refl
had_success-pump ((arrivals, link) ∷ rounds) c =
    had_success-and_then (pump_round c arrivals link) (λ c'. pump c' rounds)
      (had_success-pump rounds)
    ∙ had_success-pump_round c arrivals link

had_success-serving :
    (c : Client) (r : Reply) (rounds : List (List Bytes × Link))
    → (client_of (serving c r rounds)).had_success ≡ c.had_success
unfolding serving
had_success-serving c raises rounds = refl
had_success-serving c returns rounds = had_success-pump rounds c

-- Once a session has connected, `_had_success` stays set.
pub had_success-session :
    (c : Client) (w : World) → (client_of (session c w)).had_success ≡ (c.had_success || connects w)
unfolding session connects
had_success-session c w = elim (Option-cases (connecting w)) [
  | inl h ↦ rw (h, session, connects) (had_success-serving _ w.subscribe w.rounds ∙ (ground arith))
  | inr (x, h) ↦ rw (h, session, connects) (ground arith)
]
