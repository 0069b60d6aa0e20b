-- ===== src/Whole/Settles.antt =====
-- From everywhere the daemon, the radio and the device can come to rest.
use flipper_agent_indicator.Prelude.{
  ◌≡◌, ◌⊎◌, inl, inr, refl, ap, subst, ◌∙◌, true, [], none, some, last,
}
use mathlib.Core.List.{map}
use flipper_agent_indicator.Ble.Order.{IsEmpty, next_frame-cases}
use flipper_agent_indicator.Firmware.App.{ui_idle}
use flipper_agent_indicator.Whole.Rig.{at_rest, taken, Rig, Move, takes, Reach, next, start}
use flipper_agent_indicator.Whole.Arrived.{device_frame}
use flipper_agent_indicator.Whole.Displayed.{IsQuiet, quiet_shows_latest}
use flipper_agent_indicator.Whole.Lands.{
  Move-Onward, Onward, Onward-trans, empties_queue, lands_taken, lands, Reach-trans,
}

-- All frames that wait are sent or replaced.
delivers :
    (p : Rig)
    → Reach start p
    → p.app.running ≡ true
    → (q : Rig) × Onward p q × (q.wire ≡ []) × (q.flight ≡ at_rest) × IsEmpty q.client
delivers p r on =
    let (q, onward, (done, flight, client)) = lands p.flight p r refl on in
    elim (next_frame-cases q.client) [
      | inl empty ↦ (q, onward, done, flight, empty)
      | inr (f, chosen) ↦
          (let q' = record q {
            client = record q.client { outgoing = []; pending = none };
            flight = taken f;
          } in
            let move : Move q q' = takes f _ flight chosen refl in
            let (z, later, (landed, rest, kept)) =
              lands_taken q' f (next (Reach-trans r onward.steps) move) refl (onward.on ∙ on) in
            (
              z,
              Onward-trans onward (Onward-trans (Move-Onward move refl refl refl) later),
              landed,
              rest,
              (ap (λ c. c.pending) kept, ap (λ c. c.outgoing) kept),
            ))
    ]

-- Whatever has happened, as long as the app runs and its queue had a place for every frame, there are
-- moves, none of which forwards anything and none of which loses a frame, after which nothing waits
-- anywhere: then the app has handled the notification that was forwarded last, last of all, and it is idle
-- or shows that one.
pub settles :
    {p : Rig}
    → Reach start p
    → p.app.running ≡ true
    → p.lost ≡ 0
    → (q : Rig) × Onward p q
      × IsQuiet q
      × (last q.handled ≡ last (map device_frame p.forwarded))
      × ((q.app.ui.mode ≡ ui_idle) ⊎ (some q.app.ui.current ≡ last (map device_frame p.forwarded)))
settles {p} r on whole =
    let (q, first, air, flight, (pending, outgoing)) = delivers p r on in
    let (z, second, queue, air', flight', client') = empties_queue q.queue q refl (first.on ∙ on) in
    let all = Onward-trans first second in
    let quiet : IsQuiet z = record {
      flight = flight' ∙ flight;
      pending = ap (λ c. c.pending) client' ∙ pending;
      outgoing = ap (λ c. c.outgoing) client' ∙ outgoing;
      wire = air' ∙ air;
      queue = queue;
    } in
    let (seen, shown) = quiet_shows_latest (Reach-trans r all.steps) quiet (all.lost ∙ whole) in
    let same = ap (λ ns. last (map device_frame ns)) all.same in
    (
      z,
      all,
      quiet,
      seen ∙ same,
      subst (λ l. (z.app.ui.mode ≡ ui_idle) ⊎ (some z.app.ui.current ≡ l)) same shown,
    )
