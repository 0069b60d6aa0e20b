-- ===== src/Whole/Lands.antt =====
-- What is queued, on the air or being written comes to the app.
use flipper_agent_indicator.Prelude.{
  ◌≡◌, ◌≤◌, ◌+◌, refl, subst, ◌∙◌, true, List, [], ◌∷◌, ◌++◌, append-nil, length, arith,
}
use flipper_agent_indicator.Utf8.{Bytes}
use flipper_agent_indicator.Protocol.{notify}
use flipper_agent_indicator.Ble.{Client}
use flipper_agent_indicator.Firmware.{
  FaiFrame, FaiFrameKind, fai_frame_notify, fai_frame_ack, fai_frame_ping, fai_frame_pong,
}
use flipper_agent_indicator.Firmware.Interop.{length-layout}
use flipper_agent_indicator.Firmware.App.{
  App, put_frames, dropped_frames, fai_handle_frame, handle_kind,
}
use flipper_agent_indicator.Whole.Rig.{
  sent_bytes, Flight, at_rest, taken, on_air, Rig, Move, sends, arrives, returns, handles, Reach,
  here, next, start,
}
use flipper_agent_indicator.Whole.Arrived.{HasArrived, HasArrived-piece}
use flipper_agent_indicator.Whole.Sound.{Reach-IsSound, taken-frame}

pub Reach-trans : {p q r : Rig} → Reach p q → Reach q r → Reach p r
Reach-trans h here = h
Reach-trans h (next k m) = next (Reach-trans h k) m

-- From `p` one comes to `q`, and nothing is forwarded on the way.
pub record Onward (p q : Rig) : Type 0 where
  pub steps : Reach p q
  pub same : q.forwarded ≡ p.forwarded
  pub on : q.app.running ≡ p.app.running
  pub lost : q.lost ≡ p.lost

pub Onward-refl : (p : Rig) → Onward p p
Onward-refl p = record { steps = here; same = refl; on = refl; lost = refl }

pub Move-Onward :
    {p q : Rig}
    → Move p q
    → q.forwarded ≡ p.forwarded
    → q.app.running ≡ p.app.running
    → q.lost ≡ p.lost
    → Onward p q
Move-Onward m same on lost = record { steps = next here m; same = same; on = on; lost = lost }

pub Onward-trans : {p q r : Rig} → Onward p q → Onward q r → Onward p r
Onward-trans h k = record {
  steps = Reach-trans h.steps k.steps;
  same = k.same ∙ h.same;
  on = k.on ∙ h.on;
  lost = k.lost ∙ h.lost;
}

kind-running :
    (app : App) (frame : FaiFrame) (kind : FaiFrameKind)
    → (handle_kind app frame kind).0.running ≡ app.running
unfolding handle_kind
kind-running app frame fai_frame_notify = refl
kind-running app frame fai_frame_ack = refl
kind-running app frame fai_frame_ping = refl
kind-running app frame fai_frame_pong = refl

-- The app handles its queue.
pub empties_queue :
    (queue : List FaiFrame) (p : Rig)
    → p.queue ≡ queue
    → p.app.running ≡ true
    → (q : Rig) × Onward p q
      × (q.queue ≡ [])
      × (q.wire ≡ p.wire)
      × (q.flight ≡ p.flight)
      × (q.client ≡ p.client)
unfolding fai_handle_frame
empties_queue [] p e on = (p, Onward-refl p, e, refl, refl, refl)
empties_queue (frame ∷ later) p e on =
    let p' = record p {
      queue = later;
      app = (fai_handle_frame p.app frame).0;
      handled = p.handled ++ frame ∷ [];
      upward = p.upward ++ sent_bytes (fai_handle_frame p.app frame).1;
    } in
    let still : p'.app.running ≡ p.app.running = kind-running p.app frame frame.kind in
    let move : Move p p' = handles frame later e on refl in
    let (q, onward, done, air, flight, client) = empties_queue later p' refl (still ∙ on) in
    (q, Onward-trans (Move-Onward move refl still refl) onward, done, air, flight, client)

-- All pieces on the air arrive; the app makes room for the frame that they bring.
drains :
    (wire : List Bytes) (p : Rig)
    → Reach start p
    → p.wire ≡ wire
    → p.app.running ≡ true
    → (q : Rig) × Onward p q × (q.wire ≡ []) × (q.flight ≡ p.flight) × (q.client ≡ p.client)
drains [] p r air on = (p, Onward-refl p, air, refl, refl)
drains (piece ∷ later) p r air on =
    let (q, first, empty, on_wire, fly, kept) = empties_queue p.queue p refl on in
    let reached = Reach-trans r first.steps in
    let (got, called, one, come) =
      HasArrived-piece q.sent (q.handled ++ q.queue) q.lost q.rx piece later (
        subst (HasArrived q.sent (q.handled ++ q.queue) q.lost q.rx) (on_wire ∙ air)
          (Reach-IsSound reached).arrived) in
    let q' = record q {
      wire = later;
      rx = got.rx;
      queue = put_frames q.queue got.frames;
      lost = q.lost + dropped_frames q.queue got.frames;
    } in
    let move : Move q q' = arrives piece later got (on_wire ∙ air) called refl in
    let fits : q'.lost ≡ q.lost = rw empty (omega (arith, one)) in
    let (z, second, done, flight, client) =
      drains later q' (next reached move) refl (first.on ∙ on) in
    (
      z,
      Onward-trans first (Onward-trans (Move-Onward move refl refl fits) second),
      done,
      flight ∙ fly,
      client ∙ kept,
    )

-- Nothing is being written or on the air, and the client is the one given.
abbrev IsLanded : Client → Rig → Type 0
IsLanded c q = (q.wire ≡ []) × (q.flight ≡ at_rest) × (q.client ≡ c)

lands_on_air :
    (p : Rig) (f : Bytes)
    → Reach start p
    → p.flight ≡ on_air f
    → p.app.running ≡ true
    → (q : Rig) × Onward p q × IsLanded p.client q
lands_on_air p f r fly on =
    let (q, onward, done, flight, client) = drains p.wire p r refl on in
    let q' = record q { flight = at_rest } in
    let move : Move q q' = returns f (flight ∙ fly) done refl in
    (q', Onward-trans onward (Move-Onward move refl refl refl), (done, refl, client))

pub lands_taken :
    (p : Rig) (f : Bytes)
    → Reach start p
    → p.flight ≡ taken f
    → p.app.running ≡ true
    → (q : Rig) × Onward p q × IsLanded p.client q
lands_taken p f r fly on =
    let (n, frame) = taken-frame p f _ (rw fly at (Reach-IsSound r).carried.carries) in
    let fits : length f ≤ 69 = rw frame (omega (arith, length-layout (notify n))) in
    let p' = record p { flight = on_air f; wire = p.wire ++ f ∷ []; sent = p.sent ++ f ∷ [] } in
    let move : Move p p' = sends f (f ∷ []) fly (append-nil f) (fits, tt) refl in
    let (q, onward, landed) = lands_on_air p' f (next r move) refl on in
    (q, Onward-trans (Move-Onward move refl refl refl) onward, landed)

pub lands :
    (flight : Flight) (p : Rig)
    → Reach start p
    → p.flight ≡ flight
    → p.app.running ≡ true
    → (q : Rig) × Onward p q × IsLanded p.client q
lands at_rest p r fly on =
    let (q, onward, done, flight, client) = drains p.wire p r refl on in
    (q, onward, (done, flight ∙ fly, client))
lands (taken f) p r fly on = lands_taken p f r fly on
lands (on_air f) p r fly on = lands_on_air p f r fly on
