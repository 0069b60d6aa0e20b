-- ===== src/Whole/Sound.antt =====
-- What holds of the daemon, the radio and the device after any moves.
use mathlib.Core.List.{map}
use flipper_agent_indicator.Prelude.{
  ◌≡◌, ◌⊎◌, inl, inr, refl, sym, subst, ◌∙◌, List, [], ◌∷◌, ◌++◌, append_assoc, some, All,
  All-middle, last, last_snoc, arith,
}
use flipper_agent_indicator.Prelude.Sub
use flipper_agent_indicator.Prelude.Repeats.{Repeats-All, Repeats-refl, Sub-Repeats, stop}
use flipper_agent_indicator.Utf8.{Bytes}
use flipper_agent_indicator.Protocol.{Notification}
use flipper_agent_indicator.Firmware.{FaiFrame}
use flipper_agent_indicator.Firmware.App.{
  App, UiState, ui_idle, fai_handle_frame, handle_kind, fai_handle_input, handle_input, handle_key,
  acknowledge, InputType, InputKey,
}
use flipper_agent_indicator.Whole.Rig.{
  Flight, at_rest, taken, on_air, Rig, Move, forwards, connects, takes, finds_link_down, sends,
  arrives, returns, raises_unsent, raises_sent, handles, presses, announces, hears, Reach, here,
  next, start, frame_bytes,
}
use flipper_agent_indicator.Whole.Carried.{Carries, IsCarried, Move-IsCarried}
use flipper_agent_indicator.Whole.Arrived.{
  device_frame, HasArrived, HasArrived-sent, HasArrived-piece, HasArrived-queued,
}

-- The app is idle or shows the frame that it handled last.
abbrev pub IsShown : UiState → List FaiFrame → Type 0
IsShown ui handled = (ui.mode ≡ ui_idle) ⊎ (some ui.current ≡ last handled)

-- There are pieces on the air only while the response to their frame is awaited.
abbrev pub IsCalm : Flight → List Bytes → Type 0
IsCalm (on_air f) wire = Unit
IsCalm _ wire = wire ≡ []

pub record IsSound (p : Rig) : Type 0 where
  pub carried : IsCarried p
  pub arrived : HasArrived p.sent (p.handled ++ p.queue) p.lost p.rx p.wire
  pub calm : IsCalm p.flight p.wire
  pub shown : IsShown p.app.ui p.handled

All-image {ℓ κ} :
    {A : Type ℓ} {B : Type κ} (f : A → B) (xs : List A) → All (λ y. (x : A) × (y ≡ f x)) (map f xs)
All-image f [] = tt
All-image f (x ∷ xs) = ((x, refl), All-image f xs)

-- A frame that is sent encodes a notification.
pub taken-frame :
    (p : Rig) (f : Bytes) (wait : List Bytes)
    → Carries p.sent (f ∷ wait) p.forwarded
    → (n : Notification) × (f ≡ frame_bytes n)
taken-frame p f wait c =
    All-middle _ p.sent f wait (Repeats-All _ c.0 (All-image frame_bytes p.forwarded))

-- A frame that is handled shows a notification.
pub handled-frame :
    (p : Rig) (frame : FaiFrame) (later : List FaiFrame)
    → HasArrived p.sent (p.handled ++ frame ∷ later) p.lost p.rx p.wire
    → (n : Notification) × (frame ≡ device_frame n)
handled-frame p frame later h =
    All-middle (λ g. (n : Notification) × (g ≡ device_frame n)) p.handled frame later
      (Repeats-All _ (Sub-Repeats h.arrived (Repeats-refl (map device_frame h.done)))
        (All-image device_frame h.done))

-- A key is pressed.
input-IsShown :
    (app : App) (type : InputType) (key : InputKey) (handled : List FaiFrame)
    → IsShown app.ui handled
    → IsShown (handle_input app type key).0.ui handled
unfolding handle_input handle_key acknowledge
input-IsShown app type key handled h = ground arith

Move-IsShown : {p q : Rig} → Move p q → IsSound p → IsShown q.app.ui q.handled
unfolding fai_handle_frame handle_kind fai_handle_input
Move-IsShown (forwards patterns n label queue clean h e) s = rw e s.shown
Move-IsShown (announces raw flow e) s = rw e s.shown
Move-IsShown (hears bridge spawn raw later up e) s = rw e s.shown
Move-IsShown (connects e) s = rw e s.shown
Move-IsShown (takes f c' rest h e) s = rw e s.shown
Move-IsShown (finds_link_down f c' rest h e) s = rw e s.shown
Move-IsShown (sends f pieces fly whole small e) s = rw e s.shown
Move-IsShown (arrives piece later r air h e) s = rw e s.shown
Move-IsShown (returns f fly air e) s = rw e s.shown
Move-IsShown (raises_unsent f fly e) s = rw e s.shown
Move-IsShown (raises_sent f fly air e) s = rw e s.shown
Move-IsShown {p} (handles frame later h on e) s =
    let (n, kind) =
      handled-frame p frame later
        (subst (λ l. HasArrived p.sent (p.handled ++ l) p.lost p.rx p.wire) h s.arrived) in
    rw (e, kind) (inr (sym (last_snoc p.handled (device_frame n))))
Move-IsShown {p} (presses event on e) s =
    rw e (input-IsShown p.app event.type event.key p.handled s.shown)

Move-HasArrived :
    {p q : Rig} → Move p q → IsSound p → HasArrived q.sent (q.handled ++ q.queue) q.lost q.rx q.wire
Move-HasArrived (forwards patterns n label queue clean h e) s = rw e s.arrived
Move-HasArrived (announces raw flow e) s = rw e s.arrived
Move-HasArrived (hears bridge spawn raw later up e) s = rw e s.arrived
Move-HasArrived (connects e) s = rw e s.arrived
Move-HasArrived (takes f c' rest h e) s = rw e s.arrived
Move-HasArrived (finds_link_down f c' rest h e) s = rw e s.arrived
Move-HasArrived {p} (sends f pieces fly whole small e) s =
    let (n, frame) = taken-frame p f _ (rw fly at s.carried.carries) in
    rw (e, frame)
      (HasArrived-sent p.sent (p.handled ++ p.queue) p.lost p.rx p.wire pieces n (rw fly at s.calm)
        (whole ∙ frame) small s.arrived)
Move-HasArrived {p} (arrives piece later r air h e) s =
    let (r', called, one, come) =
      HasArrived-piece p.sent (p.handled ++ p.queue) p.lost p.rx piece later
        (rw air at s.arrived) in
    let same_call : r' ≡ r = cc in
    rw e (
      HasArrived-queued p.sent p.handled p.queue r.frames p.lost r.rx later (
        subst (λ g. HasArrived p.sent ((p.handled ++ p.queue) ++ g.frames) p.lost g.rx later)
          same_call come))
Move-HasArrived (returns f fly air e) s = rw e s.arrived
Move-HasArrived (raises_unsent f fly e) s = rw e s.arrived
Move-HasArrived (raises_sent f fly air e) s = rw e s.arrived
Move-HasArrived {p} (handles frame later h on e) s =
    rw (e, append_assoc p.handled (frame ∷ []) later) (rw h at s.arrived)
Move-HasArrived (presses event on e) s = rw e s.arrived

IsCalm-arrives :
    (flight : Flight) (piece : Bytes) (later : List Bytes)
    → IsCalm flight (piece ∷ later)
    → IsCalm flight later
IsCalm-arrives at_rest piece later h = cc
IsCalm-arrives (taken f) piece later h = cc
IsCalm-arrives (on_air f) piece later h = tt

Move-IsCalm : {p q : Rig} → Move p q → IsSound p → IsCalm q.flight q.wire
Move-IsCalm (forwards patterns n label queue clean h e) s = rw e s.calm
Move-IsCalm (announces raw flow e) s = rw e s.calm
Move-IsCalm (hears bridge spawn raw later up e) s = rw e s.calm
Move-IsCalm (connects e) s = rw e s.calm
Move-IsCalm (takes f c' rest h e) s = rw e (rw rest at s.calm)
Move-IsCalm (finds_link_down f c' rest h e) s = rw e s.calm
Move-IsCalm (sends f pieces fly whole small e) s = rw e tt
Move-IsCalm {p} (arrives piece later r air h e) s =
    rw e (IsCalm-arrives p.flight piece later (rw air at s.calm))
Move-IsCalm (returns f fly air e) s = rw e air
Move-IsCalm (raises_unsent f fly e) s = rw e (rw fly at s.calm)
Move-IsCalm (raises_sent f fly air e) s = rw e air
Move-IsCalm (handles frame later h on e) s = rw e s.calm
Move-IsCalm (presses event on e) s = rw e s.calm

Move-IsSound : {p q : Rig} → Move p q → IsSound p → IsSound q
Move-IsSound m s = record {
  carried = Move-IsCarried m s.carried;
  arrived = Move-HasArrived m s;
  calm = Move-IsCalm m s;
  shown = Move-IsShown m s;
}

start-IsSound : IsSound start
start-IsSound = record {
  carried = record { carries = (stop, refl); alone = tt; last_sent = tt };
  arrived = record {
    done = [];
    todo = [];
    sources = refl;
    arrived = Sub.stop;
    all = λ whole. refl;
    follows = refl;
    cut = refl;
    small = tt;
    single = omega arith;
  };
  calm = refl;
  shown = inl refl;
}

pub Reach-IsSound : {p : Rig} → Reach start p → IsSound p
Reach-IsSound here = start-IsSound
Reach-IsSound (next r m) = Move-IsSound m (Reach-IsSound r)
