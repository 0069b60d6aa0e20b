-- ===== src/Whole/Displayed.antt =====
-- What the device has shown, beside what the daemon was asked to show.
use mathlib.Core.List.{map, map-append}
use mathlib.Core.Option
use flipper_agent_indicator.Prelude.{
  ◌≡◌, ◌⊎◌, refl, ap, sym, subst, ◌∙◌, List, [], ◌∷◌, ◌++◌, append-nil, Option, none, some, last,
}
use flipper_agent_indicator.Prelude.Sub.{Sub, Sub-front}
use flipper_agent_indicator.Prelude.Repeats.{Repeats, Sub-Repeats, Repeats-map}
use flipper_agent_indicator.Utf8.{Bytes}
use flipper_agent_indicator.Protocol.{Notification, notify}
use flipper_agent_indicator.Firmware.{FaiFrame, fai_frame_notify, cleared, fai_protocol_decode}
use flipper_agent_indicator.Firmware.Interop.{device-layout}
use flipper_agent_indicator.Firmware.App.{ui_idle}
use flipper_agent_indicator.Whole.Rig.{at_rest, Rig, Reach, start, frame_bytes, waiting}
use flipper_agent_indicator.Whole.Arrived.{device_frame, HasArrived-whole}
use flipper_agent_indicator.Whole.Sound.{Reach-IsSound}

last-map {ℓ κ} :
    {A : Type ℓ} {B : Type κ} (f : A → B) (xs : List A) → last (map f xs) ≡ Option.map f (last xs)
last-map f [] = refl
last-map f (x ∷ []) = refl
last-map f (x ∷ y ∷ xs) = last-map f (y ∷ xs)

pub map-last {ℓ κ} :
    {A : Type ℓ} {B : Type κ} (f : A → B) (xs ys : List A)
    → last xs ≡ last ys
    → last (map f xs) ≡ last (map f ys)
map-last f xs ys h = rw (last-map f xs, last-map f ys, h) refl

-- The frame that the device reads in some bytes.
abbrev or_cleared : Option FaiFrame → FaiFrame
or_cleared none = cleared fai_frame_notify
or_cleared (some frame) = frame

abbrev read : Bytes → FaiFrame
read b = or_cleared (fai_protocol_decode b)

read-frame_bytes : (n : Notification) → read (frame_bytes n) ≡ device_frame n
read-frame_bytes n = ap or_cleared (device-layout (notify n))

reads : (ns : List Notification) → map read (map frame_bytes ns) ≡ map device_frame ns
reads [] = refl
reads (n ∷ ns) = rw (read-frame_bytes n, reads ns) refl

-- After any moves of the daemon, the radio and the device, the frames that the app has handled are
-- those of the notifications that were forwarded, in their order: some of them may be missing, as newer
-- ones replaced them or the queue was full, and one whose response was lost may have come again, directly
-- behind itself.
pub handled-Repeats : {p : Rig} → Reach start p → Repeats p.handled (map device_frame p.forwarded)
handled-Repeats {p} r =
    let s = Reach-IsSound r in
    let h = s.arrived in
    let order : Repeats p.sent (map frame_bytes p.forwarded) =
      Sub-Repeats (Sub-front p.sent (waiting p)) s.carried.carries.0 in
    let shown : Repeats (map device_frame (h.done ++ h.todo)) (map device_frame p.forwarded) =
      rw (← reads (h.done ++ h.todo), ← reads p.forwarded, ← h.sources) (Repeats-map read order) in
    let come : Repeats (map device_frame h.done) (map device_frame p.forwarded) =
      Sub-Repeats
        (subst (Sub (map device_frame h.done)) (sym (map-append device_frame h.done h.todo))
          (Sub-front _ _))
        shown in
    Sub-Repeats (Sub-front p.handled p.queue) (Sub-Repeats h.arrived come)

-- Nothing waits, is being written, is on the air or in the queue of the app.
pub record IsQuiet (p : Rig) : Type 0 where
  pub flight : p.flight ≡ at_rest
  pub pending : p.client.pending ≡ none
  pub outgoing : p.client.outgoing ≡ []
  pub wire : p.wire ≡ []
  pub queue : p.queue ≡ []

-- When the daemon, the radio and the device have come to rest after any moves, and the queue of the app
-- had a place for every frame, the app has handled the notification that was forwarded last, last of all,
-- and it is idle or shows that notification.
pub quiet_shows_latest :
    {p : Rig}
    → Reach start p
    → IsQuiet p
    → p.lost ≡ 0
    → (last p.handled ≡ last (map device_frame p.forwarded))
      × ((p.app.ui.mode ≡ ui_idle) ⊎ (some p.app.ui.current ≡ last (map device_frame p.forwarded)))
quiet_shows_latest {p} r q whole =
    let s = Reach-IsSound r in
    let (ns, sent, come) =
      HasArrived-whole p.sent (p.handled ++ p.queue) p.lost p.rx p.wire whole q.wire s.arrived in
    let latest : last (map frame_bytes ns) ≡ last (map frame_bytes p.forwarded) =
      rw (q.flight, q.pending, q.outgoing, append-nil p.sent, sent) at s.carried.carries.1 in
    let decoded : last (map read (map frame_bytes ns))
        ≡ last (map read (map frame_bytes p.forwarded)) =
      map-last read (map frame_bytes ns) (map frame_bytes p.forwarded) latest in
    let seen : last p.handled ≡ last (map device_frame p.forwarded) =
      ap last (rw (q.queue, append-nil p.handled) at come)
      ∙ rw (reads ns, reads p.forwarded) at decoded in
    (seen, subst (λ l. (p.app.ui.mode ≡ ui_idle) ⊎ (some p.app.ui.current ≡ l)) seen s.shown)
