-- ===== src/Whole/Arrived.antt =====
-- What has arrived at the device: of the frames that were sent, the first ones have come to the queue of
-- the app, and the others are in the buffer and on the air.
use mathlib.Core.List.{map, map-append}
use flipper_agent_indicator.Prelude.Sub.{Sub, Sub-refl, Sub-append, Sub-trans, Sub-take}
use flipper_agent_indicator.Firmware.App.{fai_queue_len, put_frames, dropped_frames}
use flipper_agent_indicator.Prelude.{
  ℕ, ◌+◌, take_all, length-append, length-map, arith, ◌≡◌, ◌≤◌, refl, ap, sym, subst, ◌∙◌, List, [],
  ◌∷◌, ◌++◌, append_assoc, append-nil, some, All, length,
}
use flipper_agent_indicator.Utf8.{Bytes}
use flipper_agent_indicator.Protocol.{Notification, notify}
use flipper_agent_indicator.Firmware.{FaiFrame}
use flipper_agent_indicator.Firmware.Interop.{on_device, length-layout}
use flipper_agent_indicator.Firmware.Receiver.{Received, rx_callback, data_received}
use flipper_agent_indicator.Firmware.Receiver.Streams.{
  IsCut-end, stream, joined, IsCut, IsCut-lt, rx_callback-Splits,
}
use flipper_agent_indicator.Whole.Rig.{frame_bytes}

-- The frame of a notification, as the device holds it.
abbrev pub device_frame : Notification → FaiFrame
device_frame n = on_device (notify n)

-- `come` are the frames that came to the queue of the app, and `lost` counts those that found no place
-- in it. At most one frame has been sent and has not come.
pub record HasArrived (sent : List Bytes) (come : List FaiFrame) (lost : ℕ) (rx : Bytes)
    (wire : List Bytes) : Type 0 where
  pub done : List Notification
  pub todo : List Notification
  pub sources : sent ≡ map frame_bytes (done ++ todo)
  pub arrived : Sub come (map device_frame done)
  pub all : lost ≡ 0 → come ≡ map device_frame done
  pub follows : rx ++ joined wire ≡ stream (map notify todo)
  pub cut : IsCut rx (map notify todo)
  pub small : All (λ b. length b ≤ 69) wire
  pub single : length todo ≤ 1

unmapped : (ns : List Notification) → map notify ns ≡ [] → ns ≡ []
unmapped [] h = refl
unmapped (n ∷ ns) h = cc

module _ (sent : List Bytes) (come : List FaiFrame) (lost : ℕ) (rx : Bytes) where
  -- When nothing is on the air, all that was sent has come.
  landed :
      (wire : List Bytes)
      → wire ≡ []
      → (h : HasArrived sent come lost rx wire)
      → (h.todo ≡ []) × (rx ≡ []) × (sent ≡ map frame_bytes h.done)
  landed wire air h =
      let (no_frames, empty) =
        IsCut-end rx (map notify h.todo) (ap (λ w. rx ++ joined w) (sym air) ∙ h.follows) h.cut in
      let none_left : h.todo ≡ [] = unmapped h.todo no_frames in
      (
        none_left,
        empty,
        h.sources
            ∙ ap (λ l. map frame_bytes (h.done ++ l)) none_left
            ∙ ap (map frame_bytes) (append-nil h.done),
      )

  pub HasArrived-whole :
      (wire : List Bytes)
      → lost ≡ 0
      → wire ≡ []
      → HasArrived sent come lost rx wire
      → (ns : List Notification) × (sent ≡ map frame_bytes ns) × (come ≡ map device_frame ns)
  HasArrived-whole wire whole air h =
      let (none_left, empty, sources) = landed wire air h in (h.done, sources, h.all whole)

  -- One more frame is sent.
  pub HasArrived-sent :
      (wire pieces : List Bytes) (n : Notification)
      → wire ≡ []
      → joined pieces ≡ frame_bytes n
      → All (λ b. length b ≤ 69) pieces
      → HasArrived sent come lost rx wire
      → HasArrived (sent ++ frame_bytes n ∷ []) come lost rx (wire ++ pieces)
  HasArrived-sent wire pieces n air whole fits h =
      let (none_left, empty, sources) = landed wire air h in
      rw (air, empty)
        (record {
          done = h.done;
          todo = n ∷ [];
          sources = rw sources (sym (map-append frame_bytes h.done (n ∷ [])));
          arrived = h.arrived;
          all = h.all;
          follows = whole ∙ sym (append-nil (frame_bytes n));
          cut = (length-layout (notify n)).0;
          small = fits;
          single = omega arith;
        })

-- The parts of a mapped list.
map-eq-append {ℓ κ} :
    {A : Type ℓ} {B : Type κ} (f : A → B) (xs : List A) (us vs : List B)
    → map f xs ≡ us ++ vs
    → (ys : List A) × (zs : List A) × (xs ≡ ys ++ zs) × (us ≡ map f ys) × (vs ≡ map f zs)
map-eq-append f xs [] vs h = ([], xs, refl, refl, sym h)
map-eq-append f [] (u ∷ us) vs h = cc
map-eq-append f (x ∷ xs) (u ∷ us) vs h =
    let (ys, zs, e, k, l) = map-eq-append f xs us vs cc in
    let first : u ≡ f x = cc in (x ∷ ys, zs, ap (λ t. x ∷ t) e, rw (first, k) refl, l)

devices : (ns : List Notification) → map on_device (map notify ns) ≡ map device_frame ns
devices [] = refl
devices (n ∷ ns) = ap (λ l. device_frame n ∷ l) (devices ns)

-- A piece arrives.
pub HasArrived-piece :
    (sent : List Bytes) (come : List FaiFrame) (lost : ℕ) (rx : Bytes) (piece : Bytes)
    (later : List Bytes)
    → HasArrived sent come lost rx (piece ∷ later)
    → (r : Received) × (rx_callback rx (data_received piece) ≡ some r)
      × (length r.frames ≤ 1)
      × HasArrived sent (come ++ r.frames) lost r.rx later
HasArrived-piece sent come lost rx piece later h =
    let (now, rest, left, parts, result, follows, cut) =
      rx_callback-Splits (map notify h.todo) rx piece (joined later)
        (append_assoc rx piece (joined later) ∙ h.follows) (IsCut-lt rx (map notify h.todo) h.cut)
        h.small.0 in
    let (ns, ms, split, firsts, others) = map-eq-append notify h.todo now rest parts in
    let frames : map on_device now ≡ map device_frame ns = ap (map on_device) firsts ∙ devices ns in
    let sizes : length h.todo ≡ length ns + length ms = ap length split ∙ length-append ns ms in
    (
      _,
      result,
      rw frames (omega (arith, length-map device_frame ns, h.single)),
      record {
        done = h.done ++ ns;
        todo = ms;
        sources =
            h.sources
            ∙ ap (λ l. map frame_bytes (h.done ++ l)) split
            ∙ ap (map frame_bytes) (sym (append_assoc h.done ns ms));
        arrived =
            rw (frames, map-append device_frame h.done ns)
              (Sub-append h.arrived (Sub-refl (map device_frame ns)));
        all = λ whole. rw (h.all whole, frames) (sym (map-append device_frame h.done ns));
        follows = follows ∙ ap stream others;
        cut = subst (IsCut left) others cut;
        small = h.small.1;
        single = omega (arith, h.single);
      },
    )

-- Frames are put into the queue of the app.
pub HasArrived-queued :
    (sent : List Bytes) (handled queue frames : List FaiFrame) (lost : ℕ) (rx : Bytes)
    (wire : List Bytes)
    → HasArrived sent ((handled ++ queue) ++ frames) lost rx wire
    → HasArrived sent
        (handled ++ put_frames queue frames)
        (lost + dropped_frames queue frames)
        rx
        wire
HasArrived-queued sent handled queue frames lost rx wire h = record {
  done = h.done;
  todo = h.todo;
  sources = h.sources;
  arrived =
      Sub-trans (Sub-append (Sub-refl handled) (Sub-take fai_queue_len (queue ++ frames))) (
        subst (λ l. Sub l (map device_frame h.done)) (append_assoc handled queue frames) h.arrived);
  all = λ whole.
      ap (λ l. handled ++ l) (take_all fai_queue_len (queue ++ frames) (omega arith))
      ∙ sym (append_assoc handled queue frames)
      ∙ h.all (omega arith);
  follows = h.follows;
  cut = h.cut;
  small = h.small;
  single = h.single;
}
