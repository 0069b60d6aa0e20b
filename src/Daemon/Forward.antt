-- ===== src/Daemon/Forward.antt =====
-- From the notifications to the queue of frames.
use flipper_agent_indicator.Prelude.{
  none, ap, Option, ◌∙◌, ◌≡◌, refl, inl, inr, List, [], ◌∷◌, some, last, All, All-append, ok,
}
use flipper_agent_indicator.Utf8.Scalars.{IsScalar, all-is_scalar}
use flipper_agent_indicator.Protocol.{Notification, notify}
use flipper_agent_indicator.Protocol.RoundTrip.{layout, encode-layout}
use flipper_agent_indicator.Patterns
use flipper_agent_indicator.Patterns.{Overrides}
use flipper_agent_indicator.Outbox.{Queue, offer_lem}
use flipper_agent_indicator.Socket.{Arrival, handle}
use flipper_agent_indicator.Socket.Handle.{Grows, handle-Grows}
use flipper_agent_indicator.Daemon.{forward_notify, forward_notifies}

abbrev pub IsClean : Notification → Type 0
IsClean n = All IsScalar n.text

pub forward_notify-clean :
    (patterns : Overrides) (n : Notification) (outgoing : Queue)
    → IsClean n
    → forward_notify patterns n outgoing
      ≡ ok ((Patterns.get patterns n.agent n.state).label, some (layout (notify n) ∷ []))
unfolding forward_notify
forward_notify-clean patterns n outgoing h =
    rw (encode-layout (notify n) (all-is_scalar n.text h), offer_lem (layout (notify n)) outgoing)

-- The connections that come one after the other, on the queue of notifications.
abbrev pub serve : List Notification → List Arrival → List Notification
serve queue [] = queue
serve queue (a ∷ as') = serve (handle queue a).0 as'

Grows-All :
    (queue next : List Notification) → Grows queue next → All IsClean queue → All IsClean next
Grows-All queue next (inl e) h = rw e h
Grows-All queue next (inr (n, e, clean)) h = rw e (All-append IsClean queue (n ∷ []) h (clean, tt))

serve-All :
    (arrivals : List Arrival) (queue : List Notification)
    → All IsClean queue
    → All IsClean (serve queue arrivals)
serve-All [] queue h = h
serve-All (a ∷ arrivals) queue h =
    serve-All arrivals (handle queue a).0 (Grows-All queue _ (handle-Grows queue a) h)

-- What the queue of frames holds after some notifications: the frame of the last one.
abbrev pub last_frame : Queue → List Notification → Queue
last_frame outgoing [] = outgoing
last_frame outgoing (n ∷ ns) = last_frame (layout (notify n) ∷ []) ns

pub forward_notifies-clean :
    (patterns : Overrides) (ns : List Notification) (outgoing : Queue)
    → All IsClean ns
    → forward_notifies patterns ns outgoing ≡ ok (last_frame outgoing ns)
unfolding forward_notifies
forward_notifies-clean patterns [] outgoing h = refl
forward_notifies-clean patterns (n ∷ ns) outgoing h =
    rw (forward_notify-clean patterns n outgoing h.0)
      (forward_notifies-clean patterns ns (layout (notify n) ∷ []) h.1)

-- The frame of a notification, if there is one.
abbrev pub frame_of : Option Notification → Queue
frame_of none = []
frame_of (some n) = layout (notify n) ∷ []

last_frame-last :
    (n : Notification) (ns : List Notification) (outgoing : Queue)
    → last_frame outgoing (n ∷ ns) ≡ frame_of (last (n ∷ ns))
last_frame-last n [] outgoing = refl
last_frame-last n (m ∷ ns) outgoing = last_frame-last m ns (layout (notify n) ∷ [])

last_frame-nil : (ns : List Notification) → last_frame [] ns ≡ frame_of (last ns)
last_frame-nil [] = refl
last_frame-nil (n ∷ ns) = last_frame-last n ns []

-- Whatever clients send, and whatever the overrides: to forward what was queued raises nothing and
-- never waits, and while the BLE client takes no frame, the frame of the last notification is then
-- the one that is queued.
pub forward_notifies-serve :
    (patterns : Overrides) (arrivals : List Arrival)
    → forward_notifies patterns (serve [] arrivals) [] ≡ ok (frame_of (last (serve [] arrivals)))
forward_notifies-serve patterns arrivals =
    forward_notifies-clean patterns (serve [] arrivals) [] (serve-All arrivals [] tt)
    ∙ ap ok (last_frame-nil (serve [] arrivals))
