-- ===== src/Whole/Carried.antt =====
-- The frames that are sent: their order, and the newest of them.
use mathlib.Core.List.{map, map-append}
use flipper_agent_indicator.Prelude.{
  ◌≡◌, refl, ap, sym, subst, ◌∙◌, List, [], ◌∷◌, ◌++◌, append_assoc, Option, none, some, ok, last,
  last_snoc, last-append, singleton?,
}
use flipper_agent_indicator.Prelude.Sub.{Sub-refl, Sub-append, Sub-front}
use flipper_agent_indicator.Prelude.Repeats.{Repeats, Sub-Repeats, Repeats-snoc, Repeats-again}
use flipper_agent_indicator.Text.{Str}
use flipper_agent_indicator.Utf8.{Bytes}
use flipper_agent_indicator.Protocol.{Notification}
use flipper_agent_indicator.Patterns.{Overrides}
use flipper_agent_indicator.Outbox.{Queue}
use flipper_agent_indicator.Ble.{Client, newest, next_frame, keep}
use flipper_agent_indicator.Ble.Order.{next_frame-Taken, Sub-newest, last-newest}
use flipper_agent_indicator.Daemon.{forward_notify}
use flipper_agent_indicator.Daemon.Forward.{IsClean, forward_notify-clean}
use flipper_agent_indicator.Whole.Rig.{
  Flight, at_rest, on_air, Rig, Move, forwards, connects, takes, finds_link_down, sends, arrives,
  returns, raises_unsent, raises_sent, handles, presses, announces, hears, frame_bytes, unsent,
  waiting,
}

-- A retained frame stands beside no frame that is being written.
abbrev pub IsAlone : Flight → Option Bytes → Type 0
IsAlone at_rest pending = Unit
IsAlone _ pending = pending ≡ none

-- The frame whose response is awaited was sent last.
abbrev pub IsLastSent : Flight → List Bytes → Type 0
IsLastSent (on_air f) sent = (front : List Bytes) × (sent ≡ front ++ f ∷ [])
IsLastSent _ sent = Unit

-- All frames that were sent or wait are forwarded ones in their order, some of them sent again, and the
-- last of them is the last one.
abbrev pub Carries : List Bytes → List Bytes → List Notification → Type 0
Carries sent wait forwarded =
    Repeats (sent ++ wait) (map frame_bytes forwarded)
    × (last (sent ++ wait) ≡ last (map frame_bytes forwarded))

pub record IsCarried (p : Rig) : Type 0 where
  pub carries : Carries p.sent (waiting p) p.forwarded
  pub alone : IsAlone p.flight p.client.pending
  pub last_sent : IsLastSent p.flight p.sent

-- What `forward_notify` leaves in the queue.
forwarded-queue :
    (patterns : Overrides) (n : Notification) (outgoing : Queue) (label : Str) (queue : Queue)
    → IsClean n
    → forward_notify patterns n outgoing ≡ ok (label, some queue)
    → queue ≡ frame_bytes n ∷ []
forwarded-queue patterns n outgoing label queue clean h =
    cc (forward_notify-clean patterns n outgoing clean, h)

-- A new frame takes the place of those that are queued.
Carries-forward :
    (sent ahead queue : List Bytes) (ns : List Notification) (n : Notification)
    → Carries sent (ahead ++ queue) ns
    → Carries sent (ahead ++ frame_bytes n ∷ []) (ns ++ n ∷ [])
Carries-forward sent ahead queue ns n (order, latest) =
    let regroup = λ (l : List Bytes). append_assoc sent ahead l in
    let grown : map frame_bytes (ns ++ n ∷ []) ≡ map frame_bytes ns ++ frame_bytes n ∷ [] =
      map-append frame_bytes ns (n ∷ []) in
    rw (grown, ← regroup (frame_bytes n ∷ []))
      (
        Repeats-snoc (frame_bytes n) (
            Sub-Repeats (Sub-front (sent ++ ahead) queue)
              (subst (λ l. Repeats l (map frame_bytes ns)) (sym (regroup queue)) order)),
        last_snoc (sent ++ ahead) (frame_bytes n)
            ∙ sym (last_snoc (map frame_bytes ns) (frame_bytes n)),
      )

-- The newest of the frames at hand takes their place.
Carries-newest :
    (sent : List Bytes) (oldest : Bytes) (newer : List Bytes) (ns : List Notification)
    → Carries sent (oldest ∷ newer) ns
    → Carries sent (newest oldest newer ∷ []) ns
Carries-newest sent oldest newer ns (order, latest) = (
  Sub-Repeats (Sub-append (Sub-refl sent) (Sub-newest oldest newer)) order,
  last_snoc sent (newest oldest newer)
      ∙ sym (last-newest oldest newer)
      ∙ sym (last-append sent oldest newer)
      ∙ latest,
)

-- A frame that was sent is kept, and will be sent again.
Carries-again :
    (front : List Bytes) (f : Bytes) (queue : List Bytes) (ns : List Notification)
    → Carries (front ++ f ∷ []) queue ns
    → Carries (front ++ f ∷ []) (f ∷ queue) ns
Carries-again front f queue ns (order, latest) =
    let whole : (front ++ f ∷ []) ++ queue ≡ front ++ f ∷ queue =
      append_assoc front (f ∷ []) queue in
    let more : (front ++ f ∷ []) ++ f ∷ queue ≡ front ++ f ∷ f ∷ queue =
      append_assoc front (f ∷ []) (f ∷ queue) in
    rw more (
      Repeats-again front f queue (subst (λ l. Repeats l (map frame_bytes ns)) whole order),
      last-append front f (f ∷ queue)
          ∙ sym (last-append front f queue)
          ∙ sym (ap last whole)
          ∙ latest,
    )

Carries-resent :
    (sent : List Bytes) (f : Bytes) (queue : List Bytes) (ns : List Notification)
    → IsLastSent (on_air f) sent
    → Carries sent queue ns
    → Carries sent (f ∷ queue) ns
Carries-resent sent f queue ns (front, e) c =
    subst (λ l. Carries l (f ∷ queue) ns) (sym e)
      (Carries-again front f queue ns (subst (λ l. Carries l queue ns) e c))

-- What a frame that is taken leaves behind.
taken-Carries :
    (p : Rig) (f : Bytes) (c : Client)
    → IsCarried p
    → p.flight ≡ at_rest
    → next_frame p.client ≡ some (f, c)
    → Carries p.sent (f ∷ []) p.forwarded × (c ≡ record p.client { outgoing = []; pending = none })
taken-Carries p f c valid rest h =
    let (t, left) = next_frame-Taken p.client h in
    let at_hand : waiting p ≡ t.oldest ∷ t.newer = rw rest t.waited in
    (
      rw t.chosen (
          Carries-newest p.sent t.oldest t.newer p.forwarded
            (subst (λ l. Carries p.sent l p.forwarded) at_hand valid.carries)),
      left,
    )

-- A new frame behind those that do not wait in the queue.
Carries-behind :
    (p : Rig) (n : Notification)
    → Carries p.sent (waiting p) p.forwarded
    → Carries p.sent
        (unsent p.flight ++ (singleton? p.client.pending ++ frame_bytes n ∷ []))
        (p.forwarded ++ n ∷ [])
Carries-behind p n c =
    let ahead = unsent p.flight ++ singleton? p.client.pending in
    let regroup =
      λ (l : List Bytes). append_assoc (unsent p.flight) (singleton? p.client.pending) l in
    subst (λ l. Carries p.sent l (p.forwarded ++ n ∷ [])) (regroup (frame_bytes n ∷ []))
      (Carries-forward p.sent ahead p.client.outgoing p.forwarded n
        (subst (λ l. Carries p.sent l p.forwarded) (sym (regroup p.client.outgoing)) c))

-- A frame that waits is sent.
Carries-sent :
    (sent : List Bytes) (f : Bytes) (wait : List Bytes) (ns : List Notification)
    → Carries sent (f ∷ wait) ns
    → Carries (sent ++ f ∷ []) wait ns
Carries-sent sent f wait ns c = rw (append_assoc sent (f ∷ []) wait) c

pub Move-IsCarried : {p q : Rig} → Move p q → IsCarried p → IsCarried q
unfolding keep
Move-IsCarried {p} (forwards patterns n label queue clean h e) c =
    rw (e, forwarded-queue patterns n p.client.outgoing label queue clean h)
      (record { carries = Carries-behind p n c.carries; alone = c.alone; last_sent = c.last_sent })
Move-IsCarried (connects e) c =
    rw e (record { carries = c.carries; alone = c.alone; last_sent = c.last_sent })
Move-IsCarried {p} (takes f c' rest h e) c =
    let (carries, left) = taken-Carries p f c' c rest h in
    rw (e, left) (record { carries = carries; alone = refl; last_sent = tt })
Move-IsCarried {p} (finds_link_down f c' rest h e) c =
    let (carries, left) = taken-Carries p f c' c rest h in
    rw (e, left) (record { carries = rw rest carries; alone = rw rest tt; last_sent = rw rest tt })
Move-IsCarried {p} (sends f pieces fly whole small e) c = rw e (record {
  carries = Carries-sent p.sent f _ p.forwarded (rw fly at c.carries);
  alone = rw fly at c.alone;
  last_sent = (p.sent, refl);
})
Move-IsCarried {p} (arrives piece later r air h e) c =
    rw e (record { carries = c.carries; alone = c.alone; last_sent = c.last_sent })
Move-IsCarried {p} (returns f fly air e) c =
    rw e (record { carries = rw fly at c.carries; alone = tt; last_sent = tt })
Move-IsCarried {p} (raises_unsent f fly e) c =
    rw e (record { carries = rw (fly, rw fly at c.alone) at c.carries; alone = tt; last_sent = tt })
Move-IsCarried {p} (raises_sent f fly air e) c = rw e (record {
  carries =
      Carries-resent p.sent f p.client.outgoing p.forwarded (rw fly at c.last_sent)
        (rw (fly, rw fly at c.alone) at c.carries);
  alone = tt;
  last_sent = tt;
})
Move-IsCarried (handles frame later h on e) c =
    rw e (record { carries = c.carries; alone = c.alone; last_sent = c.last_sent })
Move-IsCarried (announces raw flow e) c =
    rw e (record { carries = c.carries; alone = c.alone; last_sent = c.last_sent })
Move-IsCarried (hears bridge spawn raw later up e) c =
    rw e (record { carries = c.carries; alone = c.alone; last_sent = c.last_sent })
Move-IsCarried (presses event on e) c =
    rw e (record { carries = c.carries; alone = c.alone; last_sent = c.last_sent })
