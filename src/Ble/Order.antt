-- ===== src/Ble/Order.antt =====
-- Each step keeps the order of the frames and the newest of them.
use flipper_agent_indicator.Prelude.{
  Option-cases, last-append, ◌≡◌, ◌⊎◌, refl, ap, sym, subst, ◌∙◌, inl, inr, List, [], ◌∷◌, ◌++◌,
  append_assoc, Option, none, some, arith, last, last_snoc, singleton?,
}
use flipper_agent_indicator.Prelude.Sub.{Sub, stop, Sub-refl, Sub-trans, Sub-append, Sub-front}
use flipper_agent_indicator.Utf8.{Bytes}
use flipper_agent_indicator.Outbox.{Queue, offer_lem}
use flipper_agent_indicator.Ble.{Client, newest, next_of, next_frame, keep}
use flipper_agent_indicator.Ble.Pipe.{
  Pipe, Step, forward, connect, take, link_down, wrote, write_failed, Reach, here, next, start,
  held, IsOrdered,
}

-- The frame that is taken is the newest of those at hand.
pub last-newest : (f : Bytes) (fs : List Bytes) → last (f ∷ fs) ≡ some (newest f fs)
unfolding newest
last-newest f [] = refl
last-newest f (g ∷ fs) = last-newest g fs

pub Sub-newest : (f : Bytes) (fs : List Bytes) → Sub (newest f fs ∷ []) (f ∷ fs)
unfolding newest
Sub-newest f [] = Sub-refl _
Sub-newest f (g ∷ fs) = Sub.skip (Sub-newest g fs)

-- What `next_frame` returns, and that it leaves neither a queued nor a retained frame behind.
pub record Taken (pending : Option Bytes) (queue : Queue) (f : Bytes) : Type 0 where
  pub oldest : Bytes
  pub newer : List Bytes
  pub waited : singleton? pending ++ queue ≡ oldest ∷ newer
  pub chosen : f ≡ newest oldest newer

next_of-Taken :
    (pending : Option Bytes) (queue : Queue) (f : Bytes)
    → next_of pending queue ≡ some f
    → Taken pending queue f
unfolding next_of
next_of-Taken none [] f h = cc
next_of-Taken none (g ∷ gs) f h = record { oldest = g; newer = gs; waited = refl; chosen = cc }
next_of-Taken (some g) gs f h = record { oldest = g; newer = gs; waited = refl; chosen = cc }

pub next_frame-Taken :
    (c : Client) {f : Bytes} {c' : Client}
    → next_frame c ≡ some (f, c')
    → Taken c.pending c.outgoing f × (c' ≡ record c { outgoing = []; pending = none })
unfolding next_frame
next_frame-Taken c {f} {c'} h = elim (Option-cases (next_of c.pending c.outgoing)) [
  | inl e ↦ cc (rw (e, next_frame) at h)
  | inr (g, e) ↦
      let h' : ◌≡◌ {A = Option (Bytes × Client)}
          (some (g, record c { outgoing = []; pending = none })) (some (f, c')) =
        rw (e, next_frame) at h in
      let same_frame : g ≡ f = cc in
      let same_client : c' ≡ record c { outgoing = []; pending = none } = cc in
      (next_of-Taken c.pending c.outgoing f (e ∙ ap some same_frame), same_client)
]

-- A client at which no frame waits.
abbrev pub IsEmpty : Client → Type 0
IsEmpty c = (c.pending ≡ none) × (c.outgoing ≡ [])

empties :
    (pending : Option Bytes) (queue : Queue)
    → next_of pending queue ≡ none
    → (pending ≡ none) × (queue ≡ [])
unfolding next_of
empties none [] h = (refl, refl)
empties none (f ∷ fs) h = cc
empties (some f) fs h = cc

pub next_frame-cases :
    (c : Client)
    → IsEmpty c
      ⊎ ((f : Bytes) × (next_frame c ≡ some (f, record c { outgoing = []; pending = none })))
unfolding next_frame
next_frame-cases c = elim (Option-cases (next_of c.pending c.outgoing)) [
  | inl e ↦ inl (empties c.pending c.outgoing e)
  | inr (f, e) ↦ inr (f, rw (e, next_frame) refl)
]

-- The frames at hand are replaced by the newest of them.
module _ (sent : List Bytes) (oldest : Bytes) (newer forwarded : List Bytes) where
  chosen-order :
      Sub (sent ++ oldest ∷ newer) forwarded → Sub (sent ++ newest oldest newer ∷ []) forwarded
  chosen-order h = Sub-trans (Sub-append (Sub-refl sent) (Sub-newest oldest newer)) h

  chosen-latest :
      last (sent ++ oldest ∷ newer) ≡ last forwarded
      → last (sent ++ newest oldest newer ∷ []) ≡ last forwarded
  chosen-latest h =
      last_snoc sent (newest oldest newer)
      ∙ sym (last-newest oldest newer)
      ∙ sym (last-append sent oldest newer)
      ∙ h

-- What the choice of a frame keeps, wherever that frame goes then.
taken-held :
    (p : Pipe) {f : Bytes} {c : Client}
    → IsOrdered p
    → p.in_flight ≡ none
    → next_frame p.client ≡ some (f, c)
    → Sub (p.written ++ f ∷ []) p.forwarded
      × (last (p.written ++ f ∷ []) ≡ last p.forwarded)
      × (c ≡ record p.client { outgoing = []; pending = none })
taken-held p {f} {c} ok idle h =
    let (t, e) = next_frame-Taken p.client h in
    let at_hand : held p ≡ p.written ++ t.oldest ∷ t.newer =
      rw idle (ap (λ l. p.written ++ l) t.waited) in
    let order : Sub (p.written ++ t.oldest ∷ t.newer) p.forwarded =
      subst (λ l. Sub l p.forwarded) at_hand ok.order in
    let latest : last (p.written ++ t.oldest ∷ t.newer) ≡ last p.forwarded =
      subst (λ l. last l ≡ last p.forwarded) at_hand ok.latest in
    rw t.chosen (
      chosen-order p.written t.oldest t.newer p.forwarded order,
      chosen-latest p.written t.oldest t.newer p.forwarded latest,
      e,
    )

pub start-IsOrdered : IsOrdered start
start-IsOrdered = record { order = stop; latest = refl; one = omega arith; alone = inl refl }

-- All that is held but the queue.
abbrev ahead : Pipe → List Bytes
ahead p = p.written ++ (singleton? p.in_flight ++ singleton? p.client.pending)

held-ahead :
    (sent flying kept queue : List Bytes)
    → sent ++ (flying ++ (kept ++ queue)) ≡ (sent ++ (flying ++ kept)) ++ queue
held-ahead sent flying kept queue = simp append_assoc

forward-order :
    (front old forwarded : List Bytes) (f : Bytes)
    → Sub (front ++ old) forwarded
    → Sub (front ++ f ∷ []) (forwarded ++ f ∷ [])
forward-order front old forwarded f h =
    Sub-append (Sub-trans (Sub-front front old) h) (Sub-refl (f ∷ []))

forward-IsOrdered :
    (p : Pipe) (f : Bytes)
    → IsOrdered p
    → IsOrdered (record p {
      client = record p.client { outgoing = f ∷ [] };
      forwarded = p.forwarded ++ f ∷ [];
    })
forward-IsOrdered p f ok =
    let regroup = held-ahead p.written (singleton? p.in_flight) (singleton? p.client.pending) in
    record {
      order = rw (regroup (f ∷ [])) (
          forward-order (ahead p) p.client.outgoing p.forwarded f
            (subst (λ l. Sub l p.forwarded) (regroup p.client.outgoing) ok.order));
      latest = rw (regroup (f ∷ [])) (last_snoc (ahead p) f ∙ sym (last_snoc p.forwarded f));
      one = omega arith;
      alone = ok.alone;
    }

wrote-IsOrdered :
    (p : Pipe) (f : Bytes)
    → p.in_flight ≡ some f
    → IsOrdered p
    → IsOrdered (record p { in_flight = none; written = p.written ++ f ∷ [] })
wrote-IsOrdered p f fly ok =
    let rest : List Bytes = singleton? p.client.pending ++ p.client.outgoing in
    let moved : held p ≡ (p.written ++ f ∷ []) ++ rest =
      rw fly (sym (append_assoc p.written (f ∷ []) rest)) in
    record {
      order = subst (λ l. Sub l p.forwarded) moved ok.order;
      latest = subst (λ l. last l ≡ last p.forwarded) moved ok.latest;
      one = ok.one;
      alone = inl refl;
    }

pending_idle : (p : Pipe) (f : Bytes) → p.in_flight ≡ some f → IsOrdered p → p.client.pending ≡ none
pending_idle p f fly ok = ground (arith, ok.alone)

write_failed-IsOrdered :
    (p : Pipe) (f : Bytes)
    → p.in_flight ≡ some f
    → IsOrdered p
    → IsOrdered (record p { client = record p.client { pending = some f }; in_flight = none })
write_failed-IsOrdered p f fly ok =
    let moved : held p ≡ p.written ++ f ∷ p.client.outgoing = rw (fly, pending_idle p f fly ok) in
    record {
      order = subst (λ l. Sub l p.forwarded) moved ok.order;
      latest = subst (λ l. last l ≡ last p.forwarded) moved ok.latest;
      one = ok.one;
      alone = inl refl;
    }

Step-IsOrdered : {p q : Pipe} → Step p q → IsOrdered p → IsOrdered q
unfolding keep
Step-IsOrdered {p} (forward f queue o e) ok =
    let alone_in_queue : queue ≡ f ∷ [] = cc (offer_lem f p.client.outgoing) in
    rw (e, alone_in_queue) (forward-IsOrdered p f ok)
Step-IsOrdered (connect e) ok =
    rw e (record { order = ok.order; latest = ok.latest; one = ok.one; alone = ok.alone })
Step-IsOrdered {p} (take f c idle n e) ok =
    let (order, latest, left) = taken-held p ok idle n in
    rw (e, left) (record { order = order; latest = latest; one = omega arith; alone = inr refl })
Step-IsOrdered {p} (link_down f c idle n e) ok =
    let (order, latest, left) = taken-held p ok idle n in
    rw (e, left)
      (record {
        order = rw idle order;
        latest = rw idle latest;
        one = omega arith;
        alone = inl idle;
      })
Step-IsOrdered {p} (wrote f fly e) ok = rw e (wrote-IsOrdered p f fly ok)
Step-IsOrdered {p} (write_failed f fly e) ok = rw e (write_failed-IsOrdered p f fly ok)

pub Reach-IsOrdered : {p q : Pipe} → IsOrdered p → Reach p q → IsOrdered q
Reach-IsOrdered ok here = ok
Reach-IsOrdered ok (next r s) = Step-IsOrdered s (Reach-IsOrdered ok r)
