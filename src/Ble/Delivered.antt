-- ===== src/Ble/Delivered.antt =====
-- From every state that can be reached, the link being up, the newest frame is delivered.
use flipper_agent_indicator.Prelude.{
  ◌∷◌, ◌≡◌, refl, sym, ap, inl, inr, List, [], ◌++◌, Option, none, some, last, Option-cases,
}
use flipper_agent_indicator.Utf8.{Bytes}
use flipper_agent_indicator.Ble.{Client, next_of, next_frame}
use flipper_agent_indicator.Ble.Pipe.{Pipe, Reach, here, next, take, wrote, start}
use flipper_agent_indicator.Ble.Latest.{latest_written}

-- A later state in which no other frame was forwarded, and the last one was written last.
abbrev pub Delivers : Pipe → Type 0
Delivers p =
    (later : Pipe) × Reach p later
    × (later.forwarded ≡ p.forwarded)
    × (last later.written ≡ last p.forwarded)

next_of-none :
    (pending : Option Bytes) (queue : List Bytes)
    → next_of pending queue ≡ none
    → (pending ≡ none) × (queue ≡ [])
unfolding next_of
next_of-none none [] h = (refl, refl)
next_of-none none (f ∷ fs) h = cc
next_of-none (some f) fs h = cc

idle : (c : Client) → next_frame c ≡ none → (c.pending ≡ none) × (c.outgoing ≡ [])
unfolding next_frame
idle c h = elim (Option-cases (next_of c.pending c.outgoing)) [
  | inl e ↦ next_of-none c.pending c.outgoing e
  | inr (f, e) ↦ cc (rw (e, next_frame) at h)
]

emptied :
    (c : Client) (f : Bytes) (c' : Client)
    → next_frame c ≡ some (f, c')
    → (c'.pending ≡ none) × (c'.outgoing ≡ [])
unfolding next_frame
emptied c f c' h = elim (Option-cases (next_of c.pending c.outgoing)) [
  | inl e ↦ cc (rw (e, next_frame) at h)
  | inr (g, e) ↦
      (let same : record c { outgoing = []; pending = none } ≡ c' = cc (rw (e, next_frame) at h) in
        (sym (ap (λ (x : Client). x.pending) same), sym (ap (λ (x : Client). x.outgoing) same)))
]

-- While no write is awaited, the client is idle, or takes the newest frame and writes it.
Delivers-idle : {p : Pipe} → Reach start p → p.in_flight ≡ none → Delivers p
Delivers-idle {p} r unsent = elim (Option-cases (next_frame p.client)) [
  | inl e ↦
      (let (unkept, empty) = idle p.client e in
        (p, here, refl, latest_written r unsent unkept empty))
  | inr ((f, c), e) ↦
      (let taken : Pipe = record p { client = c; in_flight = some f } in
        let sent : Pipe = record taken { in_flight = none; written = p.written ++ f ∷ [] } in
        let (unkept, empty) = emptied p.client f c e in
        (
          sent,
          next (next here (take f c unsent e refl)) (wrote f refl refl),
          refl,
          latest_written {p = sent} (next (next r (take f c unsent e refl)) (wrote f refl refl))
              refl unkept empty,
        ))
]

Reach-trans : {q p s : Pipe} → Reach p q → Reach q s → Reach p s
Reach-trans r here = r
Reach-trans r (next t step) = next (Reach-trans r t) step

-- From every state that the program can reach, whatever was dropped, retained or is being written,
-- some further steps of the client alone write the frame that was forwarded last, and write it last.
pub latest_deliverable :
    {p : Pipe}
    → Reach start p
    → (later : Pipe) × Reach p later
      × (later.forwarded ≡ p.forwarded)
      × (last later.written ≡ last p.forwarded)
latest_deliverable {p} r = elim (Option-cases p.in_flight) [
  | inl unsent ↦ Delivers-idle r unsent
  | inr (f, sending) ↦
      (let done : Pipe = record p { in_flight = none; written = p.written ++ f ∷ [] } in
        let (later, steps, same, newest) =
          Delivers-idle {p = done} (next r (wrote f sending refl)) refl in
        (later, Reach-trans (next here (wrote f sending refl)) steps, same, newest))
]
