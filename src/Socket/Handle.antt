-- ===== src/Socket/Handle.antt =====
-- What one connection does to the queue of notifications.
use flipper_agent_indicator.Prelude.{
  arith, all, all-append, le→ltb_false, ◌≤◌, true, ◌∙◌, ◌<◌, ◌≡◌, refl, ◌↔◌, ◌⊎◌, inl, inr, List,
  [], ◌∷◌, ◌++◌, ltb, Option, none, some, Result, ok, err, length, All, Bool-cases, ltb→lt, lt→ltb,
}
use flipper_agent_indicator.Text.{Str, before}
use flipper_agent_indicator.Utf8
use flipper_agent_indicator.Text.Laws.{before_snoc, contains_snoc, all-before}
use flipper_agent_indicator.Utf8.RoundTrip.{decode-utf8, utf8-append}
use flipper_agent_indicator.Utf8.Newline.{before-utf8, contains-utf8}
use flipper_agent_indicator.Utf8.{is_scalar, utf8, utf8_char, Bytes}
use flipper_agent_indicator.Utf8.Scalars.{IsScalar, decode-All}
use flipper_agent_indicator.Protocol.{Notification}
use flipper_agent_indicator.Socket.{
  ParseError, parse_line, Arrival, timed_out, sent, stream_limit, readline, closed, raised, enqueue,
  handle_line, handle,
}
use flipper_agent_indicator.Socket.Lines.{parse_line-All}

-- The queue is as it was, or has one notification more, whose text can be encoded.
abbrev pub Grows : List Notification → List Notification → Type 0
Grows queue next =
    (next ≡ queue) ⊎ ((n : Notification) × (next ≡ queue ++ n ∷ []) × All IsScalar n.text)

enqueue-Grows :
    (queue : List Notification) (line : Str) (r : Result ParseError Notification)
    → parse_line line ≡ r
    → All IsScalar line
    → Grows queue (enqueue queue r).0
unfolding enqueue
enqueue-Grows queue line (ok n) e h = inr (n, refl, parse_line-All IsScalar line n e h)
enqueue-Grows queue line (err x) e h = inl refl

handle_line-Grows :
    (queue : List Notification) (line : Option Bytes) → Grows queue (handle_line queue line).0
unfolding handle_line
handle_line-Grows queue none = inl refl
handle_line-Grows queue (some raw) =
    enqueue-Grows queue (Utf8.decode raw) (parse_line (Utf8.decode raw)) refl (decode-All raw)

-- Whatever a client sends, a call of the handler leaves the queue as it is or adds one notification
-- at its end, and the text of that one holds no surrogate.
pub handle-Grows :
    (queue : List Notification) (arrival : Arrival) → Grows queue (handle queue arrival).0
unfolding handle
handle-Grows queue timed_out = inl refl
handle-Grows queue (sent stream) = handle_line-Grows queue (readline stream)

closed-enqueue :
    (queue : List Notification) (r : Result ParseError Notification) → (enqueue queue r).1 ≡ closed
unfolding enqueue
closed-enqueue queue (ok n) = refl
closed-enqueue queue (err e) = refl

handle-raised_iff_sent :
    (queue : List Notification) (stream : Bytes)
    → ((handle queue (sent stream)).1 ≡ raised) ↔ (stream_limit < length (before b'\n' stream))
unfolding handle readline handle_line
handle-raised_iff_sent queue stream =
    elim (Bool-cases (ltb stream_limit (length (before b'\n' stream)))) [
      | inl e ↦ ((λ _. ltb→lt stream_limit _ e), rw (e, readline) (λ _. refl))
      | inr e ↦ (
        rw (e, readline) (λ h. cc (closed-enqueue queue _)),
        (λ h. cc (e, lt→ltb stream_limit _ h)),
      )
    ]

-- A client that sends a line longer than the reader takes.
abbrev pub IsOverlong : Arrival → Type 0
IsOverlong timed_out = ⊥
IsOverlong (sent stream) = stream_limit < length (before b'\n' stream)

-- Whatever a connection brings, a line, no line in time or the end of the stream, an exception leaves the
-- handler exactly if the client sent a line longer than the limit of the reader, which is a `ValueError`;
-- else the handler returns with the writer closed.
pub handle-raised_iff :
    (queue : List Notification) (arrival : Arrival)
    → ((handle queue arrival).1 ≡ raised) ↔ IsOverlong arrival
unfolding handle
handle-raised_iff queue timed_out = ((λ h. cc), (λ h. absurd h))
handle-raised_iff queue (sent stream) = handle-raised_iff_sent queue stream

-- An encoded line, as far as its first newline, is parsed as the text that it encodes.
module _ (body : Str) (can : all is_scalar body ≡ true) where
  line-all : all is_scalar (before b'\n' body ++ b'\n' ∷ []) ≡ true
  line-all =
      all-append is_scalar (before b'\n' body) (b'\n' ∷ [])
      ∙ rw (all-before is_scalar b'\n' body can)

  readline-utf8 :
      length (utf8 (before b'\n' body)) ≤ stream_limit
      → readline (utf8 (body ++ b'\n' ∷ [])) ≡ some (utf8 (before b'\n' body ++ b'\n' ∷ []))
  unfolding readline
  readline-utf8 fits =
      rw
        (
          before-utf8 b'\n' (omega arith) (body ++ b'\n' ∷ []),
          contains-utf8 b'\n' (omega arith) (body ++ b'\n' ∷ []),
          before_snoc b'\n' body,
          contains_snoc b'\n' body,
          le→ltb_false stream_limit _ fits,
          utf8-append (before b'\n' body) (b'\n' ∷ []),
        )
        (unfold utf8 utf8_char in refl)

  pub handle-utf8_line :
      (queue : List Notification)
      → length (utf8 (before b'\n' body)) ≤ stream_limit
      → handle queue (sent (utf8 (body ++ b'\n' ∷ [])))
        ≡ enqueue queue (parse_line (before b'\n' body ++ b'\n' ∷ []))
  unfolding handle handle_line
  handle-utf8_line queue fits =
      rw (readline-utf8 fits, decode-utf8 (before b'\n' body ++ b'\n' ∷ []) line-all)
