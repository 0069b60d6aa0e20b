-- ===== src/Ble/Pipe.antt =====
-- The frames on their way: the daemon forwards, the client takes, writes, fails and retries, in any
-- order that the awaits allow.
use flipper_agent_indicator.Prelude.{
  false, ◌≤◌, ◌≡◌, ◌⊎◌, true, List, [], ◌∷◌, ◌++◌, Option, none, some, length, last, singleton?,
}
use flipper_agent_indicator.Prelude.Sub.{Sub}
use flipper_agent_indicator.Utf8.{Bytes}
use flipper_agent_indicator.Outbox.{Queue, offer}
use flipper_agent_indicator.Ble.{Client, next_frame, keep}

-- The client, the frame whose write is awaited, and two histories: the frames that were forwarded
-- and those whose write returned.
pub record Pipe : Type 0 where
  pub client : Client
  pub in_flight : Option Bytes
  pub forwarded : List Bytes
  pub written : List Bytes

-- What happens between two awaits.
pub data Step (p q : Pipe) : Type 0 where
  forward :
      (f : Bytes) (queue : Queue)
      → offer f p.client.outgoing ≡ some queue
      → q ≡ record p {
        client = record p.client { outgoing = queue };
        forwarded = p.forwarded ++ f ∷ [];
      }
      → Step p q
  connect : q ≡ record p { client = record p.client { had_success = true } } → Step p q
  take :
      (f : Bytes) (c : Client)
      → p.in_flight ≡ none
      → next_frame p.client ≡ some (f, c)
      → q ≡ record p { client = c; in_flight = some f }
      → Step p q
  link_down :
      (f : Bytes) (c : Client)
      → p.in_flight ≡ none
      → next_frame p.client ≡ some (f, c)
      → q ≡ record p { client = keep c f }
      → Step p q
  wrote :
      (f : Bytes)
      → p.in_flight ≡ some f
      → q ≡ record p { in_flight = none; written = p.written ++ f ∷ [] }
      → Step p q
  write_failed :
      (f : Bytes)
      → p.in_flight ≡ some f
      → q ≡ record p { client = keep p.client f; in_flight = none }
      → Step p q

pub data Reach (p : Pipe) : Pipe → Type 0 where
  here : Reach p p
  next : {q r : Pipe} → Reach p q → Step q r → Reach p r

abbrev pub start : Pipe
start = record {
  client = record { outgoing = []; pending = none; had_success = false };
  in_flight = none;
  forwarded = [];
  written = [];
}

-- The frames that were written or can still be, oldest first.
abbrev pub held : Pipe → List Bytes
held p = p.written ++ (singleton? p.in_flight ++ (singleton? p.client.pending ++ p.client.outgoing))

pub record IsOrdered (p : Pipe) : Type 0 where
  pub order : Sub (held p) p.forwarded
  pub latest : last (held p) ≡ last p.forwarded
  pub one : length p.client.outgoing ≤ 1
  pub alone : (p.in_flight ≡ none) ⊎ (p.client.pending ≡ none)
