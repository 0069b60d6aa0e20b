-- ===== src/Ble.antt =====
-- daemon/flipper_indicator/ble.py: `FlipperClient`, its frames, its sessions and its retries.
mod Retry
pub mod Backoff
pub mod Restart
pub mod Sessions
pub mod Pipe
pub mod Order
pub mod Latest
pub mod Delivered
mod Tests
use flipper_agent_indicator.Prelude.{
  ℕ, zero, suc, ◌+◌, ◌*◌, min, Bool, true, false, ◌||◌, ◌&&◌, List, [], ◌∷◌, ◌++◌, Option, none,
  some, leb, if◌then◌else◌,
}
use flipper_agent_indicator.Utf8.{Bytes}
use flipper_agent_indicator.Outbox.{Queue, offer_all}

-- Seconds; the source has the floats 1.0 and 30.0, and its doublings are exact.
abbrev pub backoff_initial : ℕ
backoff_initial = 1

abbrev pub backoff_max : ℕ
backoff_max = 30

abbrev pub failures_before_restart : ℕ
failures_before_restart = 3

-- The fields that change: the queue `_outgoing`, `_pending_frame` and `_had_success`.
pub record Client : Type 0 where
  pub outgoing : Queue
  pub pending : Option Bytes
  pub had_success : Bool

-- The draining loop of `_next_frame`: each queued frame supersedes the one at hand.
unfoldable pub newest : Bytes → List Bytes → Bytes
newest frame [] = frame
newest frame (f ∷ fs) = newest f fs

next_of : Option Bytes → List Bytes → Option Bytes
unfolding newest
next_of none [] = none
next_of none (f ∷ fs) = some (newest f fs)
next_of (some frame) fs = some (newest frame fs)

-- `_next_frame`: the frame, and the client after it; `none` while it waits for an empty queue.
unfoldable pub next_frame : Client → Option (Bytes × Client)
unfolding next_of
next_frame c = elim (next_of c.pending c.outgoing) [
  | none ↦ none
  | some frame ↦ some (frame, record c { outgoing = []; pending = none })
]

-- The library's answer to an awaited call.
pub data Reply : Type 0 where
  returns raises : Reply

-- The errors that end a session.
pub data SessionError : Type 0 where
  not_found link_dropped call_failed : SessionError

-- How far a coroutine has come: it still waits, it has returned, or an exception has left it.
pub data Progress : Type 0 where
  waiting returned : Progress
  raised : SessionError → Progress

-- One round of the pump, as the world answers it: the link is down, or the frame is written, and
-- meanwhile other frames are forwarded.
pub data Link : Type 0 where
  down : Link
  up : (meanwhile : List Bytes) (write : Reply) → Link

-- A frame that could not be sent is kept.
unfoldable pub keep : Client → Bytes → Client
keep c frame = record c { pending = some frame }

-- Frames that the daemon forwards, while the client waits.
arrive : Client → List Bytes → Client
arrive c frames = record c { outgoing = offer_all frames c.outgoing }

-- What a round of the pump comes to: it waits for a frame, it has sent one, or it raises.
pub data Round : Type 0 where
  waits : Client → Round
  sends : Bytes → Client → Round
  fails : SessionError → Client → Round

-- The part of a round behind `_next_frame`.
send_frame : Bytes → Client → Link → Round
unfolding keep arrive
send_frame frame c down = fails link_dropped (keep c frame)
send_frame frame c (up meanwhile raises) = fails call_failed (keep (arrive c meanwhile) frame)
send_frame frame c (up meanwhile returns) = sends frame (arrive c meanwhile)

-- One round, before which some frames are forwarded.
unfoldable pub pump_round : Client → List Bytes → Link → Round
unfolding next_frame send_frame arrive
pump_round c arrivals link = elim (next_frame (arrive c arrivals)) [
  | none ↦ waits (arrive c arrivals)
  | some (frame, c') ↦ send_frame frame c' link
]

-- The frames that were written, the client, and how far the loop has come.
abbrev pub Ended : Type 0
Ended = List Bytes × Client × Progress

unfoldable pub and_then : Round → (Client → Ended) → Ended
and_then (waits c) rest = ([], c, waiting)
and_then (fails e c) rest = ([], c, raised e)
and_then (sends frame c) rest = let (sent, c', progress) = rest c in (frame ∷ sent, c', progress)

-- `_pump_outgoing`: one entry for each round, with the frames that are forwarded before it.
unfoldable pub pump : Client → List (List Bytes × Link) → Ended
unfolding pump_round and_then
pump c [] = ([], c, waiting)
pump c ((arrivals, link) ∷ rounds) = and_then (pump_round c arrivals link) (λ c'. pump c' rounds)

-- The scanner finds the device, does not find it, or raises.
pub data Scan : Type 0 where
  found missing scan_raises : Scan

-- The world's answers in one session. `retry` is the second `connect`.
pub record World : Type 0 where
  pub connect : Reply
  pub scan : Scan
  pub retry : Reply
  pub subscribe : Reply
  pub rounds : List (List Bytes × Link)

-- The part of `_session` that connects: cached first, then once after a scan.
after_scan : Scan → Reply → Option SessionError
after_scan missing retry = some not_found
after_scan scan_raises retry = some call_failed
after_scan found raises = some call_failed
after_scan found returns = none

unfoldable pub connecting : World → Option SessionError
unfolding after_scan
connecting w = elim w.connect [ returns ↦ none | raises ↦ after_scan w.scan w.retry ]

-- The part under `try`: `start_notify`, then the pump. `disconnect` may raise, and is ignored then.
serving : Client → Reply → List (List Bytes × Link) → Ended
unfolding pump
serving c raises rounds = ([], c, raised call_failed)
serving c returns rounds = pump c rounds

-- `_session`
unfoldable pub session : Client → World → Ended
unfolding connecting serving
session c w = elim (connecting w) [
  | some e ↦ ([], c, raised e)
  | none ↦ serving (record c { had_success = true }) w.subscribe w.rounds
]

-- The local variables of `run_forever`.
pub record Loop : Type 0 where
  pub backoff : ℕ
  pub had_success : Bool
  pub failures : ℕ

abbrev pub loop_start : Loop
loop_start = record { backoff = backoff_initial; had_success = false; failures = 0 }

-- Behind the `try`: `sleep` for so many seconds and go on, or `os._exit(1)`.
pub data Action : Type 0 where
  sleep : ℕ → Action
  exit : Action

-- The end of a round of the loop: the sleep, and the doubled backoff.
pause : Loop → Loop × Action
pause l = (record l { backoff = min (l.backoff * 2) backoff_max }, sleep l.backoff)

-- The handler of `Exception`, with the client's `_had_success`.
fail : Loop → Loop × Action
unfolding pause
fail l =
    if l.had_success
    then (let l' = record l { failures = l.failures + 1 } in
        if leb failures_before_restart l'.failures then (l', exit) else pause l')
    else pause l

-- What `run_forever` does when a session has ended; `none` while it has not.
unfoldable pub session_end : Loop → Bool → Progress → Option (Loop × Action)
unfolding pause fail
session_end l client_success waiting = none
session_end l client_success returned =
    some (pause (record l { backoff = backoff_initial; failures = 0 }))
session_end l client_success (raised e) =
    some (fail (record l { had_success = l.had_success || client_success }))

-- How far `run_forever` has come: it is in a session, its worlds are over, or the process is gone.
pub data Status : Type 0 where
  in_session between exited : Status

go_on : Option (Loop × Action) → (Loop → List ℕ × Status) → List ℕ × Status
go_on none rest = ([], in_session)
go_on (some (l, exit)) rest = ([], exited)
go_on (some (l, sleep seconds)) rest = let (sleeps, status) = rest l in (seconds ∷ sleeps, status)

-- `run_forever` over the worlds of its sessions: the sleeps so far, and how far it has come.
unfoldable pub run_forever : Loop → Client → List World → List ℕ × Status
unfolding session session_end go_on
run_forever l c [] = ([], between)
run_forever l c (w ∷ ws) =
    let (_, c', progress) = session c w in
    go_on (session_end l c'.had_success progress) (λ l'. run_forever l' c' ws)
