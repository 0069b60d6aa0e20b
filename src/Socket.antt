-- ===== src/Socket.antt =====
-- daemon/flipper_indicator/socket_server.py: the line protocol of the Unix socket, and its handler.
pub mod Parse
pub mod Lines
pub mod Choices
pub mod Handle
mod Tests
use mathlib.Core.WellFounded.{Acc}
use flipper_agent_indicator.Prelude.{
  ℕ, zero, suc, ◌≤◌, ◌<◌, ◌^◌, List, [], ◌∷◌, ◌++◌, Option, none, some, ltb, if◌then◌else◌, not,
  length, drop, Bool, true, false, Result, ok, err, ◌>>=◌,
}
use flipper_agent_indicator.Prelude.Order.{Falls, Acc-Falls}
use flipper_agent_indicator.Text.{
  Str, codes, eq_str, strip, lstrip, starts_with, before, after, contains,
}
use flipper_agent_indicator.Text.Laws.{length-rest}
use flipper_agent_indicator.Utf8
use flipper_agent_indicator.Utf8.{Bytes}
use flipper_agent_indicator.Protocol.{
  AgentId, claude, codex, opencode, generic, State, off, running, needs_input, done, Notification,
}

-- _AGENT_BY_NAME, _STATE_BY_NAME; `none` is a name that is not in the dictionary.
unfoldable pub agent_by_name : Str → Option AgentId
agent_by_name name =
    if eq_str name (codes "claude")
    then some claude
    else if eq_str name (codes "codex")
    then some codex
    else if eq_str name (codes "opencode")
    then some opencode
    else if eq_str name (codes "generic")
    then some generic
    else none

unfoldable pub state_by_name : Str → Option State
state_by_name name =
    if eq_str name (codes "off")
    then some off
    else if eq_str name (codes "running")
    then some running
    else if eq_str name (codes "needs-input")
    then some needs_input
    else if eq_str name (codes "done")
    then some done
    else none

pub data ParseError : Type 0 where
  expected_key_value unknown_agent unknown_state unknown_key : Str → ParseError
  missing_fields : ParseError

-- The variables `agent` and `state` of the loop.
pub record Fields : Type 0 where
  pub agent : Option AgentId
  pub state : Option State

set_agent : Fields → Str → Option AgentId → Result ParseError Fields
set_agent fields value none = err (unknown_agent value)
set_agent fields value (some a) = ok (record fields { agent = some a })

set_state : Fields → Str → Option State → Result ParseError Fields
set_state fields value none = err (unknown_state value)
set_state fields value (some s) = ok (record fields { state = some s })

-- One token of the form key=value.
unfoldable pub read_token : Fields → Str → Result ParseError Fields
unfolding set_agent set_state
read_token fields token =
    if not (contains b'=' token)
    then err (expected_key_value token)
    else let key = before b'=' token in
      let value = after b'=' token in
      if eq_str key (codes "agent")
      then set_agent fields value (agent_by_name value)
      else if eq_str key (codes "state")
      then set_state fields value (state_by_name value)
      else err (unknown_key key)

-- What stands behind the loop: both fields are required.
finish_with : Option AgentId → Option State → Str → Result ParseError Notification
finish_with (some a) (some s) text = ok (record { agent = a; state = s; text = text })
finish_with _ _ text = err missing_fields

unfoldable pub finish : Fields → Str → Result ParseError Notification
unfolding finish_with
finish fields text = finish_with fields.agent fields.state text

-- The loop of `parse_line`, by recursion on the length of what remains.
unfoldable pub parse_from :
    Fields → (remaining : Str) → Acc (Falls length) remaining → Result ParseError Notification
parse_from fields [] _ = finish fields []
parse_from fields (c ∷ cs) (Acc.intro _ smaller) =
    if starts_with (c ∷ cs) (codes "text=") then finish fields (drop 5 (c ∷ cs)) else do
      fields' ← read_token fields (before b' ' (c ∷ cs))
      parse_from fields' (lstrip (after b' ' (c ∷ cs))) (smaller _ (length-rest b' ' c cs))

abbrev no_fields : Fields
no_fields = record { agent = none; state = none }

unfoldable pub parse_line : Str → Result ParseError Notification
unfolding parse_from read_token finish Acc-Falls
parse_line line = parse_from no_fields (strip line) (Acc-Falls length (strip line))

-- What a connection sends before its end or before the second is over.
pub data Arrival : Type 0 where
  timed_out : Arrival
  sent : Bytes → Arrival

-- The limit of the stream reader that `asyncio.start_unix_server` makes.
abbrev pub stream_limit : ℕ
stream_limit = 2 ^ 16

-- `reader.readline()`: up to the first newline, it included, or up to the end of the stream. A line
-- longer than the limit raises `ValueError`, here `none`.
unfoldable pub readline : Bytes → Option Bytes
readline stream =
    let line = before b'\n' stream in
    if ltb stream_limit (length line)
    then none
    else some (if contains b'\n' stream then line ++ b'\n' ∷ [] else line)

-- How a call of `_handle` ends: it closes the writer and returns, or an exception leaves it.
pub data Ending : Type 0 where
  closed raised : Ending

-- The part behind the parser: `put_nowait`, or the log line of a `ParseError`.
unfoldable pub enqueue :
    List Notification → Result ParseError Notification → List Notification × Ending
enqueue queue (ok n) = (queue ++ n ∷ [], closed)
enqueue queue (err e) = (queue, closed)

handle_line : List Notification → Option Bytes → List Notification × Ending
unfolding enqueue
handle_line queue none = (queue, raised)
handle_line queue (some raw) = enqueue queue (parse_line (Utf8.decode raw))

-- `_handle`, with the queue `_outgoing` before and after. That queue has no bound.
unfoldable pub handle : List Notification → Arrival → List Notification × Ending
unfolding handle_line
handle queue timed_out = (queue, closed)
handle queue (sent stream) = handle_line queue (readline stream)
