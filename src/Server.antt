-- ===== src/Server.antt =====
-- daemon/flipper_indicator/socket_server.py: how a `SocketServer` creates and removes its socket file.
-- The file system and the sockets of the operating system, as far as they concern the path, are
-- arguments; processes have numbers.
pub mod Laws
pub mod Status
pub mod Run
pub mod Serve
mod Tests
use flipper_agent_indicator.Prelude.{ℕ, Bool, true, false, Option, none, some, if◌then◌else◌}

pub data OsError : Type 0 where
  file_not_found : OsError
  other_error : ℕ → OsError

-- What a call of the system leaves, and what it raises.
abbrev pub Effect : Type 0 → Type 0
Effect S = S × Option OsError

-- The calls of the system on the path of the socket. `listen` is `asyncio.start_unix_server` of a
-- process, `close` closes its server, and `connect` has the process that a connection reaches, or
-- none where it raises an `OSError`.
pub record System (S : Type 0) : Type 0 where
  pub exists : S → Bool
  pub make_parent : S → Effect S
  pub unlink : S → Effect S
  pub listen : ℕ → S → Effect S
  pub chmod : S → Effect S
  pub close : ℕ → S → S
  pub connect : S → Option ℕ

-- The call after another, which an exception prevents.
unfoldable pub next : {S : Type 0} → Effect S → (S → Effect S) → Effect S
next (s, none) call = call s
next (s, some e) call = (s, some e)

-- except FileNotFoundError: pass
unfoldable pub unless_missing : Option OsError → Option OsError
unless_missing none = none
unless_missing (some file_not_found) = none
unless_missing (some (other_error n)) = some (other_error n)

module _ {S : Type 0} (sys : System S) where
  -- if self._path.exists(): self._path.unlink()
  unfoldable pub remove_stale : S → Effect S
  remove_stale s = if sys.exists s then sys.unlink s else (s, none)

  -- The path before the server listens there.
  unfoldable pub prepared : S → Effect S
  unfolding next remove_stale
  prepared s = next (sys.make_parent s) remove_stale

  -- `start` of a process
  unfoldable pub start : ℕ → S → Effect S
  unfolding next prepared
  start process s = next (next (prepared s) (sys.listen process)) sys.chmod

  -- What `serve_forever` leaves when it is cancelled: `async with` closes the server.
  unfoldable pub served : ℕ → S → S
  served process s = sys.close process s

  -- `stop`; the flag says whether `start` has set the server.
  unfoldable pub stop : ℕ → Bool → S → Effect S
  unfolding unless_missing
  stop process started s =
      let closed = if started then sys.close process s else s in
      let (after, raised) = sys.unlink closed in (after, unless_missing raised)
