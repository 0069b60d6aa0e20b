-- ===== src/Outbox.antt =====
-- The queue of frames between `_forward_notifies` of daemon/flipper_indicator/daemon.py and the BLE
-- client: an `asyncio.Queue(maxsize=1)` that is drained before each put.
use flipper_agent_indicator.Prelude.{
  ℕ, ◌≡◌, refl, ltb, List, [], ◌∷◌, ◌++◌, Option, none, some, length, if◌then◌else◌,
}
use flipper_agent_indicator.Utf8.{Bytes}

abbrev pub Queue : Type 0
Queue = List Bytes

abbrev pub maxsize : ℕ
maxsize = 1

-- The loop `while not outgoing.empty(): outgoing.get_nowait()`.
drain : Queue → Queue
drain [] = []
drain (f ∷ fs) = drain fs

-- `await outgoing.put(frame)`; `none` while a full queue makes it wait.
put : Bytes → Queue → Option Queue
put frame queue = if ltb (length queue) maxsize then some (queue ++ frame ∷ []) else none

-- Latest wins: any pending frame is dropped before the new one is put.
unfoldable pub offer : Bytes → Queue → Option Queue
unfolding drain put
offer frame queue = put frame (drain queue)

drain_all : (queue : Queue) → drain queue ≡ []
unfolding drain
drain_all [] = refl
drain_all (f ∷ fs) = drain_all fs

-- Whatever the queue held, the put does not wait, and the queue then holds the new frame alone.
pub offer_lem : (frame : Bytes) (queue : Queue) → offer frame queue ≡ some (frame ∷ [])
unfolding offer put
offer_lem frame queue = rw (drain_all queue)

-- Frames that are forwarded one after the other; at one that has to wait the queue stays as it is.
unfoldable pub offer_all : List Bytes → Queue → Queue
offer_all [] queue = queue
offer_all (f ∷ fs) queue = elim (offer f queue) [ none ↦ queue | some next ↦ offer_all fs next ]
