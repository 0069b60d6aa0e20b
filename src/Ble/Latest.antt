-- ===== src/Ble/Latest.antt =====
-- Which frames are written, and which one is written last.
use flipper_agent_indicator.Prelude.{◌≤◌, ◌≡◌, subst, [], append-nil, none, length, last}
use flipper_agent_indicator.Prelude.Sub.{Sub, Sub-trans, Sub-front}
use flipper_agent_indicator.Ble.Pipe.{Pipe, Reach, start, held}
use flipper_agent_indicator.Ble.Order.{start-IsOrdered, Reach-IsOrdered}

-- Whatever the interleaving of forwarding, writing, failed writes and reconnections, the frames that
-- were written are frames that were forwarded, in that order and each as often as it was forwarded
-- at most, and the queue between the two tasks holds one frame at most.
pub written-Sub-forwarded :
    {p : Pipe} → Reach start p → Sub p.written p.forwarded × (length p.client.outgoing ≤ 1)
written-Sub-forwarded {p} r =
    let ok = Reach-IsOrdered start-IsOrdered r in
    (Sub-trans (Sub-front p.written _) ok.order, ok.one)

-- Latest wins, and the latest is not lost: when the client has nothing in hand, retained or queued,
-- the frame that was written last is the one that was forwarded last.
pub latest_written :
    {p : Pipe}
    → Reach start p
    → p.in_flight ≡ none
    → p.client.pending ≡ none
    → p.client.outgoing ≡ []
    → last p.written ≡ last p.forwarded
latest_written {p} r idle unkept empty =
    let ok = Reach-IsOrdered start-IsOrdered r in
    let all_sent : held p ≡ p.written = rw (idle, unkept, empty) (append-nil p.written) in
    subst (λ l. last l ≡ last p.forwarded) all_sent ok.latest
