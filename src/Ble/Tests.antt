-- ===== src/Ble/Tests.antt =====
-- Runs of the BLE client as in daemon/tests/test_ble.py, and the theorems at such inputs.
use flipper_agent_indicator.Prelude.{◌≡◌, refl, ◌↔◌, ◌≤◌, false, [], ◌∷◌, some, none, length, last}
use flipper_agent_indicator.Utf8.{Bytes}
use flipper_agent_indicator.Outbox.{offer, offer_all}
use flipper_agent_indicator.Ble.{
  Client, down, up, returns, raises, pump, raised, waiting, link_dropped, World, missing,
  loop_start, run_forever, exited, between, next_frame, keep,
}
use flipper_agent_indicator.Ble.Pipe.{
  Pipe, forward, take, wrote, write_failed, Reach, here, next, start,
}
use flipper_agent_indicator.Ble.Latest.{latest_written}
use flipper_agent_indicator.Ble.Backoff.{doublings, sleeps-doublings}
use flipper_agent_indicator.Ble.Restart.{since_first, exited_after_three_iff}

abbrev fresh : Client
fresh = record { outgoing = []; pending = none; had_success = false }

abbrev old_frame : Bytes
old_frame = 1 ∷ []

abbrev new_frame : Bytes
new_frame = 2 ∷ []

-- A frame that met a dropped link is sent by the next session, unless a newer one is queued by then.
pump_runs :
    (pump fresh ((old_frame ∷ [], down) ∷ [])
      ≡ ([], record fresh { pending = some old_frame }, raised link_dropped))
    × (pump (record fresh { pending = some old_frame }) (([], up [] returns) ∷ [])
        ≡ (old_frame ∷ [], fresh, waiting))
    × (pump
          (record fresh { pending = some old_frame })
          ((new_frame ∷ [], up [] returns) ∷ ([], up [] returns) ∷ [])
        ≡ (new_frame ∷ [], fresh, waiting))
unfolding pump offer_all offer
pump_runs = (refl, refl, refl)

-- A session that connects, sends a frame and loses the link, and one that never connects.
abbrev good : World
good = record {
  connect = returns;
  scan = missing;
  retry = raises;
  subscribe = returns;
  rounds = (old_frame ∷ [], up [] returns) ∷ (new_frame ∷ [], down) ∷ [];
}

abbrev bad : World
bad = record good { connect = raises }

-- Three good sessions in a row end the process: they count as failures.
restart_runs :
    (run_forever loop_start fresh (bad ∷ bad ∷ bad ∷ bad ∷ bad ∷ bad ∷ bad ∷ [])
      ≡ (1 ∷ 2 ∷ 4 ∷ 8 ∷ 16 ∷ 30 ∷ 30 ∷ [], between))
    × (run_forever loop_start fresh (bad ∷ good ∷ good ∷ good ∷ []) ≡ (1 ∷ 2 ∷ 4 ∷ [], exited))
unfolding run_forever offer_all offer
restart_runs = (refl, refl)

exited_after_three_iff_example :
    ((run_forever loop_start fresh (bad ∷ good ∷ good ∷ good ∷ [])).1 ≡ exited)
    ↔ (3 ≤ length (since_first (bad ∷ good ∷ good ∷ good ∷ [])))
unfolding run_forever offer_all offer
exited_after_three_iff_example =
    exited_after_three_iff fresh (bad ∷ good ∷ good ∷ good ∷ []) refl (λ h. cc h)

sleeps-doublings_example :
    (run_forever loop_start fresh (bad ∷ good ∷ [])).0
    ≡ doublings 0 (length (run_forever loop_start fresh (bad ∷ good ∷ [])).0)
sleeps-doublings_example = sleeps-doublings fresh (bad ∷ good ∷ []) refl

-- One frame is forwarded, taken and written.
abbrev queued : Pipe
queued = record start {
  client = record fresh { outgoing = old_frame ∷ [] };
  forwarded = old_frame ∷ [];
}

abbrev flying : Pipe
flying = record queued { client = fresh; in_flight = some old_frame }

abbrev arrived : Pipe
arrived = record flying { in_flight = none; written = old_frame ∷ [] }

delivery : Reach start arrived
unfolding offer next_frame
delivery =
    next
      (next (next here (forward old_frame (old_frame ∷ []) refl refl))
        (take old_frame fresh refl refl refl))
      (wrote old_frame refl refl)

-- The write of the first frame fails while a newer one is queued.
abbrev failing : Pipe
failing = record flying {
  client = record fresh { outgoing = new_frame ∷ []; pending = some old_frame };
  in_flight = none;
  forwarded = old_frame ∷ new_frame ∷ [];
}

failure : Reach start failing
unfolding offer next_frame keep
failure =
    next
      (next
        (next (next here (forward old_frame (old_frame ∷ []) refl refl))
          (take old_frame fresh refl refl refl))
        (forward new_frame (new_frame ∷ []) refl refl))
      (write_failed old_frame refl refl)

latest_written_example : last arrived.written ≡ last arrived.forwarded
latest_written_example = latest_written delivery refl refl refl
