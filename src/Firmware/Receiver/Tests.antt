-- ===== src/Firmware/Receiver/Tests.antt =====
-- Received pieces, and the theorems at them.
use mathlib.Core.List.{map}
use flipper_agent_indicator.Prelude.{
  true, ◌++◌, ◌≡◌, ◌<◌, refl, List, [], ◌∷◌, some, min, length, arith,
}
use flipper_agent_indicator.Utf8.{Bytes, utf8, utf8_char}
use flipper_agent_indicator.Text.{codes}
use flipper_agent_indicator.Firmware.Serial.{
  BleSerial, DeviceCall, Operation, tick, status_changed, receives, connected, advertising,
  other_status, operate_all,
}
use flipper_agent_indicator.Firmware.Receiver.Mixed.{cut_frame, with_text}
use flipper_agent_indicator.Firmware.Receiver.Cut.{cut_frame-mixes}
use flipper_agent_indicator.Protocol.RoundTrip.{layout}
use flipper_agent_indicator.Protocol.{Notification, Frame, notify, ping, codex, done}
use flipper_agent_indicator.Firmware.{FaiFrame, fai_protocol_decode, fai_frame_notify, zeros}
use flipper_agent_indicator.Firmware.Interop.{on_device}
use flipper_agent_indicator.Firmware.Receiver.{receive_all, rx_callback, data_received, Received}
use flipper_agent_indicator.Firmware.Receiver.Rounds.{rx_callback-Keeps}
use flipper_agent_indicator.Firmware.Receiver.Streams.{receive_all-stream}
use flipper_agent_indicator.Firmware.Receiver.Stalls.{receive_all_unknown}

abbrev frames : List Frame
frames = notify (record { agent = codex; state = done; text = codes "ok" }) ∷ ping ∷ []

-- The first frame is cut inside its header, and the ping comes with its end.
abbrev pieces : List Bytes
pieces = (1 ∷ 1 ∷ []) ∷ (3 ∷ 2 ∷ 0x6F ∷ []) ∷ (0x6B ∷ 2 ∷ []) ∷ []

receive_all-stream_example : receive_all [] pieces ≡ some (map on_device frames, [])
unfolding utf8 utf8_char
receive_all-stream_example = receive_all-stream frames pieces refl (omega arith)

rx_callback-Keeps_example :
    (r : Received) × (rx_callback (1 ∷ []) (data_received (1 ∷ 3 ∷ [])) ≡ some r)
    × (length r.rx < 136)
    × (r.took ≡ min 2 135)
rx_callback-Keeps_example = rx_callback-Keeps (1 ∷ []) (data_received (1 ∷ 3 ∷ [])) (omega arith)

-- A ping behind a byte that is no tag is not answered.
receive_all_unknown_example :
    receive_all (7 ∷ []) ((2 ∷ []) ∷ (2 ∷ 2 ∷ []) ∷ []) ≡ some ([], 7 ∷ 2 ∷ 2 ∷ 2 ∷ [])
receive_all_unknown_example =
    receive_all_unknown 7 refl ((2 ∷ []) ∷ (2 ∷ 2 ∷ []) ∷ []) [] (omega arith)

-- A frame that was cut by a lost link takes its text from the first frame behind the reconnection.
mixed :
    receive_all [] ((1 ∷ 0 ∷ 1 ∷ 3 ∷ 0x61 ∷ []) ∷ (1 ∷ 1 ∷ 3 ∷ 0 ∷ []) ∷ [])
    ≡ some (
      record {
        kind = fai_frame_notify;
        agent = 0;
        state = 1;
        text_len = 3;
        text = 0x61 ∷ 1 ∷ 1 ∷ zeros 62;
      }
          ∷ [],
      3 ∷ 0 ∷ [],
    )
unfolding receive_all fai_protocol_decode
mixed = refl

abbrev cut_note : Notification
cut_note = record { agent = codex; state = done; text = codes "abc" }

abbrev next_note : Notification
next_note = record { agent = codex; state = done; text = [] }

-- The module with its profile.
abbrev module_up : BleSerial
module_up = record {
  bt = true;
  profile = true;
  out_queue = true;
  rpc_guard = true;
  rx_buf = [];
  initialized = true;
}

abbrev lost : List Operation
lost = status_changed other_status ∷ status_changed advertising ∷ tick ∷ []

cut_frame-mixes_example :
    (again : BleSerial) × (calls : List DeviceCall) × (operate_all
        (receives (data_received (cut_frame cut_note 1)) ∷ lost ++ status_changed connected ∷ [])
        module_up
      ≡ some (again, calls))
    × ((r : Received) × (later : List FaiFrame) × (rx_callback again.rx_buf
            (data_received (layout (notify next_note)))
          ≡ some r)
        × (r.frames ≡ with_text cut_note (0x61 ∷ 1 ∷ 1 ∷ 3 ∷ 0 ∷ []) ∷ later))
unfolding utf8 utf8_char
cut_frame-mixes_example =
    cut_frame-mixes cut_note next_note 1 lost module_up (omega arith) (omega arith)
      (tt, (tt, (tt, tt))) refl
