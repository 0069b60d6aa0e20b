-- ===== src/Firmware/Receiver/Cut.antt =====
-- ble_serial.c: what becomes of a frame that a lost connection has cut, since the buffer is kept for the
-- next connection.
use flipper_agent_indicator.Prelude.{
  take-append-drop, All, All-append, none, [], ℕ, ◌+◌, ◌≤◌, ◌<◌, ◌≡◌, refl, ap, ◌∙◌, List, ◌∷◌,
  ◌++◌, some, length, take, drop, length-take, arith,
}
use flipper_agent_indicator.Protocol.{Notification, notify}
use flipper_agent_indicator.Protocol.RoundTrip.{layout, label_bytes}
use flipper_agent_indicator.Firmware.{FaiFrame, fai_protocol_decode}
use flipper_agent_indicator.Firmware.Interop.{label-fits, length-layout}
use flipper_agent_indicator.Firmware.Receiver.{data_received, Received, parsed_as, rx_callback}
use flipper_agent_indicator.Firmware.Serial.{
  BleSerial, DeviceCall, Operation, tick, status_changed, receives, connected, advertising,
  other_status, operate, operate_all, guard_tick, status_cb, kept, called_before,
}
use flipper_agent_indicator.Firmware.Receiver.Streams.{decode_cut, try_parse_cut}
use flipper_agent_indicator.Firmware.Receiver.Rounds.{rx_callback_fits}
use flipper_agent_indicator.Firmware.Receiver.Mixed.{cut_frame, with_text, rx_callback-mixes}

cut_frame-append :
    (n : Notification) (k : ℕ) → layout (notify n) ≡ cut_frame n k ++ drop k (label_bytes n)
cut_frame-append n k = rw (take-append-drop k (label_bytes n)) refl

-- The part of a frame is kept, and no frame is delivered.
rx_callback_cut :
    (n : Notification) (k : ℕ)
    → k < length (label_bytes n)
    → rx_callback [] (data_received (cut_frame n k))
      ≡ some (record { frames = []; took = length (cut_frame n k); rx = cut_frame n k })
unfolding parsed_as
rx_callback_cut n k part =
    let size = length-take k (label_bytes n) in
    let short : length (cut_frame n k) < 68 = omega (arith, label-fits n) in
    let less : length (cut_frame n k) < length (layout (notify n)) =
      omega (arith, length-layout (notify n)) in
    let undecoded : fai_protocol_decode (cut_frame n k) ≡ none =
      decode_cut (notify n) (cut_frame n k) (drop k (label_bytes n)) (cut_frame-append n k) less in
    rx_callback_fits [] (cut_frame n k) (omega arith) (omega arith)
    ∙ rw
        (try_parse_cut (length (cut_frame n k)) (cut_frame n k) undecoded (omega arith)
          (omega arith))
        refl

-- What happens to the module between two connections: the status changes, and its timer fires.
abbrev pub IsBetween : Operation → Type 0
IsBetween tick = Unit
IsBetween (status_changed status) = Unit
IsBetween _ = ⊥

-- All of this leaves the buffer as it is.
operate_all-between :
    (between : List Operation) (g : BleSerial)
    → All IsBetween between
    → (calls : List DeviceCall) × (operate_all between g ≡ some (g, calls))
unfolding operate_all operate guard_tick status_cb called_before
operate_all-between [] g h = ([], refl)
operate_all-between (tick ∷ between) g h =
    let (calls, e) = operate_all-between between g h.1 in ((guard_tick g).1 ++ calls, rw e refl)
operate_all-between (status_changed connected ∷ between) g h =
    let (calls, e) = operate_all-between between g h.1 in
    ((status_cb connected g).1 ++ calls, rw e refl)
operate_all-between (status_changed advertising ∷ between) g h =
    let (calls, e) = operate_all-between between g h.1 in
    ((status_cb advertising g).1 ++ calls, rw e refl)
operate_all-between (status_changed other_status ∷ between) g h =
    let (calls, e) = operate_all-between between g h.1 in
    ((status_cb other_status g).1 ++ calls, rw e refl)
operate_all-between (o ∷ between) g h = absurd h.0

operate_all-before :
    (o : Operation) (os : List Operation) (g h : BleSerial) (calls : List DeviceCall)
    → operate o g ≡ some (h, [])
    → operate_all os h ≡ some (h, calls)
    → operate_all (o ∷ os) g ≡ some (h, calls)
unfolding operate_all called_before
operate_all-before o os g h calls e later = rw (e, operate_all, later) refl

operate-cut :
    (n : Notification) (k : ℕ) (g : BleSerial)
    → k < length (label_bytes n)
    → g.rx_buf ≡ []
    → operate (receives (data_received (cut_frame n k))) g
      ≡ some (record g { rx_buf = cut_frame n k }, [])
unfolding operate kept
operate-cut n k g part empty =
    ap (λ rx. kept g (rx_callback rx (data_received (cut_frame n k)))) empty
    ∙ ap (kept g) (rx_callback_cut n k part)

-- The module gets the header of a notification and a part of its text, with nothing in its buffer, and then
-- the connection is lost: whatever changes of the status follow and however often its timer fires, until
-- the next connection. The first notification that is written then, if it is long enough, is not delivered
-- as such: the app gets the notification that was cut, with the beginning of the new frame, its header
-- included, as the rest of its text.
pub cut_frame-mixes :
    (n m : Notification) (k : ℕ) (between : List Operation) (g : BleSerial)
    → k < length (label_bytes n)
    → length (label_bytes n) ≤ k + length (layout (notify m))
    → All IsBetween between
    → g.rx_buf ≡ []
    → (again : BleSerial) × (calls : List DeviceCall) × (operate_all
          (receives (data_received (cut_frame n k)) ∷ between ++ status_changed connected ∷ [])
          g
        ≡ some (again, calls))
      × ((r : Received) × (later : List FaiFrame) × (rx_callback again.rx_buf
              (data_received (layout (notify m)))
            ≡ some r)
          × (r.frames ≡ with_text n (take k (label_bytes n) ++ layout (notify m)) ∷ later))
cut_frame-mixes n m k between g part enough quiet empty =
    let cut = record g { rx_buf = cut_frame n k } in
    let (calls, e) =
      operate_all-between (between ++ status_changed connected ∷ []) cut
        (All-append IsBetween between (status_changed connected ∷ []) quiet (tt, tt)) in
    (
      cut,
      calls,
      operate_all-before _ (between ++ status_changed connected ∷ []) g cut calls
          (operate-cut n k g part empty) e,
      rx_callback-mixes n m k part enough,
    )
