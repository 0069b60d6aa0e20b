-- ===== src/Firmware/Serial/Resources.antt =====
-- What the module takes from the system it gives back, and nothing is used before it is there.
use flipper_agent_indicator.Prelude.{
  ◌<◌, ◌≡◌, inl, inr, refl, ◌∙◌, Bool, true, false, Bool-cases, List, [], ◌∷◌, ◌++◌, Option, none,
  some, length, arith, ◌==◌,
}
use flipper_agent_indicator.Utf8.{Bytes}
use flipper_agent_indicator.Firmware.Receiver.{
  other_event, data_received, Received, SerialEvent, rx_callback,
}
use flipper_agent_indicator.Firmware.Receiver.Rounds.{rx_callback-Keeps}
use flipper_agent_indicator.Firmware.Serial.{
  DeviceCall, BleSerial, g_ble, attach, Called, guard_tick, connected, advertising, other_status,
  status_cb, ble_serial_init, init_started, ble_serial_send, send_buf, ble_serial_deinit,
  stop_guard, Operation, init, deinit, tick, status_changed, sends, receives, kept, operate,
  called_before, operate_all,
}
use flipper_agent_indicator.Firmware.Serial.Rules.{
  Held, ticking, untouched, all_allowed, all_allowed-append,
}

-- The module before its set-up or after its end, and in use.
abbrev down : Bytes → BleSerial
down rx = record g_ble { rx_buf = rx }

abbrev up : Bytes → BleSerial
up rx = record {
  bt = true;
  profile = true;
  out_queue = true;
  rpc_guard = true;
  rx_buf = rx;
  initialized = true;
}

abbrev in_use : Held
in_use = record { opened = true; started = true; watching = true; timer = ticking }

-- The module is set up exactly if it holds the parts of the system, and its buffer has room.
pub data Matches : BleSerial → Held → Type 0 where
  is_down : (rx : Bytes) → length rx < 136 → Matches (down rx) untouched
  is_up : (rx : Bytes) → length rx < 136 → Matches (up rx) in_use

-- What some operations come to: they return, keep to the rules, and the module matches the system.
pub record Obeys (o : Option Called) (d : Held) : Type 0 where
  pub after : BleSerial
  pub calls : List DeviceCall
  pub device : Held
  pub returns : o ≡ some (after, calls)
  pub allows : all_allowed calls (some d) ≡ some device
  pub matches : Matches after device

pub Obeys-nil : (g : BleSerial) (d : Held) → Matches g d → Obeys (some (g, [])) d
Obeys-nil g d m = record {
  after = g;
  calls = [];
  device = d;
  returns = refl;
  allows = refl;
  matches = m;
}

-- The profile is attached to again.
Obeys-attach : (rx : Bytes) → length rx < 136 → Obeys (some (up rx, attach)) in_use
Obeys-attach rx h = record {
  after = up rx;
  calls = attach;
  device = in_use;
  returns = refl;
  allows = refl;
  matches = is_up rx h;
}

callback-returns :
    (rx : Bytes) (e : SerialEvent)
    → length rx < 136
    → (r : Received) × (rx_callback rx e ≡ some r) × (length r.rx < 136)
callback-returns rx other_event h = (_, rx_callback-Keeps rx other_event h, h)
callback-returns rx (data_received bytes) h =
    let (r, called, room, took) = rx_callback-Keeps rx (data_received bytes) h in (r, called, room)

sends-Obeys :
    (answer : Bool) (buf : Option Bytes) (g : BleSerial) (d : Held)
    → Matches g d
    → Obeys (some (g, (ble_serial_send answer buf g).1)) d
unfolding ble_serial_send send_buf
sends-Obeys answer none g d m = Obeys-nil g d m
sends-Obeys answer (some buf) _ _ (is_down rx h) = Obeys-nil _ _ (is_down rx h)
sends-Obeys answer (some buf) _ _ (is_up rx h) = elim (Bool-cases (length buf == 0)) [
  | inl e ↦ rw e (Obeys-nil _ _ (is_up rx h))
  | inr e ↦ rw e (record {
    after = up rx;
    calls = _;
    device = in_use;
    returns = refl;
    allows = refl;
    matches = is_up rx h;
  })
]

receives-Obeys :
    (e : SerialEvent) (g : BleSerial) (d : Held)
    → Matches g d
    → Obeys (kept g (rx_callback g.rx_buf e)) d
unfolding kept
receives-Obeys e _ _ (is_down rx h) =
    let (r, called, room) = callback-returns rx e h in
    rw (called, kept) (Obeys-nil _ _ (is_down r.rx room))
receives-Obeys e _ _ (is_up rx h) =
    let (r, called, room) = callback-returns rx e h in
    rw (called, kept) (Obeys-nil _ _ (is_up r.rx room))

operate-Obeys : (o : Operation) (g : BleSerial) (d : Held) → Matches g d → Obeys (operate o g) d
unfolding operate ble_serial_init init_started ble_serial_deinit stop_guard guard_tick status_cb
operate-Obeys (init false) _ _ (is_down rx h) = record {
  after = g_ble;
  calls = _;
  device = untouched;
  returns = refl;
  allows = refl;
  matches = is_down [] (omega arith);
}
operate-Obeys (init true) _ _ (is_down rx h) = record {
  after = up [];
  calls = _;
  device = in_use;
  returns = refl;
  allows = refl;
  matches = is_up [] (omega arith);
}
operate-Obeys (init started) _ _ (is_up rx h) = Obeys-nil _ _ (is_up rx h)
operate-Obeys deinit _ _ (is_down rx h) = Obeys-nil _ _ (is_down rx h)
operate-Obeys deinit _ _ (is_up rx h) = record {
  after = g_ble;
  calls = _;
  device = untouched;
  returns = refl;
  allows = refl;
  matches = is_down [] (omega arith);
}
operate-Obeys tick _ _ (is_down rx h) = Obeys-nil _ _ (is_down rx h)
operate-Obeys tick _ _ (is_up rx h) = Obeys-attach rx h
operate-Obeys (status_changed connected) _ _ (is_down rx h) = Obeys-nil _ _ (is_down rx h)
operate-Obeys (status_changed connected) _ _ (is_up rx h) = Obeys-attach rx h
operate-Obeys (status_changed advertising) g d m = Obeys-nil g d m
operate-Obeys (status_changed other_status) g d m = Obeys-nil g d m
operate-Obeys (sends answer buf) g d m = sends-Obeys answer buf g d m
operate-Obeys (receives e) g d m = receives-Obeys e g d m

pub operate_all-Obeys :
    (os : List Operation) (g : BleSerial) (d : Held) → Matches g d → Obeys (operate_all os g) d
unfolding operate_all called_before
operate_all-Obeys [] g d m = Obeys-nil g d m
operate_all-Obeys (o ∷ os) g d m =
    let first = operate-Obeys o g d m in
    let rest = operate_all-Obeys os first.after first.device first.matches in
    record {
      after = rest.after;
      calls = first.calls ++ rest.calls;
      device = rest.device;
      returns = rw (first.returns, operate_all, rest.returns) refl;
      allows =
          all_allowed-append first.calls rest.calls (some d) first.device first.allows
          ∙ rest.allows;
      matches = rest.matches;
    }

-- To end the module gives everything back.
deinit-gives_back :
    (g : BleSerial) (d : Held)
    → Matches g d
    → all_allowed (ble_serial_deinit g).1 (some d) ≡ some untouched
unfolding ble_serial_deinit stop_guard
deinit-gives_back _ _ (is_down rx h) = refl
deinit-gives_back _ _ (is_up rx h) = refl

Matches-initialized :
    (g : BleSerial) (d : Held) → Matches g d → (g.initialized ≡ d.started) × (length g.rx_buf < 136)
Matches-initialized _ _ (is_down rx h) = (refl, h)
Matches-initialized _ _ (is_up rx h) = (refl, h)

-- Whatever happens to the module, in any order and with any answers of the system, every operation
-- returns and leaves room in the receive buffer, and its calls keep to the rules of the system: nothing
-- is used before it is there or after it was given back. The module is set up exactly while its profile
-- runs, and to end it then gives back all that it holds.
pub operations-allowed :
    (os : List Operation)
    → (g : BleSerial) × (calls : List DeviceCall) × (d : Held) × (operate_all os g_ble
        ≡ some (g, calls))
      × (all_allowed calls (some untouched) ≡ some d)
      × ((g.initialized ≡ d.started) × (length g.rx_buf < 136))
      × (all_allowed (calls ++ (ble_serial_deinit g).1) (some untouched) ≡ some untouched)
operations-allowed os =
    let o = operate_all-Obeys os g_ble untouched (is_down [] (omega arith)) in
    (
      o.after,
      o.calls,
      o.device,
      o.returns,
      o.allows,
      Matches-initialized o.after o.device o.matches,
      all_allowed-append o.calls (ble_serial_deinit o.after).1 (some untouched) o.device o.allows
          ∙ deinit-gives_back o.after o.device o.matches,
    )
