-- ===== src/Lib.antt =====
-- flipper-agent-indicator: notifications of AI coding agents on a Flipper Zero.
--
-- An agent's hook runs `flipper-indicator notify`, which writes one line to a Unix socket. The daemon
-- parses the line into a notification, encodes it as a frame, and keeps the newest frame for its BLE
-- client, which writes it to the Flipper. An ACK frame from the Flipper makes the daemon call a tmux
-- plugin's script. The Python package is daemon/flipper_indicator.
--
-- Prelude: tests, lists, exceptions as values; Prelude.Sub has sublists that keep the order,
--   Prelude.Repeats those in which elements may be said again directly behind themselves.
-- Text: Python's `str` as a list of code points; strip, startswith, find and the like.
-- Utf8: `str.encode("utf-8")` and `bytes.decode("utf-8", errors="replace")`, the latter as a state
--   machine over bytes. RoundTrip, Cut (a text cut to n bytes), Scalars, Newline.
-- Protocol (protocol.py): `encode`, `decode` and their errors. `Notify` is the record `Notification`
--   and the constructor `notify`.
-- Socket (socket_server.py): `parse_line`, `readline`, `_handle` as `handle`. The loop of `parse_line`
--   recurs on the accessibility of what remains by its length, so there is no fuel.
-- Cli (cli.py): `notify`, `_send_line_silent`. Pair (cli.py): the command `pair`, with the order of
--   the devices that `scan_devices` lists (Ranking, Markers, Groups) and the choice by number
--   (Selection); `str.lower` and what `int` makes of the answer are arguments.
-- Config (config.py): `_from_dict` over the values of a TOML document, and `save_mac` with the rendering
--   of values and tables; Python's `str` on values that are no texts is an argument. Config.Documents is
--   a reader of the documents that are written, by the rules of TOML; Lines, Reading, Headers and Blocks
--   take it through the text. Config.Paths has `load`, `default_socket_path` and the resolved paths;
--   `Path.expanduser` is an argument, `none` where it raises for a home that is not known.
-- Outbox (daemon.py): the queue with room for one frame, and the drain before each put.
-- Ble (ble.py): `_next_frame`, `_pump_outgoing` as `pump`, `_session` as `session`, `run_forever`. What
--   bleak answers, and which frames are forwarded meanwhile, comes as a list of rounds for each
--   session (`World`); a loop that never ends is run over finite lists of any length. Ble.Pipe has
--   every interleaving of the two tasks as a step relation.
-- Patterns (patterns.py): the tables and `get`; Patterns.Load has `_load_overrides`, with `str.upper`,
--   `int` and `str` on values as arguments. Bridge (bridge.py): `clear`.
-- Daemon (daemon.py): `_forward_notifies` and `_handle_incoming`, one round and all rounds;
--   Daemon.Start has the checks of `run` before it starts the socket server, Daemon.Finish its end.
-- Hooks (hooks): the commands of the hooks of Claude and Codex, and Hooks.OpenCode the plugin of
--   OpenCode with its state, as calls that come with the time. Hooks.Delivery takes them to the daemon,
--   Hooks.Shells those of the two scripts.
-- Server (socket_server.py, cli.py, daemon.py): `start`, `serve_forever` and `stop`, the command `status`
--   and `run` as a whole; Server.Serve has the command `serve` around it, with its logging level,
--   the signals and `KeyboardInterrupt`. The file system and the sockets of the system are the record `System`; what the code
--   relies on is the record `IsSystem`, and `IsCalmSystem` where no call raises; Server.Tests shows both
--   of a small host.
-- Firmware (firmware/flipper_agent_indicator): `protocol.c`, the codec of the frames on the device.
--   Firmware.Receiver has the receive buffer of ble_serial.c; each round of its loop takes a byte at
--   least, so the length of the buffer is fuel enough (Receiver.Rounds); Receiver.Cut has a frame that
--   a lost link cuts, with Receiver.Mixed. Firmware.Effects has effects.c, Firmware.Render has
--   render.c, with the lines that are left as the bound of its loop, and Firmware.App the handlers and the loop of flipper_agent_indicator.c, with what is taken
--   from the queues as a list of rounds. Firmware.Serial has the set-up and the end of the serial
--   profile (ble_serial.c), with the rules of the system about its parts as a partial function on what
--   is held (Serial.Rules).
-- Whole: the parts together, from the command line to the display and back to the tmux pane.
--   Whole.Rig has the daemon, the radio and the device at once, as a step relation on one state: what
--   each of them does between two waits, in any order, with lost links, lost responses and a queue of
--   8 frames on the device. Carried (the frames of the client), Arrived (those on the air and in the
--   buffer) and Sound (all of it) are its invariants, Lands and Settles lead to rest, Displayed and
--   Plugin say what is shown, and Answered which panes are cleared.
-- Art (scripts/generate-art.py): the drawing functions, as the calls that they make on an image.
--
-- Not modelled: the logs; `iter_queue`, which nothing calls; the making of the daemon's tasks; the allocations of the app on the device; the
-- install scripts. In Whole.Rig no link breaks between two pieces of a frame, and the daemon does not
-- end; Receiver.Cut says what such a link does to the next frame. click is taken to let only its choices
-- through; the backoff's floats are whole seconds.
pub mod Prelude
pub mod Text
pub mod Utf8
pub mod Pair
pub mod Protocol
pub mod Socket
pub mod Cli
pub mod Firmware
pub mod Hooks
pub mod Outbox
pub mod Art
pub mod Ble
pub mod Patterns
pub mod Bridge
pub mod Config
pub mod Server
pub mod Daemon
pub mod Whole
