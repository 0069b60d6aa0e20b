-- ===== src/Hooks/Delivery.antt =====
-- From a hook to the frame that the daemon keeps for the Flipper.
use mathlib.Core.List.{map}
use mathlib.Core.Option
use flipper_agent_indicator.Cli
use flipper_agent_indicator.Prelude.{
  ℕ, subst, ◌≡◌, ◌≢◌, ◌≤◌, refl, ap, sym, ◌∙◌, true, List, [], ◌∷◌, ◌++◌, append_assoc, append-nil,
  Option, some, ok, all, All, All-append, length, last, singleton?, arith,
}
use flipper_agent_indicator.Text.{Str, before, rstrip}
use flipper_agent_indicator.Utf8.{Bytes, is_scalar, utf8, utf8_char}
use flipper_agent_indicator.Utf8.Cut.{fit}
use flipper_agent_indicator.Protocol.{
  AgentId, opencode, State, off, running, needs_input, done, Notification, notify, max_text_bytes,
  decode,
}
use flipper_agent_indicator.Protocol.RoundTrip.{layout}
use flipper_agent_indicator.Patterns.{Overrides}
use flipper_agent_indicator.Socket.{Arrival, sent, stream_limit, handle, closed}
use flipper_agent_indicator.Socket.Choices.{agent_name, state_name}
use flipper_agent_indicator.Cli.{notify_line, connected}
use flipper_agent_indicator.Cli.Delivery.{shown, notify-handle}
use flipper_agent_indicator.Daemon.{forward_notifies}
use flipper_agent_indicator.Daemon.Forward.{serve, frame_of, forward_notifies-serve}
use flipper_agent_indicator.Daemon.EndToEnd.{notify-frame}
use flipper_agent_indicator.Hooks.{state_word, hook_sends, opencode_notify}
use flipper_agent_indicator.Hooks.OpenCode.{PluginCall, fresh, run_plugin}
use flipper_agent_indicator.Hooks.OpenCode.Changes.{
  all_wanted, wanted, says, Says, run_plugin-wanted, works, waits, ends, nothing, last_end,
}

state_word-name : (s : State) → state_word s ≡ state_name s
state_word-name off = refl
state_word-name running = refl
state_word-name needs_input = refl
state_word-name done = refl

-- What a hook sends makes the daemon keep a frame of this agent, state and text.
abbrev pub HasFrame : Overrides → Option Bytes → AgentId → State → Str → Type 0
HasFrame patterns sends a s text =
    (payload : Bytes) × (queued : List Notification) × (frame : Bytes) × (sends ≡ some payload)
    × (handle [] (sent payload) ≡ (queued, closed))
    × (forward_notifies patterns queued [] ≡ ok (frame ∷ []))
    × (decode frame
        ≡ ok (notify (record { agent = a; state = s; text = fit max_text_bytes (shown text) })))

-- The line of a command is one that the daemon reads.
abbrev pub Fits : AgentId → State → Str → Type 0
Fits a s text =
    length (before b'\n' (utf8 (notify_line (agent_name a) (state_name s) text))) ≤ stream_limit

hook_sends-word :
    (a : AgentId) (s : State) (text : Str)
    → hook_sends true connected (agent_name a) (state_word s) text
      ≡ (Cli.notify true connected (agent_name a) (state_name s) text).arrived
unfolding hook_sends
hook_sends-word a s text =
    ap (λ w. (Cli.notify true connected (agent_name a) w text).arrived) (state_word-name s)

pub hook_sends-HasFrame :
    (patterns : Overrides) (a : AgentId) (s : State) (text : Str)
    → all is_scalar text ≡ true
    → Fits a s text
    → HasFrame patterns (hook_sends true connected (agent_name a) (state_word s) text) a s text
hook_sends-HasFrame patterns a s text can fits =
    let f = notify-frame a s text patterns can fits in
    (
      f.payload,
      f.queued,
      f.frame,
      hook_sends-word a s text ∙ ap (λ r. r.arrived) f.sends,
      f.queues,
      f.forwards,
      f.decodes,
    )

-- The plugin of OpenCode: its commands, one after the other, on the way to the daemon.
abbrev pub arrivals : List State → List Arrival
arrivals [] = []
arrivals (s ∷ states) = map sent (singleton? (opencode_notify true connected s)) ++ arrivals states

abbrev pub opencode_note : State → Notification
opencode_note s = record { agent = opencode; state = s; text = [] }

opencode-Fits : (s : State) → Fits opencode s []
unfolding before utf8 utf8_char notify_line
opencode-Fits off = omega arith
opencode-Fits running = omega arith
opencode-Fits needs_input = omega arith
opencode-Fits done = omega arith

serve-arrivals :
    (states : List State) (queue : List Notification)
    → serve queue (arrivals states) ≡ queue ++ map opencode_note states
unfolding opencode_notify rstrip before
serve-arrivals [] queue = sym (append-nil queue)
serve-arrivals (s ∷ states) queue =
    let (payload, arrives, handles) = notify-handle opencode s [] queue refl (opencode-Fits s) in
    let sends : opencode_notify true connected s ≡ some payload =
      hook_sends-word opencode s [] ∙ ap (λ r. r.arrived) arrives in
    rw (sends, handles)
      (serve-arrivals states (queue ++ opencode_note s ∷ [])
        ∙ append_assoc queue (opencode_note s ∷ []) (map opencode_note states))

-- No call asks for off.
wanted-All : (ended now : ℕ) (says : Says) → All (λ s. s ≢ off) (singleton? (wanted ended now says))
wanted-All ended now works = ground arith
wanted-All ended now waits = ground arith
wanted-All ended now ends = ground arith
wanted-All ended now nothing = tt

all_wanted-All :
    (calls earlier : List (ℕ × PluginCall)) → All (λ s. s ≢ off) (all_wanted earlier calls)
all_wanted-All [] earlier = tt
all_wanted-All ((now, call) ∷ calls) earlier =
    All-append _ _ _ (wanted-All (last_end earlier) now (says call))
      (all_wanted-All calls ((now, call) ∷ earlier))

last-cons {ℓ} : {A : Type ℓ} (x y : A) (xs : List A) → last xs ≡ some y → last (x ∷ xs) ≡ some y
last-cons x y [] h = cc
last-cons x y (z ∷ xs) h = h

last-All {ℓ κ} :
    {A : Type ℓ} (P : A → Type κ) (xs : List A) (y : A) → All P xs → last xs ≡ some y → P y
last-All P [] y a h = cc
last-All P (x ∷ []) y a h = let same : x ≡ y = cc in subst P same a.0
last-All P (x ∷ z ∷ xs) y a h = last-All P (z ∷ xs) y a.1 h

given-last :
    (states : List State) (s : State)
    → last (off ∷ states) ≡ some s
    → s ≢ off
    → last states ≡ some s
given-last [] s h differs = absurd (differs cc)
given-last (t ∷ states) s h differs = h

last-note :
    (states : List State) (s : State)
    → last states ≡ some s
    → last (map opencode_note states) ≡ some (opencode_note s)
last-note [] s h = cc
last-note (t ∷ []) s h = ap (Option.map opencode_note) h
last-note (t ∷ u ∷ states) s h = last-note (u ∷ states) s h

-- The notification of the state that the calls asked for last is the last one.
pub last_given :
    (calls : List (ℕ × PluginCall)) (s : State)
    → last (all_wanted [] calls) ≡ some s
    → last (map opencode_note (run_plugin fresh calls).1) ≡ some (opencode_note s)
last_given calls s h =
    let states = (run_plugin fresh calls).1 in
    let asked : last (off ∷ states) ≡ some s =
      (run_plugin-wanted calls).2 ∙ last-cons off s (all_wanted [] calls) h in
    last-note states s
      (given-last states s asked (last-All _ (all_wanted [] calls) s (all_wanted-All calls []) h))

-- Whatever calls the plugin of OpenCode gets: when its commands have reached the daemon in their order,
-- and nothing has been written to the Flipper meanwhile, the queued notifications are those of the states
-- that the plugin gave, and the daemon keeps the frame of the state that the calls asked for last.
pub opencode-shows :
    (patterns : Overrides) (calls : List (ℕ × PluginCall)) (s : State)
    → last (all_wanted [] calls) ≡ some s
    → (serve [] (arrivals (run_plugin fresh calls).1)
        ≡ map opencode_note (run_plugin fresh calls).1)
      × (forward_notifies patterns (serve [] (arrivals (run_plugin fresh calls).1)) []
          ≡ ok (layout (notify (opencode_note s)) ∷ []))
opencode-shows patterns calls s h =
    let states = (run_plugin fresh calls).1 in
    let queued = serve-arrivals states [] in
    (
      queued,
      forward_notifies-serve patterns (arrivals states)
          ∙ ap (λ o. ok (frame_of o)) (ap last queued ∙ last_given calls s h),
    )
