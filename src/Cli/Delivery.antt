-- ===== src/Cli/Delivery.antt =====
-- From the command line to the daemon's queue.
use flipper_agent_indicator.Prelude.{
  ◌&&◌, false, sym, Bool-cases, arith, inl, inr, all-append, ap, ◌∙◌, ◌↔◌, ◌≤◌, length, all, true,
  ◌≡◌, ◌≢◌, refl, Bool, List, [], ◌∷◌, ◌++◌, append_assoc, Option, none, some, if◌then◌else◌,
}
use flipper_agent_indicator.Text.{Str, codes, is_empty, rstrip, before, contains}
use flipper_agent_indicator.Text.Laws.{before-append_right, before_snoc, before_none}
use flipper_agent_indicator.Config.{Config}
use flipper_agent_indicator.Config.Paths.{resolved_socket_path}
use flipper_agent_indicator.Utf8
use flipper_agent_indicator.Utf8.{Bytes, is_scalar, utf8, utf8_char}
use flipper_agent_indicator.Utf8.Newline.{before-utf8}
use flipper_agent_indicator.Protocol.{AgentId, claude, State, off, Notification}
use flipper_agent_indicator.Socket.{sent, stream_limit, closed, enqueue, handle}
use flipper_agent_indicator.Socket.Handle.{handle-utf8_line}
use flipper_agent_indicator.Socket.Parse.{joined, text_of}
use flipper_agent_indicator.Socket.Choices.{
  agent_name, state_name, agent_token, state_token, parse_line-agent_state,
}
use flipper_agent_indicator.Socket.Lines.{stripped}
use flipper_agent_indicator.Cli.{
  notify_line, Transport, connected, os_error, bad_path, exit_zero, send_line_silent, ended, send,
  notify, path_found, socket_found, notify_loaded,
}

-- The text behind `text=`, if there is one.
abbrev given : Str → Option Str
given text = if is_empty text then none else some text

notify_line-joined :
    (a : AgentId) (s : State) (text : Str)
    → notify_line (agent_name a) (state_name s) text
      ≡ joined (agent_token a ∷ state_token s ∷ []) (given text) ++ b'\n' ∷ []
unfolding notify_line
notify_line-joined a s [] = simp append_assoc
notify_line-joined a s (c ∷ cs) = simp append_assoc

agent_token-newline : (a : AgentId) → contains b'\n' (agent_token a) ≡ false
unfolding contains
agent_token-newline claude = refl
agent_token-newline _ = refl

state_token-newline : (s : State) → contains b'\n' (state_token s) ≡ false
unfolding contains
state_token-newline off = refl
state_token-newline _ = refl

abbrev first_line : Option Str → Option Str
first_line none = none
first_line (some text) = some (before b'\n' text)

before_word :
    (t u : Str)
    → contains b'\n' t ≡ false
    → before b'\n' (t ++ b' ' ∷ u) ≡ t ++ b' ' ∷ before b'\n' u
unfolding before
before_word t u h = before-append_right b'\n' t (b' ' ∷ u) h

-- Only the text of the line can hold a newline.
before-joined :
    (a : AgentId) (s : State) (text : Option Str)
    → before b'\n' (joined (agent_token a ∷ state_token s ∷ []) text)
      ≡ joined (agent_token a ∷ state_token s ∷ []) (first_line text)
before-joined a s none =
    before_word (agent_token a) (state_token s) (agent_token-newline a)
    ∙ ap (λ u. agent_token a ++ b' ' ∷ u)
        (before_none b'\n' (state_token s) (state_token-newline s))
before-joined a s (some text) =
    before_word (agent_token a) (state_token s ++ b' ' ∷ (codes "text=" ++ text))
      (agent_token-newline a)
    ∙ ap (λ u. agent_token a ++ b' ' ∷ u)
        (before_word (state_token s) (codes "text=" ++ text) (state_token-newline s)
          ∙ ap (λ u. state_token s ++ b' ' ∷ u) (unfold before in refl))

-- What the daemon makes of a text: up to its first newline, and without white space at its end.
abbrev pub shown : Str → Str
shown text = rstrip (before b'\n' text)

text_of-given : (text : Str) → text_of (stripped (first_line (given text))) ≡ shown text
text_of-given [] = unfold before rstrip in refl
text_of-given (c ∷ cs) = refl

agent_token-all : (a : AgentId) → all is_scalar (agent_token a) ≡ true
agent_token-all claude = refl
agent_token-all _ = refl

state_token-all : (s : State) → all is_scalar (state_token s) ≡ true
state_token-all off = refl
state_token-all _ = refl

-- The line without its newline can be encoded exactly if the text can.
joined-all :
    (a : AgentId) (s : State) (text : Str)
    → all is_scalar (joined (agent_token a ∷ state_token s ∷ []) (given text)) ≡ all is_scalar text
joined-all a s [] =
    all-append is_scalar (agent_token a) (b' ' ∷ state_token s)
    ∙ rw (agent_token-all a) (state_token-all s)
joined-all a s (c ∷ cs) =
    all-append is_scalar (agent_token a)
      (b' ' ∷ (state_token s ++ b' ' ∷ (codes "text=" ++ c ∷ cs)))
    ∙ rw (agent_token-all a) (
        all-append is_scalar (state_token s) (b' ' ∷ (codes "text=" ++ c ∷ cs))
        ∙ rw (state_token-all s) refl)

and_true : (b : Bool) → (b && true) ≡ b
and_true true = refl
and_true false = refl

notify_line-all :
    (a : AgentId) (s : State) (text : Str)
    → all is_scalar (notify_line (agent_name a) (state_name s) text) ≡ all is_scalar text
notify_line-all a s text =
    ap (all is_scalar) (notify_line-joined a s text)
    ∙ all-append is_scalar (joined (agent_token a ∷ state_token s ∷ []) (given text)) (b'\n' ∷ [])
    ∙ and_true _
    ∙ joined-all a s text

ended-exit_zero_iff :
    (transport : Transport) (payload : Bytes)
    → ((ended (send_line_silent transport payload)).exit ≡ exit_zero) ↔ (transport ≢ bad_path)
unfolding ended send_line_silent
ended-exit_zero_iff connected payload = ((λ h e. cc), (λ h. refl))
ended-exit_zero_iff os_error payload = ((λ h e. cc), (λ h. refl))
ended-exit_zero_iff bad_path payload = ((λ h. cc), (λ h. absurd (h refl)))

send-exit_zero_iff :
    (transport : Transport) (line : Str)
    → ((send transport (Utf8.encode line)).exit ≡ exit_zero)
      ↔ ((all is_scalar line ≡ true) × (transport ≢ bad_path))
unfolding send Utf8.encode
send-exit_zero_iff transport line = elim (Bool-cases (all is_scalar line)) [
  | inl e ↦
      (let (to, from) = ended-exit_zero_iff transport (utf8 line) in
        ((λ h. (e, to (rw e at h))), (λ h. rw e (from h.1))))
  | inr e ↦ ((λ h. cc (rw e at h)), λ h. cc (e, h.0))
]

notify-exit_zero :
    (found : Bool) (transport : Transport) (a : AgentId) (s : State) (text : Str)
    → ((notify found transport (agent_name a) (state_name s) text).exit ≡ exit_zero)
      ↔ ((found ≡ true) × (all is_scalar text ≡ true) × (transport ≢ bad_path))
unfolding notify
notify-exit_zero false transport a s text = ((λ h. cc), (λ h. cc (h.0)))
notify-exit_zero true transport a s text =
    let (to, from) =
      send-exit_zero_iff transport (notify_line (agent_name a) (state_name s) text) in
    let same = notify_line-all a s text in
    (
      (λ h. (refl, sym same ∙ (to h).0, (to h).1)),
      (λ (_, clean, sends). from (same ∙ clean, sends)),
    )

-- The configuration was loaded, and the home that its path of the socket begins with, if it does, is
-- known.
abbrev pub HasSocketPath : (Str → Option Str) → Option Config → Type 0
HasSocketPath expand loaded =
    (config : Config) × (path : Str) × (loaded ≡ some config)
    × (expand config.socket_path ≡ some path)

path_found_iff : (o : Option Str) → (path_found o ≡ true) ↔ ((path : Str) × (o ≡ some path))
unfolding path_found
path_found_iff none = ((λ h. cc), λ (path, h). cc)
path_found_iff (some path) = ((λ h. (path, refl)), (λ h. refl))

socket_found-HasSocketPath :
    (expand : Str → Option Str) (loaded : Option Config)
    → (socket_found expand loaded ≡ true) ↔ HasSocketPath expand loaded
unfolding socket_found resolved_socket_path path_found
socket_found-HasSocketPath expand none = ((λ h. cc), λ (config, path, e, h). cc)
socket_found-HasSocketPath expand (some config) =
    let (to, from) = path_found_iff (expand config.socket_path) in
    (
      λ h. let (path, e) = to h in (config, path, refl, e),
      λ (other, path, same, e).
          let one : config ≡ other = cc in from (path, ap (λ c. expand c.socket_path) one ∙ e),
    )

-- The command ends with status 0 exactly if its configuration could be loaded, the home in its path of the
-- socket, if there is one, is known, its text holds no surrogate, and the system does not refuse the path
-- with a `ValueError`. Whether the daemon can be reached makes no difference.
pub notify-exit_zero_iff :
    (expand : Str → Option Str) (loaded : Option Config) (transport : Transport) (a : AgentId)
    (s : State) (text : Str)
    → ((notify_loaded expand loaded transport (agent_name a) (state_name s) text).exit ≡ exit_zero)
      ↔ (HasSocketPath expand loaded × (all is_scalar text ≡ true) × (transport ≢ bad_path))
unfolding notify_loaded
notify-exit_zero_iff expand loaded transport a s text =
    let (to, from) = notify-exit_zero (socket_found expand loaded) transport a s text in
    let (has, finds) = socket_found-HasSocketPath expand loaded in
    (
      λ h. let (found, clean, sends) = to h in (has found, clean, sends),
      λ (found, clean, sends). from (finds found, clean, sends),
    )

module _ (a : AgentId) (s : State) (text : Str) where
  body : Str
  body = joined (agent_token a ∷ state_token s ∷ []) (given text)

  handle-body :
      (queue : List Notification)
      → all is_scalar text ≡ true
      → length (before b'\n' (utf8 (body ++ b'\n' ∷ []))) ≤ stream_limit
      → handle queue (sent (utf8 (body ++ b'\n' ∷ [])))
        ≡ (queue ++ record { agent = a; state = s; text = shown text } ∷ [], closed)
  unfolding body enqueue
  handle-body queue can fits =
      handle-utf8_line body (joined-all a s text ∙ can) queue
        (rw (← before_snoc b'\n' body, ← before-utf8 b'\n' (omega arith) (body ++ b'\n' ∷ [])) fits)
      ∙ rw (
        before-joined a s (given text),
        (parse_line-agent_state a s (first_line (given text))).0,
        text_of-given text,
      )

handle-notify_line :
    (a : AgentId) (s : State) (text : Str) (queue : List Notification)
    → all is_scalar text ≡ true
    → length (before b'\n' (utf8 (notify_line (agent_name a) (state_name s) text))) ≤ stream_limit
    → handle queue (sent (utf8 (notify_line (agent_name a) (state_name s) text)))
      ≡ (queue ++ record { agent = a; state = s; text = shown text } ∷ [], closed)
unfolding body
handle-notify_line a s text queue can =
    rw (notify_line-joined a s text) (handle-body a s text queue can)

notify-arrived :
    (a : AgentId) (s : State) (text : Str)
    → all is_scalar text ≡ true
    → notify true connected (agent_name a) (state_name s) text ≡ record {
      arrived = some (utf8 (notify_line (agent_name a) (state_name s) text));
      exit = exit_zero;
    }
unfolding notify send Utf8.encode
notify-arrived a s text can = rw (notify_line-all a s text ∙ can)

-- The text can be encoded and the line is no longer than the daemon reads: then the command ends
-- with status 0 and the daemon appends one notification to its queue, with the agent and the state
-- that were chosen, and the text up to its first newline without white space at its end.
pub notify-handle :
    (a : AgentId) (s : State) (text : Str) (queue : List Notification)
    → all is_scalar text ≡ true
    → length (before b'\n' (utf8 (notify_line (agent_name a) (state_name s) text))) ≤ stream_limit
    → (payload : Bytes) × (notify true connected (agent_name a) (state_name s) text
        ≡ record { arrived = some payload; exit = exit_zero })
      × (handle queue (sent payload)
          ≡ (queue ++ record { agent = a; state = s; text = shown text } ∷ [], closed))
notify-handle a s text queue can fits = (
  utf8 (notify_line (agent_name a) (state_name s) text),
  notify-arrived a s text can,
  handle-notify_line a s text queue can fits,
)
