-- ===== src/Firmware/App/Acks.antt =====
-- Which acknowledgements the app sends.
use flipper_agent_indicator.Prelude.{
  ℕ, ◌≡◌, refl, sym, ap, subst, ◌∙◌, true, false, List, [], ◌∷◌, ◌++◌, append-nil, append_assoc,
  Option, none, some, ◌==◌, if◌then◌else◌,
}
use flipper_agent_indicator.Prelude.Sub.{Sub, Sub-refl, Sub-nil, Sub-trans, Sub-append, Sub-front}
use flipper_agent_indicator.Utf8.{Bytes}
use flipper_agent_indicator.Firmware.{
  FaiFrame, FaiFrameKind, fai_frame_notify, fai_frame_ack, fai_frame_ping, fai_frame_pong, cleared,
}
use flipper_agent_indicator.Firmware.Effects.{NotificationSequence}
use flipper_agent_indicator.Firmware.App.{
  UiMode, ui_idle, ui_notification, App, start_app, Output, ble_sent, notification_message,
  view_port_updated, messages, handle_kind, fai_handle_frame, InputType, press, short, InputKey, up,
  ok, back, InputEvent, acknowledge, handle_key, handle_input, fai_handle_input, handled, Taken,
  app_round, app_loop, fai_send_ack, fai_send_pong,
}

-- The agents of the ACK frames among the bytes that were sent.
abbrev pub ack_in : Bytes → List ℕ
ack_in (tag ∷ agent ∷ []) = if tag == 0x81 then agent ∷ [] else []
ack_in _ = []

abbrev pub acks : List Output → List ℕ
acks [] = []
acks (ble_sent bytes ∷ outputs) = ack_in bytes ++ acks outputs
acks (notification_message s ∷ outputs) = acks outputs
acks (view_port_updated ∷ outputs) = acks outputs

-- The agents of the notifications that were taken from the queue.
abbrev pub agent_by : FaiFrameKind → ℕ → List ℕ
agent_by fai_frame_notify agent = agent ∷ []
agent_by _ agent = []

abbrev pub agent_in : Option FaiFrame → List ℕ
agent_in none = []
agent_in (some frame) = agent_by frame.kind frame.agent

abbrev pub notified : List Taken → List ℕ
notified [] = []
notified ((frame, input) ∷ rounds) = agent_in frame ++ notified rounds

-- The agent whose notification is shown.
abbrev pub shown_by : UiMode → ℕ → List ℕ
shown_by ui_idle agent = []
shown_by ui_notification agent = agent ∷ []

abbrev pub shown : App → List ℕ
shown app = shown_by app.ui.mode app.ui.current.agent

acks-append : (xs ys : List Output) → acks (xs ++ ys) ≡ acks xs ++ acks ys
acks-append [] ys = refl
acks-append (ble_sent bytes ∷ xs) ys =
    ap (λ l. ack_in bytes ++ l) (acks-append xs ys)
    ∙ sym (append_assoc (ack_in bytes) (acks xs) (acks ys))
acks-append (notification_message s ∷ xs) ys = acks-append xs ys
acks-append (view_port_updated ∷ xs) ys = acks-append xs ys

acks-messages : (l : List NotificationSequence) → acks (messages l ++ view_port_updated ∷ []) ≡ []
acks-messages [] = refl
acks-messages (s ∷ l) = acks-messages l

-- A step that handles what brings the agents of `news`: who is acknowledged or still shown was shown
-- before or is new.
abbrev Answers : App → List ℕ → App × List Output → Type 0
Answers app news (after, outputs) = Sub (acks outputs ++ shown after) (shown app ++ news)

Answers-same : (app : App) (news : List ℕ) → Answers app news (app, [])
Answers-same app news = Sub-front (shown app) news

handle_kind-Answers :
    (app : App) (frame : FaiFrame) (kind : FaiFrameKind)
    → Answers app (agent_by kind frame.agent) (handle_kind app frame kind)
unfolding handle_kind fai_send_pong cleared
handle_kind-Answers app frame fai_frame_notify =
    rw (acks-messages _) (Sub-append (Sub-nil (shown app)) (Sub-refl (frame.agent ∷ [])))
handle_kind-Answers app frame fai_frame_ping = Answers-same app []
handle_kind-Answers app frame fai_frame_ack = Answers-same app []
handle_kind-Answers app frame fai_frame_pong = Answers-same app []

acknowledge-Answers :
    (app : App) (mode : UiMode) → app.ui.mode ≡ mode → Answers app [] (acknowledge app mode)
unfolding acknowledge fai_send_ack cleared
acknowledge-Answers app ui_idle h = Answers-same app []
acknowledge-Answers app ui_notification h =
    let agent = app.ui.current.agent in
    subst (λ m. Sub (agent ∷ []) (shown_by m agent ++ [])) (sym h) (Sub-refl (agent ∷ []))

handle_input-Answers :
    (app : App) (type : InputType) (key : InputKey) → Answers app [] (handle_input app type key)
unfolding handle_input handle_key
handle_input-Answers app short back = Answers-same app []
handle_input-Answers app short ok = acknowledge-Answers app app.ui.mode refl
handle_input-Answers app short up = Answers-same app []
handle_input-Answers app short _ = Answers-same app []
handle_input-Answers app press key = Answers-same app []
handle_input-Answers app _ key = Answers-same app []

frame-Answers :
    (app : App) (frame : Option FaiFrame)
    → Answers app (agent_in frame) (handled fai_handle_frame app frame)
unfolding handled fai_handle_frame
frame-Answers app none = Answers-same app []
frame-Answers app (some frame) = handle_kind-Answers app frame frame.kind

input-Answers :
    (app : App) (input : Option InputEvent) → Answers app [] (handled fai_handle_input app input)
unfolding handled fai_handle_input
input-Answers app none = Answers-same app []
input-Answers app (some event) = handle_input-Answers app event.type event.key

-- Steps one after the other: what the first leaves shown is what the second can answer.
Answers-trans :
    (app : App) (news later : List ℕ) (p q : App × List Output)
    → Answers app news p
    → Answers p.0 later q
    → Answers app (news ++ later) (q.0, p.1 ++ q.1)
Answers-trans app news later p q h k =
    let regrouped : acks (p.1 ++ q.1) ++ shown q.0 ≡ acks p.1 ++ (acks q.1 ++ shown q.0) =
      ap (λ l. l ++ shown q.0) (acks-append p.1 q.1)
      ∙ append_assoc (acks p.1) (acks q.1) (shown q.0) in
    let second : Sub (acks p.1 ++ (acks q.1 ++ shown q.0)) ((acks p.1 ++ shown p.0) ++ later) =
      subst (Sub _) (sym (append_assoc (acks p.1) (shown p.0) later))
        (Sub-append (Sub-refl (acks p.1)) k) in
    let first : Sub ((acks p.1 ++ shown p.0) ++ later) (shown app ++ (news ++ later)) =
      subst (Sub _) (append_assoc (shown app) news later) (Sub-append h (Sub-refl later)) in
    subst (λ l. Sub l (shown app ++ (news ++ later))) (sym regrouped) (Sub-trans second first)

app_round-Answers :
    (app : App) (taken : Taken) → Answers app (agent_in taken.0) (app_round app taken)
unfolding app_round
app_round-Answers app (frame, input) =
    let first = handled fai_handle_frame app frame in
    subst (λ news. Answers app news (app_round app (frame, input))) (append-nil (agent_in frame))
      (Answers-trans app (agent_in frame) [] first (handled fai_handle_input first.0 input)
        (frame-Answers app frame) (input-Answers first.0 input))

app_loop-Answers :
    (rounds : List Taken) (app : App) → Answers app (notified rounds) (app_loop app rounds)
unfolding app_loop
app_loop-Answers [] app = Answers-same app []
app_loop-Answers (taken ∷ rounds) app =
    let round = app_round app taken in
    let rest = app_loop round.0 rounds in
    let news = agent_in taken.0 ++ notified rounds in
    elim app.running
      as (λ b. Answers app news (if b then (rest.0, round.1 ++ rest.1) else (app, []))) [
        | true ↦
            Answers-trans app (agent_in taken.0) (notified rounds) round rest
              (app_round-Answers app taken) (app_loop-Answers rounds round.0)
        | false ↦ Answers-same app news
      ]

-- Each ACK that the app sends answers a notification that it took from its queue: the agents of the
-- ACKs are agents of these notifications, in their order and each as often at most as it notified.
pub acks-Sub-notified :
    (rounds : List Taken) → Sub (acks (app_loop start_app rounds).1) (notified rounds)
acks-Sub-notified rounds = Sub-trans (Sub-front _ _) (app_loop-Answers rounds start_app)
