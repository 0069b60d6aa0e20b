-- ===== src/Whole/Heard.antt =====
-- What the app sends, as the daemon hears it.
use mathlib.Core.List.{map}
use flipper_agent_indicator.Prelude.{
  ℕ, ◌≡◌, refl, ap, sym, subst, ◌∙◌, true, List, [], ◌∷◌, ◌++◌, append_assoc, append-nil, Result,
  err, arith,
}
use flipper_agent_indicator.Prelude
use flipper_agent_indicator.Prelude.Sub.{Sub, Sub-refl, Sub-nil, Sub-append, Sub-trans}
use flipper_agent_indicator.Utf8.{Bytes}
use flipper_agent_indicator.Protocol.{
  AgentId, Frame, notify, ack, ping, pong, DecodeError, decode, agent_value,
}
use flipper_agent_indicator.Protocol.Accepts.{Holds, an_ack, decode_iff}
use flipper_agent_indicator.Daemon.Incoming.{acked_by}
use flipper_agent_indicator.Firmware.{FaiFrame, cleared}
use flipper_agent_indicator.Firmware.Effects.{NotificationSequence}
use flipper_agent_indicator.Firmware.App.{
  App, UiMode, ui_idle, ui_notification, Output, messages, view_port_updated, handle_input,
  handle_key, acknowledge, fai_send_ack, InputType, InputKey, short, press, ok, back, up,
}
use flipper_agent_indicator.Firmware.App.Acks.{shown_by}
use flipper_agent_indicator.Whole.Rig.{sent_bytes}

abbrev pub agent_number : FaiFrame → ℕ
agent_number g = g.agent

-- The agents of frames, as their numbers.
abbrev pub frame_agents : List FaiFrame → List ℕ
frame_agents = map agent_number

-- The agents that some bytes acknowledge to the daemon, as their numbers.
abbrev pub heard : Bytes → List ℕ
heard raw = map agent_value (acked_by (decode raw))

abbrev pub all_heard : List Bytes → List ℕ
all_heard [] = []
all_heard (raw ∷ later) = heard raw ++ all_heard later

pub all_heard-append : (xs ys : List Bytes) → all_heard (xs ++ ys) ≡ all_heard xs ++ all_heard ys
all_heard-append [] ys = refl
all_heard-append (x ∷ xs) ys =
    ap (λ l. heard x ++ l) (all_heard-append xs ys)
    ∙ sym (append_assoc (heard x) (all_heard xs) (all_heard ys))

Holds-ack :
    {raw : Bytes} {a : AgentId}
    → Holds raw (ack a)
    → (rest : Bytes) × (raw ≡ 0x81 ∷ agent_value a ∷ rest)
Holds-ack (an_ack a rest) = (rest, refl)

acked-Sub :
    (x : ℕ) (r : Result DecodeError Frame)
    → decode (0x81 ∷ x ∷ []) ≡ r
    → Sub (map agent_value (acked_by r)) (x ∷ [])
acked-Sub x (err e) h = Sub-nil (x ∷ [])
acked-Sub x (Prelude.ok (ack a)) h =
    let (rest, same) = Holds-ack ((decode_iff (0x81 ∷ x ∷ []) (ack a)).0 h) in
    let value : x ≡ agent_value a = cc in rw value (Sub-refl (agent_value a ∷ []))
acked-Sub x (Prelude.ok (notify n)) h = Sub-nil (x ∷ [])
acked-Sub x (Prelude.ok ping) h = Sub-nil (x ∷ [])
acked-Sub x (Prelude.ok pong) h = Sub-nil (x ∷ [])

pub sent_bytes-messages :
    (l : List NotificationSequence) → sent_bytes (messages l ++ view_port_updated ∷ []) ≡ []
sent_bytes-messages [] = refl
sent_bytes-messages (s ∷ l) = sent_bytes-messages l

-- A key: who is acknowledged or still shown was shown.
abbrev pub Keeps : App → App × List Output → Type 0
Keeps app (after, outputs) =
    Sub (all_heard (sent_bytes outputs) ++ shown_by after.ui.mode after.ui.current.agent)
      (shown_by app.ui.mode app.ui.current.agent)

acknowledge-Keeps :
    (app : App) (mode : UiMode) → app.ui.mode ≡ mode → Keeps app (acknowledge app mode)
unfolding acknowledge fai_send_ack cleared
acknowledge-Keeps app ui_idle h = Sub-refl _
acknowledge-Keeps app ui_notification h =
    let agent = app.ui.current.agent in
    subst (λ m. Sub ((heard (0x81 ∷ agent ∷ []) ++ []) ++ []) (shown_by m agent)) (sym h)
      (rw (append-nil (heard (0x81 ∷ agent ∷ []) ++ []), append-nil (heard (0x81 ∷ agent ∷ [])))
        (acked-Sub agent (decode (0x81 ∷ agent ∷ [])) refl))

pub handle_input-Keeps :
    (app : App) (type : InputType) (key : InputKey) → Keeps app (handle_input app type key)
unfolding handle_input handle_key
handle_input-Keeps app short back = Sub-refl _
handle_input-Keeps app short ok = acknowledge-Keeps app app.ui.mode refl
handle_input-Keeps app short up = Sub-refl _
handle_input-Keeps app short _ = Sub-refl _
handle_input-Keeps app press key = Sub-refl _
handle_input-Keeps app _ key = Sub-refl _

-- One more step: `more` is acknowledged and `after` shown then, of what was shown and what is new.
pub answers :
    (done acked more shown after all news : List ℕ)
    → Sub (done ++ (acked ++ shown)) all
    → Sub (more ++ after) (shown ++ news)
    → Sub (done ++ ((acked ++ more) ++ after)) (all ++ news)
answers done acked more shown after all news h k =
    let regroup : done ++ ((acked ++ more) ++ after) ≡ (done ++ acked) ++ (more ++ after) =
      ap (λ l. done ++ l) (append_assoc acked more after)
      ∙ sym (append_assoc done acked (more ++ after)) in
    let behind : (done ++ acked) ++ (shown ++ news) ≡ (done ++ (acked ++ shown)) ++ news =
      append_assoc done acked (shown ++ news)
      ∙ ap (λ l. done ++ l) (sym (append_assoc acked shown news))
      ∙ sym (append_assoc done (acked ++ shown) news) in
    subst (λ l. Sub l (all ++ news)) (sym regroup)
      (Sub-trans
        (subst (λ l. Sub ((done ++ acked) ++ (more ++ after)) l) behind
          (Sub-append (Sub-refl (done ++ acked)) k))
        (Sub-append h (Sub-refl news)))
