-- ===== src/Whole/Answered.antt =====
-- The way back: which panes are cleared.
use mathlib.Core.List.{map, map-append}
use flipper_agent_indicator.Prelude.{
  ◌≡◌, refl, ap, subst, true, List, [], ◌∷◌, ◌++◌, append_assoc, append-nil,
}
use flipper_agent_indicator.Prelude.Sub.{Sub, Sub-refl, Sub-nil, Sub-append, Sub-trans, Sub-front}
use flipper_agent_indicator.Prelude.Repeats.{Repeats, Repeats-map, Sub-Repeats}
use flipper_agent_indicator.Utf8.{Bytes}
use flipper_agent_indicator.Protocol.{Notification, agent_value}
use flipper_agent_indicator.Daemon.Incoming.{handle_incoming-acked, flow_control-acked}
use flipper_agent_indicator.Firmware.Effects.{effects_apply}
use flipper_agent_indicator.Firmware.App.{
  fai_handle_frame, handle_kind, fai_handle_input, handle_input,
}
use flipper_agent_indicator.Firmware.App.Acks.{shown_by}
use flipper_agent_indicator.Whole.Rig.{
  Rig, Move, forwards, connects, takes, finds_link_down, sends, arrives, returns, raises_unsent,
  raises_sent, handles, presses, announces, hears, Reach, here, next, start, sent_bytes,
}
use flipper_agent_indicator.Whole.Arrived.{HasArrived, device_frame}
use flipper_agent_indicator.Whole.Sound.{IsSound, Reach-IsSound, handled-frame}
use flipper_agent_indicator.Whole.Displayed.{handled-Repeats}
use flipper_agent_indicator.Whole.Heard.{
  agent_number, frame_agents, heard, all_heard, all_heard-append, sent_bytes-messages,
  handle_input-Keeps, answers,
}

-- The panes that were cleared, the acknowledgements on their way, and the notification that is shown are
-- of frames that were handled, in their order.
abbrev IsAnswered : Rig → Type 0
IsAnswered p =
    Sub
      (map agent_value p.cleared
        ++ (all_heard p.upward ++ shown_by p.app.ui.mode p.app.ui.current.agent))
      (frame_agents p.handled)

handles-IsAnswered :
    (p : Rig) (n : Notification)
    → IsAnswered p
    → Sub
        (map agent_value p.cleared
          ++ (all_heard (p.upward ++ sent_bytes (fai_handle_frame p.app (device_frame n)).1)
              ++ agent_value n.agent ∷ []))
        (frame_agents (p.handled ++ device_frame n ∷ []))
unfolding fai_handle_frame handle_kind
handles-IsAnswered p n a =
    rw
      (
        sent_bytes-messages (effects_apply true (device_frame n)),
        append-nil p.upward,
        map-append agent_number p.handled (device_frame n ∷ []),
      )
      (subst
        (λ l.
          Sub (map agent_value p.cleared ++ (l ++ agent_value n.agent ∷ []))
            (frame_agents p.handled ++ agent_value n.agent ∷ []))
        (append-nil (all_heard p.upward))
        (answers (map agent_value p.cleared) (all_heard p.upward) [] _ (agent_value n.agent ∷ []) _
          (agent_value n.agent ∷ []) a
          (Sub-append (Sub-nil (shown_by p.app.ui.mode p.app.ui.current.agent))
            (Sub-refl (agent_value n.agent ∷ [])))))

hears-IsAnswered :
    (p : Rig) (raw : Bytes) (later : List Bytes)
    → Sub
        (map agent_value p.cleared
          ++ ((heard raw ++ all_heard later) ++ shown_by p.app.ui.mode p.app.ui.current.agent))
        (frame_agents p.handled)
    → Sub
        ((map agent_value p.cleared ++ heard raw)
          ++ (all_heard later ++ shown_by p.app.ui.mode p.app.ui.current.agent))
        (frame_agents p.handled)
hears-IsAnswered p raw later h =
    rw
      (append_assoc (map agent_value p.cleared) (heard raw)
        (all_heard later ++ shown_by p.app.ui.mode p.app.ui.current.agent))
      (subst (λ l. Sub (map agent_value p.cleared ++ l) (frame_agents p.handled))
        (append_assoc (heard raw) (all_heard later) (shown_by p.app.ui.mode p.app.ui.current.agent))
        h)

Move-IsAnswered : {p q : Rig} → Move p q → IsSound p → IsAnswered p → IsAnswered q
unfolding fai_handle_frame handle_kind fai_handle_input
Move-IsAnswered (forwards patterns n label queue clean h e) s a = rw e a
Move-IsAnswered (connects e) s a = rw e a
Move-IsAnswered (takes f c' rest h e) s a = rw e a
Move-IsAnswered (finds_link_down f c' rest h e) s a = rw e a
Move-IsAnswered (sends f pieces fly whole small e) s a = rw e a
Move-IsAnswered (arrives piece later r air h e) s a = rw e a
Move-IsAnswered (returns f fly air e) s a = rw e a
Move-IsAnswered (raises_unsent f fly e) s a = rw e a
Move-IsAnswered (raises_sent f fly air e) s a = rw e a
Move-IsAnswered {p} (handles frame later h on e) s a =
    let (n, kind) =
      handled-frame p frame later
        (subst (λ l. HasArrived p.sent (p.handled ++ l) p.lost p.rx p.wire) h s.arrived) in
    rw (e, kind) (handles-IsAnswered p n a)
Move-IsAnswered {p} (presses event on e) s a =
    rw
      (
        e,
        all_heard-append p.upward (sent_bytes (handle_input p.app event.type event.key).1),
        ← append-nil (frame_agents p.handled),
      )
      (answers (map agent_value p.cleared) (all_heard p.upward) _ _ _ _ [] a (
        rw (append-nil (shown_by p.app.ui.mode p.app.ui.current.agent))
          (handle_input-Keeps p.app event.type event.key)))
Move-IsAnswered {p} (announces raw flow e) s a =
    rw
      (
        e,
        all_heard-append p.upward (raw ∷ []),
        flow_control-acked raw flow,
        append-nil (all_heard p.upward),
      )
      a
Move-IsAnswered {p} (hears bridge spawn raw later first e) s a =
    rw (e, map-append agent_value p.cleared _, handle_incoming-acked bridge spawn raw)
      (hears-IsAnswered p raw later (rw first at a))

start-IsAnswered : IsAnswered start
start-IsAnswered = Sub.stop

Reach-IsAnswered : {p : Rig} → Reach start p → IsAnswered p
Reach-IsAnswered here = start-IsAnswered
Reach-IsAnswered (next r m) = Move-IsAnswered m (Reach-IsSound r) (Reach-IsAnswered r)

note_agents :
    (ns : List Notification)
    → frame_agents (map device_frame ns) ≡ map (λ n. agent_value n.agent) ns
note_agents [] = refl
note_agents (n ∷ ns) = ap (λ l. agent_value n.agent ∷ l) (note_agents ns)

-- After any moves, keys on the device and flow-control messages of its serial service among them, the
-- agents whose panes the daemon has cleared are those of frames that the app has handled, in their order
-- and each as often at most as it was handled: no pane is cleared that was not notified of. So they are
-- agents of forwarded notifications, in their order, of which one whose response was lost can be cleared
-- again.
pub cleared-handled :
    {p : Rig}
    → Reach start p
    → Sub (map agent_value p.cleared) (frame_agents p.handled)
      × Repeats (map agent_value p.cleared) (map (λ n. agent_value n.agent) p.forwarded)
cleared-handled {p} r =
    let known = Sub-trans (Sub-front (map agent_value p.cleared) _) (Reach-IsAnswered r) in
    (
      known,
      subst (Repeats (map agent_value p.cleared)) (note_agents p.forwarded)
          (Sub-Repeats known (Repeats-map agent_number (handled-Repeats r))),
    )
