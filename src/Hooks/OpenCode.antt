-- ===== src/Hooks/OpenCode.antt =====
-- hooks/opencode-flipper-indicator.js: the plugin of OpenCode. A call of one of its hooks comes with
-- the time in milliseconds that `Date.now` returns in it; times are natural numbers, and a clock that
-- was set back makes the difference 0, which is below the guard as a negative one is. The commands are
-- said in the order in which they are started.
pub mod Changes
use flipper_agent_indicator.Prelude.{
  ℕ, ◌-◌, Bool, true, false, ◌&&◌, ◌||◌, List, [], ◌∷◌, ◌++◌, ltb, ◌==◌, if◌then◌else◌,
}
use flipper_agent_indicator.Text.{Str, codes, eq_str}
use flipper_agent_indicator.Protocol.{State, off, running, needs_input, done, state_value}

pub record Plugin : Type 0 where
  pub last_state : State
  pub idle_at : ℕ

abbrev pub fresh : Plugin
fresh = record { last_state = off; idle_at = 0 }

-- What a call leaves, and the states that it gives to `flipper-indicator notify`.
abbrev pub Acted : Type 0
Acted = Plugin × List State

-- a === b
abbrev pub same_state : State → State → Bool
same_state a b = state_value a == state_value b

-- `setState`
unfoldable pub set_state : State → Plugin → Acted
set_state state p =
    if same_state state p.last_state then (p, []) else (record p { last_state = state }, state ∷ [])

-- Two statements, one after the other.
unfoldable pub then_do : Acted → (Plugin → Acted) → Acted
then_do (p, states) f = let (q, more) = f p in (q, states ++ more)

-- if (test) await f
unfoldable pub do_if : Bool → (Plugin → Acted) → Plugin → Acted
do_if true f p = f p
do_if false f p = (p, [])

abbrev pub is_busy : Str → Str → Bool
is_busy type status = eq_str type (codes "session.status") && eq_str status (codes "busy")

abbrev pub is_permission : Str → Bool
is_permission type =
    eq_str type (codes "permission.updated") || eq_str type (codes "permission.asked")

-- The body of the branches for `session.idle` and `session.error`.
unfoldable pub go_idle : ℕ → Plugin → Acted
unfolding set_state
go_idle now p = set_state done (record p { idle_at = now })

-- `event` behind its guard
unfoldable pub branches : ℕ → Str → Str → Plugin → Acted
unfolding set_state then_do do_if go_idle
branches now type status p =
    then_do
      (then_do
        (then_do (do_if (is_busy type status) (set_state running) p)
          (do_if (is_permission type) (set_state needs_input)))
        (do_if (eq_str type (codes "session.idle")) (go_idle now)))
      (do_if (eq_str type (codes "session.error")) (go_idle now))

-- `event`; `status` is `event.properties.status.type`, which is read for `session.status` only.
unfoldable pub on_event : ℕ → Str → Str → Plugin → Acted
unfolding branches
on_event now type status p =
    if is_busy type status && ltb (now - p.idle_at) 2000
    then (p, [])
    else branches now type status p

-- The hooks of the plugin.
pub data PluginCall : Type 0 where
  event : (type status : Str) → PluginCall
  permission_ask : PluginCall
  tool_execute_before : (tool : Str) → PluginCall

unfoldable pub on_call : ℕ → PluginCall → Plugin → Acted
unfolding on_event do_if set_state
on_call now (event type status) p = on_event now type status p
on_call now permission_ask p = set_state needs_input p
on_call now (tool_execute_before tool) p =
    do_if (eq_str tool (codes "question")) (set_state needs_input) p

-- The calls that come one after the other.
unfoldable pub run_plugin : Plugin → List (ℕ × PluginCall) → Acted
unfolding on_call
run_plugin p [] = (p, [])
run_plugin p ((now, call) ∷ calls) =
    let (q, states) = on_call now call p in
    let (end, later) = run_plugin q calls in (end, states ++ later)
