-- ===== src/Hooks/OpenCode/Changes.antt =====
-- What the plugin asks for, said by the calls that came before.
use flipper_agent_indicator.Prelude.{
  ℕ, ◌-◌, ◌≡◌, ◌≢◌, refl, ap, sym, ◌∙◌, inl, inr, Bool-cases, ==_iff, ==_refl, All, subst,
  &&-eq-true, arith, ◌||◌, List, [], ◌∷◌, ◌++◌, Option, none, some, ltb, if◌then◌else◌, last,
  singleton?, ◌⊎◌, append_assoc, append-nil,
}
use flipper_agent_indicator.Text.{Str, codes, eq_str}
use flipper_agent_indicator.Text.Laws.{eq_str_iff}
use flipper_agent_indicator.Protocol.Values.{state_value_inj}
use flipper_agent_indicator.Protocol.{State, off, running, needs_input, done, state_value}
use flipper_agent_indicator.Hooks.OpenCode.{
  Plugin, fresh, Acted, same_state, set_state, then_do, do_if, is_busy, is_permission, go_idle,
  branches, on_event, PluginCall, event, permission_ask, tool_execute_before, on_call, run_plugin,
}

-- What a call says.
pub data Says : Type 0 where
  works waits ends nothing : Says

abbrev pub event_says : Str → Str → Says
event_says type status =
    if is_busy type status
    then works
    else if is_permission type
    then waits
    else if eq_str type (codes "session.idle") || eq_str type (codes "session.error")
    then ends
    else nothing

abbrev pub says : PluginCall → Says
says (event type status) = event_says type status
says permission_ask = waits
says (tool_execute_before tool) = if eq_str tool (codes "question") then waits else nothing

-- The state to show, if the session ended last at a time.
abbrev pub wanted : ℕ → ℕ → Says → Option State
wanted ended now works = if ltb (now - ended) 2000 then none else some running
wanted ended now waits = some needs_input
wanted ended now ends = some done
wanted ended now nothing = none

abbrev pub ended_by : ℕ → ℕ → Says → ℕ
ended_by ended now ends = now
ended_by ended now _ = ended

-- When the session ended last, by the calls so far.
abbrev pub last_end : List (ℕ × PluginCall) → ℕ
last_end [] = 0
last_end ((now, call) ∷ earlier) = ended_by (last_end earlier) now (says call)

-- The states to show, for calls behind earlier ones, the latest of which stand first.
abbrev pub all_wanted : List (ℕ × PluginCall) → List (ℕ × PluginCall) → List State
all_wanted earlier [] = []
all_wanted earlier ((now, call) ∷ calls) =
    singleton? (wanted (last_end earlier) now (says call))
    ++ all_wanted ((now, call) ∷ earlier) calls

-- The states that differ from the one before.
abbrev pub changes : State → List State → List State
changes s [] = []
changes s (t ∷ ts) =
    let kept = changes s ts in
    let changed = changes t ts in if same_state t s then kept else t ∷ changed

-- `setState` on a state that may be wanted.
set_wanted : Option State → Plugin → Acted
unfolding set_state
set_wanted none p = (p, [])
set_wanted (some s) p = set_state s p

ended_plugin : ℕ → Says → Plugin → Plugin
ended_plugin now says p = record p { idle_at = ended_by p.idle_at now says }

on_event-says :
    (now : ℕ) (type status : Str) (p : Plugin)
    → on_event now type status p
      ≡ set_wanted
          (wanted p.idle_at now (event_says type status))
          (ended_plugin now (event_says type status) p)
unfolding on_event branches then_do do_if go_idle set_state set_wanted ended_plugin
on_event-says now type status p = elim (Bool-cases (is_busy type status)) [
  | inl e ↦
      (let (known, active) =
          &&-eq-true (eq_str type (codes "session.status")) (eq_str status (codes "busy")) e in
        rw
          (
            (eq_str_iff type (codes "session.status")).0 known,
            (eq_str_iff status (codes "busy")).0 active,
          )
          (ground arith))
  | inr e ↦ elim (Bool-cases (eq_str type (codes "permission.updated"))) [
    | inl h ↦ rw ((eq_str_iff type (codes "permission.updated")).0 h) (ground arith)
    | inr updated ↦ elim (Bool-cases (eq_str type (codes "permission.asked"))) [
      | inl h ↦ rw ((eq_str_iff type (codes "permission.asked")).0 h) (ground arith)
      | inr asked ↦ elim (Bool-cases (eq_str type (codes "session.idle"))) [
        | inl h ↦ rw ((eq_str_iff type (codes "session.idle")).0 h) (ground arith)
        | inr idle ↦ elim (Bool-cases (eq_str type (codes "session.error"))) [
          | inl h ↦ rw ((eq_str_iff type (codes "session.error")).0 h) (ground arith)
          | inr error ↦ rw (e, updated, asked, idle, error) refl
        ]
      ]
    ]
  ]
]

on_call-says :
    (now : ℕ) (call : PluginCall) (p : Plugin)
    → on_call now call p
      ≡ set_wanted (wanted p.idle_at now (says call)) (ended_plugin now (says call) p)
unfolding on_call do_if set_wanted ended_plugin
on_call-says now permission_ask p = refl
on_call-says now (tool_execute_before tool) p = elim (Bool-cases (eq_str tool (codes "question"))) [
  | inl e ↦ rw e refl
  | inr e ↦ rw e refl
]
on_call-says now (event type status) p = on_event-says now type status p

set_wanted-changes :
    (w : Option State) (p : Plugin) (ts : List State)
    → (set_wanted w p).1 ++ changes (set_wanted w p).0.last_state ts
      ≡ changes p.last_state (singleton? w ++ ts)
unfolding set_wanted set_state
set_wanted-changes none p ts = refl
set_wanted-changes (some s) p ts = elim (Bool-cases (same_state s p.last_state)) [
  | inl e ↦ rw e refl
  | inr e ↦ rw e refl
]

set_wanted-idle_at : (w : Option State) (p : Plugin) → (set_wanted w p).0.idle_at ≡ p.idle_at
unfolding set_wanted set_state
set_wanted-idle_at none p = refl
set_wanted-idle_at (some s) p = ground arith

run_plugin-changes :
    (calls earlier : List (ℕ × PluginCall)) (p : Plugin)
    → p.idle_at ≡ last_end earlier
    → (run_plugin p calls).1 ≡ changes p.last_state (all_wanted earlier calls)
unfolding run_plugin ended_plugin
run_plugin-changes [] earlier p h = refl
run_plugin-changes ((now, call) ∷ calls) earlier p h =
    let w = wanted p.idle_at now (says call) in
    let q = ended_plugin now (says call) p in
    let ended : (set_wanted w q).0.idle_at ≡ last_end ((now, call) ∷ earlier) =
      set_wanted-idle_at w q ∙ ap (λ t. ended_by t now (says call)) h in
    rw
      (
        on_call-says now call p,
        run_plugin-changes calls ((now, call) ∷ earlier) (set_wanted w q).0 ended,
      )
      (set_wanted-changes w q (all_wanted ((now, call) ∷ earlier) calls)
        ∙ ap
            (λ t.
              changes p.last_state
                (singleton? (wanted t now (says call)) ++ all_wanted ((now, call) ∷ earlier) calls))
            h)

-- No state is the one before it.
abbrev pub IsChanging : State → List State → Type 0
IsChanging s [] = Unit
IsChanging s (t ∷ ts) = (t ≢ s) × IsChanging t ts

changes-IsChanging : (s : State) (ts : List State) → IsChanging s (changes s ts)
changes-IsChanging s [] = tt
changes-IsChanging s (t ∷ ts) = elim (Bool-cases (same_state t s)) [
  | inl e ↦ rw e (changes-IsChanging s ts)
  | inr e ↦ rw e (
    (λ same. cc (ap (same_state t) (sym same), (==_iff (state_value t) (state_value t)).1 refl, e)),
    changes-IsChanging t ts,
  )
]

last-changes : (s : State) (ts : List State) → last (s ∷ changes s ts) ≡ last (s ∷ ts)
last-changes s [] = refl
last-changes s (t ∷ ts) = elim (Bool-cases (same_state t s)) [
  | inl e ↦
      (let same : t ≡ s = state_value_inj t s ((==_iff _ _).0 e) in
        rw e (last-changes s ts ∙ ap (λ u. last (u ∷ ts)) (sym same)))
  | inr e ↦ rw e (last-changes t ts)
]

-- Whatever calls the plugin gets, the states that it gives to the command line, in the order in which it
-- starts the commands, are those that its calls ask for, without the repetitions: a busy session asks for
-- running, unless a session became idle or failed less than two seconds before, a permission and a
-- question ask for needs-input, and an idle or failed session for done. So no state is given twice in a
-- row, and the last one given is the last one asked for.
pub run_plugin-wanted :
    (calls : List (ℕ × PluginCall))
    → let states = (run_plugin fresh calls).1 in
      (states ≡ changes off (all_wanted [] calls))
      × IsChanging off states
      × (last (off ∷ states) ≡ last (off ∷ all_wanted [] calls))
run_plugin-wanted calls =
    let same = run_plugin-changes calls [] fresh refl in
    (
      same,
      subst (IsChanging off) (sym same) (changes-IsChanging off (all_wanted [] calls)),
      ap (λ l. last (off ∷ l)) same ∙ last-changes off (all_wanted [] calls),
    )

set_wanted-same : (p : Plugin) (s : State) → p.last_state ≡ s → set_wanted (some s) p ≡ (p, [])
unfolding set_wanted set_state
set_wanted-same p s h = rw (h, ==_refl (state_value s)) refl

run_plugin-append :
    (p : Plugin) (earlier later : List (ℕ × PluginCall))
    → run_plugin p (earlier ++ later) ≡ (
      (run_plugin (run_plugin p earlier).0 later).0,
      (run_plugin p earlier).1 ++ (run_plugin (run_plugin p earlier).0 later).1,
    )
unfolding run_plugin
run_plugin-append p [] later = refl
run_plugin-append p ((now, call) ∷ earlier) later =
    rw (run_plugin-append (on_call now call p).0 earlier later, append_assoc) refl

set_wanted-last :
    (w : Option State) (p : Plugin) (s : State)
    → last (p.last_state ∷ (set_wanted w p).1) ≡ some (set_wanted w p).0.last_state
unfolding set_wanted set_state
set_wanted-last none p s = refl
set_wanted-last (some t) p s = elim (Bool-cases (same_state t p.last_state)) [
  | inl e ↦ rw e refl
  | inr e ↦ rw e refl
]

last-behind :
    (s t : State) (ts us : List State)
    → last (s ∷ ts) ≡ some t
    → last (s ∷ ts ++ us) ≡ last (t ∷ us)
last-behind s t [] us h = cc
last-behind s t (u ∷ ts) us h = last-behind u t ts us h

-- The state that the plugin keeps is the last one that it gave.
run_plugin-last :
    (calls : List (ℕ × PluginCall)) (p : Plugin)
    → last (p.last_state ∷ (run_plugin p calls).1) ≡ some (run_plugin p calls).0.last_state
unfolding run_plugin ended_plugin
run_plugin-last [] p = refl
run_plugin-last ((now, call) ∷ calls) p =
    let w = wanted p.idle_at now (says call) in
    let q = ended_plugin now (says call) p in
    rw (on_call-says now call p) (
      last-behind q.last_state _ (set_wanted w q).1 _ (set_wanted-last w q off)
      ∙ run_plugin-last calls (set_wanted w q).0)

-- A call that neither starts work nor ends a session.
abbrev pub IsIdle : PluginCall → Type 0
IsIdle call = (says call ≡ waits) ⊎ (says call ≡ nothing)

run_plugin-idle :
    (calls : List (ℕ × PluginCall)) (p : Plugin)
    → p.last_state ≡ needs_input
    → All (λ c. IsIdle c.1) calls
    → run_plugin p calls ≡ (p, [])
unfolding run_plugin ended_plugin set_wanted
run_plugin-idle [] p h idle = refl
run_plugin-idle ((now, call) ∷ calls) p h (inl asks, idle) =
    rw
      (
        on_call-says now call p,
        asks,
        set_wanted-same p needs_input h,
        run_plugin-idle calls p h idle,
      )
      refl
run_plugin-idle ((now, call) ∷ calls) p h (inr quiet, idle) =
    rw (on_call-says now call p, quiet, run_plugin-idle calls p h idle) refl

last-given : (s t : State) (ts : List State) → last ts ≡ some t → last (s ∷ ts) ≡ some t
last-given s t [] h = cc
last-given s t (u ∷ us) h = h

-- When the last state that the plugin gave to the command line is needs-input, whether or not its command
-- reached the daemon, the calls that follow give no command, as long as each is a permission, a question or
-- one that asks for nothing.
pub run_plugin-asked :
    (earlier later : List (ℕ × PluginCall))
    → last (run_plugin fresh earlier).1 ≡ some needs_input
    → All (λ c. IsIdle c.1) later
    → (run_plugin fresh (earlier ++ later)).1 ≡ (run_plugin fresh earlier).1
run_plugin-asked earlier later gave idle =
    let (p, states) = run_plugin fresh earlier in
    let kept : p.last_state ≡ needs_input =
      cc (run_plugin-last earlier fresh, last-given off needs_input states gave) in
    rw (run_plugin-append fresh earlier later, run_plugin-idle later p kept idle)
      (append-nil states)
