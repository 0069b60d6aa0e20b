-- ===== src/Patterns/Load.antt =====
-- daemon/flipper_indicator/patterns.py: the overrides that are loaded from the `patterns` table of the
-- configuration.
pub mod Named
pub mod Loaded
mod Tests
use flipper_agent_indicator.Prelude.{
  ◌≡◌, refl, ℕ, Bool, List, [], ◌∷◌, ◌++◌, Option, none, some, Result, ok, err, ◌>>=◌, ◌==◌,
  if◌then◌else◌,
}
use flipper_agent_indicator.Prelude.Int.{ℤ}
use flipper_agent_indicator.Text.{Str, codes, eq_str}
use flipper_agent_indicator.Protocol.{
  AgentId, claude, codex, opencode, generic, State, off, running, needs_input, done,
}
use flipper_agent_indicator.Patterns
use flipper_agent_indicator.Patterns.{
  Pattern, Key, Overrides, insert, agent_color, state_vibra, default_label,
}
use flipper_agent_indicator.Config.{
  Value, str, array, table, Values, value, no_values, Entries, entry, no_entries, find, text_or,
}

-- Python's `str.upper`, `int` on a value (`none` where it raises), and `str` on a value that is no text.
pub record Builtins : Type 0 where
  pub upper : Str → Str
  pub to_int : Value → Option ℤ
  pub show : Value → Str

-- What leaves `_load_overrides`: a value that cannot be iterated, or one that `int` refuses.
pub data LoadError : Type 0 where
  not_iterable no_integer : LoadError

-- AgentId[name.upper()], with `none` for a `KeyError`
unfoldable pub parse_agent : Builtins → Str → Option AgentId
parse_agent py name =
    let upper = py.upper name in
    if eq_str upper (codes "CLAUDE")
    then some claude
    else if eq_str upper (codes "CODEX")
    then some codex
    else if eq_str upper (codes "OPENCODE")
    then some opencode
    else if eq_str upper (codes "GENERIC")
    then some generic
    else none

-- name.replace("-", "_")
unfoldable pub underscored : Str → Str
underscored [] = []
underscored (c ∷ cs) = (if c == b'-' then b'_' else c) ∷ underscored cs

-- State[name.upper().replace("-", "_")]
unfoldable pub parse_state : Builtins → Str → Option State
unfolding underscored
parse_state py name =
    let upper = underscored (py.upper name) in
    if eq_str upper (codes "OFF")
    then some off
    else if eq_str upper (codes "RUNNING")
    then some running
    else if eq_str upper (codes "NEEDS_INPUT")
    then some needs_input
    else if eq_str upper (codes "DONE")
    then some done
    else none

unfoldable pub characters : Str → List Value
characters [] = []
characters (c ∷ cs) = str (c ∷ []) ∷ characters cs

unfoldable pub elements : Values → List Value
elements no_values = []
elements (value v vs) = v ∷ elements vs

unfoldable pub keys : Entries → List Value
keys no_entries = []
keys (entry k v rest) = str k ∷ keys rest

-- The values that `for x in v` goes through.
unfoldable pub iterated : Value → Option (List Value)
unfolding characters elements keys
iterated (str s) = some (characters s)
iterated (array vs) = some (elements vs)
iterated (table t) = some (keys t)
iterated _ = none

unfoldable pub cons_int : Option ℤ → Result LoadError (List ℤ) → Result LoadError (List ℤ)
cons_int none rest = err no_integer
cons_int (some z) rest = do zs ← rest; ok (z ∷ zs)

unfoldable pub ints : Builtins → List Value → Result LoadError (List ℤ)
unfolding cons_int
ints py [] = ok []
ints py (v ∷ vs) = cons_int (py.to_int v) (ints py vs)

unfoldable pub ints_of : Builtins → Option (List Value) → Result LoadError (List ℤ)
unfolding ints
ints_of py none = err not_iterable
ints_of py (some vs) = ints py vs

-- tuple(int(x) for x in spec.get(key, default)); the default holds integers.
unfoldable pub tuple_or : Builtins → List ℤ → Option Value → Result LoadError (List ℤ)
unfolding ints_of iterated
tuple_or py default none = ok default
tuple_or py default (some v) = ints_of py (iterated v)

-- The pattern of a table of fields.
unfoldable pub pattern_of : Builtins → Key → Entries → Result LoadError Pattern
unfolding tuple_or
pattern_of py (agent, state) spec = do
  led_rgb ← tuple_or py (agent_color agent) (find (codes "led_rgb") spec)
  vibra ← tuple_or py (state_vibra state) (find (codes "vibra_sequence") spec)
  ok (record {
    led_rgb = led_rgb;
    vibra_sequence = vibra;
    label = text_or py.show (default_label agent state) (find (codes "label") spec);
  })

unfoldable pub store :
    Builtins → AgentId → Option State → Entries → Overrides → Result LoadError Overrides
unfolding pattern_of
store py agent none spec o = ok o
store py agent (some state) spec o = do
  p ← pattern_of py (agent, state) spec
  ok (insert (agent, state) p o)

-- The inner loop of `_load_overrides`.
unfoldable pub load_states : Builtins → AgentId → Entries → Overrides → Result LoadError Overrides
unfolding store parse_state
load_states py agent no_entries o = ok o
load_states py agent (entry name (table spec) rest) o = do
  o' ← store py agent (parse_state py name) spec o
  load_states py agent rest o'
load_states py agent (entry name v rest) o = load_states py agent rest o

unfoldable pub load_agent :
    Builtins → Option AgentId → Entries → Overrides → Result LoadError Overrides
unfolding load_states
load_agent py none states o = ok o
load_agent py (some agent) states o = load_states py agent states o

-- `_load_overrides`
unfoldable pub load_overrides : Builtins → Entries → Overrides → Result LoadError Overrides
unfolding load_agent parse_agent
load_overrides py no_entries o = ok o
load_overrides py (entry name (table states) rest) o = do
  o' ← load_agent py (parse_agent py name) states o
  load_overrides py rest o'
load_overrides py (entry name v rest) o = load_overrides py rest o

-- `PatternTable.__init__`: the overrides of the table; an empty dict is false.
unfoldable pub pattern_table : Builtins → Option Entries → Result LoadError Overrides
unfolding load_overrides
pattern_table py none = ok []
pattern_table py (some no_entries) = ok []
pattern_table py (some (entry name v rest)) = load_overrides py (entry name v rest) []

pub pattern_table-load_overrides :
    (py : Builtins) (entries : Entries)
    → pattern_table py (some entries) ≡ load_overrides py entries []
unfolding pattern_table
pattern_table-load_overrides py no_entries = refl
pattern_table-load_overrides py (entry name v rest) = refl
