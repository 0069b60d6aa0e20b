-- ===== src/Patterns/Load/Named.antt =====
-- The tables of fields that a `patterns` table has for an agent and a state, in their order, and the
-- loading of overrides as the storing of these one after the other.
use flipper_agent_indicator.Prelude.{
  ◌≡◌, refl, sym, ap, fun_ext, ◌∙◌, List, [], ◌∷◌, ◌++◌, Option, none, some, Result, ok, ◌>>=◌,
  >>=_assoc,
}
use flipper_agent_indicator.Protocol.{AgentId, State}
use flipper_agent_indicator.Patterns.{Key, Overrides, insert}
use flipper_agent_indicator.Config.{
  str, int, float, bool, moment, array, table, Entries, entry, no_entries,
}
use flipper_agent_indicator.Patterns.Load.{
  Builtins, LoadError, parse_agent, parse_state, pattern_of, store, load_states, load_agent,
  load_overrides,
}

abbrev pub Named : Type 0
Named = List (Key × Entries)

named_spec : AgentId → Option State → Entries → Named
named_spec agent none spec = []
named_spec agent (some state) spec = ((agent, state), spec) ∷ []

named_states : Builtins → AgentId → Entries → Named
unfolding named_spec
named_states py agent no_entries = []
named_states py agent (entry name (table spec) rest) =
    named_spec agent (parse_state py name) spec ++ named_states py agent rest
named_states py agent (entry name v rest) = named_states py agent rest

named_agent : Builtins → Option AgentId → Entries → Named
unfolding named_states
named_agent py none states = []
named_agent py (some agent) states = named_states py agent states

-- The tables that stand under the name of an agent and, there, under the name of a state.
unfoldable pub named : Builtins → Entries → Named
unfolding named_agent
named py no_entries = []
named py (entry name (table states) rest) =
    named_agent py (parse_agent py name) states ++ named py rest
named py (entry name v rest) = named py rest

unfoldable pub store_all : Builtins → Named → Overrides → Result LoadError Overrides
store_all py [] o = ok o
store_all py ((key, spec) ∷ rest) o = do
  p ← pattern_of py key spec
  store_all py rest (insert key p o)

module _ (py : Builtins) where
  store_all-append :
      (xs ys : Named) (o : Overrides)
      → store_all py (xs ++ ys) o ≡ (store_all py xs o >>= λ o'. store_all py ys o')
  unfolding store_all
  store_all-append [] ys o = refl
  store_all-append ((key, spec) ∷ xs) ys o =
      ap (λ f. pattern_of py key spec >>= f)
        (fun_ext (λ p. store_all-append xs ys (insert key p o)))
      ∙ sym (
          >>=_assoc (pattern_of py key spec) (λ p. store_all py xs (insert key p o))
            (store_all py ys))

  store-named :
      (agent : AgentId) (state : Option State) (spec : Entries) (o : Overrides)
      → store py agent state spec o ≡ store_all py (named_spec agent state spec) o
  unfolding store store_all named_spec
  store-named agent none spec o = refl
  store-named agent (some state) spec o = refl

  load_states-named :
      (agent : AgentId) (states : Entries) (o : Overrides)
      → load_states py agent states o ≡ store_all py (named_states py agent states) o
  unfolding load_states named_states store_all
  load_states-named agent no_entries o = refl
  load_states-named agent (entry name (table spec) rest) o =
      ap (λ r. r >>= load_states py agent rest) (store-named agent (parse_state py name) spec o)
      ∙ ap (λ f. store_all py (named_spec agent (parse_state py name) spec) o >>= f)
          (fun_ext (load_states-named agent rest))
      ∙ sym (store_all-append (named_spec agent (parse_state py name) spec) _ o)
  load_states-named agent (entry name (str s) rest) o = load_states-named agent rest o
  load_states-named agent (entry name (int z) rest) o = load_states-named agent rest o
  load_states-named agent (entry name (float b) rest) o = load_states-named agent rest o
  load_states-named agent (entry name (bool b) rest) o = load_states-named agent rest o
  load_states-named agent (entry name (moment s) rest) o = load_states-named agent rest o
  load_states-named agent (entry name (array vs) rest) o = load_states-named agent rest o

  load_agent-named :
      (agent : Option AgentId) (states : Entries) (o : Overrides)
      → load_agent py agent states o ≡ store_all py (named_agent py agent states) o
  unfolding load_agent named_agent store_all
  load_agent-named none states o = refl
  load_agent-named (some agent) states o = load_states-named agent states o

  pub load_overrides-named :
      (raw : Entries) (o : Overrides) → load_overrides py raw o ≡ store_all py (named py raw) o
  unfolding load_overrides named store_all
  load_overrides-named no_entries o = refl
  load_overrides-named (entry name (table states) rest) o =
      ap (λ r. r >>= load_overrides py rest) (load_agent-named (parse_agent py name) states o)
      ∙ ap (λ f. store_all py (named_agent py (parse_agent py name) states) o >>= f)
          (fun_ext (load_overrides-named rest))
      ∙ sym (store_all-append (named_agent py (parse_agent py name) states) _ o)
  load_overrides-named (entry name (str s) rest) o = load_overrides-named rest o
  load_overrides-named (entry name (int z) rest) o = load_overrides-named rest o
  load_overrides-named (entry name (float b) rest) o = load_overrides-named rest o
  load_overrides-named (entry name (bool b) rest) o = load_overrides-named rest o
  load_overrides-named (entry name (moment s) rest) o = load_overrides-named rest o
  load_overrides-named (entry name (array vs) rest) o = load_overrides-named rest o
