-- ===== src/Patterns/Load/Loaded.antt =====
-- Which pattern is found once the overrides are loaded, and when they can be loaded.
use flipper_agent_indicator.Prelude.{
  ok_inj, ◌≡◌, ◌++◌, refl, err, All-middle, sym, ap, subst, ◌∙◌, inl, inr, ◌↔◌, true, false,
  &&-eq-true, Bool-cases, ◌==◌, ==_iff, ==_refl, List, [], ◌∷◌, Option, none, some, ok, >>=-eq-ok,
  All, if◌then◌else◌,
}
use flipper_agent_indicator.Protocol.{AgentId, State, agent_value, state_value}
use flipper_agent_indicator.Patterns
use flipper_agent_indicator.Patterns.{Pattern, Key, eq_key, Overrides, lookup, insert}
use flipper_agent_indicator.Config.{Entries, str, find}
use flipper_agent_indicator.Protocol.Values.{agent_value_inj, state_value_inj}
use flipper_agent_indicator.Text.{Str, codes}
use flipper_agent_indicator.Patterns.Load.{
  tuple_or, iterated, characters, ints_of, ints, cons_int, no_integer, Builtins, pattern_of,
  load_overrides,
}
use flipper_agent_indicator.Patterns.Load.Named.{Named, named, store_all, load_overrides-named}

eq_key-eq : (j k : Key) → eq_key j k ≡ true → j ≡ k
eq_key-eq (a, s) (b, t) h =
    let (ha, hs) = &&-eq-true (agent_value a == agent_value b) (state_value s == state_value t) h in
    rw (agent_value_inj a b ((==_iff _ _).0 ha), state_value_inj s t ((==_iff _ _).0 hs)) refl

eq_key_refl : (k : Key) → eq_key k k ≡ true
eq_key_refl (a, s) = rw (==_refl (agent_value a), ==_refl (state_value s)) refl

lookup-insert : (k : Key) (p : Pattern) (o : Overrides) → lookup k (insert k p o) ≡ some p
unfolding lookup insert
lookup-insert k p [] = rw (eq_key_refl k) refl
lookup-insert k p ((j, q) ∷ o) = elim (Bool-cases (eq_key j k)) [
  | inl e ↦ rw (e, eq_key_refl k) refl
  | inr e ↦ rw (e, e) (lookup-insert k p o)
]

lookup-insert_other :
    (j k : Key) (p : Pattern) (o : Overrides)
    → eq_key j k ≡ false
    → lookup k (insert j p o) ≡ lookup k o
unfolding lookup insert
lookup-insert_other j k p [] h = rw h refl
lookup-insert_other j k p ((i, q) ∷ o) h = elim (Bool-cases (eq_key i j)) [
  | inl e ↦ rw (eq_key-eq i j e, eq_key_refl j, h) refl
  | inr e ↦ rw (e, lookup-insert_other j k p o h) refl
]

-- The tables for one agent and state.
abbrev pub specs_for : Key → Named → List Entries
specs_for k [] = []
specs_for k ((j, spec) ∷ rest) =
    let others = specs_for k rest in if eq_key j k then spec ∷ others else others

-- What a key holds in the end: the pattern of the last table, or what it held at the start.
abbrev Holds : Builtins → Key → List Entries → Option Pattern → Option Pattern → Type 0
Holds py k [] start end = end ≡ start
Holds py k (spec ∷ []) start end = (p : Pattern) × (pattern_of py k spec ≡ ok p) × (end ≡ some p)
Holds py k (spec ∷ next ∷ specs) start end = Holds py k (next ∷ specs) start end

module _ (py : Builtins) (k : Key) where
  Holds-start :
      (spec : Entries) (specs : List Entries) (a b end : Option Pattern)
      → Holds py k (spec ∷ specs) a end
      → Holds py k (spec ∷ specs) b end
  Holds-start spec [] a b end h = h
  Holds-start spec (next ∷ specs) a b end h = Holds-start next specs a b end h

  Holds-cons :
      (spec : Entries) (specs : List Entries) (p : Pattern) (start end : Option Pattern)
      → pattern_of py k spec ≡ ok p
      → Holds py k specs (some p) end
      → Holds py k (spec ∷ specs) start end
  Holds-cons spec [] p start end e h = (p, e, h)
  Holds-cons spec (next ∷ specs) p start end e h = Holds-start next specs (some p) start end h

  store_all-Holds :
      (xs : Named) (o : Overrides) {end : Overrides}
      → store_all py xs o ≡ ok end
      → Holds py k (specs_for k xs) (lookup k o) (lookup k end)
  unfolding store_all
  store_all-Holds [] o h = ap (lookup k) (sym (ok_inj h))
  store_all-Holds ((j, spec) ∷ xs) o {end} h =
      let (p, made, rest) =
        >>=-eq-ok (pattern_of py j spec) (λ p. store_all py xs (insert j p o)) h in
      elim (Bool-cases (eq_key j k)) [
        | inl e ↦ rw e (
            Holds-cons spec (specs_for k xs) p _ _
              (subst (λ i. pattern_of py i spec ≡ ok p) (eq_key-eq j k e) made)
              (subst (λ start. Holds py k (specs_for k xs) start (lookup k end))
                (ap (λ i. lookup k (insert i p o)) (eq_key-eq j k e) ∙ lookup-insert k p o)
                (store_all-Holds xs (insert j p o) rest)))
        | inr e ↦ rw e (
            subst (λ start. Holds py k (specs_for k xs) start (lookup k end))
              (lookup-insert_other j k p o e) (store_all-Holds xs (insert j p o) rest))
      ]

-- The pattern by the tables for a key: the defaults without one, or else what the last one makes.
abbrev pub Gives : Builtins → Key → List Entries → Pattern → Type 0
Gives py (agent, state) [] p = p ≡ Patterns.get [] agent state
Gives py k (spec ∷ []) p = pattern_of py k spec ≡ ok p
Gives py k (spec ∷ next ∷ specs) p = Gives py k (next ∷ specs) p

Holds-Gives :
    (py : Builtins) (agent : AgentId) (state : State) (specs : List Entries) (o : Overrides)
    → Holds py (agent, state) specs none (lookup (agent, state) o)
    → Gives py (agent, state) specs (Patterns.get o agent state)
unfolding Patterns.get
Holds-Gives py agent state [] o h = rw (h, Patterns.get) refl
Holds-Gives py agent state (spec ∷ []) o (p, made, h) = rw (h, Patterns.get) made
Holds-Gives py agent state (spec ∷ next ∷ specs) o h = Holds-Gives py agent state (next ∷ specs) o h

-- Once the overrides are loaded, `get` returns for an agent and a state what the last of their tables
-- in the configuration makes, and the default pattern if they have none.
pub get-load_overrides :
    (py : Builtins) (raw : Entries) {o : Overrides} (agent : AgentId) (state : State)
    → load_overrides py raw [] ≡ ok o
    → Gives py (agent, state) (specs_for (agent, state) (named py raw)) (Patterns.get o agent state)
unfolding lookup
get-load_overrides py raw {o} agent state h =
    Holds-Gives py agent state (specs_for (agent, state) (named py raw)) o (
      store_all-Holds py (agent, state) (named py raw) []
        (sym (load_overrides-named py raw []) ∙ h))

-- A table of fields that makes a pattern.
abbrev pub Makes : Builtins → Key × Entries → Type 0
Makes py (k, spec) = (p : Pattern) × (pattern_of py k spec ≡ ok p)

store_all-ok_iff :
    (py : Builtins) (xs : Named) (o : Overrides)
    → ((end : Overrides) × (store_all py xs o ≡ ok end)) ↔ All (Makes py) xs
unfolding store_all
store_all-ok_iff py [] o = (λ _. tt, λ _. (o, refl))
store_all-ok_iff py ((k, spec) ∷ xs) o = (
  λ (end, h).
      let (p, made, rest) =
        >>=-eq-ok (pattern_of py k spec) (λ p. store_all py xs (insert k p o)) h in
      ((p, made), (store_all-ok_iff py xs (insert k p o)).0 (end, rest)),
  λ ((p, made), others). rw made ((store_all-ok_iff py xs (insert k p o)).1 others),
)

-- The overrides can be loaded exactly if each table that stands under an agent and a state makes a
-- pattern; whatever stands under other names, or is no table, is ignored.
pub load_overrides-ok_iff :
    (py : Builtins) (raw : Entries)
    → ((o : Overrides) × (load_overrides py raw [] ≡ ok o)) ↔ All (Makes py) (named py raw)
load_overrides-ok_iff py raw =
    rw (load_overrides-named py raw []) (store_all-ok_iff py (named py raw) [])

pattern_of-bracketed :
    (py : Builtins) (k : Key) (spec : Entries) (s : Str)
    → py.to_int (str (codes "[")) ≡ none
    → find (codes "led_rgb") spec ≡ some (str (b'[' ∷ s))
    → pattern_of py k spec ≡ err no_integer
unfolding pattern_of tuple_or iterated characters ints_of ints cons_int
pattern_of-bracketed py (agent, state) spec s refused color = rw (color, refused) refl

-- A color that is a text beginning with a bracket, as `save_mac` writes a list, stops the loading of
-- all overrides, wherever in the configuration its table stands, provided that `int("[")` raises.
pub load_overrides-bracketed :
    (py : Builtins) (raw : Entries) (xs ys : Named) (k : Key) (spec : Entries) (s : Str)
    → py.to_int (str (codes "[")) ≡ none
    → named py raw ≡ xs ++ (k, spec) ∷ ys
    → find (codes "led_rgb") spec ≡ some (str (b'[' ∷ s))
    → ¬ ((o : Overrides) × (load_overrides py raw [] ≡ ok o))
load_overrides-bracketed py raw xs ys k spec s refused stands color loads =
    let (p, made) =
      All-middle (Makes py) xs (k, spec) ys
        (subst (All (Makes py)) stands ((load_overrides-ok_iff py raw).0 loads)) in
    cc (made, pattern_of-bracketed py k spec s refused color)
