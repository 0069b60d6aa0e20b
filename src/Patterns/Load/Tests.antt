-- ===== src/Patterns/Load/Tests.antt =====
-- Overrides that are loaded, and the theorems at them.
use flipper_agent_indicator.Prelude.{
  ◌≡◌, refl, [], ◌∷◌, Option, none, some, ok, leb, ◌&&◌, ◌-◌, if◌then◌else◌,
}
use flipper_agent_indicator.Prelude.Int.{ℤ}
use flipper_agent_indicator.Text.{Str, codes}
use flipper_agent_indicator.Protocol.{claude, codex, needs_input, done}
use flipper_agent_indicator.Patterns
use flipper_agent_indicator.Patterns.{
  Overrides, insert, agent_color, state_vibra, default_label, agent_label, state_label,
}
use flipper_agent_indicator.Config.{
  Value, str, int, table, Entries, entry, no_entries, find, text_or, to_str,
}
use flipper_agent_indicator.Patterns.Load.{
  Builtins, load_overrides, load_agent, load_states, store, pattern_of, tuple_or, parse_agent,
  parse_state, underscored,
}
use flipper_agent_indicator.Patterns.Load.Named.{named}
use flipper_agent_indicator.Patterns.Load.Loaded.{
  Gives, specs_for, get-load_overrides, load_overrides-bracketed,
}

-- `str.upper` on ASCII.
abbrev upper : Str → Str
upper [] = []
upper (c ∷ cs) = (if leb 0x61 c && leb c 0x7A then c - 0x20 else c) ∷ upper cs

-- `int` on integers; the texts of these tests are no digits.
abbrev to_int : Value → Option ℤ
to_int (int z) = some z
to_int _ = none

abbrev py : Builtins
py = record { upper = upper; to_int = to_int; show = λ v. [] }

abbrev labelled : Str → Entries
labelled label = entry (codes "label") (str label) no_entries

-- Claude's needs-input twice, in two spellings, and an unknown agent.
abbrev twice : Entries
twice =
    entry (codes "Claude")
      (table (entry (codes "needs-input") (table (labelled (codes "a"))) no_entries))
      (entry (codes "mystery") (table no_entries) (
        entry (codes "CLAUDE")
          (table (entry (codes "NEEDS_INPUT") (table (labelled (codes "b"))) no_entries))
          no_entries))

abbrev loaded : Overrides
loaded =
    (
      (claude, needs_input),
      record {
        led_rgb = agent_color claude;
        vibra_sequence = state_vibra needs_input;
        label = codes "b";
      },
    )
    ∷ []

twice_loads : load_overrides py twice [] ≡ ok loaded
unfolding load_overrides load_agent load_states store pattern_of tuple_or parse_agent parse_state
    underscored find text_or to_str insert agent_color state_vibra
twice_loads = refl

get-load_overrides_example :
    Gives py
      (claude, needs_input)
      (specs_for (claude, needs_input) (named py twice))
      (Patterns.get loaded claude needs_input)
get-load_overrides_example = get-load_overrides py twice claude needs_input twice_loads

-- A list of colors, as a pairing has written it.
abbrev paired : Entries
paired = entry (codes "led_rgb") (str (codes "[1, 2, 3]")) no_entries

abbrev after_pairing : Entries
after_pairing =
    entry (codes "codex") (table (entry (codes "done") (table paired) no_entries)) no_entries

load_overrides-bracketed_example : ¬ ((o : Overrides) × (load_overrides py after_pairing [] ≡ ok o))
unfolding named parse_agent parse_state underscored find
load_overrides-bracketed_example =
    load_overrides-bracketed py after_pairing [] [] (codex, done) paired (codes "1, 2, 3]") refl
      refl refl
