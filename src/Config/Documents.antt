-- ===== src/Config/Documents.antt =====
-- What a TOML document of the forms that config.py writes says, by the rules of TOML: each value with
-- its full key. Tables without values and the order of the tables among each other are not told apart,
-- and a key that is given twice is not refused. `number` reads an integer or a float.
use flipper_agent_indicator.Prelude.{
  ltb, ◌^◌, ◌*◌, ◌%◌, ℕ, Bool, true, false, not, ◌&&◌, ◌||◌, List, [], ◌∷◌, ◌++◌, Option, none,
  some, leb, ◌==◌, ◌≡◌, if◌then◌else◌, all,
}
use flipper_agent_indicator.Prelude.Int.{pos, negsuc}
use flipper_agent_indicator.Text.{Str, codes, eq_str, is_empty, before, after}
use flipper_agent_indicator.Config.{
  Value, str, bool, int, float, moment, array, table, Entries, no_entries, entry,
}
use flipper_agent_indicator.Config.Quoted.{read_quoted, is_plain}

-- The pieces of a text between separators.
unfoldable pub onto : ℕ → List Str → List Str
onto c [] = (c ∷ []) ∷ []
onto c (w ∷ ws) = (c ∷ w) ∷ ws

unfoldable pub split : ℕ → Str → List Str
unfolding onto
split sep [] = [] ∷ []
split sep (c ∷ cs) = let rest = split sep cs in if c == sep then [] ∷ rest else onto c rest

-- A key without quotes: letters, digits, underscores and dashes.
unfoldable pub is_bare_char : ℕ → Bool
is_bare_char c =
    (leb b'a' c && leb c b'z')
    || (leb b'A' c && leb c b'Z')
    || (leb b'0' c && leb c b'9')
    || c == b'_'
    || c == b'-'

unfoldable pub is_bare : Str → Bool
unfolding is_bare_char
is_bare k = not (is_empty k) && all is_bare_char k

pub data Line : Type 0 where
  blank_line : Line
  table_line : List Str → Line
  value_line : Str → Value → Line

-- A basic string, up to its end.
unfoldable pub whole : Option (Str × Str) → Option Value
whole none = none
whole (some (s, rest)) = if is_empty rest then some (str s) else none

unfoldable pub begins_quoted : Str → Bool
begins_quoted [] = false
begins_quoted (c ∷ cs) = c == b'"'

-- A value behind its key and an equals sign.
unfoldable pub valued : Str → Option Value → Option Line
valued k none = none
valued k (some v) = if is_bare k then some (value_line k v) else none

-- A header behind its opening bracket.
unfoldable pub read_header : Str → Option Line
unfolding split
read_header cs =
    let names = split b'.' (before b']' cs) in
    if is_empty (after b']' cs) && all is_bare names then some (table_line names) else none

-- A value with its full key, before others.
unfoldable pub with_value :
    List Str → Value → Option (List (List Str × Value)) → Option (List (List Str × Value))
with_value path v none = none
with_value path v (some vs) = some ((path, v) ∷ vs)

module _ (number : Str → Option Value) where
  unfoldable pub read_value : Str → Option Value
  unfolding whole begins_quoted
  read_value s =
      if begins_quoted s
      then whole (read_quoted s)
      else if eq_str s (codes "true")
      then some (bool true)
      else if eq_str s (codes "false")
      then some (bool false)
      else number s

  unfoldable pub read_assigned : Str → Str → Option Line
  unfolding valued read_value
  read_assigned k (c ∷ d ∷ cs) = if c == b'=' && d == b' ' then valued k (read_value cs) else none
  read_assigned k _ = none

  unfoldable pub read_line : Str → Option Line
  unfolding read_header read_assigned
  read_line [] = some blank_line
  read_line (c ∷ cs) =
      if c == b'['
      then read_header cs
      else read_assigned (before b' ' (c ∷ cs)) (after b' ' (c ∷ cs))

  -- The lines behind a header, whose keys are the path.
  unfoldable pub read_lines : List Str → List Str → Option (List (List Str × Value))
  unfolding read_line with_value
  read_lines path [] = some []
  read_lines path (l ∷ ls) = elim (read_line l) [
    | none ↦ none
    | some line ↦ elim line [
      | blank_line ↦ read_lines path ls
      | table_line names ↦ read_lines names ls
      | value_line k v ↦ with_value (path ++ k ∷ []) v (read_lines path ls)
    ]
  ]

  unfoldable pub read_document : Str → Option (List (List Str × Value))
  unfolding read_lines split
  read_document s = read_lines [] (split b'\n' s)

-- The value that a written value is read as: arrays and dates come back as texts.
unfoldable pub as_read : (Value → Str) → Value → Value
as_read show (moment s) = str (show (moment s))
as_read show (array vs) = str (show (array vs))
as_read show v = v

-- The values of some entries, with their full keys.
unfoldable pub values_of : (Value → Str) → List Str → Entries → List (List Str × Value)
unfolding as_read
values_of show path no_entries = []
values_of show path (entry k (table t) rest) =
    values_of show (path ++ k ∷ []) t ++ values_of show path rest
values_of show path (entry k v rest) = (path ++ k ∷ [], as_read show v) ∷ values_of show path rest

-- The entries that are no tables, and those that are.
unfoldable pub scalars : Entries → Entries
scalars no_entries = no_entries
scalars (entry k (table t) rest) = scalars rest
scalars (entry k v rest) = entry k v (scalars rest)

unfoldable pub tables : Entries → Entries
tables no_entries = no_entries
tables (entry k (table t) rest) = entry k (table t) (tables rest)
tables (entry k v rest) = tables rest

-- What a document of some entries says: those that no table holds, then the tables.
abbrev pub document_values : (Value → Str) → Entries → List (List Str × Value)
document_values show t = values_of show [] (scalars t) ++ values_of show [] (tables t)

-- An integer of 64 bits, or a float that is no NaN: each NaN has the same text, though their bits
-- differ.
abbrev pub is_number : Value → Bool
is_number (int (pos n)) = ltb n (2 ^ 63)
is_number (int (negsuc n)) = ltb n (2 ^ 63)
is_number (float bits) = ltb bits (2 ^ 64) && leb (bits % 2 ^ 63) (2047 * 2 ^ 52)
is_number _ = false

-- A value without a control character in its text, or such a number.
unfoldable pub is_writable : (Value → Str) → Value → Bool
is_writable show (str s) = all is_plain s
is_writable show (moment s) = all is_plain (show (moment s))
is_writable show (array vs) = all is_plain (show (array vs))
is_writable show (int z) = is_number (int z)
is_writable show (float bits) = is_number (float bits)
is_writable show v = true

abbrev pub are_tables : Entries → Bool
are_tables no_entries = true
are_tables (entry k (table t) rest) = are_tables rest
are_tables (entry k v rest) = false

-- A table whose keys need no quotes, and whose sub-tables stand behind its other entries.
unfoldable pub is_tidy : (Value → Str) → Entries → Bool
unfolding is_writable is_bare
is_tidy show no_entries = true
is_tidy show (entry k (table t) rest) =
    is_bare k && (is_tidy show t && (are_tables rest && is_tidy show rest))
is_tidy show (entry k v rest) = is_bare k && (is_writable show v && is_tidy show rest)

-- A document of such tables; their place among the other entries is free.
unfoldable pub is_tidy_document : (Value → Str) → Entries → Bool
unfolding is_tidy
is_tidy_document show no_entries = true
is_tidy_document show (entry k (table t) rest) =
    is_bare k && (is_tidy show t && is_tidy_document show rest)
is_tidy_document show (entry k v rest) =
    is_bare k && (is_writable show v && is_tidy_document show rest)

-- The characters of an integer or a float, `inf` and `nan` included.
unfoldable pub is_number_char : ℕ → Bool
is_number_char c =
    (leb b'0' c && leb c b'9')
    || c == b'+'
    || c == b'-'
    || c == b'.'
    || c == b'e'
    || c == b'i'
    || c == b'n'
    || c == b'f'
    || c == b'a'

-- What is relied on of `str` and of the reader on the numbers above: the one writes such characters, which
-- the other reads as the number.
pub record ReadsNumbers (show : Value → Str) (number : Str → Option Value) : Type 0 where
  pub has_chars : (v : Value) → is_number v ≡ true → all is_number_char (show v) ≡ true
  pub reads : (v : Value) → is_number v ≡ true → number (show v) ≡ some v
