-- ===== src/Config/Headers.antt =====
-- The headers of tables that config.py writes, as the reader of documents reads them.
use flipper_agent_indicator.Prelude.{
  ℕ, ◌≡◌, refl, ap, ◌∙◌, Bool-cases, inl, inr, Bool, true, false, ◌||◌, &&-eq-true, List, [], ◌∷◌,
  ◌++◌, Option, some, ◌==◌, ==_refl, all, all-append,
}
use flipper_agent_indicator.Text.{Str, codes, contains}
use flipper_agent_indicator.Text.Laws.{before-append, after-append}
use flipper_agent_indicator.Config.{Value, header}
use flipper_agent_indicator.Config.Documents.{
  onto, split, is_bare, is_bare_char, table_line, read_header, read_line,
}
use flipper_agent_indicator.Config.Lines.{split-word}
use flipper_agent_indicator.Config.Reading.{all-contains, bare-chars, has_none}

-- The characters of a dotted name.
abbrev is_name_char : ℕ → Bool
is_name_char c = is_bare_char c || c == b'.'

-- A name that stands for some keys, none of which needs quotes.
pub record Names (name : Str) (path : List Str) : Type 0 where
  pub splits : split b'.' name ≡ path
  pub chars : all is_name_char name ≡ true
  pub bare : all is_bare path ≡ true

split-pieces : (sep : ℕ) (s : Str) → (w : Str) × (ws : List Str) × (split sep s ≡ w ∷ ws)
unfolding split onto
split-pieces sep [] = ([], [], refl)
split-pieces sep (c ∷ cs) =
    let (w, ws, e) = split-pieces sep cs in
    elim (Bool-cases (c == sep)) [
      | inl h ↦ ([], split sep cs, rw h refl)
      | inr h ↦ (c ∷ w, ws, rw (h, e) refl)
    ]

onto-append :
    (c : ℕ) (ws vs : List Str) {w : Str} {us : List Str}
    → ws ≡ w ∷ us
    → onto c (ws ++ vs) ≡ onto c ws ++ vs
unfolding onto
onto-append c ws vs h = rw h refl

-- A last piece.
split-last :
    (sep : ℕ) (s k : Str)
    → contains sep k ≡ false
    → split sep (s ++ sep ∷ k) ≡ split sep s ++ k ∷ []
unfolding split
split-last sep [] k h = rw (==_refl sep, split-word sep k h) refl
split-last sep (c ∷ cs) k h = elim (Bool-cases (c == sep)) [
  | inl e ↦ rw (e, split-last sep cs k h) refl
  | inr e ↦
      rw (e, split-last sep cs k h) (onto-append c (split sep cs) (k ∷ []) (split-pieces sep cs).2)
]

bare-name : (k : Str) → all is_bare_char k ≡ true → all is_name_char k ≡ true
bare-name [] h = refl
bare-name (c ∷ cs) h =
    let (here, later) = &&-eq-true (is_bare_char c) (all is_bare_char cs) h in
    rw (here, bare-name cs later) refl

bare-no_dot : (k : Str) → is_bare k ≡ true → contains b'.' k ≡ false
unfolding is_bare_char
bare-no_dot k b = all-contains is_bare_char b'.' refl k (bare-chars k b)

pub Names-key : (k : Str) → is_bare k ≡ true → Names k (k ∷ [])
Names-key k b = record {
  splits = split-word b'.' k (bare-no_dot k b);
  chars = bare-name k (bare-chars k b);
  bare = rw b refl;
}

-- The name of a table inside.
pub Names-inner :
    (name : Str) (path : List Str) (k : Str)
    → Names name path
    → is_bare k ≡ true
    → Names (name ++ (codes "." ++ k)) (path ++ k ∷ [])
unfolding is_bare_char
Names-inner name path k n b = record {
  splits = split-last b'.' name k (bare-no_dot k b) ∙ ap (λ ws. ws ++ k ∷ []) (n.splits);
  chars =
      all-append is_name_char name (codes "." ++ k)
      ∙ rw (n.chars, bare-name k (bare-chars k b)) refl;
  bare = all-append is_bare path (k ∷ []) ∙ rw (n.bare, b) refl;
}

pub header-one_line :
    (name : Str) (path : List Str) → Names name path → contains b'\n' (header name) ≡ false
unfolding header contains is_bare_char
header-one_line name path n =
    has_none b'\n' name (codes "]") (all-contains is_name_char b'\n' refl name n.chars) refl

-- A header is read back as its keys.
pub header-read :
    (number : Str → Option Value) (name : Str) (path : List Str)
    → Names name path
    → read_line number (header name) ≡ some (table_line path)
unfolding header read_line read_header is_bare_char
header-read number name path n =
    let no_end = all-contains is_name_char b']' refl name n.chars in
    rw (before-append b']' name [] no_end, after-append b']' name [] no_end, n.splits, n.bare) refl
