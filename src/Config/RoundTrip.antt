-- ===== src/Config/RoundTrip.antt =====
-- The documents that `save_mac` writes say what they were made of.
use flipper_agent_indicator.Prelude.{
  ◌≡◌, refl, ap, ◌∙◌, Bool-cases, inl, inr, Bool, true, false, &&-eq-true, List, [], ◌∷◌, ◌++◌,
  append_assoc, Option, some, all, All, All-append,
}
use flipper_agent_indicator.Text.{Str, codes, contains, eq_str}
use flipper_agent_indicator.Config.{
  Value, Entries, no_entries, entry, str, table, scalar_lines, set, updated, save_mac,
}
use flipper_agent_indicator.Config.Quoted.{is_plain}
use flipper_agent_indicator.Config.Documents.{
  document_values, is_bare, is_bare_char, read_line, read_lines, read_document, values_of, scalars,
  is_writable, are_tables, is_tidy, is_tidy_document, ReadsNumbers,
}
use flipper_agent_indicator.Config.Lines.{
  behind, newline, IsPiece, split-behind, all_lines, block_lines, first_line, later_lines, later_of,
  closing, save_mac-lines,
}
use flipper_agent_indicator.Config.Reading.{key_line-one_line}
use flipper_agent_indicator.Config.Headers.{Names, Names-key, Names-inner, header-one_line}
use flipper_agent_indicator.Config.Blocks.{front, read_blank, read-block_lines, read-scalar_lines}

IsPiece-nil : IsPiece b'\n' []
unfolding contains
IsPiece-nil = refl

module _ (show : Value → Str) (number : Str → Option Value) (laws : ReadsNumbers show number) where
  -- Every line is one line.
  all_lines-one_line :
      (name : Str) (path : List Str)
      → Names name path
      → (t : Entries) → is_tidy show t ≡ true
      → All (IsPiece b'\n') (all_lines show name t)
  unfolding all_lines is_tidy
  all_lines-one_line name path n no_entries h = tt
  all_lines-one_line name path n (entry k (table t) more) h =
      let (b, h1) = &&-eq-true (is_bare k) _ h in
      let (tidy, h2) = &&-eq-true (is_tidy show t) _ h1 in
      let inner = name ++ (codes "." ++ k) in
      let named = Names-inner name path k n b in
      (
        header-one_line inner (path ++ k ∷ []) named,
        All-append (IsPiece b'\n') (all_lines show inner t) (all_lines show name more)
            (all_lines-one_line inner (path ++ k ∷ []) named t tidy)
            (all_lines-one_line name path n more
              ((&&-eq-true (are_tables more) (is_tidy show more) h2).1)),
      )
  all_lines-one_line name path n (entry k v more) h =
      let (b, h1) = &&-eq-true (is_bare k) _ h in
      let (w, tidy) = &&-eq-true (is_writable show v) (is_tidy show more) h1 in
      (key_line-one_line show number laws k v refl b w, all_lines-one_line name path n more tidy)

  block_lines-one_line :
      (t : Entries) → is_tidy_document show t ≡ true → All (IsPiece b'\n') (block_lines show t)
  unfolding block_lines is_tidy_document
  block_lines-one_line no_entries h = tt
  block_lines-one_line (entry k (table t) more) h =
      let (b, h1) = &&-eq-true (is_bare k) _ h in
      let (tidy, tidier) = &&-eq-true (is_tidy show t) (is_tidy_document show more) h1 in
      let named = Names-key k b in
      (
        IsPiece-nil,
        (
          header-one_line k (k ∷ []) named,
          All-append (IsPiece b'\n') (all_lines show k t) (block_lines show more)
              (all_lines-one_line k (k ∷ []) named t tidy) (block_lines-one_line more tidier),
        ),
      )
  block_lines-one_line (entry k v more) h =
      let (b, h1) = &&-eq-true (is_bare k) _ h in
      block_lines-one_line more
        ((&&-eq-true (is_writable show v) (is_tidy_document show more) h1).1)

  scalar_lines-one_line :
      (t : Entries) → is_tidy_document show t ≡ true → All (IsPiece b'\n') (scalar_lines show t)
  unfolding scalar_lines is_tidy_document
  scalar_lines-one_line no_entries h = tt
  scalar_lines-one_line (entry k (table t) more) h =
      let (b, h1) = &&-eq-true (is_bare k) _ h in
      scalar_lines-one_line more ((&&-eq-true (is_tidy show t) (is_tidy_document show more) h1).1)
  scalar_lines-one_line (entry k v more) h =
      let (b, h1) = &&-eq-true (is_bare k) _ h in
      let (w, tidy) = &&-eq-true (is_writable show v) (is_tidy_document show more) h1 in
      (key_line-one_line show number laws k v refl b w, scalar_lines-one_line more tidy)

  read-closing : (b : Bool) (path : List Str) → read_lines number path (closing b) ≡ some []
  unfolding read_lines read_line
  read-closing true path = refl
  read-closing false path = refl

  -- The first line is empty where there are no entries before the tables.
  read-first_line :
      (ls rest : List Str)
      → read_lines number [] (first_line ls ∷ (later_lines ls ++ rest))
        ≡ read_lines number [] (ls ++ rest)
  read-first_line [] rest = read_blank show number laws [] rest
  read-first_line (l ∷ ls) rest = refl

  first-one_line : (ls : List Str) → All (IsPiece b'\n') ls → IsPiece b'\n' (first_line ls)
  first-one_line [] h = IsPiece-nil
  first-one_line (l ∷ ls) h = h.0

  later-one_line : (ls : List Str) → All (IsPiece b'\n') ls → All (IsPiece b'\n') (later_lines ls)
  later-one_line [] h = tt
  later-one_line (l ∷ ls) h = h.1

  closing-one_line : (b : Bool) → All (IsPiece b'\n') (closing b)
  closing-one_line true = tt
  closing-one_line false = (IsPiece-nil, tt)

  -- The text of all lines is read as the values.
  read-lines :
      (t : Entries) (b : Bool)
      → is_tidy_document show t ≡ true
      → read_document number
          (first_line (scalar_lines show t) ++ behind newline (later_of show t ++ closing b))
        ≡ some (document_values show t)
  unfolding read_document
  read-lines t b h =
      let ls = scalar_lines show t in
      let one_line = scalar_lines-one_line t h in
      ap (read_lines number []) (
        split-behind b'\n' (first_line ls) (later_of show t ++ closing b)
          (first-one_line ls one_line)
          (All-append (IsPiece b'\n') (later_of show t) (closing b)
            (All-append (IsPiece b'\n') (later_lines ls) (block_lines show t)
              (later-one_line ls one_line) (block_lines-one_line t h))
            (closing-one_line b)))
      ∙ ap (λ ms. read_lines number [] (first_line ls ∷ ms))
          (append_assoc (later_lines ls) (block_lines show t) (closing b))
      ∙ read-first_line ls (block_lines show t ++ closing b)
      ∙ read-scalar_lines show number laws t h (block_lines show t ++ closing b)
      ∙ ap (front (values_of show [] (scalars t)))
          (read-block_lines show number laws t h (closing b) (read-closing b) [])

  set-tidy :
      (key s : Str)
      → is_bare key ≡ true
      → all is_plain s ≡ true
      → (t : Entries) → is_tidy_document show t ≡ true
      → is_tidy_document show (set key (str s) t) ≡ true
  unfolding set is_tidy_document is_writable
  set-tidy key s b p no_entries h = rw (b, p) refl
  set-tidy key s b p (entry k (table t) more) h =
      let (bare, h1) = &&-eq-true (is_bare k) _ h in
      let (tidy, tidier) = &&-eq-true (is_tidy show t) (is_tidy_document show more) h1 in
      elim (Bool-cases (eq_str k key)) [
        | inl e ↦ rw (e, bare, p) tidier
        | inr e ↦ rw (e, bare, tidy) (set-tidy key s b p more tidier)
      ]
  set-tidy key s b p (entry k v more) h =
      let (bare, h1) = &&-eq-true (is_bare k) _ h in
      let (w, tidy) = &&-eq-true (is_writable show v) (is_tidy_document show more) h1 in
      elim (Bool-cases (eq_str k key)) [
        | inl e ↦ rw (e, bare, p) tidy
        | inr e ↦ rw (e, bare, w) (set-tidy key s b p more tidy)
      ]

  -- Read by the rules of TOML, the document that `save_mac` writes says what was stored before, with the
  -- new address: each value with its full key, first those outside of all tables, dates and arrays as
  -- texts. The address and the texts hold no control characters but tabs, the integers have 64 bits and no
  -- float is a NaN, keys need no quotes, and in each table the sub-tables stand behind the other entries.
  pub read_document-save_mac :
      (mac : Str) (existing : Entries)
      → all is_plain mac ≡ true
      → is_tidy_document show existing ≡ true
      → read_document number (save_mac show mac existing)
        ≡ some (document_values show (updated mac existing))
  unfolding updated is_bare is_bare_char
  read_document-save_mac mac existing p h =
      let (b, written) = save_mac-lines show mac existing in
      ap (read_document number) written
      ∙ read-lines (updated mac existing) b (set-tidy (codes "flipper_mac") mac refl p existing h)
