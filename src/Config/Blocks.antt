-- ===== src/Config/Blocks.antt =====
-- The lines of a document that `save_mac` writes, read one after the other.
use flipper_agent_indicator.Prelude.{
  ◌≡◌, refl, sym, ap, ◌∙◌, true, &&-eq-true, List, [], ◌∷◌, ◌++◌, append_assoc, Option, none, some,
}
use flipper_agent_indicator.Text.{Str, codes}
use flipper_agent_indicator.Config.{
  Value, Entries, no_entries, entry, table, key_line, header, scalar_lines,
}
use flipper_agent_indicator.Config.Saved.{is_scalar_value}
use flipper_agent_indicator.Config.Documents.{
  is_bare, with_value, read_line, read_lines, as_read, values_of, scalars, tables, is_writable,
  are_tables, is_tidy, is_tidy_document, ReadsNumbers,
}
use flipper_agent_indicator.Config.Lines.{all_lines, block_lines}
use flipper_agent_indicator.Config.Reading.{key_line-read}
use flipper_agent_indicator.Config.Headers.{Names, Names-key, Names-inner, header-read}

abbrev pub FullValues : Type 0
FullValues = List (List Str × Value)

-- FullValues before those that are read.
abbrev pub front : FullValues → Option FullValues → Option FullValues
front vs none = none
front vs (some ws) = some (vs ++ ws)

front-append :
    (vs ws : FullValues) (o : Option FullValues) → front vs (front ws o) ≡ front (vs ++ ws) o
front-append vs ws none = refl
front-append vs ws (some us) = ap some (sym (append_assoc vs ws us))

with_value-front :
    (p : List Str) (v : Value) (o : Option FullValues) → with_value p v o ≡ front ((p, v) ∷ []) o
unfolding with_value
with_value-front p v none = refl
with_value-front p v (some vs) = refl

front-nil : (o : Option FullValues) → o ≡ front [] o
front-nil none = refl
front-nil (some vs) = refl

module _ (show : Value → Str) (number : Str → Option Value) (laws : ReadsNumbers show number) where
  pub read_blank :
      (path : List Str) (ls : List Str)
      → read_lines number path ([] ∷ ls) ≡ read_lines number path ls
  unfolding read_lines read_line
  read_blank path ls = refl

  read-header :
      (path : List Str) (name : Str) (inner : List Str) (ls : List Str)
      → Names name inner
      → read_lines number path (header name ∷ ls) ≡ read_lines number inner ls
  unfolding read_lines
  read-header path name inner ls n = rw (header-read number name inner n, read_lines) refl

  read-entry :
      (path : List Str) (k : Str) (v : Value) (ls : List Str)
      → is_scalar_value v ≡ true
      → is_bare k ≡ true
      → is_writable show v ≡ true
      → read_lines number path (key_line show k v ∷ ls)
        ≡ front ((path ++ k ∷ [], as_read show v) ∷ []) (read_lines number path ls)
  unfolding read_lines
  read-entry path k v ls s b w =
      rw (key_line-read show number laws k v s b w, read_lines)
        (with_value-front (path ++ k ∷ []) (as_read show v) (read_lines number path ls))

  -- Lines that say the same behind every header.
  abbrev IsFree : List Str → Type 0
  IsFree ls = (p q : List Str) → read_lines number p ls ≡ read_lines number q ls

  all_lines-IsFree :
      (name : Str) (path : List Str)
      → Names name path
      → (t : Entries) → are_tables t ≡ true
      → is_tidy show t ≡ true
      → (rest : List Str) → IsFree rest
      → IsFree (all_lines show name t ++ rest)
  unfolding all_lines is_tidy
  all_lines-IsFree name path n no_entries a h rest free = free
  all_lines-IsFree name path n (entry k (table t) more) a h rest free =
      let named = Names-inner name path k n (&&-eq-true (is_bare k) _ h).0 in
      λ p q.
        read-header p _ (path ++ k ∷ []) _ named ∙ sym (read-header q _ (path ++ k ∷ []) _ named)
  all_lines-IsFree name path n (entry k v more) a h rest free = cc

  -- The lines of a table behind its header.
  read-all_lines :
      (name : Str) (path : List Str)
      → Names name path
      → (t : Entries) → is_tidy show t ≡ true
      → (rest : List Str) → IsFree rest
      → read_lines number path (all_lines show name t ++ rest)
        ≡ front (values_of show path t) (read_lines number path rest)
  unfolding all_lines is_tidy values_of
  read-all_lines name path n no_entries h rest free = front-nil (read_lines number path rest)
  read-all_lines name path n (entry k (table t) more) h rest free =
      let (b, h1) = &&-eq-true (is_bare k) _ h in
      let (tidy, h2) = &&-eq-true (is_tidy show t) _ h1 in
      let (a, tidier) = &&-eq-true (are_tables more) (is_tidy show more) h2 in
      let inner = name ++ (codes "." ++ k) in
      let named = Names-inner name path k n b in
      let behind_it = all_lines show name more ++ rest in
      let behind-IsFree = all_lines-IsFree name path n more a tidier rest free in
      read-header path inner (path ++ k ∷ []) _ named
      ∙ ap (read_lines number (path ++ k ∷ []))
          (append_assoc (all_lines show inner t) (all_lines show name more) rest)
      ∙ read-all_lines inner (path ++ k ∷ []) named t tidy behind_it behind-IsFree
      ∙ ap (front (values_of show (path ++ k ∷ []) t))
          (behind-IsFree (path ++ k ∷ []) path ∙ read-all_lines name path n more tidier rest free)
      ∙ front-append (values_of show (path ++ k ∷ []) t) (values_of show path more)
          (read_lines number path rest)
  read-all_lines name path n (entry k v more) h rest free =
      let (b, h1) = &&-eq-true (is_bare k) _ h in
      let (w, tidy) = &&-eq-true (is_writable show v) (is_tidy show more) h1 in
      read-entry path k v (all_lines show name more ++ rest) refl b w
      ∙ ap (front ((path ++ k ∷ [], as_read show v) ∷ []))
          (read-all_lines name path n more tidy rest free)
      ∙ front-append ((path ++ k ∷ [], as_read show v) ∷ []) (values_of show path more)
          (read_lines number path rest)

  -- The tables of a document, before lines that say nothing.
  pub read-block_lines :
      (t : Entries)
      → is_tidy_document show t ≡ true
      → (rest : List Str) → ((path : List Str) → read_lines number path rest ≡ some [])
      → (path : List Str)
      → read_lines number path (block_lines show t ++ rest) ≡ some (values_of show [] (tables t))
  unfolding block_lines is_tidy_document values_of tables
  read-block_lines no_entries h rest ends path = ends path
  read-block_lines (entry k (table t) more) h rest ends path =
      let (b, h1) = &&-eq-true (is_bare k) _ h in
      let (tidy, tidier) = &&-eq-true (is_tidy show t) (is_tidy_document show more) h1 in
      let named = Names-key k b in
      let later = read-block_lines more tidier rest ends in
      read_blank path _
      ∙ read-header path k (k ∷ []) _ named
      ∙ ap (read_lines number (k ∷ []))
          (append_assoc (all_lines show k t) (block_lines show more) rest)
      ∙ read-all_lines k (k ∷ []) named t tidy (block_lines show more ++ rest)
          (λ p q. later p ∙ sym (later q))
      ∙ ap (front (values_of show (k ∷ []) t)) (later (k ∷ []))
  read-block_lines (entry k v more) h rest ends path =
      let (b, h1) = &&-eq-true (is_bare k) _ h in
      read-block_lines more ((&&-eq-true (is_writable show v) (is_tidy_document show more) h1).1)
        rest ends path

  -- The other entries, which stand before the tables.
  pub read-scalar_lines :
      (t : Entries)
      → is_tidy_document show t ≡ true
      → (rest : List Str)
      → read_lines number [] (scalar_lines show t ++ rest)
        ≡ front (values_of show [] (scalars t)) (read_lines number [] rest)
  unfolding scalar_lines is_tidy_document values_of scalars
  read-scalar_lines no_entries h rest = front-nil (read_lines number [] rest)
  read-scalar_lines (entry k (table t) more) h rest =
      let (b, h1) = &&-eq-true (is_bare k) _ h in
      read-scalar_lines more ((&&-eq-true (is_tidy show t) (is_tidy_document show more) h1).1) rest
  read-scalar_lines (entry k v more) h rest =
      let (b, h1) = &&-eq-true (is_bare k) _ h in
      let (w, tidy) = &&-eq-true (is_writable show v) (is_tidy_document show more) h1 in
      read-entry [] k v (scalar_lines show more ++ rest) refl b w
      ∙ ap (front ((k ∷ [], as_read show v) ∷ [])) (read-scalar_lines more tidy rest)
      ∙ front-append ((k ∷ [], as_read show v) ∷ []) (values_of show [] (scalars more))
          (read_lines number [] rest)
