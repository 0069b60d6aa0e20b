-- ===== src/Config/Reading.antt =====
-- The lines that config.py writes, as the reader of documents reads them.
use flipper_agent_indicator.Prelude.{
  ℕ, ◌≡◌, refl, sym, ap, ◌∙◌, Bool-cases, inl, inr, Bool, true, false, not, ◌||◌, &&-eq-true, [],
  ◌∷◌, ◌++◌, append-nil, Option, some, ◌==◌, ==_iff, all,
}
use flipper_agent_indicator.Text.{Str, codes, contains, eq_str, is_empty}
use flipper_agent_indicator.Text.Laws.{before-append, after-append, eq_str_iff}
use flipper_agent_indicator.Config.{
  Value, str, bool, int, float, moment, array, table, key_line, format_toml_value, to_str,
}
use flipper_agent_indicator.Config.Quoted.{
  is_plain, is_quoted, body, format-quoted, read-format_toml_value, read_quoted,
}
use flipper_agent_indicator.Config.Saved.{is_scalar_value}
use flipper_agent_indicator.Config.Documents.{
  is_bare, is_bare_char, value_line, whole, begins_quoted, read_value, valued, read_assigned,
  read_line, as_read, is_writable, is_number_char, is_number, ReadsNumbers,
}

-- A text of such characters has no other one.
pub all-contains :
    (p : ℕ → Bool) (sep : ℕ) → p sep ≡ false → (s : Str) → all p s ≡ true → contains sep s ≡ false
unfolding contains
all-contains p sep h [] a = refl
all-contains p sep h (c ∷ cs) a =
    let (here, later) = &&-eq-true (p c) (all p cs) a in
    elim (Bool-cases (c == sep)) [
      | inl e ↦ cc (rw ((==_iff c sep).0 e) at here, h)
      | inr e ↦ rw (e, all-contains p sep h cs later) refl
    ]

contains-append : (sep : ℕ) (s t : Str) → contains sep (s ++ t) ≡ (contains sep s || contains sep t)
unfolding contains
contains-append sep [] t = refl
contains-append sep (c ∷ cs) t = elim (Bool-cases (c == sep)) [
  | inl e ↦ rw e refl
  | inr e ↦ rw e (contains-append sep cs t)
]

first-ne : (sep c : ℕ) (cs : Str) → contains sep (c ∷ cs) ≡ false → (c == sep) ≡ false
unfolding contains
first-ne sep c cs h = elim (Bool-cases (c == sep)) [ inl e ↦ cc (rw e at h) | inr e ↦ e ]

pub has_none :
    (sep : ℕ) (s t : Str)
    → contains sep s ≡ false
    → contains sep t ≡ false
    → contains sep (s ++ t) ≡ false
has_none sep s t h k = rw (contains-append sep s t, h) k

-- Keys without quotes.
pub bare-chars : (k : Str) → is_bare k ≡ true → all is_bare_char k ≡ true
unfolding is_bare
bare-chars k h = (&&-eq-true (not (is_empty k)) (all is_bare_char k) h).1

pub bare-one_line : (k : Str) → is_bare k ≡ true → contains b'\n' k ≡ false
unfolding is_bare_char
bare-one_line k h = all-contains is_bare_char b'\n' refl k (bare-chars k h)

-- The text between quotes is on one line.
body-one_line : (s : Str) → all is_plain s ≡ true → contains b'\n' (body s) ≡ false
unfolding contains body
body-one_line [] h = refl
body-one_line (c ∷ cs) h =
    let (here, later) = &&-eq-true (is_plain c) (all is_plain cs) h in
    let rest : contains b'\n' (body cs) ≡ false = body-one_line cs later in
    elim (Bool-cases (c == b'"')) [
      | inl q ↦ rw q rest
      | inr q ↦ elim (Bool-cases (c == b'\\')) [
        | inl e ↦ rw (q, e) rest
        | inr e ↦ elim (Bool-cases (c == b'\n')) [
          | inl n ↦ cc (rw ((==_iff c b'\n').0 n) at here)
          | inr n ↦ rw (q, e, n) rest
        ]
      ]
    ]

quoted_line :
    (s : Str) → all is_plain s ≡ true → contains b'\n' (b'"' ∷ (body s ++ b'"' ∷ [])) ≡ false
unfolding contains
quoted_line s h = has_none b'\n' (body s) (b'"' ∷ []) (body-one_line s h) refl

-- Numbers are neither texts nor Booleans.
number-not_quoted : (s : Str) → all is_number_char s ≡ true → begins_quoted s ≡ false
unfolding begins_quoted is_number_char
number-not_quoted [] h = refl
number-not_quoted (c ∷ cs) h = elim (Bool-cases (c == b'"')) [
  | inl e ↦
      cc (rw ((==_iff c b'"').0 e) at ((&&-eq-true (is_number_char c) (all is_number_char cs) h).0))
  | inr e ↦ e
]

number-not_word :
    (s word : Str)
    → all is_number_char word ≡ false
    → all is_number_char s ≡ true
    → eq_str s word ≡ false
number-not_word s word f h = elim (Bool-cases (eq_str s word)) [
  | inl e ↦ cc (rw ((eq_str_iff s word).0 e) at h, f)
  | inr e ↦ e
]

module _ (show : Value → Str) (number : Str → Option Value) (laws : ReadsNumbers show number) where
  quoted-one_line :
      (v : Value)
      → is_quoted v ≡ true
      → all is_plain (to_str show v) ≡ true
      → contains b'\n' (format_toml_value show v) ≡ false
  quoted-one_line v q h = rw (format-quoted show v q) (quoted_line (to_str show v) h)

  format-one_line :
      (v : Value)
      → is_scalar_value v ≡ true
      → is_writable show v ≡ true
      → contains b'\n' (format_toml_value show v) ≡ false
  unfolding is_writable format_toml_value to_str contains is_number_char
  format-one_line (str s) k h = quoted-one_line (str s) refl h
  format-one_line (moment s) k h = quoted-one_line (moment s) refl h
  format-one_line (array vs) k h = quoted-one_line (array vs) refl h
  format-one_line (int z) k h =
      all-contains is_number_char b'\n' refl (show (int z)) (laws.has_chars (int z) h)
  format-one_line (float bits) k h =
      all-contains is_number_char b'\n' refl (show (float bits)) (laws.has_chars (float bits) h)
  format-one_line (bool true) k h = refl
  format-one_line (bool false) k h = refl
  format-one_line (table t) k h = cc

  quoted-read :
      (v : Value)
      → is_quoted v ≡ true
      → all is_plain (to_str show v) ≡ true
      → read_value number (format_toml_value show v) ≡ some (str (to_str show v))
  unfolding read_value begins_quoted whole
  quoted-read v q h =
      let shown = format_toml_value show v in
      let begins : begins_quoted shown ≡ true = rw (format-quoted show v q) refl in
      let reads : read_quoted shown ≡ some (to_str show v, []) =
        ap read_quoted (sym (append-nil shown)) ∙ rw (read-format_toml_value show v [] q, h) refl in
      rw (begins, reads) refl

  number-read : (v : Value) → is_number v ≡ true → read_value number (show v) ≡ some v
  unfolding read_value is_number_char
  number-read v n =
      let chars = laws.has_chars v n in
      rw
        (
          number-not_quoted (show v) chars,
          number-not_word (show v) (codes "true") refl chars,
          number-not_word (show v) (codes "false") refl chars,
        )
        (laws.reads v n)

  -- A written value is read back.
  format-read :
      (v : Value)
      → is_scalar_value v ≡ true
      → is_writable show v ≡ true
      → read_value number (format_toml_value show v) ≡ some (as_read show v)
  unfolding is_writable as_read format_toml_value to_str read_value begins_quoted
  format-read (str s) k h = quoted-read (str s) refl h
  format-read (moment s) k h = quoted-read (moment s) refl h
  format-read (array vs) k h = quoted-read (array vs) refl h
  format-read (int z) k h = number-read (int z) h
  format-read (float bits) k h = number-read (float bits) h
  format-read (bool true) k h = refl
  format-read (bool false) k h = refl
  format-read (table t) k h = cc

  pub key_line-one_line :
      (k : Str) (v : Value)
      → is_scalar_value v ≡ true
      → is_bare k ≡ true
      → is_writable show v ≡ true
      → contains b'\n' (key_line show k v) ≡ false
  unfolding key_line contains
  key_line-one_line k v s b w =
      has_none b'\n' k (codes " = " ++ format_toml_value show v) (bare-one_line k b)
        (format-one_line v s w)

  assigned :
      (k : Str)
      → is_bare k ≡ true
      → (t : Str) → read_line number (k ++ b' ' ∷ t) ≡ read_assigned number k t
  unfolding read_line is_bare is_bare_char
  assigned [] b t = cc
  assigned (c ∷ cs) b t =
      let chars = bare-chars (c ∷ cs) b in
      let no_space = all-contains is_bare_char b' ' refl (c ∷ cs) chars in
      let no_bracket : (c == b'[') ≡ false =
        first-ne b'[' c cs (all-contains is_bare_char b'[' refl (c ∷ cs) chars) in
      rw (no_bracket, before-append b' ' (c ∷ cs) t no_space, after-append b' ' (c ∷ cs) t no_space)
        refl

  -- The line of an entry is read back.
  pub key_line-read :
      (k : Str) (v : Value)
      → is_scalar_value v ≡ true
      → is_bare k ≡ true
      → is_writable show v ≡ true
      → read_line number (key_line show k v) ≡ some (value_line k (as_read show v))
  unfolding key_line read_assigned valued
  key_line-read k v s b w =
      assigned k b (codes "= " ++ format_toml_value show v) ∙ rw (format-read v s w, b) refl
