-- ===== src/Config/Quoted.antt =====
-- The texts in double quotes that `_format_toml_value` writes, read by the rules of TOML for basic
-- strings.
use flipper_agent_indicator.Prelude.{
  ℕ, ◌≡◌, refl, inl, inr, Bool, true, false, not, ◌&&◌, ◌||◌, Bool-cases, [], ◌∷◌, ◌++◌,
  append_assoc, Option, none, some, ltb, ◌==◌, ==_iff, if◌then◌else◌, all,
}
use flipper_agent_indicator.Text.{Str}
use flipper_agent_indicator.Config.{
  int, float, bool, Value, replace, quoted, to_str, format_toml_value, str, moment, array, table,
}

-- A character that a basic string may hold: no control character but the tab.
abbrev pub is_plain : ℕ → Bool
is_plain c = (not (ltb c 0x20) || c == 0x09) && not (c == 0x7F)

-- A character behind a backslash; the forms with hexadecimal digits are not read here.
abbrev pub escaped : ℕ → Option ℕ
escaped c =
    if c == b'"'
    then some b'"'
    else if c == b'\\'
    then some b'\\'
    else if c == b'n'
    then some b'\n'
    else if c == b't'
    then some b'\t'
    else if c == b'r'
    then some b'\r'
    else if c == b'b'
    then some 0x08
    else if c == b'f'
    then some 0x0C
    else none

-- A character before what is read behind it.
abbrev pub keep_char : Option ℕ → Option (Str × Str) → Option (Str × Str)
keep_char none read = none
keep_char (some c) none = none
keep_char (some c) (some (s, rest)) = some (c ∷ s, rest)

-- The rest of a basic string behind its opening quote: its characters, and what follows it.
unfoldable pub read_basic : Str → Option (Str × Str)
read_basic [] = none
read_basic (c ∷ []) = if c == b'"' then some ([], []) else none
read_basic (c ∷ d ∷ cs) =
    let behind = read_basic (d ∷ cs) in
    let skipped = read_basic cs in
    if c == b'"'
    then some ([], d ∷ cs)
    else if c == b'\\'
    then keep_char (escaped d) skipped
    else keep_char (if is_plain c then some c else none) behind

-- A basic string.
unfoldable pub read_quoted : Str → Option (Str × Str)
unfolding read_basic
read_quoted [] = none
read_quoted (c ∷ cs) = if c == b'"' then read_basic cs else none

-- The escaped characters of a text.
unfoldable pub body : Str → Str
body [] = []
body (c ∷ cs) =
    let rest = body cs in
    if c == b'"' then b'\\' ∷ b'"' ∷ rest else if c == b'\\' then b'\\' ∷ b'\\' ∷ rest else c ∷ rest

body-replace :
    (s : Str) → replace b'"' (b'\\' ∷ b'"' ∷ []) (replace b'\\' (b'\\' ∷ b'\\' ∷ []) s) ≡ body s
unfolding replace body
body-replace [] = refl
body-replace (c ∷ cs) = elim (Bool-cases (c == b'\\')) [
  | inl e ↦ rw ((==_iff c _).0 e, body-replace cs) refl
  | inr e ↦ elim (Bool-cases (c == b'"')) [
    | inl q ↦ rw ((==_iff c _).0 q, body-replace cs) refl
    | inr q ↦ rw (e, q, body-replace cs) refl
  ]
]

read_basic-plain :
    (c : ℕ) (t : Str)
    → (c == b'"') ≡ false
    → (c == b'\\') ≡ false
    → read_basic (c ∷ t) ≡ keep_char (if is_plain c then some c else none) (read_basic t)
unfolding read_basic
read_basic-plain c [] q e = elim (Bool-cases (is_plain c)) [
  | inl h ↦ rw (q, h) refl
  | inr h ↦ rw (q, h) refl
]
read_basic-plain c (d ∷ cs) q e = rw (q, e) refl

keep_char_if :
    (p a : Bool) (c : ℕ) (s rest : Str)
    → keep_char (if p then some c else none) (if a then some (s, rest) else none)
      ≡ (if p && a then some (c ∷ s, rest) else none)
keep_char_if true true c s rest = refl
keep_char_if true false c s rest = refl
keep_char_if false a c s rest = refl

-- The body of any text is read back, up to the closing quote, if its characters may stand there.
read_basic-body :
    (s rest : Str)
    → read_basic (body s ++ b'"' ∷ rest) ≡ (if all is_plain s then some (s, rest) else none)
unfolding read_basic body
read_basic-body [] [] = refl
read_basic-body [] (d ∷ rest) = refl
read_basic-body (c ∷ cs) rest = elim (Bool-cases (c == b'"')) [
  | inl q ↦
      rw ((==_iff c _).0 q, read_basic-body cs rest) (keep_char_if true (all is_plain cs) _ cs rest)
  | inr q ↦ elim (Bool-cases (c == b'\\')) [
    | inl e ↦
        rw ((==_iff c _).0 e, read_basic-body cs rest)
          (keep_char_if true (all is_plain cs) _ cs rest)
    | inr e ↦
        rw (q, e, read_basic-plain c (body cs ++ b'"' ∷ rest) q e, read_basic-body cs rest)
          (keep_char_if (is_plain c) (all is_plain cs) c cs rest)
  ]
]

-- The values that are written in quotes.
abbrev pub is_quoted : Value → Bool
is_quoted (str s) = true
is_quoted (moment s) = true
is_quoted (array vs) = true
is_quoted (table t) = true
is_quoted _ = false

pub format-quoted :
    (show : Value → Str) (v : Value)
    → is_quoted v ≡ true
    → format_toml_value show v ≡ b'"' ∷ (body (to_str show v) ++ b'"' ∷ [])
unfolding format_toml_value quoted to_str
format-quoted show (str s) h = rw (body-replace s) refl
format-quoted show (moment s) h = rw (body-replace (show (moment s))) refl
format-quoted show (array vs) h = rw (body-replace (show (array vs))) refl
format-quoted show (table t) h = rw (body-replace (show (table t))) refl
format-quoted show (int z) h = cc
format-quoted show (float bits) h = cc
format-quoted show (bool b) h = cc

-- What `_format_toml_value` writes for a text, a date or an array is read by the rules of basic
-- strings, whatever follows, as the `str` of the value, so that arrays and dates come back as texts;
-- where that holds a control character other than a tab, it is no basic string.
pub read-format_toml_value :
    (show : Value → Str) (v : Value) (rest : Str)
    → is_quoted v ≡ true
    → read_quoted (format_toml_value show v ++ rest)
      ≡ (if all is_plain (to_str show v) then some (to_str show v, rest) else none)
unfolding read_quoted
read-format_toml_value show v rest h =
    rw (format-quoted show v h, append_assoc (body (to_str show v)) (b'"' ∷ []) rest)
      (read_basic-body (to_str show v) rest)
