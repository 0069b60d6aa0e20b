-- ===== src/Config/Tests.antt =====
-- Documents that `save_mac` writes, and the theorems at them.
use flipper_agent_indicator.Prelude.{
  ℕ, zero, suc, ◌≡◌, refl, ap, true, Option, [], ◌∷◌, ◌==◌, length, ◌++◌, some, none, if◌then◌else◌,
  all,
}
use flipper_agent_indicator.Prelude.Int.{pos, negsuc}
use flipper_agent_indicator.Text.{Str, codes, before, after}
use flipper_agent_indicator.Config.{
  Value, str, int, float, array, table, value, no_values, Entries, entry, no_entries,
  default_config, key_line, join, save_mac, updated, set, scalar_lines, table_blocks, with_blocks,
  ends_with_newline, render_table, table_lines, header, format_toml_value, quoted, replace, to_str,
}
use flipper_agent_indicator.Config.Quoted.{read_quoted, is_plain, read-format_toml_value}
use flipper_agent_indicator.Config.Documents.{
  document_values, is_bare, is_bare_char, is_writable, is_tidy, is_tidy_document, is_number,
  is_number_char, ReadsNumbers, read_document,
}
use flipper_agent_indicator.Config.Paths.{default_socket_path, load, missing, unreadable}
use flipper_agent_indicator.Config.RoundTrip.{read_document-save_mac}

-- `str` on the values of these tests.
abbrev show : Value → Str
show (int z) = codes "7"
show _ = codes "[1]"

abbrev mac : Str
mac = codes "AA:BB"

-- In the file: a color under [p.a], and then a number under [p].
abbrev stored : Entries
stored =
    entry (codes "p")
      (table (
        entry (codes "a")
          (table (entry (codes "c") (array (value (int (pos 1)) no_values)) no_entries))
          (entry (codes "n") (int (pos 7)) no_entries)))
      (entry (codes "log_path") (str (codes "x\"y")) no_entries)

-- The array becomes a text, and `n` comes to stand under [p.a].
written :
    save_mac show mac stored
    ≡ codes "log_path = \"x\\\"y\"\nflipper_mac = \"AA:BB\"\n\n[p]\n[p.a]\nc = \"[1]\"\nn = 7\n"
unfolding save_mac updated set scalar_lines table_blocks with_blocks ends_with_newline render_table
    table_lines header key_line format_toml_value quoted replace to_str join
written = refl

read-format_toml_value_example :
    read_quoted (format_toml_value show (str (codes "C:\\\"é\"")) ++ codes "\n")
    ≡ (if all is_plain (codes "C:\\\"é\"") then some (codes "C:\\\"é\"", codes "\n") else none)
unfolding to_str
read-format_toml_value_example =
    read-format_toml_value show (str (codes "C:\\\"é\"")) (codes "\n") refl

-- Numbers whose digits are zeros, as many as the number says.
abbrev digits : ℕ → Str
digits zero = []
digits (suc n) = b'0' ∷ digits n

abbrev show_zeros : Value → Str
show_zeros (int (pos n)) = digits n
show_zeros (int (negsuc n)) = b'-' ∷ digits n
show_zeros (float bits) = b'f' ∷ digits bits
show_zeros _ = codes "[1]"

abbrev count_zeros : Str → Option Value
count_zeros [] = some (int (pos 0))
count_zeros (c ∷ cs) =
    if c == b'-'
    then some (int (negsuc (length cs)))
    else if c == b'f'
    then some (float (length cs))
    else some (int (pos (suc (length cs))))

length-digits : (n : ℕ) → length (digits n) ≡ n
length-digits zero = refl
length-digits (suc n) = ap suc (length-digits n)

all-digits : (n : ℕ) → all is_number_char (digits n) ≡ true
unfolding is_number_char
all-digits zero = refl
all-digits (suc n) = all-digits n

zeros-chars : (v : Value) → is_number v ≡ true → all is_number_char (show_zeros v) ≡ true
unfolding is_number_char
zeros-chars (int (pos n)) h = all-digits n
zeros-chars (int (negsuc n)) h = all-digits n
zeros-chars (float bits) h = all-digits bits
zeros-chars _ h = cc

zeros-reads : (v : Value) → is_number v ≡ true → count_zeros (show_zeros v) ≡ some v
zeros-reads (int (pos zero)) h = refl
zeros-reads (int (pos (suc n))) h = rw (length-digits n) refl
zeros-reads (int (negsuc n)) h = rw (length-digits n) refl
zeros-reads (float bits) h = rw (length-digits bits) refl
zeros-reads _ h = cc

zeros-ReadsNumbers : ReadsNumbers show_zeros count_zeros
zeros-ReadsNumbers = record { has_chars = zeros-chars; reads = zeros-reads }

-- The file again, with the number before the color.
abbrev tidied : Entries
tidied =
    entry (codes "p")
      (table (
        entry (codes "n") (int (pos 7)) (
          entry (codes "a")
            (table (entry (codes "c") (array (value (int (pos 1)) no_values)) no_entries))
            no_entries)))
      (entry (codes "log_path") (str (codes "x\"y")) no_entries)

read_document-save_mac_example :
    read_document count_zeros (save_mac show_zeros mac tidied)
    ≡ some (document_values show_zeros (updated mac tidied))
unfolding is_tidy_document is_tidy is_writable is_bare is_bare_char
read_document-save_mac_example =
    read_document-save_mac show_zeros count_zeros zeros-ReadsNumbers mac tidied refl refl

-- Of the file as it was, `n` is read as an entry of [p.a].
misplaced :
    read_document count_zeros (codes "[p]\n[p.a]\nc = \"[1]\"\nn = 0000000\n")
    ≡ some (
        (codes "p" ∷ codes "a" ∷ codes "c" ∷ [], str (codes "[1]"))
        ∷ (codes "p" ∷ codes "a" ∷ codes "n" ∷ [], int (pos 7))
        ∷ [])
unfolding read_document after before is_bare read_quoted
misplaced = refl

-- XDG_RUNTIME_DIR is not set for the one, and empty for the other.
abbrev user : ℕ
user = 3

defaults :
    (default_socket_path (λ dir name. dir ++ name) show_zeros none 2
      ≡ codes "/tmp/flipper-indicator-00.sock")
    × (load show (codes "/s") missing ≡ some (default_config (codes "/s")))
    × (load show (codes "/s") unreadable ≡ none)
unfolding default_socket_path load
defaults = (refl, refl, refl)
