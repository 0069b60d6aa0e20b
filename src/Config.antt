-- ===== src/Config.antt =====
-- daemon/flipper_indicator/config.py: the configuration that is made of a parsed TOML document, and
-- the document that `save_mac` writes. `show` is Python's `str` on the values that are no texts.
pub mod Quoted
pub mod Saved
pub mod Documents
pub mod Lines
pub mod Reading
pub mod Headers
pub mod Blocks
pub mod RoundTrip
pub mod Paths
mod Tests
use flipper_agent_indicator.Prelude.{
  ℕ, zero, suc, ◌%◌, ◌^◌, Bool, true, false, not, List, [], ◌∷◌, ◌++◌, Option, none, some, ◌==◌,
  if◌then◌else◌,
}
use flipper_agent_indicator.Prelude.Int.{ℤ, pos, negsuc}
use flipper_agent_indicator.Text.{Str, codes, eq_str, is_empty}

-- What `tomllib.load` returns: a float is its 64 bits, a date or time what `str` makes of it.
mutual
  pub data Value : Type 0 where
    str : Str → Value
    int : ℤ → Value
    float : ℕ → Value
    bool : Bool → Value
    moment : Str → Value
    array : Values → Value
    table : Entries → Value

  pub data Values : Type 0 where
    no_values : Values
    value : Value → Values → Values

  pub data Entries : Type 0 where
    no_entries : Entries
    entry : Str → Value → Entries → Entries

-- raw.get(key)
unfoldable pub find : Str → Entries → Option Value
find key no_entries = none
find key (entry k v rest) = let found = find key rest in if eq_str k key then some v else found

-- entries[key] = value
unfoldable pub set : Str → Value → Entries → Entries
set key v no_entries = entry key v no_entries
set key v (entry k w rest) =
    let changed = set key v rest in if eq_str k key then entry k v rest else entry k w changed

-- bool(v)
unfoldable pub truth : Value → Bool
truth (str s) = not (is_empty s)
truth (int (pos zero)) = false
truth (int _) = true
truth (float bits) = not (bits % 2 ^ 63 == 0)
truth (bool b) = b
truth (moment s) = true
truth (array no_values) = false
truth (array (value v vs)) = true
truth (table no_entries) = false
truth (table (entry k v rest)) = true

-- str(v)
unfoldable pub to_str : (Value → Str) → Value → Str
to_str show (str s) = s
to_str show v = show v

pub record Config : Type 0 where
  pub flipper_mac : Option Value
  pub tmux_bridge_enabled : Bool
  pub tmux_bridge_script : Str
  pub log_path : Str
  pub socket_path : Str
  pub patterns : Entries

-- `Config()`; the path of the socket is an argument, since it depends on the environment.
unfoldable pub default_config : Str → Config
default_config socket = record {
  flipper_mac = none;
  tmux_bridge_enabled = true;
  tmux_bridge_script = codes "~/.tmux/plugins/tmux-agent-indicator/scripts/agent-state.sh";
  log_path = codes "~/.local/state/flipper-agent-indicator/daemon.log";
  socket_path = socket;
  patterns = no_entries;
}

-- `str` of the value of a key, or the default.
unfoldable pub text_or : (Value → Str) → Str → Option Value → Str
unfolding to_str
text_or show default none = default
text_or show default (some v) = to_str show v

unfoldable pub truth_or : Bool → Option Value → Bool
unfolding truth
truth_or default none = default
truth_or default (some v) = truth v

-- A `patterns` that is no table is ignored.
unfoldable pub table_or : Entries → Option Value → Entries
table_or default (some (table t)) = t
table_or default _ = default

-- `_from_dict`
unfoldable pub from_dict : (Value → Str) → Str → Entries → Config
unfolding find text_or truth_or table_or default_config
from_dict show socket raw =
    let d = default_config socket in
    record {
      flipper_mac = find (codes "flipper_mac") raw;
      tmux_bridge_enabled = truth_or d.tmux_bridge_enabled (find (codes "tmux_bridge_enabled") raw);
      tmux_bridge_script =
          text_or show d.tmux_bridge_script (find (codes "tmux_bridge_script") raw);
      log_path = text_or show d.log_path (find (codes "log_path") raw);
      socket_path = text_or show d.socket_path (find (codes "socket_path") raw);
      patterns = table_or d.patterns (find (codes "patterns") raw);
    }

-- s.replace(c, by), for one character
unfoldable pub replace : ℕ → Str → Str → Str
replace c by [] = []
replace c by (x ∷ xs) = let rest = replace c by xs in if x == c then by ++ rest else x ∷ rest

unfoldable pub quoted : Str → Str
unfolding replace
quoted s =
    b'"' ∷ (replace b'"' (b'\\' ∷ b'"' ∷ []) (replace b'\\' (b'\\' ∷ b'\\' ∷ []) s) ++ b'"' ∷ [])

-- `_format_toml_value`
unfoldable pub format_toml_value : (Value → Str) → Value → Str
unfolding quoted to_str
format_toml_value show (bool true) = codes "true"
format_toml_value show (bool false) = codes "false"
format_toml_value show (int z) = show (int z)
format_toml_value show (float bits) = show (float bits)
format_toml_value show v = quoted (to_str show v)

-- sep.join(texts)
unfoldable pub join : Str → List Str → Str
join sep [] = []
join sep (t ∷ []) = t
join sep (t ∷ u ∷ ts) = t ++ (sep ++ join sep (u ∷ ts))

unfoldable pub key_line : (Value → Str) → Str → Value → Str
unfolding format_toml_value
key_line show k v = k ++ (codes " = " ++ format_toml_value show v)

unfoldable pub header : Str → Str
header name = codes "[" ++ (name ++ codes "]")

-- The lines of `_render_table` behind its header; a table inside is one of them, rendered.
unfoldable pub table_lines : (Value → Str) → Str → Entries → List Str
unfolding key_line header join
table_lines show name no_entries = []
table_lines show name (entry k (table t) rest) =
    let inner = name ++ (codes "." ++ k) in
    join (codes "\n") (header inner ∷ table_lines show inner t) ∷ table_lines show name rest
table_lines show name (entry k v rest) = key_line show k v ∷ table_lines show name rest

-- `_render_table`
unfoldable pub render_table : (Value → Str) → Str → Entries → Str
unfolding table_lines header join
render_table show name t = join (codes "\n") (header name ∷ table_lines show name t)

-- The two loops of `save_mac`: the entries that are no tables, and those that are.
unfoldable pub scalar_lines : (Value → Str) → Entries → List Str
unfolding key_line
scalar_lines show no_entries = []
scalar_lines show (entry k (table t) rest) = scalar_lines show rest
scalar_lines show (entry k v rest) = key_line show k v ∷ scalar_lines show rest

unfoldable pub table_blocks : (Value → Str) → Entries → List Str
unfolding render_table
table_blocks show no_entries = []
table_blocks show (entry k (table t) rest) = render_table show k t ∷ table_blocks show rest
table_blocks show (entry k v rest) = table_blocks show rest

unfoldable pub with_blocks : Str → List Str → Str
unfolding join
with_blocks content [] = content
with_blocks content (b ∷ bs) = content ++ (codes "\n\n" ++ join (codes "\n\n") (b ∷ bs))

unfoldable pub ends_with_newline : Str → Bool
ends_with_newline [] = false
ends_with_newline (c ∷ []) = c == b'\n'
ends_with_newline (c ∷ d ∷ cs) = ends_with_newline (d ∷ cs)

unfoldable pub updated : Str → Entries → Entries
unfolding set
updated mac existing = set (codes "flipper_mac") (str mac) existing

-- The text that `save_mac` writes over a document that was parsed as `existing`; a missing file is
-- parsed as no entries.
unfoldable pub save_mac : (Value → Str) → Str → Entries → Str
unfolding updated scalar_lines table_blocks with_blocks ends_with_newline
save_mac show mac existing =
    let entries = updated mac existing in
    let content =
      with_blocks (join (codes "\n") (scalar_lines show entries)) (table_blocks show entries) in
    if ends_with_newline content then content else content ++ codes "\n"
