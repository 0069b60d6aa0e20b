-- ===== src/Text.antt =====
-- Python's `str`, as the list of its code points, with the methods that the daemon calls on it.
pub mod Laws
use Prim.Native.Char.{code}
use Prim.Native.String.{String}
use flipper_agent_indicator.Prelude.{
  ℕ, Bool, true, false, ◌&&◌, ◌||◌, List, [], ◌∷◌, ◌++◌, leb, ◌==◌, if◌then◌else◌,
}

abbrev pub Str : Type 0
Str = List ℕ

-- The code points of a literal.
abbrev pub codes : String → Str
codes String.[] = []
codes (String.◌∷◌ c s) = code c ∷ codes s

-- s == t
abbrev pub eq_str : Str → Str → Bool
eq_str [] [] = true
eq_str (x ∷ xs) (y ∷ ys) = x == y && eq_str xs ys
eq_str _ _ = false

-- bool(s), negated
abbrev pub is_empty : Str → Bool
is_empty [] = true
is_empty (c ∷ cs) = false

-- The code points for which `str.isspace` holds: what `strip` and `lstrip` remove.
unfoldable pub is_space : ℕ → Bool
is_space c =
    (leb 0x09 c && leb c 0x0D)
    || (leb 0x1C c && leb c 0x20)
    || c == 0x85
    || c == 0xA0
    || c == 0x1680
    || (leb 0x2000 c && leb c 0x200A)
    || c == 0x2028
    || c == 0x2029
    || c == 0x202F
    || c == 0x205F
    || c == 0x3000

-- s.lstrip()
unfoldable pub lstrip : Str → Str
lstrip [] = []
lstrip (c ∷ cs) = let rest = lstrip cs in if is_space c then rest else c ∷ cs

-- s.rstrip(): a character stays if it is no space or something after it stays.
unfoldable pub rstrip : Str → Str
rstrip [] = []
rstrip (c ∷ cs) = let rest = rstrip cs in if is_empty rest && is_space c then [] else c ∷ rest

-- s.strip()
unfoldable pub strip : Str → Str
unfolding lstrip rstrip
strip s = rstrip (lstrip s)

-- s.startswith(prefix)
abbrev pub starts_with : Str → Str → Bool
starts_with s [] = true
starts_with [] (p ∷ ps) = false
starts_with (c ∷ cs) (p ∷ ps) = c == p && starts_with cs ps

-- What stands before the first `sep`: s[: s.find(sep)], and the whole text where `find` is -1.
unfoldable pub before : ℕ → Str → Str
before sep [] = []
before sep (c ∷ cs) = let rest = before sep cs in if c == sep then [] else c ∷ rest

-- What stands after the first `sep`: s[s.find(sep) + 1 :], and nothing where `find` is -1.
unfoldable pub after : ℕ → Str → Str
after sep [] = []
after sep (c ∷ cs) = let rest = after sep cs in if c == sep then cs else rest

-- sep in s
unfoldable pub contains : ℕ → Str → Bool
contains sep [] = false
contains sep (c ∷ cs) = c == sep || contains sep cs
