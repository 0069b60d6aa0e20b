-- ===== src/Utf8.antt =====
-- The UTF-8 codec of Python's `str.encode("utf-8")` and `bytes.decode("utf-8", errors="replace")`,
-- which protocol.py, socket_server.py and cli.py call.
mod Sequences
pub mod Scalars
pub mod RoundTrip
pub mod Cut
pub mod Newline
use flipper_agent_indicator.Prelude.{
  ℕ, zero, suc, ◌+◌, ◌-◌, ◌*◌, ◌/◌, ◌%◌, Bool, ◌&&◌, ◌||◌, List, [], ◌∷◌, ◌++◌, Option, none, some,
  ltb, leb, ◌==◌, if◌then◌else◌, all,
}
use flipper_agent_indicator.Text.{Str}

abbrev pub Bytes : Type 0
Bytes = List ℕ

-- A Unicode scalar value: a code point that is no surrogate. Only these can be encoded.
abbrev pub is_scalar : ℕ → Bool
is_scalar c = ltb c 0xD800 || (leb 0xE000 c && ltb c 0x110000)

-- The bytes of one scalar value.
unfoldable pub utf8_char : ℕ → Bytes
utf8_char c =
    if ltb c 0x80
    then c ∷ []
    else if ltb c 0x800
    then (0xC0 + c / 64) ∷ (0x80 + c % 64) ∷ []
    else if ltb c 0x10000
    then (0xE0 + c / 4096) ∷ (0x80 + c / 64 % 64) ∷ (0x80 + c % 64) ∷ []
    else (0xF0 + c / 262144) ∷ (0x80 + c / 4096 % 64) ∷ (0x80 + c / 64 % 64) ∷ (0x80 + c % 64) ∷ []

unfoldable pub utf8 : Str → Bytes
utf8 [] = []
utf8 (c ∷ cs) = utf8_char c ++ utf8 cs

-- s.encode("utf-8"); `none` is a `UnicodeEncodeError`.
unfoldable pub encode : Str → Option Bytes
encode s = if all is_scalar s then some (utf8 s) else none

-- U+FFFD, which stands for what could not be decoded.
abbrev pub replacement : ℕ
replacement = 0xFFFD

-- Between two bytes the decoder is at the start of a character, or wants `left + 1` more
-- continuation bytes, the next of which lies in `lo .. hi`; `acc` is the value so far.
pub data Decoder : Type 0 where
  start : Decoder
  more : (left acc lo hi : ℕ) → Decoder

-- A byte at the start of a character: what is put out, and the state after it.
unfoldable pub begin : ℕ → Str × Decoder
begin b =
    if ltb b 0x80
    then (b ∷ [], start)
    else if ltb b 0xC2
    then (replacement ∷ [], start)
    else if ltb b 0xE0
    then ([], more 0 (b - 0xC0) 0x80 0xBF)
    else if ltb b 0xF0
    then (
      [],
      more 1 (b - 0xE0) (if b == 0xE0 then 0xA0 else 0x80) (if b == 0xED then 0x9F else 0xBF),
    )
    else if ltb b 0xF5
    then (
      [],
      more 2 (b - 0xF0) (if b == 0xF0 then 0x90 else 0x80) (if b == 0xF4 then 0x8F else 0xBF),
    )
    else (replacement ∷ [], start)

-- A continuation byte that fits.
unfoldable pub continue : ℕ → ℕ → Str × Decoder
continue zero acc = (acc ∷ [], start)
continue (suc left) acc = ([], more left acc 0x80 0xBF)

-- One byte. One that does not fit ends the broken character and begins the next.
unfoldable pub feed : Decoder → ℕ → Str × Decoder
unfolding begin continue
feed start b = begin b
feed (more left acc lo hi) b =
    if leb lo b && leb b hi
    then continue left (acc * 64 + (b - 0x80))
    else let (out, next) = begin b in (replacement ∷ out, next)

-- The end of the input inside a character is one replacement.
abbrev pub flush : Decoder → Str
flush start = []
flush (more left acc lo hi) = replacement ∷ []

unfoldable pub decode_from : Decoder → Bytes → Str
unfolding feed
decode_from st [] = flush st
decode_from st (b ∷ bs) = (feed st b).0 ++ decode_from (feed st b).1 bs

-- buf.decode("utf-8", errors="replace")
unfoldable pub decode : Bytes → Str
unfolding decode_from
decode buf = decode_from start buf
