-- ===== src/Socket/Lines.antt =====
-- `parse_line` on a whole line, as it comes from the socket.
use mathlib.Core.WellFounded.{Acc}
use flipper_agent_indicator.Prelude.{
  drop, >>=-eq-ok, Bool-cases, inl, inr, false, zero, suc, ℕ, ◌≡◌, refl, ap, ◌∙◌, List, [], ◌∷◌,
  ◌++◌, Option, none, some, arith, length, Result, ok, ◌>>=◌, All,
}
use flipper_agent_indicator.Prelude.Order.{Falls, Acc-Falls}
use flipper_agent_indicator.Text.{
  starts_with, Str, codes, is_space, is_empty, strip, lstrip, rstrip, before, after,
}
use flipper_agent_indicator.Text.Laws.{
  length-rest, All-lstrip, All-strip, All-after, BeginsWord, lstrip-append, rstrip-append,
  rstrip-append_right, rstrip_snoc,
}
use flipper_agent_indicator.Protocol.{Notification}
use flipper_agent_indicator.Socket.{
  Fields, ParseError, read_token, finish, parse_from, no_fields, parse_line,
}
use flipper_agent_indicator.Socket.Parse.{IsToken, joined, text_of, read_tokens, parse_from-joined}

abbrev pub stripped : Option Str → Option Str
stripped none = none
stripped (some text) = some (rstrip text)

HasEnd : Str → Type 0
HasEnd s = is_empty (rstrip s) ≡ false

HasEnd-append : (s t : Str) → HasEnd t → HasEnd (s ++ t)
unfolding HasEnd
HasEnd-append [] t h = h
HasEnd-append (c ∷ cs) t h = rw (rstrip-append_right (c ∷ cs) t h)

text-HasEnd : (text : Str) → HasEnd (codes "text=" ++ text)
unfolding HasEnd
text-HasEnd text = rw (rstrip-append (codes "text") b'=' text (unfold is_space in refl))

token-HasEnd : (t : Str) → IsToken t → HasEnd t
unfolding HasEnd
token-HasEnd [] h = absurd h.begins
token-HasEnd (c ∷ cs) h = rw h.ends

joined-HasEnd :
    (t : Str) (ts : List Str) (text : Option Str)
    → All IsToken (t ∷ ts)
    → HasEnd (joined (t ∷ ts) text)
joined-HasEnd t [] none h = token-HasEnd t h.0
joined-HasEnd t [] (some text) h =
    HasEnd-append t (b' ' ∷ joined [] (some text)) (HasEnd-append (b' ' ∷ []) _ (text-HasEnd text))
joined-HasEnd t (u ∷ ts) text h =
    HasEnd-append t (b' ' ∷ joined (u ∷ ts) text)
      (HasEnd-append (b' ' ∷ []) _ (joined-HasEnd u ts text h.1))

rstrip_behind : (t u : Str) → HasEnd u → rstrip (t ++ b' ' ∷ u) ≡ t ++ b' ' ∷ rstrip u
unfolding HasEnd
rstrip_behind t u h =
    rstrip-append_right t (b' ' ∷ u) (HasEnd-append (b' ' ∷ []) u h)
    ∙ ap (λ v. t ++ v) (rstrip-append_right (b' ' ∷ []) u h)

-- Stripping a joined line strips its text.
rstrip-joined :
    (ts : List Str) (text : Option Str)
    → All IsToken ts
    → rstrip (joined ts text) ≡ joined ts (stripped text)
rstrip-joined [] none h = unfold rstrip in refl
rstrip-joined [] (some text) h = rstrip-append (codes "text") b'=' text (unfold is_space in refl)
rstrip-joined (t ∷ []) none h = h.0.ends
rstrip-joined (t ∷ []) (some text) h =
    rstrip_behind t (joined [] (some text)) (text-HasEnd text)
    ∙ ap (λ v. t ++ b' ' ∷ v) (rstrip-joined [] (some text) tt)
rstrip-joined (t ∷ u ∷ ts) none h =
    rstrip_behind t (joined (u ∷ ts) none) (joined-HasEnd u ts none h.1)
    ∙ ap (λ v. t ++ b' ' ∷ v) (rstrip-joined (u ∷ ts) none h.1)
rstrip-joined (t ∷ u ∷ ts) (some text) h =
    rstrip_behind t (joined (u ∷ ts) (some text)) (joined-HasEnd u ts (some text) h.1)
    ∙ ap (λ v. t ++ b' ' ∷ v) (rstrip-joined (u ∷ ts) (some text) h.1)

BeginsWord-append : (s t : Str) → BeginsWord s → BeginsWord (s ++ t)
BeginsWord-append [] t h = absurd h
BeginsWord-append (c ∷ cs) t h = h

joined-BeginsWord :
    (t : Str) (ts : List Str) (text : Option Str)
    → All IsToken (t ∷ ts)
    → BeginsWord (joined (t ∷ ts) text)
joined-BeginsWord t [] none h = h.0.begins
joined-BeginsWord t [] (some text) h = BeginsWord-append t _ h.0.begins
joined-BeginsWord t (u ∷ ts) text h = BeginsWord-append t _ h.0.begins

abbrev newline : Str
newline = b'\n' ∷ []

strip-joined_line :
    (ts : List Str) (text : Option Str)
    → All IsToken ts
    → strip (joined ts text ++ newline) ≡ joined ts (stripped text)
unfolding strip
strip-joined_line [] none h = unfold lstrip rstrip is_space in refl
strip-joined_line [] (some text) h =
    ap rstrip (lstrip-append (joined [] (some text)) newline (unfold is_space in refl))
    ∙ rstrip_snoc (joined [] (some text)) b'\n' (unfold is_space in refl)
    ∙ rstrip-joined [] (some text) tt
strip-joined_line (t ∷ ts) text h =
    ap rstrip (lstrip-append (joined (t ∷ ts) text) newline (joined-BeginsWord t ts text h))
    ∙ rstrip_snoc (joined (t ∷ ts) text) b'\n' (unfold is_space in refl)
    ∙ rstrip-joined (t ∷ ts) text h

parse_line_lem :
    (line s : Str) (answer : Result ParseError Notification)
    → strip line ≡ s
    → ((w : Acc (Falls length) s) → parse_from no_fields s w ≡ answer)
    → parse_line line ≡ answer
unfolding parse_line
parse_line_lem line s answer e h =
    let at_line : (w : Acc (Falls length) (strip line))
        → parse_from no_fields (strip line) w ≡ answer =
      rw e h in
    at_line (Acc-Falls length (strip line))

-- A line of tokens, each one space behind the other, with or without a text at its end, is read
-- token by token, and its text is taken without the white space at its end.
pub parse_line-joined :
    (ts : List Str) (text : Option Str)
    → All IsToken ts
    → parse_line (joined ts text ++ b'\n' ∷ [])
      ≡ (read_tokens no_fields ts >>= λ f. finish f (text_of (stripped text)))
parse_line-joined ts text h =
    parse_line_lem (joined ts text ++ newline) (joined ts (stripped text)) _
      (strip-joined_line ts text h) (parse_from-joined ts (stripped text) no_fields h)

text-finish : (f : Fields) (text : Str) (n : Notification) → finish f text ≡ ok n → n.text ≡ text
unfolding finish
text-finish f text n e = ground arith

-- What holds of every character of a line holds of every character of the text read from it.
module _ {ℓ} (P : ℕ → Type ℓ) where
  All-drop : (n : ℕ) (s : Str) → All P s → All P (drop n s)
  All-drop zero s h = h
  All-drop (suc n) [] h = tt
  All-drop (suc n) (c ∷ cs) h = All-drop n cs h.1

  finish-All :
      (f : Fields) (text : Str) (n : Notification)
      → finish f text ≡ ok n
      → All P text
      → All P n.text
  finish-All f text n e h = rw (text-finish f text n e) h

  parse_from-All :
      (s : Str) (f : Fields) (n : Notification) (w : Acc (Falls length) s)
      → parse_from f s w ≡ ok n
      → All P s
      → All P n.text
  unfolding parse_from
  parse_from-All [] f n w e h = finish-All f [] n e tt
  parse_from-All (c ∷ cs) f n (Acc.intro _ smaller) e h =
      elim (Bool-cases (starts_with (c ∷ cs) (codes "text="))) [
        | inl is_text ↦
            finish-All f (drop 5 (c ∷ cs)) n (rw (is_text, parse_from) at e) (All-drop 5 (c ∷ cs) h)
        | inr is_token ↦
            let (f', _, later) =
              >>=-eq-ok (read_token f (before b' ' (c ∷ cs))) _ (rw (is_token, parse_from) at e) in
            parse_from-All (lstrip (after b' ' (c ∷ cs))) f' n (smaller _ (length-rest b' ' c cs))
              later (All-lstrip P _ (All-after P b' ' (c ∷ cs) h))
      ]

  pub parse_line-All :
      (line : Str) (n : Notification) → parse_line line ≡ ok n → All P line → All P n.text
  unfolding parse_line
  parse_line-All line n e h =
      parse_from-All (strip line) no_fields n (Acc-Falls length (strip line)) e (All-strip P line h)
