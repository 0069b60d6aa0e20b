-- ===== src/Socket/Parse.antt =====
-- `parse_line` against a reading of the line as a list of tokens.
use mathlib.Core.WellFounded.{Acc}
use flipper_agent_indicator.Prelude.{
  ℕ, ◌≡◌, refl, ap, sym, >>=_assoc, fun_ext, ◌∙◌, false, List, [], ◌∷◌, ◌++◌, Option, none, some,
  length, Result, ok, ◌>>=◌, All,
}
use flipper_agent_indicator.Prelude.Order.{Falls}
use flipper_agent_indicator.Text.{
  rstrip, Str, codes, is_space, lstrip, starts_with, before, after, contains,
}
use flipper_agent_indicator.Text.Laws.{
  BeginsWord, starts_with-append, before-append, after-append, before_none, after_none, length-rest,
}
use flipper_agent_indicator.Protocol.{Notification}
use flipper_agent_indicator.Socket.{Fields, ParseError, read_token, finish, parse_from}

text-one_word : contains b' ' (codes "text=") ≡ false
unfolding contains
text-one_word = refl

-- A word that the loop reads as one token.
pub record IsToken (t : Str) : Type 0 where
  pub one_word : contains b' ' t ≡ false
  pub no_text : starts_with t (codes "text=") ≡ false
  pub begins : BeginsWord t
  pub ends : rstrip t ≡ t

-- Tokens with one space between them, and behind them the text, if there is one.
abbrev pub joined : List Str → Option Str → Str
joined [] none = []
joined [] (some text) = codes "text=" ++ text
joined (t ∷ []) none = t
joined (t ∷ ts) text = t ++ b' ' ∷ joined ts text

abbrev pub text_of : Option Str → Str
text_of none = []
text_of (some text) = text

-- The tokens in order, each on the fields that the earlier ones left.
abbrev pub read_tokens : Fields → List Str → Result ParseError Fields
read_tokens fields [] = ok fields
read_tokens fields (t ∷ ts) = read_token fields t >>= λ next. read_tokens next ts

-- One round of the loop that does not come to the text.
round :
    (c : ℕ) (cs : Str) (fields : Fields) (answer : Fields → Result ParseError Notification)
    → starts_with (c ∷ cs) (codes "text=") ≡ false
    → ((f : Fields) (v : Acc (Falls length) (lstrip (after b' ' (c ∷ cs))))
        → parse_from f (lstrip (after b' ' (c ∷ cs))) v ≡ answer f)
    → (w : Acc (Falls length) (c ∷ cs))
    → parse_from fields (c ∷ cs) w ≡ (read_token fields (before b' ' (c ∷ cs)) >>= answer)
unfolding parse_from
round c cs fields answer no_text rest (Acc.intro _ smaller) = rw no_text (
    ap (λ k. read_token fields (before b' ' (c ∷ cs)) >>= k)
      (fun_ext λ f. rest f (smaller _ (length-rest b' ' c cs))))

-- A token that something follows.
parse_token :
    (t more : Str) (fields : Fields) (answer : Fields → Result ParseError Notification)
    → IsToken t
    → lstrip more ≡ more
    → ((f : Fields) (v : Acc (Falls length) more) → parse_from f more v ≡ answer f)
    → (w : Acc (Falls length) (t ++ b' ' ∷ more))
    → parse_from fields (t ++ b' ' ∷ more) w ≡ (read_token fields t >>= answer)
parse_token [] more fields answer h left rest w = absurd h.begins
parse_token (c ∷ cs) more fields answer h left rest w =
    let tail : lstrip (after b' ' ((c ∷ cs) ++ b' ' ∷ more)) ≡ more =
      rw (after-append b' ' (c ∷ cs) more h.one_word) left in
    let token : before b' ' ((c ∷ cs) ++ b' ' ∷ more) ≡ c ∷ cs =
      before-append b' ' (c ∷ cs) more h.one_word in
    rw (← token) (
      round c (cs ++ b' ' ∷ more) fields answer
        (starts_with-append b' ' (c ∷ cs) more (codes "text=") text-one_word ∙ h.no_text)
        (λ f. rw tail (rest f)) w)

-- The last token.
parse_last :
    (t : Str) (fields : Fields)
    → IsToken t
    → (w : Acc (Falls length) t)
    → parse_from fields t w ≡ (read_token fields t >>= λ f. finish f [])
unfolding parse_from lstrip
parse_last [] fields h w = absurd h.begins
parse_last (c ∷ cs) fields h w =
    let tail : lstrip (after b' ' (c ∷ cs)) ≡ [] = rw (after_none b' ' (c ∷ cs) h.one_word) in
    round c cs fields (λ f. finish f []) h.no_text (λ f. rw tail (λ v. refl)) w
    ∙ ap (λ t. read_token fields t >>= λ f. finish f []) (before_none b' ' (c ∷ cs) h.one_word)

-- The text takes the rest of the line.
parse_text :
    (text : Str) (fields : Fields) (w : Acc (Falls length) (codes "text=" ++ text))
    → parse_from fields (codes "text=" ++ text) w ≡ finish fields text
unfolding parse_from
parse_text text fields (Acc.intro _ smaller) = refl

pub lstrip-joined :
    (ts : List Str) (text : Option Str) → All IsToken ts → lstrip (joined ts text) ≡ joined ts text
unfolding lstrip
lstrip-joined [] none h = refl
lstrip-joined [] (some text) h = unfold is_space in refl
lstrip-joined ([] ∷ ts) text h = absurd h.0.begins
lstrip-joined ((c ∷ cs) ∷ []) none h = rw h.0.begins
lstrip-joined ((c ∷ cs) ∷ []) (some text) h = rw h.0.begins
lstrip-joined ((c ∷ cs) ∷ t ∷ ts) text h = rw h.0.begins

-- The loop reads joined tokens one after the other, and then the text.
pub parse_from-joined :
    (ts : List Str) (text : Option Str) (fields : Fields)
    → All IsToken ts
    → (w : Acc (Falls length) (joined ts text))
    → parse_from fields (joined ts text) w
      ≡ (read_tokens fields ts >>= λ f. finish f (text_of text))
parse_from-joined [] none fields h w = unfold parse_from in refl
parse_from-joined [] (some text) fields h w = parse_text text fields w
parse_from-joined (t ∷ []) none fields h w =
    parse_last t fields h.0 w ∙ sym (>>=_assoc (read_token fields t) ok _)
parse_from-joined (t ∷ []) (some text) fields h w =
    parse_token t (joined [] (some text)) fields _ h.0 (lstrip-joined [] (some text) tt)
      (λ f. parse_from-joined [] (some text) f tt) w
    ∙ sym (>>=_assoc (read_token fields t) ok _)
parse_from-joined (t ∷ u ∷ ts) text fields h w =
    parse_token t (joined (u ∷ ts) text) fields _ h.0 (lstrip-joined (u ∷ ts) text h.1)
      (λ f. parse_from-joined (u ∷ ts) text f h.1) w
    ∙ sym (>>=_assoc (read_token fields t) _ _)
