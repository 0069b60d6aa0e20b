-- ===== src/Config/Lines.antt =====
-- The text that `save_mac` writes, as lines: how its joins come apart where a reader splits it.
use flipper_agent_indicator.Prelude.{
  ℕ, ◌≡◌, refl, sym, ap, ◌∙◌, Bool-cases, inl, inr, Bool, true, false, List, [], ◌∷◌, ◌++◌,
  append_assoc, append-nil, ◌==◌, ==_refl, All, if◌then◌else◌,
}
use flipper_agent_indicator.Text.{Str, codes, contains}
use flipper_agent_indicator.Config.{
  Value, Entries, no_entries, entry, table, join, key_line, header, table_lines, render_table,
  scalar_lines, table_blocks, with_blocks, updated, ends_with_newline, save_mac,
}
use flipper_agent_indicator.Config.Documents.{onto, split}

-- Pieces behind a first one, each with the separator before it.
unfoldable pub behind : Str → List Str → Str
behind sep [] = []
behind sep (l ∷ ls) = sep ++ (l ++ behind sep ls)

pub join-behind : (sep : Str) (l : Str) (ls : List Str) → join sep (l ∷ ls) ≡ l ++ behind sep ls
unfolding join behind
join-behind sep l [] = sym (append-nil l)
join-behind sep l (m ∷ ls) = ap (λ t. l ++ (sep ++ t)) (join-behind sep m ls)

pub behind-append :
    (sep : Str) (ls ms : List Str) → behind sep (ls ++ ms) ≡ behind sep ls ++ behind sep ms
unfolding behind
behind-append sep [] ms = refl
behind-append sep (l ∷ ls) ms = rw (behind-append sep ls ms) (
    sym (
      append_assoc sep (l ++ behind sep ls) (behind sep ms)
      ∙ ap (λ t. sep ++ t) (append_assoc l (behind sep ls) (behind sep ms))))

module _ (sep : ℕ) where
  pub split-word : (w : Str) → contains sep w ≡ false → split sep w ≡ w ∷ []
  unfolding split contains onto
  split-word [] h = refl
  split-word (c ∷ cs) h = elim (Bool-cases (c == sep)) [
    | inl e ↦ cc (rw e at h)
    | inr e ↦ rw (e, split-word cs (rw e at h)) refl
  ]

  pub split-append :
      (w t : Str) → contains sep w ≡ false → split sep (w ++ sep ∷ t) ≡ w ∷ split sep t
  unfolding split contains onto
  split-append [] t h = rw (==_refl sep) refl
  split-append (c ∷ cs) t h = elim (Bool-cases (c == sep)) [
    | inl e ↦ cc (rw e at h)
    | inr e ↦ rw (e, split-append cs t (rw e at h)) refl
  ]

  -- Whether a piece has no separator.
  abbrev pub IsPiece : Str → Type 0
  IsPiece w = contains sep w ≡ false

  pub split-behind :
      (w : Str) (ls : List Str)
      → IsPiece w
      → All IsPiece ls
      → split sep (w ++ behind (sep ∷ []) ls) ≡ w ∷ ls
  unfolding behind
  split-behind w [] h hs = rw (append-nil w) (split-word w h)
  split-behind w (l ∷ ls) h hs =
      split-append w (l ++ behind (sep ∷ []) ls) h ∙ ap (λ t. w ∷ t) (split-behind l ls hs.0 hs.1)

-- The lines of a table behind its header, those of the tables inside included.
unfoldable pub all_lines : (Value → Str) → Str → Entries → List Str
unfolding key_line header
all_lines show name no_entries = []
all_lines show name (entry k (table t) rest) =
    header (name ++ (codes "." ++ k))
    ∷ (all_lines show (name ++ (codes "." ++ k)) t ++ all_lines show name rest)
all_lines show name (entry k v rest) = key_line show k v ∷ all_lines show name rest

abbrev pub newline : Str
newline = b'\n' ∷ []

pub behind-table_lines :
    (show : Value → Str) (name : Str) (t : Entries)
    → behind newline (table_lines show name t) ≡ behind newline (all_lines show name t)
unfolding table_lines all_lines behind
behind-table_lines show name no_entries = refl
behind-table_lines show name (entry k (table t) rest) =
    let inner = name ++ (codes "." ++ k) in
    rw
      (
        join-behind newline (header inner) (table_lines show inner t),
        behind-table_lines show inner t,
        behind-table_lines show name rest,
        behind-append newline (all_lines show inner t) (all_lines show name rest),
        append_assoc (header inner) (behind newline (all_lines show inner t))
            (behind newline (all_lines show name rest)),
      )
      refl
behind-table_lines show name (entry k v rest) = rw (behind-table_lines show name rest) refl

-- The lines of the tables of a document, each behind an empty line.
unfoldable pub block_lines : (Value → Str) → Entries → List Str
unfolding all_lines header
block_lines show no_entries = []
block_lines show (entry k (table t) rest) =
    [] ∷ header k ∷ (all_lines show k t ++ block_lines show rest)
block_lines show (entry k v rest) = block_lines show rest

behind-table_blocks :
    (show : Value → Str) (t : Entries)
    → behind (codes "\n\n") (table_blocks show t) ≡ behind newline (block_lines show t)
unfolding table_blocks block_lines behind render_table
behind-table_blocks show no_entries = refl
behind-table_blocks show (entry k (table t) rest) =
    rw
      (
        join-behind newline (header k) (table_lines show k t),
        behind-table_lines show k t,
        behind-table_blocks show rest,
        behind-append newline (all_lines show k t) (block_lines show rest),
        append_assoc (header k) (behind newline (all_lines show k t))
            (behind newline (block_lines show rest)),
      )
      refl
behind-table_blocks show (entry k v rest) = behind-table_blocks show rest

with_blocks-behind :
    (content : Str) (bs : List Str) → with_blocks content bs ≡ content ++ behind (codes "\n\n") bs
unfolding with_blocks behind
with_blocks-behind content [] = sym (append-nil content)
with_blocks-behind content (b ∷ bs) = rw (join-behind (codes "\n\n") b bs) refl

abbrev pub first_line : List Str → Str
first_line [] = []
first_line (l ∷ ls) = l

abbrev pub later_lines : List Str → List Str
later_lines [] = []
later_lines (l ∷ ls) = ls

join-lines : (ls : List Str) → join newline ls ≡ first_line ls ++ behind newline (later_lines ls)
unfolding join behind
join-lines [] = refl
join-lines (l ∷ ls) = join-behind newline l ls

-- The lines of the document behind the first one, but for the last one, which is empty.
abbrev pub later_of : (Value → Str) → Entries → List Str
later_of show t = later_lines (scalar_lines show t) ++ block_lines show t

content-lines :
    (show : Value → Str) (t : Entries)
    → with_blocks (join newline (scalar_lines show t)) (table_blocks show t)
      ≡ first_line (scalar_lines show t) ++ behind newline (later_of show t)
content-lines show t =
    let first = first_line (scalar_lines show t) in
    let later = later_lines (scalar_lines show t) in
    with_blocks-behind (join newline (scalar_lines show t)) (table_blocks show t)
    ∙ rw
        (
          join-lines (scalar_lines show t),
          behind-table_blocks show t,
          behind-append newline later (block_lines show t),
          append_assoc first (behind newline later) (behind newline (block_lines show t)),
        )
        refl

-- An empty line at the end, if it is wanted.
abbrev pub closing : Bool → List Str
closing true = []
closing false = [] ∷ []

close_if :
    (b : Bool) (l : Str) (ls : List Str) (content : Str)
    → content ≡ l ++ behind newline ls
    → (if b then content else content ++ newline) ≡ l ++ behind newline (ls ++ closing b)
unfolding behind
close_if true l ls content h = h ∙ ap (λ ms. l ++ behind newline ms) (sym (append-nil ls))
close_if false l ls content h =
    rw (h, behind-append newline ls ([] ∷ [])) (append_assoc l (behind newline ls) newline)

-- The text of `save_mac`, by its lines.
pub save_mac-lines :
    (show : Value → Str) (mac : Str) (existing : Entries)
    → (b : Bool) × (save_mac show mac existing
        ≡ first_line (scalar_lines show (updated mac existing))
          ++ behind newline (later_of show (updated mac existing) ++ closing b))
unfolding save_mac
save_mac-lines show mac existing =
    let t = updated mac existing in
    let content = with_blocks (join newline (scalar_lines show t)) (table_blocks show t) in
    (
      ends_with_newline content,
      close_if (ends_with_newline content) (first_line (scalar_lines show t)) (later_of show t)
          content (content-lines show t),
    )
