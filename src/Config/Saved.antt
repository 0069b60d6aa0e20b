-- ===== src/Config/Saved.antt =====
-- What `save_mac` keeps of a configuration, and where the address stands in the text.
use flipper_agent_indicator.Prelude.{
  ◌≡◌, refl, sym, ap, Bool, subst, ◌⊎◌, ◌∙◌, inl, inr, Bool-cases, true, false, List, [], ◌∷◌, ◌++◌,
  append_assoc, append-nil, some, All,
}
use flipper_agent_indicator.Text.{Str, codes, eq_str}
use flipper_agent_indicator.Text.Laws.{eq_str_iff, eq_str_refl}
use flipper_agent_indicator.Config.{
  Value, str, int, float, bool, moment, array, table, Entries, no_entries, entry, find, set,
  updated, from_dict, join, key_line, scalar_lines, table_blocks, with_blocks, ends_with_newline,
  save_mac,
}

find-set : (key : Str) (v : Value) (t : Entries) → find key (set key v t) ≡ some v
unfolding find set
find-set key v no_entries = rw (eq_str_refl key) refl
find-set key v (entry k w rest) = elim (Bool-cases (eq_str k key)) [
  | inl e ↦ rw (e, e) refl
  | inr e ↦ rw (e, e) (find-set key v rest)
]

find-set_other :
    (key j : Str) (v : Value) (t : Entries) → eq_str key j ≡ false → find j (set key v t) ≡ find j t
unfolding find set
find-set_other key j v no_entries h = rw h refl
find-set_other key j v (entry k w rest) h = elim (Bool-cases (eq_str k key)) [
  | inl e ↦ rw ((eq_str_iff k key).0 e, eq_str_refl key, h) refl
  | inr e ↦ rw (e, find-set_other key j v rest h) refl
]

-- The configuration that `_from_dict` makes of the entries that `save_mac` renders is the one before
-- with the new address: nothing else changes.
pub from_dict-updated :
    (show : Value → Str) (socket mac : Str) (existing : Entries)
    → from_dict show socket (updated mac existing)
      ≡ record (from_dict show socket existing) { flipper_mac = some (str mac) }
unfolding from_dict updated
from_dict-updated show socket mac existing =
    rw
      (
        find-set (codes "flipper_mac") (str mac) existing,
        find-set_other (codes "flipper_mac") (codes "tmux_bridge_enabled") (str mac) existing refl,
        find-set_other (codes "flipper_mac") (codes "tmux_bridge_script") (str mac) existing refl,
        find-set_other (codes "flipper_mac") (codes "log_path") (str mac) existing refl,
        find-set_other (codes "flipper_mac") (codes "socket_path") (str mac) existing refl,
        find-set_other (codes "flipper_mac") (codes "patterns") (str mac) existing refl,
      )
      refl

-- A line of an entry that is no table.
abbrev pub is_scalar_value : Value → Bool
is_scalar_value (table t) = false
is_scalar_value _ = true

abbrev pub IsScalarLine : (Value → Str) → Str → Type 0
IsScalarLine show line =
    (k : Str) × (v : Value) × (is_scalar_value v ≡ true) × (line ≡ key_line show k v)

-- An entry gives its line, or none.
scalar_lines-entry :
    (show : Value → Str) (k : Str) (v : Value) (t : Entries)
    → ((is_scalar_value v ≡ true)
        × (scalar_lines show (entry k v t) ≡ key_line show k v ∷ scalar_lines show t))
      ⊎ (scalar_lines show (entry k v t) ≡ scalar_lines show t)
unfolding scalar_lines
scalar_lines-entry show k (table u) t = inr refl
scalar_lines-entry show k (str s) t = inl (refl, refl)
scalar_lines-entry show k (int z) t = inl (refl, refl)
scalar_lines-entry show k (float bits) t = inl (refl, refl)
scalar_lines-entry show k (bool b) t = inl (refl, refl)
scalar_lines-entry show k (moment s) t = inl (refl, refl)
scalar_lines-entry show k (array vs) t = inl (refl, refl)

scalar_lines-All :
    (show : Value → Str) (t : Entries) → All (IsScalarLine show) (scalar_lines show t)
unfolding scalar_lines
scalar_lines-All show no_entries = tt
scalar_lines-All show (entry k v rest) = elim (scalar_lines-entry show k v rest) [
  | inl (scalar, e) ↦
      subst (All (IsScalarLine show)) (sym e) ((k, v, scalar, refl), scalar_lines-All show rest)
  | inr e ↦ subst (All (IsScalarLine show)) (sym e) (scalar_lines-All show rest)
]

-- The lines of the entries that are no tables, the new address among them.
abbrev Around : (Value → Str) → Str → Str → List Str → Type 0
Around show key s lines =
    (xs : List Str) × (ys : List Str) × (lines ≡ xs ++ key_line show key (str s) ∷ ys)

Around-cons :
    (show : Value → Str) (key s line : Str) (lines : List Str)
    → Around show key s lines
    → Around show key s (line ∷ lines)
Around-cons show key s line lines (xs, ys, e) = (line ∷ xs, ys, ap (λ l. line ∷ l) e)

scalar_lines-set :
    (show : Value → Str) (key s : Str) (t : Entries)
    → Around show key s (scalar_lines show (set key (str s) t))
unfolding scalar_lines set
scalar_lines-set show key s no_entries = ([], [], refl)
scalar_lines-set show key s (entry k w rest) = elim (Bool-cases (eq_str k key)) [
  | inl e ↦ rw ((eq_str_iff k key).0 e, eq_str_refl key) ([], scalar_lines show rest, refl)
  | inr e ↦ rw e (elim (scalar_lines-entry show k w (set key (str s) rest)) [
    | inl (scalar, l) ↦
        subst (Around show key s) (sym l)
          (Around-cons show key s _ _ (scalar_lines-set show key s rest))
    | inr l ↦ subst (Around show key s) (sym l) (scalar_lines-set show key s rest)
  ])
]

-- What stands behind the lines of the scalars: nothing, or the newline of the last of them.
with_blocks-append :
    (content : Str) (blocks : List Str)
    → (rest : Str) × (with_blocks content blocks ≡ content ++ rest)
unfolding with_blocks
with_blocks-append content [] = ([], sym (append-nil content))
with_blocks-append content (b ∷ bs) = (codes "\n\n" ++ join (codes "\n\n") (b ∷ bs), refl)

save_mac-append :
    (show : Value → Str) (mac : Str) (existing : Entries)
    → (rest : Str) × (save_mac show mac existing
        ≡ join (codes "\n") (scalar_lines show (updated mac existing)) ++ rest)
unfolding save_mac
save_mac-append show mac existing =
    let t = updated mac existing in
    let content = join (codes "\n") (scalar_lines show t) in
    let (rest, e) = with_blocks-append content (table_blocks show t) in
    elim (Bool-cases (ends_with_newline (with_blocks content (table_blocks show t)))) [
      | inl h ↦ rw h (rest, e)
      | inr h ↦
          rw h (
            rest ++ codes "\n",
            ap (λ s. s ++ codes "\n") e ∙ append_assoc content rest (codes "\n"),
          )
    ]

-- Whatever the file held, `save_mac` begins it with lines of entries that are no tables, and one of
-- these lines assigns the quoted address to `flipper_mac`.
pub save_mac-mac_line :
    (show : Value → Str) (mac : Str) (existing : Entries)
    → (xs : List Str) × (ys : List Str) × (rest : Str) × All
        (IsScalarLine show)
        (xs ++ key_line show (codes "flipper_mac") (str mac) ∷ ys)
      × (save_mac show mac existing
          ≡ join (codes "\n") (xs ++ key_line show (codes "flipper_mac") (str mac) ∷ ys) ++ rest)
unfolding updated
save_mac-mac_line show mac existing =
    let (xs, ys, e) = scalar_lines-set show (codes "flipper_mac") mac existing in
    let (rest, w) = save_mac-append show mac existing in
    (
      xs,
      ys,
      rest,
      subst (All (IsScalarLine show)) e (scalar_lines-All show (updated mac existing)),
      subst (λ l. save_mac show mac existing ≡ join (codes "\n") l ++ rest) e w,
    )
