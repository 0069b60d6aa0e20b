-- ===== src/Text/Laws.antt =====
-- Laws of the text functions, for proofs in which these stay shut.
use flipper_agent_indicator.Prelude.{
  ==_iff, &&-eq-true, all, Bool, ℕ, ◌≤◌, ◌<◌, ◌≡◌, refl, ◌↔◌, inl, inr, true, false, ◌&&◌, [], ◌∷◌,
  ◌++◌, arith, length, All, ◌==◌, Bool-cases,
}
use flipper_agent_indicator.Text.{
  Str, eq_str, is_empty, is_space, starts_with, lstrip, rstrip, strip, before, after, contains,
}

pub eq_str_iff : (s t : Str) → (eq_str s t ≡ true) ↔ (s ≡ t)
eq_str_iff [] [] = ground arith
eq_str_iff [] (y ∷ t) = ground arith
eq_str_iff (x ∷ s) [] = ground arith
eq_str_iff (x ∷ s) (y ∷ t) = ground (arith, eq_str_iff s t)

pub eq_str_refl : (s : Str) → eq_str s s ≡ true
eq_str_refl s = (eq_str_iff s s).1 refl

pub length-lstrip : (s : Str) → length (lstrip s) ≤ length s
unfolding lstrip
length-lstrip [] = omega arith
length-lstrip (c ∷ cs) = ground (arith, length-lstrip cs)

pub length-after : (sep : ℕ) (s : Str) → length (after sep s) ≤ length s
unfolding after
length-after sep [] = omega arith
length-after sep (c ∷ cs) = ground (arith, length-after sep cs)

pub length-after_cons : (sep c : ℕ) (cs : Str) → length (after sep (c ∷ cs)) ≤ length cs
unfolding after
length-after_cons sep c cs = ground (arith, length-after sep cs)

-- A text with no `sep` is cut where it is joined to the rest by one.
pub before-append : (sep : ℕ) (s t : Str) → contains sep s ≡ false → before sep (s ++ sep ∷ t) ≡ s
unfolding before contains
before-append sep [] t h = ground arith
before-append sep (c ∷ cs) t h = ground (arith, before-append sep cs t)

pub after-append : (sep : ℕ) (s t : Str) → contains sep s ≡ false → after sep (s ++ sep ∷ t) ≡ t
unfolding after contains
after-append sep [] t h = ground arith
after-append sep (c ∷ cs) t h = ground (arith, after-append sep cs t)

is_empty-append : (s : Str) (c : ℕ) (t : Str) → is_empty (s ++ c ∷ t) ≡ false
is_empty-append [] c t = refl
is_empty-append (d ∷ s) c t = refl

pub rstrip-append :
    (s : Str) (c : ℕ) (t : Str) → is_space c ≡ false → rstrip (s ++ c ∷ t) ≡ s ++ c ∷ rstrip t
unfolding rstrip
rstrip-append [] c t h = elim (Bool-cases (is_empty (rstrip t))) [
  | inl e ↦ rw (e, h)
  | inr e ↦ rw e
]
rstrip-append (d ∷ s) c t h = rw (rstrip-append s c t h, is_empty-append s c (rstrip t))

-- A text that begins with no space is not touched on the left.
pub lstrip_cons : (c : ℕ) (cs : Str) → is_space c ≡ false → lstrip (c ∷ cs) ≡ c ∷ cs
unfolding lstrip
lstrip_cons c cs h = rw h

-- What `rstrip` leaves ends in no space: stripping again changes nothing.
pub rstrip_idem : (s : Str) → rstrip (rstrip s) ≡ rstrip s
unfolding rstrip
rstrip_idem [] = refl
rstrip_idem (c ∷ cs) = ground (arith, rstrip_idem cs)

-- `rstrip` keeps a prefix.
pub All-rstrip {ℓ} : (P : ℕ → Type ℓ) (s : Str) → All P s → All P (rstrip s)
unfolding rstrip
All-rstrip P [] h = tt
All-rstrip P (c ∷ cs) h = elim (Bool-cases (is_empty (rstrip cs) && is_space c)) [
  | inl e ↦ rw e tt
  | inr e ↦ rw e (h.0, All-rstrip P cs h.1)
]

pub All-lstrip {ℓ} : (P : ℕ → Type ℓ) (s : Str) → All P s → All P (lstrip s)
unfolding lstrip
All-lstrip P [] h = tt
All-lstrip P (c ∷ cs) h = elim (Bool-cases (is_space c)) [
  | inl e ↦ rw e (All-lstrip P cs h.1)
  | inr e ↦ rw e h
]

pub All-after {ℓ} : (P : ℕ → Type ℓ) (sep : ℕ) (s : Str) → All P s → All P (after sep s)
unfolding after
All-after P sep [] h = tt
All-after P sep (c ∷ cs) h = elim (Bool-cases (c == sep)) [
  | inl e ↦ rw e h.1
  | inr e ↦ rw e (All-after P sep cs h.1)
]

pub All-strip {ℓ} : (P : ℕ → Type ℓ) (s : Str) → All P s → All P (strip s)
unfolding strip
All-strip P s h = All-rstrip P (lstrip s) (All-lstrip P s h)

-- What is left behind a separator and the spaces after it is shorter than the text.
pub length-rest : (sep c : ℕ) (cs : Str) → length (lstrip (after sep (c ∷ cs))) < length (c ∷ cs)
length-rest sep c cs = omega (arith, length-lstrip (after sep (c ∷ cs)), length-after_cons sep c cs)

-- A text with no `sep` is not cut.
pub before_none : (sep : ℕ) (s : Str) → contains sep s ≡ false → before sep s ≡ s
unfolding before contains
before_none sep [] h = refl
before_none sep (c ∷ cs) h = ground (arith, before_none sep cs)

pub after_none : (sep : ℕ) (s : Str) → contains sep s ≡ false → after sep s ≡ []
unfolding after contains
after_none sep [] h = refl
after_none sep (c ∷ cs) h = ground (arith, after_none sep cs)

-- A prefix without `sep` is looked for in what stands before a `sep` alone.
pub starts_with-append :
    (sep : ℕ) (s t p : Str)
    → contains sep p ≡ false
    → starts_with (s ++ sep ∷ t) p ≡ starts_with s p
unfolding contains
starts_with-append sep s t [] h = refl
starts_with-append sep [] t (p ∷ ps) h = ground arith
starts_with-append sep (c ∷ cs) t (p ∷ ps) h = ground (arith, starts_with-append sep cs t ps)

-- A space at the end falls away.
pub rstrip_snoc : (s : Str) (c : ℕ) → is_space c ≡ true → rstrip (s ++ c ∷ []) ≡ rstrip s
unfolding rstrip
rstrip_snoc [] c h = rw h
rstrip_snoc (d ∷ s) c h = rw (rstrip_snoc s c h)

-- Stripping on the right reaches into a text only when all behind it is gone.
pub rstrip-append_right :
    (s t : Str) → is_empty (rstrip t) ≡ false → rstrip (s ++ t) ≡ s ++ rstrip t
unfolding rstrip
rstrip-append_right [] t h = refl
rstrip-append_right (c ∷ []) t h = rw (h)
rstrip-append_right (c ∷ d ∷ s) t h = rw (rstrip-append_right (d ∷ s) t h)

-- The text has a first character, and that is no space.
abbrev pub BeginsWord : Str → Type 0
BeginsWord [] = ⊥
BeginsWord (c ∷ cs) = is_space c ≡ false

pub lstrip-append : (s t : Str) → BeginsWord s → lstrip (s ++ t) ≡ s ++ t
lstrip-append [] t h = absurd h
lstrip-append (c ∷ cs) t h = lstrip_cons c (cs ++ t) h

-- A separator at the end of a text changes nothing of what stands before the first one.
pub before_snoc : (sep : ℕ) (s : Str) → before sep (s ++ sep ∷ []) ≡ before sep s
unfolding before
before_snoc sep [] = ground arith
before_snoc sep (c ∷ cs) = ground (arith, before_snoc sep cs)

pub contains_snoc : (sep : ℕ) (s : Str) → contains sep (s ++ sep ∷ []) ≡ true
unfolding contains
contains_snoc sep [] = ground arith
contains_snoc sep (c ∷ cs) = ground (arith, contains_snoc sep cs)

-- A text with no `sep` stands whole before the first `sep` behind it.
pub before-append_right :
    (sep : ℕ) (s t : Str) → contains sep s ≡ false → before sep (s ++ t) ≡ s ++ before sep t
unfolding before contains
before-append_right sep [] t h = refl
before-append_right sep (c ∷ cs) t h = ground (arith, before-append_right sep cs t)

pub all-before : (p : ℕ → Bool) (sep : ℕ) (s : Str) → all p s ≡ true → all p (before sep s) ≡ true
unfolding before
all-before p sep [] h = refl
all-before p sep (c ∷ cs) h = ground (arith, all-before p sep cs)

-- A text starts with another one exactly if that is in front of it.
pub starts_with_iff :
    (s part : Str) → (starts_with s part ≡ true) ↔ ((back : Str) × (s ≡ part ++ back))
starts_with_iff s [] = ((λ h. (s, refl)), (λ h. refl))
starts_with_iff [] (p ∷ ps) = ((λ h. cc), λ (back, e). cc)
starts_with_iff (c ∷ cs) (p ∷ ps) =
    let (to, from) = starts_with_iff cs ps in
    (
      λ h.
          let (here, rest) = &&-eq-true (c == p) (starts_with cs ps) h in
          let (back, e) = to rest in let same : c ≡ p = (==_iff c p).0 here in (back, cc (same, e)),
      λ (back, e).
          let same : c ≡ p = cc in
          let rest : cs ≡ ps ++ back = cc in rw ((==_iff c p).1 same) (from (back, rest)),
    )
