-- ===== src/Pair/Ranking.antt =====
-- The order of the scanned devices.
use mathlib.Core.List.{Perm}
use mathlib.Core.List.Perm
use flipper_agent_indicator.Prelude.{
  ℕ, ◌≡◌, refl, suc, Bool-cases, true, false, List, [], ◌∷◌, length, arith, tests, ap, inl, inr,
  ltb, ltb→lt, le→ltb_false,
}
use flipper_agent_indicator.Text.{Str}
use flipper_agent_indicator.Pair.{Device, Score, score, less_str, less, insert, ranked}

-- No device has a smaller score than the one before it.
pub data IsRanked (lower : Str → Str) : List Device → Type 0 where
  nil : IsRanked lower []
  one : {d : Device} → IsRanked lower (d ∷ [])
  more :
      {d e : Device} {ds : List Device}
      → less (score lower e) (score lower d) ≡ false
      → IsRanked lower (e ∷ ds)
      → IsRanked lower (d ∷ e ∷ ds)

ltb_asym : (m n : ℕ) → ltb m n ≡ true → ltb n m ≡ false
ltb_asym m n h = le→ltb_false n m (omega (arith, ltb→lt m n h))

less_str_asym : (s t : Str) → less_str s t ≡ true → less_str t s ≡ false
unfolding less_str
less_str_asym s [] h = cc
less_str_asym [] (y ∷ ys) h = refl
less_str_asym (x ∷ xs) (y ∷ ys) h = grind (tests, ltb_asym x y, less_str_asym xs ys)

less_asym : (a b : Score) → less a b ≡ true → less b a ≡ false
unfolding less
less_asym a b h = grind (tests, ltb_asym a.group b.group, less_str_asym a.shown b.shown)

length-insert :
    (lower : Str → Str) (d : Device) (ds : List Device)
    → length (insert lower d ds) ≡ suc (length ds)
unfolding insert
length-insert lower d [] = refl
length-insert lower d (e ∷ es) = elim (Bool-cases (less (score lower e) (score lower d))) [
  | inl h ↦ rw h (ap suc (length-insert lower d es))
  | inr h ↦ rw h refl
]

pub length-ranked : (lower : Str → Str) (ds : List Device) → length (ranked lower ds) ≡ length ds
unfolding ranked
length-ranked lower [] = refl
length-ranked lower (d ∷ ds) =
    omega (arith, length-insert lower d (ranked lower ds), length-ranked lower ds)

module _ (lower : Str → Str) where
  insert-Perm : (d : Device) (ds : List Device) → Perm (insert lower d ds) (d ∷ ds)
  unfolding insert
  insert-Perm d [] = Perm.refl (d ∷ [])
  insert-Perm d (e ∷ es) = elim (Bool-cases (less (score lower e) (score lower d))) [
    | inl h ↦ rw h (Perm.trans (Perm.cons e (insert-Perm d es)) (Perm.swap d e es))
    | inr h ↦ rw h (Perm.refl (d ∷ e ∷ es))
  ]

  pub ranked-Perm : (ds : List Device) → Perm (ranked lower ds) ds
  unfolding ranked
  ranked-Perm [] = Perm.refl []
  ranked-Perm (d ∷ ds) = Perm.trans (insert-Perm d (ranked lower ds)) (Perm.cons d (ranked-Perm ds))

  -- An insertion behind an element that is smaller.
  insert-IsRanked_behind :
      (e d : Device) (es : List Device)
      → less (score lower e) (score lower d) ≡ true
      → IsRanked lower (e ∷ es)
      → IsRanked lower (e ∷ insert lower d es)
  unfolding insert
  insert-IsRanked_behind e d [] lt h = more (less_asym (score lower e) (score lower d) lt) one
  insert-IsRanked_behind e d (f ∷ fs) lt (more ef h) =
      elim (Bool-cases (less (score lower f) (score lower d))) [
        | inl fd ↦ rw fd (more ef (insert-IsRanked_behind f d fs fd h))
        | inr df ↦ rw df (more (less_asym (score lower e) (score lower d) lt) (more df h))
      ]

  insert-IsRanked :
      (d : Device) (ds : List Device) → IsRanked lower ds → IsRanked lower (insert lower d ds)
  unfolding insert
  insert-IsRanked d [] h = one
  insert-IsRanked d (e ∷ es) h = elim (Bool-cases (less (score lower e) (score lower d))) [
    | inl lt ↦ rw lt (insert-IsRanked_behind e d es lt h)
    | inr ge ↦ rw ge (more ge h)
  ]

  pub ranked-IsRanked : (ds : List Device) → IsRanked lower (ranked lower ds)
  unfolding ranked
  ranked-IsRanked [] = nil
  ranked-IsRanked (d ∷ ds) = insert-IsRanked d (ranked lower ds) (ranked-IsRanked ds)
