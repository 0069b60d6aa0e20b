-- ===== src/Pair/Groups.antt =====
-- The two groups in which the scanned devices are shown.
use mathlib.Core.List.{Perm}
use flipper_agent_indicator.Prelude.{
  ℕ, ◌<◌, ◌≡◌, inl, inr, refl, ap, subst, Bool, true, false, Bool-cases, List, [], ◌∷◌, ◌++◌, All,
  arith, ltb, ltb→lt,
}
use flipper_agent_indicator.Text.{Str}
use flipper_agent_indicator.Pair.{Device, score, less_str, less, ranked, has_marker, join_spaced}
use flipper_agent_indicator.Pair.Ranking.{IsRanked, nil, one, more, ranked-Perm, ranked-IsRanked}
use flipper_agent_indicator.Pair.Markers.{IsMarked, marker_iff}

-- The order of texts by their code points.
pub data IsUpTo : Str → Str → Type 0 where
  empty : {t : Str} → IsUpTo [] t
  first : {x y : ℕ} {s t : Str} → x < y → IsUpTo (x ∷ s) (y ∷ t)
  later : {x : ℕ} {s t : Str} → IsUpTo s t → IsUpTo (x ∷ s) (x ∷ t)

-- The lower-cased names rise.
abbrev pub IsByName : (Str → Str) → List Device → Type 0
IsByName lower [] = Unit
IsByName lower (d ∷ []) = Unit
IsByName lower (d ∷ e ∷ ds) = IsUpTo (lower d.name) (lower e.name) × IsByName lower (e ∷ ds)

-- First the marked devices by name, then the others by name.
abbrev pub IsGrouped : (Str → Str) → List Device → Type 0
IsGrouped lower ds =
    (marked : List Device) × (others : List Device) × (ds ≡ marked ++ others)
    × All (IsMarked lower) marked
    × All (λ d. ¬ IsMarked lower d) others
    × IsByName lower marked
    × IsByName lower others

neither_less : (x y : ℕ) → ltb x y ≡ false → ltb y x ≡ false → x ≡ y
neither_less x y h k = ground arith

less_str-IsUpTo : (s t : Str) → less_str t s ≡ false → IsUpTo s t
unfolding less_str
less_str-IsUpTo [] t h = empty
less_str-IsUpTo (x ∷ s) [] h = cc
less_str-IsUpTo (x ∷ s) (y ∷ t) h = elim (Bool-cases (ltb x y)) [
  | inl e ↦ first (ltb→lt x y e)
  | inr e ↦ elim (Bool-cases (ltb y x)) [
    | inl f ↦ cc (rw f at h)
    | inr f ↦
        (let same : x ≡ y = neither_less x y e f in
          subst (λ z. IsUpTo (x ∷ s) (z ∷ t)) same (later (less_str-IsUpTo s t (rw (f, e) at h))))
  ]
]

module _ (lower : Str → Str) where
  -- The text in which `score` looks for markers.
  abbrev blob : Device → Str
  blob d = lower (join_spaced (d.uuids ++ d.name ∷ []))

  -- Of two neighbours in one group the names are in order, and no other device is right before a marked
  -- one.
  same_group :
      (d e : Device) (b : Bool)
      → has_marker (blob d) ≡ b
      → has_marker (blob e) ≡ b
      → less (score lower e) (score lower d) ≡ false
      → IsUpTo (lower d.name) (lower e.name)
  unfolding less score
  same_group d e true h k r = less_str-IsUpTo _ _ (rw (h, k, less, score) at r)
  same_group d e false h k r = less_str-IsUpTo _ _ (rw (h, k, less, score) at r)

  marked_first :
      (d e : Device)
      → has_marker (blob d) ≡ false
      → has_marker (blob e) ≡ true
      → less (score lower e) (score lower d) ≡ true
  unfolding less score
  marked_first d e h k = rw (h, k) refl

  unmarked : (d : Device) → has_marker (blob d) ≡ false → ¬ IsMarked lower d
  unmarked d e h = cc ((marker_iff (blob d)).1 h, e)

  marks : (d : Device) → IsMarked lower d → has_marker (blob d) ≡ true
  marks d h = (marker_iff (blob d)).1 h

  misses : (d : Device) → ¬ IsMarked lower d → has_marker (blob d) ≡ false
  misses d h = elim (Bool-cases (has_marker (blob d))) [
    | inl e ↦ absurd (h ((marker_iff (blob d)).0 e))
    | inr e ↦ e
  ]

  one-IsGrouped : (d : Device) → IsGrouped lower (d ∷ [])
  one-IsGrouped d = elim (Bool-cases (has_marker (blob d))) [
    | inl e ↦ (d ∷ [], [], refl, ((marker_iff (blob d)).0 e, tt), tt, tt, tt)
    | inr e ↦ ([], d ∷ [], refl, tt, (unmarked d e, tt), tt, tt)
  ]

  -- A device before the groups.
  more-IsGrouped :
      (d e : Device) (ds marked others : List Device)
      → e ∷ ds ≡ marked ++ others
      → less (score lower e) (score lower d) ≡ false
      → All (IsMarked lower) marked
      → All (λ x. ¬ IsMarked lower x) others
      → IsByName lower marked
      → IsByName lower others
      → IsGrouped lower (d ∷ e ∷ ds)
  more-IsGrouped d e ds [] [] same r m u p q = cc
  more-IsGrouped d e ds [] (x ∷ xs) same r m u p q =
      let head : e ≡ x = cc in
      let whole = ap (λ l. d ∷ l) same in
      elim (Bool-cases (has_marker (blob d))) [
        | inl h ↦ (d ∷ [], x ∷ xs, whole, ((marker_iff (blob d)).0 h, tt), u, tt, q)
        | inr h ↦ (
          [],
          d ∷ x ∷ xs,
          whole,
          tt,
          (unmarked d h, u),
          tt,
          (
            same_group d x false h (misses x u.0)
                (subst (λ y. less (score lower y) (score lower d) ≡ false) head r),
            q,
          ),
        )
      ]
  more-IsGrouped d e ds (x ∷ xs) others same r m u p q =
      let head : e ≡ x = cc in
      let whole = ap (λ l. d ∷ l) same in
      let behind = subst (λ y. less (score lower y) (score lower d) ≡ false) head r in
      elim (Bool-cases (has_marker (blob d))) [
        | inl h ↦ (
          d ∷ x ∷ xs,
          others,
          whole,
          ((marker_iff (blob d)).0 h, m),
          u,
          (same_group d x true h (marks x m.0) behind, p),
          q,
        )
        | inr h ↦ cc (marked_first d x h (marks x m.0), behind)
      ]

  IsRanked-IsGrouped : (ds : List Device) → IsRanked lower ds → IsGrouped lower ds
  IsRanked-IsGrouped [] nil = ([], [], refl, tt, tt, tt, tt)
  IsRanked-IsGrouped (d ∷ []) one = one-IsGrouped d
  IsRanked-IsGrouped (d ∷ e ∷ ds) (more r h) =
      let (marked, others, same, m, u, p, q) = IsRanked-IsGrouped (e ∷ ds) h in
      more-IsGrouped d e ds marked others same r m u p q

-- The devices are shown each as often as it was found: first those with one of the three markers in the
-- lower-cased text of their services and name, then the others, and both by their lower-cased names.
-- Whatever `str.lower` does is admitted.
pub ranked-Perm_IsGrouped :
    (lower : Str → Str) (ds : List Device)
    → Perm (ranked lower ds) ds × IsGrouped lower (ranked lower ds)
ranked-Perm_IsGrouped lower ds =
    (ranked-Perm lower ds, IsRanked-IsGrouped lower (ranked lower ds) (ranked-IsRanked lower ds))
