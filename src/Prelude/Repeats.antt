-- ===== src/Prelude/Repeats.antt =====
-- `Repeats xs ys`: the list `xs` is `ys` with some elements left out and others said several times in
-- a row, the order kept.
use mathlib.Core.Path.{◌≡◌, refl, subst}
use mathlib.Core.List.{List, [], ◌∷◌, ◌++◌, map}
use flipper_agent_indicator.Prelude.Sub.{Sub}
use flipper_agent_indicator.Prelude.Lists.{All}

pub data Repeats {ℓ} {A : Type ℓ} : List A → List A → Type ℓ where
  stop : Repeats [] []
  skip : {y : A} {xs ys : List A} → Repeats xs ys → Repeats xs (y ∷ ys)
  same : {x : A} {xs ys : List A} → Repeats xs ys → Repeats (x ∷ xs) (x ∷ ys)
  again : {x : A} {xs ys : List A} → Repeats (x ∷ xs) ys → Repeats (x ∷ x ∷ xs) ys

module _ {ℓ} {A : Type ℓ} where
  pub Repeats-refl : (xs : List A) → Repeats xs xs
  Repeats-refl [] = stop
  Repeats-refl (x ∷ xs) = same (Repeats-refl xs)

  -- To leave more out.
  pub Sub-Repeats : {ys zs xs : List A} → Sub xs ys → Repeats ys zs → Repeats xs zs
  Sub-Repeats h (skip k) = skip (Sub-Repeats h k)
  Sub-Repeats Sub.stop stop = stop
  Sub-Repeats (Sub.skip h) (same k) = skip (Sub-Repeats h k)
  Sub-Repeats (Sub.same h) (same k) = same (Sub-Repeats h k)
  Sub-Repeats (Sub.skip h) (again k) = Sub-Repeats h k
  Sub-Repeats (Sub.same (Sub.skip h)) (again k) = Sub-Repeats (Sub.same h) k
  Sub-Repeats (Sub.same (Sub.same h)) (again k) = again (Sub-Repeats (Sub.same h) k)

  -- One more at the end of both.
  pub Repeats-snoc :
      {xs ys : List A} (z : A) → Repeats xs ys → Repeats (xs ++ z ∷ []) (ys ++ z ∷ [])
  Repeats-snoc z stop = same stop
  Repeats-snoc z (skip h) = skip (Repeats-snoc z h)
  Repeats-snoc z (same h) = same (Repeats-snoc z h)
  Repeats-snoc z (again h) = again (Repeats-snoc z h)

  repeat_at :
      (front : List A) (x : A) (back : List A) {zs ys : List A}
      → Repeats zs ys
      → zs ≡ front ++ x ∷ back
      → Repeats (front ++ x ∷ x ∷ back) ys
  repeat_at [] x back {zs} {ys} h e = again (subst (λ l. Repeats l ys) e h)
  repeat_at (w ∷ front) x back stop e = cc
  repeat_at (w ∷ front) x back (skip h) e = skip (repeat_at (w ∷ front) x back h e)
  repeat_at (w ∷ front) x back (same {x = a} h) e =
      let first : a ≡ w = cc in rw (← first) (same (repeat_at front x back h cc))
  repeat_at (w ∷ []) x back (again {x = a} {xs = xs} {ys = ys} h) e =
      let first : a ≡ w = cc in
      let second : a ≡ x = cc in
      let rest : xs ≡ back = cc in rw (← first, ← second, ← rest) (again (again h))
  repeat_at (w ∷ u ∷ front) x back (again {x = a} h) e =
      let first : a ≡ w = cc in
      let second : a ≡ u = cc in rw (← first, ← second) (again (repeat_at (a ∷ front) x back h cc))

  -- An element in the middle is said again.
  pub Repeats-again :
      (front : List A) (x : A) (back : List A) {ys : List A}
      → Repeats (front ++ x ∷ back) ys
      → Repeats (front ++ x ∷ x ∷ back) ys
  Repeats-again front x back h = repeat_at front x back h refl

module _ {ℓ κ} {A : Type ℓ} {B : Type κ} (f : A → B) where
  pub Repeats-map : {xs ys : List A} → Repeats xs ys → Repeats (map f xs) (map f ys)
  Repeats-map stop = stop
  Repeats-map (skip h) = skip (Repeats-map h)
  Repeats-map (same h) = same (Repeats-map h)
  Repeats-map (again h) = again (Repeats-map h)

-- What holds of every element of the second list holds of those of the first.
pub Repeats-All {ℓ κ} :
    {A : Type ℓ} (P : A → Type κ) {xs ys : List A} → Repeats xs ys → All P ys → All P xs
Repeats-All P stop a = tt
Repeats-All P (skip h) a = Repeats-All P h a.1
Repeats-All P (same h) a = (a.0, Repeats-All P h a.1)
Repeats-All P (again h) a = let firsts = Repeats-All P h a in (firsts.0, firsts)
