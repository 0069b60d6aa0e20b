-- ===== src/Prelude/Sub.antt =====
-- `Sub xs ys`: the list `xs` is `ys` with some elements left out, the order kept.
use Prim.Native.Nat.{ℕ, zero, suc}
use mathlib.Core.List.{List, [], ◌∷◌, ◌++◌}
use flipper_agent_indicator.Prelude.Lists.{take}

pub data Sub {ℓ} {A : Type ℓ} : List A → List A → Type ℓ where
  stop : Sub [] []
  skip : {y : A} {xs ys : List A} → Sub xs ys → Sub xs (y ∷ ys)
  same : {x : A} {xs ys : List A} → Sub xs ys → Sub (x ∷ xs) (x ∷ ys)

module _ {ℓ} {A : Type ℓ} where
  pub Sub-refl : (xs : List A) → Sub xs xs
  Sub-refl [] = stop
  Sub-refl (x ∷ xs) = same (Sub-refl xs)

  pub Sub-nil : (xs : List A) → Sub [] xs
  Sub-nil [] = stop
  Sub-nil (x ∷ xs) = skip (Sub-nil xs)

  pub Sub-trans : {ys zs xs : List A} → Sub xs ys → Sub ys zs → Sub xs zs
  Sub-trans h stop = h
  Sub-trans h (skip k) = skip (Sub-trans h k)
  Sub-trans (skip h) (same k) = skip (Sub-trans h k)
  Sub-trans (same h) (same k) = same (Sub-trans h k)

  pub Sub-append : {xs ys us vs : List A} → Sub xs ys → Sub us vs → Sub (xs ++ us) (ys ++ vs)
  Sub-append stop k = k
  Sub-append (skip h) k = skip (Sub-append h k)
  Sub-append (same h) k = same (Sub-append h k)

  -- A front part of a list is the list with the rest left out.
  pub Sub-front : (xs ys : List A) → Sub xs (xs ++ ys)
  Sub-front [] ys = Sub-nil ys
  Sub-front (x ∷ xs) ys = same (Sub-front xs ys)

  pub Sub-take : (n : ℕ) (xs : List A) → Sub (take n xs) xs
  Sub-take zero xs = Sub-nil xs
  Sub-take (suc n) [] = stop
  Sub-take (suc n) (x ∷ xs) = same (Sub-take n xs)
