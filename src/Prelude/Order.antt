-- ===== src/Prelude/Order.antt =====
-- `<` on the native numbers is well founded, and so is a relation by a measure.
use mathlib.Core.WellFounded.{Acc}
use Prim.Native.Nat.{ℕ, zero, suc, ◌<◌}
use native.Mathlib.Omega.{arith}

-- Recursion on a state whose measure falls.
module _ {ℓ} {S : Type ℓ} (measure : S → ℕ) where
  abbrev pub Falls : S → S → Type 0
  Falls s t = measure s < measure t

  Acc-below : (k : ℕ) (s : S) → measure s < k → Acc Falls s
  Acc-below zero s h = elim h [ ]
  Acc-below (suc k) s h = Acc.intro s (λ t falls. Acc-below k t (omega arith))

  unfoldable pub Acc-Falls : (s : S) → Acc Falls s
  unfolding Acc-below
  Acc-Falls s = Acc-below (suc (measure s)) s (omega arith)
