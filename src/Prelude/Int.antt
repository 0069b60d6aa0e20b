-- ===== src/Prelude/Int.antt =====
-- Python's integers; `negsuc n` is -(n + 1). Sums and orders go through two natural numbers, of which
-- an integer is the difference.
use Prim.Native.Nat.{ℕ, suc, ◌+◌, ◌-◌}
use mathlib.Core.Path.{◌≡◌}
use mathlib.Core.Bool.{Bool, true}
use native.Mathlib.Omega.{arith}
use flipper_agent_indicator.Prelude.Tests.{ltb, leb, ◌==◌, if◌then◌else◌}

pub data ℤ : Type 0 where
  pos : ℕ → ℤ
  negsuc : ℕ → ℤ

abbrev pub neg_part : ℤ → ℕ
neg_part (negsuc n) = suc n
neg_part (pos n) = 0

abbrev pub pos_part : ℤ → ℕ
pos_part (negsuc n) = 0
pos_part (pos n) = n

-- The integer m - n.
unfoldable pub sub_ℕ : ℕ → ℕ → ℤ
sub_ℕ m n = if ltb m n then negsuc (n - suc m) else pos (m - n)

infixl 65 ◌+ℤ◌ ◌-ℤ◌
unfoldable pub ◌-ℤ◌ : ℤ → ℤ → ℤ
unfolding sub_ℕ
i -ℤ j = sub_ℕ (neg_part j + pos_part i) (pos_part j + neg_part i)

unfoldable pub ◌+ℤ◌ : ℤ → ℤ → ℤ
unfolding sub_ℕ
i +ℤ j = sub_ℕ (pos_part j + pos_part i) (neg_part j + neg_part i)

-- i < j, i <= j, i == j
abbrev pub ltb_ℤ : ℤ → ℤ → Bool
ltb_ℤ i j = ltb (neg_part j + pos_part i) (neg_part i + pos_part j)

abbrev pub leb_ℤ : ℤ → ℤ → Bool
leb_ℤ i j = leb (neg_part j + pos_part i) (neg_part i + pos_part j)

abbrev pub eqb_ℤ : ℤ → ℤ → Bool
eqb_ℤ i j = neg_part j + pos_part i == neg_part i + pos_part j

pub eqb_ℤ-eq : (i j : ℤ) → eqb_ℤ i j ≡ true → i ≡ j
eqb_ℤ-eq i j h = ground arith

pub +ℤ_parts :
    (i j : ℤ)
    → neg_part j + (neg_part i + pos_part (i +ℤ j)) ≡ pos_part j + (pos_part i + neg_part (i +ℤ j))
unfolding ◌+ℤ◌
+ℤ_parts i j = ground arith

pub -ℤ_parts :
    (i j : ℤ)
    → pos_part j + (neg_part i + pos_part (i -ℤ j)) ≡ neg_part j + (pos_part i + neg_part (i -ℤ j))
unfolding ◌-ℤ◌
-ℤ_parts i j = ground arith
