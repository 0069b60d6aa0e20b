-- ===== src/Pair/Selection.antt =====
-- Which device a number of the prompt selects.
use flipper_agent_indicator.Prelude.{
  ℕ, zero, suc, ◌-◌, ◌≡◌, ◌<◌, ◌⊎◌, ◌↔◌, refl, sym, ap, subst, Option-cases, inl, inr, List, [],
  ◌∷◌, some, length, arith, leb, leb→le, le→leb, get_elem?, get_elem?-lt, Bool-cases,
}
use flipper_agent_indicator.Prelude.Int.{ℤ, pos, negsuc}
use flipper_agent_indicator.Text.{Str}
use flipper_agent_indicator.Pair.{Device, pred, item, select, saves, choose, pair, ranked}
use flipper_agent_indicator.Pair.Ranking.{length-ranked}

-- -n
abbrev pub neg : ℕ → ℤ
neg zero = pos zero
neg (suc n) = negsuc n

-- The two numbers that select the device shown in the place `k` of `n`, counted from 0.
abbrev pub Selects : ℕ → ℤ → ℕ → Type 0
Selects n z k = (z ≡ pos (suc k)) ⊎ (z ≡ neg (n - suc k))

item_end :
    (ds : List Device) (n : ℕ) {d : Device}
    → item ds (negsuc n) ≡ some d
    → (n < length ds) × (get_elem? ds (length ds - suc n) ≡ some d)
unfolding item
item_end ds n h = elim (Bool-cases (leb (suc n) (length ds))) [
  | inl e ↦ (leb→le _ _ e, rw (e, item) at h)
  | inr e ↦ cc (rw (e, item) at h)
]

item-pred-some :
    (ds : List Device) (z : ℤ) {d : Device}
    → item ds (pred z) ≡ some d
    → (k : ℕ) × (k < length ds) × (get_elem? ds k ≡ some d) × Selects (length ds) z k
unfolding item pred
item-pred-some ds (pos zero) h =
    let (lt, e) = item_end ds 0 h in
    let none_behind : length ds - suc (length ds - 1) ≡ 0 = omega arith in
    (length ds - 1, omega arith, e, inr (sym (ap neg none_behind)))
item-pred-some ds (pos (suc n)) h = (n, get_elem?-lt ds n h, h, inl refl)
item-pred-some ds (negsuc n) h =
    let (lt, e) = item_end ds (suc n) h in
    let behind : length ds - suc (length ds - suc (suc n)) ≡ suc n = omega arith in
    (length ds - suc (suc n), omega arith, e, inr (sym (ap neg behind)))

pred-neg : (m : ℕ) → pred (neg m) ≡ negsuc m
unfolding pred
pred-neg zero = refl
pred-neg (suc m) = refl

item-pred-Selects :
    (ds : List Device) (z : ℤ) (k : ℕ)
    → k < length ds
    → Selects (length ds) z k
    → item ds (pred z) ≡ get_elem? ds k
unfolding item pred
item-pred-Selects ds z k lt (inl e) = rw e refl
item-pred-Selects ds z k lt (inr e) =
    rw (e, pred-neg (length ds - suc k), le→leb (suc (length ds - suc k)) (length ds) (omega arith))
      (ap (get_elem? ds) (omega arith))

select-saves_iff :
    (ds : List Device) (z : ℤ) (address : Str)
    → (select ds (some z) ≡ saves address) ↔ (
        (d : Device) × (k : ℕ) × (k < length ds)
        × (get_elem? ds k ≡ some d)
        × Selects (length ds) z k
        × (d.address ≡ address))
unfolding select choose
select-saves_iff ds z address = (
  λ h. elim (Option-cases (item ds (pred z))) [
    | inl e ↦ cc (rw (e, select, choose) at h)
    | inr (d, e) ↦
        (let (k, lt, at_k, sel) = item-pred-some ds z e in
          (d, k, lt, at_k, sel, cc (rw (e, select, choose) at h)))
  ],
  λ (d, k, lt, at_k, sel, e). rw (item-pred-Selects ds z k lt sel, at_k) (ap saves e),
)

-- A number saves an address exactly if it selects the place of a shown device with that address: it
-- is the number shown before that device, or counts it from the end, where 0 is the last device, -1
-- the one before, and so on; every other number is refused.
pub pair-saves_iff :
    (lower : Str → Str) (ds : List Device) (z : ℤ) (address : Str)
    → (pair lower ds (some z) ≡ saves address) ↔ (
        (d : Device) × (k : ℕ) × (k < length ds)
        × (get_elem? (ranked lower ds) k ≡ some d)
        × Selects (length ds) z k
        × (d.address ≡ address))
unfolding pair
pair-saves_iff lower [] z address = (λ h. cc, λ (d, k, lt, at_k, sel, e). absurd (omega arith))
pair-saves_iff lower (d ∷ ds) z address =
    subst
      (λ n. (pair lower (d ∷ ds) (some z) ≡ saves address) ↔ (
        (e : Device) × (k : ℕ) × (k < n)
        × (get_elem? (ranked lower (d ∷ ds)) k ≡ some e)
        × Selects n z k
        × (e.address ≡ address)))
      (length-ranked lower (d ∷ ds)) (select-saves_iff (ranked lower (d ∷ ds)) z address)
