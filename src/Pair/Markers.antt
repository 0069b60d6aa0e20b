-- ===== src/Pair/Markers.antt =====
-- What it means for a device that `score` finds a marker.
use flipper_agent_indicator.Prelude.{
  ◌≡◌, ◌↔◌, ◌⊎◌, inl, inr, refl, ap, ◌∙◌, Bool, true, false, Bool-cases, ◌||◌, [], ◌∷◌, ◌++◌,
}
use flipper_agent_indicator.Text.{Str, codes, starts_with}
use flipper_agent_indicator.Text.Laws.{starts_with_iff}
use flipper_agent_indicator.Prelude.{or_iff}
use flipper_agent_indicator.Pair.{Device, occurs, has_marker, join_spaced}

-- A text stands in another one.
abbrev pub IsIn : Str → Str → Type 0
IsIn part text = (front : Str) × (back : Str) × (text ≡ front ++ (part ++ back))

-- One of the three markers stands in the lower-cased text of the services and the name.
abbrev pub IsMarked : (Str → Str) → Device → Type 0
IsMarked lower d =
    let text = lower (join_spaced (d.uuids ++ d.name ∷ [])) in
    IsIn (codes "8fe5b3d5") text ⊎ (IsIn (codes "fff0") text ⊎ IsIn (codes "flipper") text)

occurs-IsIn : (part text : Str) → occurs part text ≡ true → IsIn part text
unfolding occurs
occurs-IsIn part [] h = let (back, e) = (starts_with_iff [] part).0 h in ([], back, e)
occurs-IsIn part (c ∷ cs) h = elim (Bool-cases (starts_with (c ∷ cs) part)) [
  | inl e ↦ let (back, same) = (starts_with_iff (c ∷ cs) part).0 e in ([], back, same)
  | inr e ↦
      (let (front, back, same) = occurs-IsIn part cs (rw e at h) in
        (c ∷ front, back, ap (λ t. c ∷ t) same))
]

occurs_starts : (part text : Str) → starts_with text part ≡ true → occurs part text ≡ true
unfolding occurs
occurs_starts part [] h = h
occurs_starts part (c ∷ cs) h = rw h refl

or_true : (b : Bool) → (b || true) ≡ true
or_true true = refl
or_true false = refl

occurs-append : (part front back : Str) → occurs part (front ++ (part ++ back)) ≡ true
unfolding occurs
occurs-append part [] back =
    occurs_starts part (part ++ back) ((starts_with_iff (part ++ back) part).1 (back, refl))
occurs-append part (c ∷ front) back = rw (occurs-append part front back) (or_true _)

occurs_iff : (part text : Str) → (occurs part text ≡ true) ↔ IsIn part text
occurs_iff part text =
    (occurs-IsIn part text, λ (front, back, e). ap (occurs part) e ∙ occurs-append part front back)

pub marker_iff :
    (text : Str)
    → (has_marker text ≡ true)
      ↔ (IsIn (codes "8fe5b3d5") text ⊎ (IsIn (codes "fff0") text ⊎ IsIn (codes "flipper") text))
unfolding has_marker
marker_iff text =
    let (to, from) =
      or_iff (occurs (codes "8fe5b3d5") text || occurs (codes "fff0") text)
        (occurs (codes "flipper") text) in
    let (to', from') = or_iff (occurs (codes "8fe5b3d5") text) (occurs (codes "fff0") text) in
    let (old, old') = occurs_iff (codes "8fe5b3d5") text in
    let (short, short') = occurs_iff (codes "fff0") text in
    let (word, word') = occurs_iff (codes "flipper") text in
    (
      λ h. elim (to h) [
        | inl e ↦ elim (to' e) [ inl x ↦ inl (old x) | inr x ↦ inr (inl (short x)) ]
        | inr e ↦ inr (inr (word e))
      ],
      λ h. elim h [
        | inl e ↦ from (inl (from' (inl (old' e))))
        | inr e ↦ elim e [
          | inl x ↦ from (inl (from' (inr (short' x))))
          | inr x ↦ from (inr (word' x))
        ]
      ],
    )
