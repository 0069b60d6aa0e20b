-- ===== src/Pair/Tests.antt =====
-- Choices among scanned devices, and the theorems at them.
use mathlib.Core.List.{Perm}
use flipper_agent_indicator.Prelude.{
  ℕ, ◌≡◌, ◌<◌, ◌↔◌, ◌+◌, ◌&&◌, refl, List, [], ◌∷◌, none, some, leb, if◌then◌else◌, length,
  get_elem?,
}
use flipper_agent_indicator.Prelude.Int.{pos}
use flipper_agent_indicator.Text.{Str, codes}
use flipper_agent_indicator.Pair.{
  Advert, Device, invalid_selection, saves, pair, ranked, insert, less, less_str, score, has_marker,
  occurs, join_spaced, select, choose, item, pred,
}
use flipper_agent_indicator.Pair.Groups.{IsGrouped, ranked-Perm_IsGrouped}
use flipper_agent_indicator.Pair.Selection.{Selects, pair-saves_iff}

-- `str.lower` on ASCII.
abbrev lower : Str → Str
lower [] = []
lower (c ∷ cs) = (if leb 0x41 c && leb c 0x5A then c + 0x20 else c) ∷ lower cs

abbrev device : Str → Str → List Str → Device
device name address uuids = record { name = name; address = address; uuids = uuids }

abbrev lamp : Device
lamp = device (codes "Lamp") (codes "L") []

abbrev clock : Device
clock = device (codes "clock") (codes "C") []

abbrev flipper : Device
flipper = device (codes "<unknown>") (codes "F") (codes "8FE5B3D5-0000" ∷ [])

abbrev found : List Device
found = lamp ∷ flipper ∷ clock ∷ []

-- The Flipper comes first, and upper case does not matter to the order of the others.
order : ranked lower found ≡ flipper ∷ clock ∷ lamp ∷ []
unfolding ranked insert less less_str score has_marker occurs join_spaced
order = refl

-- 1 is the Flipper; 0 is taken as the last device; 4 is refused.
choices :
    (pair lower found (some (pos 1)) ≡ saves (codes "F"))
    × (pair lower found (some (pos 0)) ≡ saves (codes "L"))
    × (pair lower found (some (pos 4)) ≡ invalid_selection)
    × (pair lower found none ≡ invalid_selection)
unfolding pair select choose item pred ranked insert less less_str score has_marker occurs
    join_spaced
choices = (refl, refl, refl, refl)

ranked-Perm_IsGrouped_example :
    Perm (ranked lower found) found × IsGrouped lower (ranked lower found)
ranked-Perm_IsGrouped_example = ranked-Perm_IsGrouped lower found

pair-saves_iff_example : (pair lower found (some (pos 0)) ≡ saves (codes "L")) ↔ (
    (d : Device) × (k : ℕ) × (k < length found)
    × (get_elem? (ranked lower found) k ≡ some d)
    × Selects (length found) (pos 0) k
    × (d.address ≡ codes "L"))
pair-saves_iff_example = pair-saves_iff lower found (pos 0) (codes "L")

-- A device without a name, and one whose name is empty.
abbrev adverts : List Advert
adverts =
    record { address = codes "F"; device_name = none; local_name = none; service_uuids = none }
    ∷ record {
      address = codes "L";
      device_name = some [];
      local_name = some (codes "Lamp");
      service_uuids = some [];
    }
    ∷ []
