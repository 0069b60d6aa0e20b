-- ===== src/Pair/Scanned.antt =====
-- What `scan_devices` keeps of the scanner's answer.
use flipper_agent_indicator.Prelude.{
  ◌≡◌, refl, ap, Bool-cases, inl, inr, false, List, [], ◌∷◌, Option, none, some, All,
}
use flipper_agent_indicator.Text.{Str, codes, is_empty}
use flipper_agent_indicator.Pair.{Device, Advert, name_or, scan_devices}

abbrev pub device_addresses : List Device → List Str
device_addresses [] = []
device_addresses (d ∷ ds) = d.address ∷ device_addresses ds

abbrev pub found_addresses : List Advert → List Str
found_addresses [] = []
found_addresses (a ∷ found) = a.address ∷ found_addresses found

abbrev pub IsNamed : Device → Type 0
IsNamed d = is_empty d.name ≡ false

name_or-eq-false :
    (name : Option Str) (default : Str)
    → is_empty default ≡ false
    → is_empty (name_or name default) ≡ false
unfolding name_or
name_or-eq-false none default h = h
name_or-eq-false (some s) default h = elim (Bool-cases (is_empty s)) [
  | inl e ↦ rw e h
  | inr e ↦ rw (e, e) refl
]

-- Every device that is found is listed once, in the order of the scan and with its address, and it has
-- a name that is not empty, whether or not the device advertises one.
pub scan_devices_lem :
    (found : List Advert)
    → (device_addresses (scan_devices found) ≡ found_addresses found)
      × All IsNamed (scan_devices found)
unfolding scan_devices
scan_devices_lem [] = (refl, tt)
scan_devices_lem (a ∷ found) =
    let (same, named) = scan_devices_lem found in
    (
      ap (λ l. a.address ∷ l) same,
      (
        name_or-eq-false a.device_name _ (name_or-eq-false a.local_name (codes "<unknown>") refl),
        named,
      ),
    )
