-- ===== src/Pair.antt =====
-- The command `flipper-indicator pair` of daemon/flipper_indicator/cli.py, with `scan_devices` of ble.py: the order in which the
-- scanned devices are shown, and the choice of one by its number. `lower` is `str.lower`, whose table
-- of Unicode is an argument; the answer of the prompt is what `int` makes of it, `none` where `int`
-- raises `ValueError`.
pub mod Ranking
pub mod Markers
pub mod Groups
pub mod Selection
pub mod Scanned
mod Tests
use flipper_agent_indicator.Prelude.{
  ℕ, zero, suc, ◌-◌, Bool, true, false, ◌||◌, List, [], ◌∷◌, ◌++◌, Option, none, some, ltb, leb,
  ◌==◌, if◌then◌else◌, length, get_elem?,
}
use flipper_agent_indicator.Prelude.Int.{ℤ, pos, negsuc}
use flipper_agent_indicator.Text.{Str, codes, starts_with, is_empty}

-- An entry of `scan_devices`.
pub record Device : Type 0 where
  pub name : Str
  pub address : Str
  pub uuids : List Str

-- An entry of what the scanner found: `None` is `none`.
pub record Advert : Type 0 where
  pub address : Str
  pub device_name : Option Str
  pub local_name : Option Str
  pub service_uuids : Option (List Str)

-- name or default, where an empty text is false too
unfoldable pub name_or : Option Str → Str → Str
name_or none default = default
name_or (some s) default = if is_empty s then default else s

-- list(uuids or [])
unfoldable pub list_or_empty : Option (List Str) → List Str
list_or_empty none = []
list_or_empty (some l) = l

-- `scan_devices`, of ble.py, over what the scanner found
unfoldable pub scan_devices : List Advert → List Device
unfolding name_or list_or_empty
scan_devices [] = []
scan_devices (a ∷ found) =
    record {
      name = name_or a.device_name (name_or a.local_name (codes "<unknown>"));
      address = a.address;
      uuids = list_or_empty a.service_uuids;
    }
    ∷ scan_devices found

-- " ".join(texts)
unfoldable pub join_spaced : List Str → Str
join_spaced [] = []
join_spaced (t ∷ []) = t
join_spaced (t ∷ u ∷ ts) = t ++ b' ' ∷ join_spaced (u ∷ ts)

-- part in text
unfoldable pub occurs : Str → Str → Bool
occurs part [] = starts_with [] part
occurs part (c ∷ cs) = starts_with (c ∷ cs) part || occurs part cs

unfoldable pub has_marker : Str → Bool
unfolding occurs
has_marker blob =
    occurs (codes "8fe5b3d5") blob || occurs (codes "fff0") blob || occurs (codes "flipper") blob

-- The tuple that `score` returns.
pub record Score : Type 0 where
  pub group : ℕ
  pub shown : Str

unfoldable pub score : (Str → Str) → Device → Score
unfolding has_marker join_spaced
score lower d =
    let blob = lower (join_spaced (d.uuids ++ d.name ∷ [])) in
    record { group = if has_marker blob then 0 else 1; shown = lower d.name }

-- s < t, by code points
unfoldable pub less_str : Str → Str → Bool
less_str s [] = false
less_str [] (y ∷ ys) = true
less_str (x ∷ xs) (y ∷ ys) =
    let rest = less_str xs ys in if ltb x y then true else if ltb y x then false else rest

-- a < b on the tuples
unfoldable pub less : Score → Score → Bool
less a b =
    if ltb a.group b.group
    then true
    else if ltb b.group a.group
    then false
    else less_str a.shown b.shown

-- `devices.sort(key=score)`, as an insertion sort: stable, and by `<` alone.
unfoldable pub insert : (Str → Str) → Device → List Device → List Device
insert lower d [] = d ∷ []
insert lower d (e ∷ es) =
    let rest = insert lower d es in
    if less (score lower e) (score lower d) then e ∷ rest else d ∷ e ∷ es

unfoldable pub ranked : (Str → Str) → List Device → List Device
unfolding insert
ranked lower [] = []
ranked lower (d ∷ ds) = insert lower d (ranked lower ds)

-- int(raw) - 1
unfoldable pub pred : ℤ → ℤ
pred (pos zero) = negsuc 0
pred (pos (suc n)) = pos n
pred (negsuc n) = negsuc (suc n)

-- devices[idx]: a negative index counts from the end; `none` is an `IndexError`.
unfoldable pub item : List Device → ℤ → Option Device
item ds (pos n) = get_elem? ds n
item ds (negsuc n) = if leb (suc n) (length ds) then get_elem? ds (length ds - suc n) else none

-- How the command ends: with status 1 and a message, or with the address for `save_mac`.
pub data Outcome : Type 0 where
  no_devices invalid_selection : Outcome
  saves : Str → Outcome

unfoldable pub choose : Option Device → Outcome
choose none = invalid_selection
choose (some d) = saves d.address

unfoldable pub select : List Device → Option ℤ → Outcome
unfolding pred item choose
select ds none = invalid_selection
select ds (some z) = choose (item ds (pred z))

-- `pair`: without devices nothing is asked.
unfoldable pub pair : (Str → Str) → List Device → Option ℤ → Outcome
unfolding ranked select
pair lower [] answer = no_devices
pair lower (d ∷ ds) answer = select (ranked lower (d ∷ ds)) answer
