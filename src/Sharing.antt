-- ===== src/Sharing.antt =====
-- src/bk/sharing.py: shares of a GPU. A ValueError is the `refused` of its message. Text is read by
-- its ASCII digits and white space.
pub mod Units
pub mod Numerals
use gpubk.Prelude.{ℕ, ◌-◌, ◌*◌, ◌/◌, max, Option, none, some, ltb, leb, if◌then◌else◌, ◌||◌}
use gpubk.Models.{ℤ, pos, negsuc, Value, null, bool, int, str, other}
use gpubk.Sharing.Numerals.{parse_int}

pub data ShareError : Type 0 where
  not_whole_number : ShareError
  not_whole_between : (capacity_units : ℕ) → ShareError
  outside_capacity : (capacity_units : ℕ) → ShareError

pub data Checked : Type 0 where
  accepted : ℕ → Checked
  refused : ShareError → Checked

abbrev pub default_share_units : ℕ
default_share_units = 1

-- `none` is the ValueError.
unfoldable pub whole_number : Value → Option ℤ
whole_number (bool b) = none
whole_number (int n) = some n
whole_number (str text) = parse_int text
whole_number _ = none

-- `units < 1 or units > capacity_units`
bounded : ℤ → ℕ → Checked
bounded (negsuc n) capacity_units = refused (outside_capacity capacity_units)
bounded (pos n) capacity_units =
    if ltb n 1 || ltb capacity_units n
    then refused (outside_capacity capacity_units)
    else accepted n

parsed : Option ℤ → ℕ → Checked
unfolding bounded
parsed none capacity_units = refused not_whole_number
parsed (some units) capacity_units = bounded units capacity_units

unfoldable pub normalize_share_units : Option Value → ℕ → Checked
unfolding parsed whole_number
normalize_share_units none capacity_units = bounded (pos default_share_units) capacity_units
normalize_share_units (some null) capacity_units = bounded (pos default_share_units) capacity_units
normalize_share_units (some value) capacity_units = parsed (whole_number value) capacity_units

-- A text or number from the command line.
unfoldable pub parse_share_units : Value → ℕ → Checked
unfolding parsed whole_number
parse_share_units value capacity_units = elim (whole_number value) [
  | none ↦ refused (not_whole_between capacity_units)
  | some units ↦ bounded units capacity_units
]

stored_units : Option ℤ → ℕ → ℕ
stored_units none capacity_units = max 1 capacity_units
stored_units (some (negsuc n)) capacity_units = max 1 capacity_units
stored_units (some (pos n)) capacity_units = if ltb n 1 then max 1 capacity_units else n

-- The units of a stored reservation, from the value under its `share_units` key.
unfoldable pub reservation_share_units : Option Value → ℕ → ℕ
unfolding stored_units whole_number
reservation_share_units none capacity_units = default_share_units
reservation_share_units (some raw) capacity_units = stored_units (whole_number raw) capacity_units

-- The number in the text of `share_example`.
unfoldable pub share_example : ℕ → ℕ
share_example capacity_units = if leb capacity_units 1 then 1 else capacity_units - 1

unfoldable pub inferred_share_memory_mb : ℕ → ℕ → ℕ → ℕ
inferred_share_memory_mb usable_memory_mb capacity_units share_units =
    max 1 (usable_memory_mb * share_units / max 1 capacity_units)
