-- ===== src/Granularity.antt =====
-- src/bk/granularity.py: booking slots. An instant is a whole number of seconds in UTC, so that
-- `math.floor(timestamp())` is the instant itself.
pub mod Slots
use gpubk.Prelude.{
  ℕ, ◌+◌, ◌-◌, ◌*◌, ◌%◌, Bool, Option, none, some, List, [], ◌∷◌, ◌==◌, if◌then◌else◌, elem,
}
use gpubk.Models.{Instant}

abbrev pub default_slot_minutes : ℕ
default_slot_minutes = 5

-- The numbers from 1 to 60 that divide 60.
abbrev pub valid_slot_minutes : List ℕ
valid_slot_minutes = 1 ∷ 2 ∷ 3 ∷ 4 ∷ 5 ∷ 6 ∷ 10 ∷ 12 ∷ 15 ∷ 20 ∷ 30 ∷ 60 ∷ []

-- `none` is the ValueError.
unfoldable pub validate_slot_minutes : ℕ → Option ℕ
validate_slot_minutes parsed = if elem parsed valid_slot_minutes then some parsed else none

-- For a `slot_minutes` that `validate_slot_minutes` accepts.
abbrev pub slot_seconds : ℕ → ℕ
slot_seconds slot_minutes = slot_minutes * 60

unfoldable pub floor_to_slot : Instant → ℕ → Instant
floor_to_slot timestamp slot_minutes = timestamp - timestamp % slot_seconds slot_minutes

unfoldable pub ceil_to_slot : Instant → ℕ → Instant
unfolding floor_to_slot
ceil_to_slot value slot_minutes =
    let floored = floor_to_slot value slot_minutes in
    if value == floored then floored else floored + slot_minutes * 60

unfoldable pub is_slot_aligned : Instant → ℕ → Bool
unfolding floor_to_slot
is_slot_aligned value slot_minutes = value == floor_to_slot value slot_minutes
