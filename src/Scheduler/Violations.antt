-- ===== src/Scheduler/Violations.antt =====
-- `find_policy_violations`: the audit of the active reservations.
pub mod Segments
pub mod Apart
pub mod Complete
use gpubk.Prelude.{
  ℕ, ◌+◌, max, min, String, Bool, true, false, not, Option, none, some, List, [], ◌∷◌, ◌++◌, map,
  ltb, leb, ◌==◌, ◌&&◌, ◌||◌, if◌then◌else◌, elem, select, sum_of, length,
}
use gpubk.Prelude.Ascending.{add, from_list, adjacent}
use gpubk.Models.{Instant, Value, Reservation, Ledger, is_shared, is_exclusive}
use gpubk.Sharing.{
  ShareError, Checked, accepted, refused, normalize_share_units, reservation_share_units,
}
use gpubk.ScheduleIndex.{from_ledger, records}
use gpubk.Scheduler.Loads.{overlaps}

pub data Violation : Type 0 where
  invalid_share_units :
      (reservation_id : String) (share_units : Option Value) (start_at end_at : Instant)
      (message : ShareError)
      → Violation
  exclusive_overlap :
      (gpu : ℕ) (left_id right_id : String)
      (left_start_at left_end_at right_start_at right_end_at start_at end_at : Instant)
      → Violation
  shared_capacity :
      (gpu count used_units limit : ℕ) (reservation_ids : List String) (start_at end_at : Instant)
      → Violation

unfoldable pub list_active : Ledger → Instant → List Reservation
list_active ledger now = records (from_ledger ledger now)

-- A reservation without the key `share_units` is passed over.
unfoldable pub share_violation : Reservation → ℕ → List Violation
share_violation r max_shared_users = elim r.share_units [
  | none ↦ []
  | some units ↦ elim (normalize_share_units (some units) max_shared_users) [
    | accepted n ↦ []
    | refused e ↦ invalid_share_units r.id (some units) r.start_at r.end_at e ∷ []
  ]
]

unfoldable pub find_invalid_share_unit_violations : List Reservation → ℕ → List Violation
unfolding share_violation
find_invalid_share_unit_violations [] max_shared_users = []
find_invalid_share_unit_violations (r ∷ rest) max_shared_users =
    (if is_shared r.mode then share_violation r max_shared_users else [])
    ++ find_invalid_share_unit_violations rest max_shared_users

-- One entry for each GPU of both.
abbrev pub overlap_of : Reservation → Reservation → ℕ → Violation
overlap_of left right gpu =
    exclusive_overlap gpu left.id right.id left.start_at left.end_at right.start_at right.end_at
      (max left.start_at right.start_at) (min left.end_at right.end_at)

unfoldable pub pair_violations : Reservation → Reservation → List Violation
pair_violations left right =
    if not (is_exclusive left.mode) && not (is_exclusive right.mode)
    then []
    else if not (overlaps left.start_at left.end_at right.start_at right.end_at)
    then []
    else map (overlap_of left right) (select (λ gpu. elem gpu right.gpus) (from_list left.gpus))

unfoldable pub left_violations : Reservation → List Reservation → List Violation
unfolding pair_violations
left_violations left [] = []
left_violations left (right ∷ rest) = pair_violations left right ++ left_violations left rest

unfoldable pub find_exclusive_overlap_violations : List Reservation → List Violation
unfolding left_violations
find_exclusive_overlap_violations [] = []
find_exclusive_overlap_violations (left ∷ rest) =
    left_violations left rest ++ find_exclusive_overlap_violations rest

-- The shared reservations of a GPU, and their starts and ends.
abbrev pub shared_on : ℕ → List Reservation → List Reservation
shared_on gpu active = select (λ r. is_shared r.mode && elem gpu r.gpus) active

unfoldable pub times_of : List Reservation → List ℕ
times_of [] = []
times_of (r ∷ rest) = add r.start_at (add r.end_at (times_of rest))

abbrev pub within_segment : Instant → Instant → List Reservation → List Reservation
within_segment left right shared = select (λ r. overlaps left right r.start_at r.end_at) shared

abbrev pub units_in : ℕ → List Reservation → ℕ
units_in max_shared_users rs =
    sum_of (λ r. reservation_share_units r.share_units max_shared_users) rs

unfoldable pub segment_violations : ℕ → List Reservation → ℕ → List (ℕ × ℕ) → List Violation
segment_violations gpu shared limit [] = []
segment_violations gpu shared limit ((left, right) ∷ rest) =
    let overlapping = within_segment left right shared in
    let used_units = units_in limit overlapping in
    (if leb right left || leb used_units limit
      then []
      else shared_capacity gpu (length overlapping) used_units limit (map (λ r. r.id) overlapping)
          left right
        ∷ [])
    ++ segment_violations gpu shared limit rest

unfoldable pub named_gpus : List Reservation → List ℕ
named_gpus [] = []
named_gpus (r ∷ rest) = r.gpus ++ named_gpus rest

unfoldable pub capacity_violations : List ℕ → List Reservation → ℕ → List Violation
unfolding segment_violations times_of
capacity_violations [] active limit = []
capacity_violations (gpu ∷ rest) active limit =
    segment_violations gpu (shared_on gpu active) limit (adjacent (times_of (shared_on gpu active)))
    ++ capacity_violations rest active limit

unfoldable pub find_shared_capacity_violations : List Reservation → ℕ → List Violation
unfolding capacity_violations named_gpus
find_shared_capacity_violations active max_shared_users =
    capacity_violations (from_list (named_gpus active)) active max_shared_users

-- The key of the sort: the start, the GPU or -1, and the type by its name.
abbrev pub starts_at : Violation → Instant
starts_at (invalid_share_units id units start end e) = start
starts_at (exclusive_overlap gpu l r ls le rs re start end) = start
starts_at (shared_capacity gpu n used limit ids start end) = start

abbrev pub gpu_key : Violation → ℕ
gpu_key (invalid_share_units id units start end e) = 0
gpu_key (exclusive_overlap gpu l r ls le rs re start end) = gpu + 1
gpu_key (shared_capacity gpu n used limit ids start end) = gpu + 1

abbrev pub type_key : Violation → ℕ
type_key (exclusive_overlap gpu l r ls le rs re start end) = 0
type_key (invalid_share_units id units start end e) = 1
type_key (shared_capacity gpu n used limit ids start end) = 2

unfoldable pub violation_before : Violation → Violation → Bool
violation_before a b =
    ltb (starts_at a) (starts_at b)
    || (starts_at a == starts_at b
        && (ltb (gpu_key a) (gpu_key b)
            || (gpu_key a == gpu_key b && ltb (type_key a) (type_key b))))

unfoldable pub insert_violation : Violation → List Violation → List Violation
unfolding violation_before
insert_violation x [] = x ∷ []
insert_violation x (y ∷ ys) =
    let rest = insert_violation x ys in if violation_before y x then y ∷ rest else x ∷ y ∷ ys

unfoldable pub sorted_violations : List Violation → List Violation
unfolding insert_violation
sorted_violations [] = []
sorted_violations (x ∷ xs) = insert_violation x (sorted_violations xs)

unfoldable pub find_policy_violations : Ledger → ℕ → Instant → List Violation
unfolding list_active find_invalid_share_unit_violations find_exclusive_overlap_violations
    find_shared_capacity_violations sorted_violations
find_policy_violations ledger max_shared_users now =
    let active = list_active ledger now in
    sorted_violations (
      find_invalid_share_unit_violations active max_shared_users
      ++ (find_exclusive_overlap_violations active
          ++ find_shared_capacity_violations active max_shared_users))
