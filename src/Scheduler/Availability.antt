-- ===== src/Scheduler/Availability.antt =====
-- `_availability_detail_indexed`: whether one GPU is free for a request. `none` is `(True, "")`.
pub mod Segments
pub mod Spec
pub mod Earlier
use gpubk.Prelude.{
  ℕ, ◌+◌, ◌-◌, min, max, Bool, true, false, Option, none, some, List, [], ◌∷◌, ltb, leb, ◌==◌, ◌||◌,
  if◌then◌else◌, any,
}
use gpubk.Prelude.Ascending.{add, from_list, adjacent}
use gpubk.Models.{Instant, Mode, shared, exclusive, unsupported, Ledger, int, pos, is_exclusive}
use gpubk.Sharing.{Checked, accepted, refused, normalize_share_units, inferred_share_memory_mb}
use gpubk.ScheduleIndex.{ReservationIndex, overlapping, from_ledger}
use gpubk.ScheduleIndex.Spans.{ReservationSpan}
use gpubk.Scheduler.Reasons.{
  Reason, exclusive_conflict, has_shared, unsupported_mode, invalid_share, shared_capacity_full,
  shared_memory_full,
}
use gpubk.Scheduler.Loads.{or_default, shared_capacity_units_in_spans, shared_memory_in_spans}

-- What is asked of each GPU, and the limits that it is held to.
pub record Demand : Type 0 where
  pub mode : Mode
  pub max_shared_users : ℕ
  pub expected_memory_mb : Option ℕ
  pub gpu_memory_capacity_mb : Option (List (ℕ × ℕ))
  pub shared_memory_reserve_mb : ℕ
  pub share_units : ℕ

-- `capacities.get(gpu)`, with 0 for a missing key: the code tests it for truth only.
abbrev pub capacity_at : ℕ → List (ℕ × ℕ) → ℕ
capacity_at gpu [] = 0
capacity_at gpu ((key, value) ∷ rest) = if key == gpu then value else capacity_at gpu rest

-- `(gpu_memory_capacity_mb or {}).get(gpu)`
abbrev pub capacity_of : ℕ → Option (List (ℕ × ℕ)) → ℕ
capacity_of gpu none = 0
capacity_of gpu (some capacities) = capacity_at gpu capacities

abbrev pub is_exclusive_span : ReservationSpan → Bool
is_exclusive_span item = is_exclusive item.mode

-- `for item in relevant: points.add(…); points.add(…)`
abbrev pub add_points : Instant → Instant → List ReservationSpan → List ℕ → List ℕ
add_points start end [] points = points
add_points start end (item ∷ rest) points =
    add_points start end rest (add (min end item.end) (add (max start item.start) points))

abbrev pub points_of : Instant → Instant → List ReservationSpan → List ℕ
points_of start end relevant = add_points start end relevant (from_list (start ∷ end ∷ []))

module _ (relevant : List ReservationSpan) (gpu : ℕ) (d : Demand) (share_units : ℕ) where
  -- The test of the memory in one segment, where the capacity is known.
  abbrev memory_check : ℕ → Instant → Instant → Option Reason
  memory_check capacity left right =
      let usable = capacity - d.shared_memory_reserve_mb in
      let requested =
        or_default d.expected_memory_mb
          (inferred_share_memory_mb usable d.max_shared_users share_units) in
      let committed = shared_memory_in_spans relevant left right usable d.max_shared_users in
      if ltb usable requested || ltb usable (committed + requested)
      then some (shared_memory_full gpu requested (committed + requested) usable)
      else none

  -- The body of the loop over the segments.
  segment_check : Instant → Instant → Option Reason
  segment_check left right =
      let used_units = shared_capacity_units_in_spans relevant left right d.max_shared_users in
      let capacity = capacity_of gpu d.gpu_memory_capacity_mb in
      if leb right left
      then none
      else if ltb d.max_shared_users (used_units + share_units)
      then some (shared_capacity_full gpu share_units used_units d.max_shared_users)
      else if capacity == 0
      then none
      else memory_check capacity left right

  check_segments : List (ℕ × ℕ) → Option Reason
  check_segments [] = none
  check_segments ((left, right) ∷ rest) = elim (segment_check left right) [
    | some reason ↦ some reason
    | none ↦ check_segments rest
  ]

-- A shared request, once its share units are read.
shared_detail : List ReservationSpan → ℕ → Instant → Instant → Demand → Checked → Option Reason
shared_detail relevant gpu start end d (refused e) = some (invalid_share e)
shared_detail relevant gpu start end d (accepted share_units) =
    if any is_exclusive_span relevant
    then some (exclusive_conflict gpu)
    else check_segments relevant gpu d share_units (adjacent (points_of start end relevant))

exclusive_detail : List ReservationSpan → ℕ → Option Reason
exclusive_detail [] gpu = none
exclusive_detail (item ∷ rest) gpu =
    if any is_exclusive_span (item ∷ rest)
    then some (exclusive_conflict gpu)
    else some (has_shared gpu)

mode_detail : List ReservationSpan → ℕ → Instant → Instant → Demand → Mode → Option Reason
unfolding exclusive_detail shared_detail
mode_detail relevant gpu start end d exclusive = exclusive_detail relevant gpu
mode_detail relevant gpu start end d shared =
    shared_detail relevant gpu start end d
      (normalize_share_units (some (int (pos d.share_units))) d.max_shared_users)
mode_detail relevant gpu start end d (unsupported name) = some (unsupported_mode (unsupported name))

unfoldable pub availability_detail_indexed :
    ReservationIndex → ℕ → Instant → Instant → Demand → Option Reason
unfolding mode_detail check_segments segment_check
availability_detail_indexed index gpu start end d =
    mode_detail (overlapping index gpu start end) gpu start end d d.mode

unfoldable pub availability_detail : Ledger → ℕ → Instant → Instant → Demand → Option Reason
unfolding availability_detail_indexed
availability_detail ledger gpu start end d =
    availability_detail_indexed (from_ledger ledger start) gpu start end d
