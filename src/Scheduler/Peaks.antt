-- ===== src/Scheduler/Peaks.antt =====
-- The peaks of sharing that a reservation sees: shared records and share units.
pub mod Points
pub mod Limit
use gpubk.Prelude.{
  ℕ, suc, ◌+◌, ◌-◌, ◌*◌, max, min, Bool, Option, none, some, List, [], ◌∷◌, leb, ltb, ◌==◌, ◌&&◌,
  any, if◌then◌else◌, elem, select, sum_of, length, not,
}
use gpubk.Prelude.Ascending.{add, adjacent}
use gpubk.Models.{Instant, Reservation, is_shared}
use gpubk.Sharing.{reservation_share_units, inferred_share_memory_mb}
use gpubk.Scheduler.Loads.{overlaps, or_default}

-- A shared item that overlaps a segment.
abbrev pub shared_in_segment : Instant → Instant → Reservation → Bool
shared_in_segment start end item =
    is_shared item.mode && overlaps start end item.start_at item.end_at

unfoldable pub shared_record_count_for_gpu : List Reservation → ℕ → Instant → Instant → ℕ
shared_record_count_for_gpu reservations gpu start end =
    length (select (shared_in_segment start end) (select (λ item. elem gpu item.gpus) reservations))

unfoldable pub shared_capacity_units_for_gpu : List Reservation → ℕ → Instant → Instant → ℕ → ℕ
shared_capacity_units_for_gpu reservations gpu start end max_shared_users =
    sum_of (λ item. reservation_share_units item.share_units max_shared_users)
      (select (shared_in_segment start end) (select (λ item. elem gpu item.gpus) reservations))

-- A shared item on a GPU of the reservation, during it.
abbrev pub meets : Reservation → Reservation → Bool
meets r item =
    is_shared item.mode
    && (any (λ gpu. elem gpu r.gpus) item.gpus
        && overlaps r.start_at r.end_at item.start_at item.end_at)

unfoldable pub points_from : List Reservation → Reservation → List ℕ → List ℕ
points_from [] r points = points
points_from (item ∷ rest) r points = points_from rest r (
    if meets r item
    then add (max r.start_at item.start_at) (add (min r.end_at item.end_at) points)
    else points)

abbrev pub points_during : List Reservation → Reservation → List ℕ
points_during reservations r = points_from reservations r (add r.start_at (add r.end_at []))

-- The greatest load over the GPUs and the segments.
unfoldable pub gpus_peak : (ℕ → Instant → Instant → ℕ) → List ℕ → Instant → Instant → ℕ
gpus_peak load [] left right = 0
gpus_peak load (gpu ∷ rest) left right = max (load gpu left right) (gpus_peak load rest left right)

unfoldable pub segments_peak : (ℕ → Instant → Instant → ℕ) → List ℕ → List (ℕ × ℕ) → ℕ
unfolding gpus_peak
segments_peak load gpus [] = 0
segments_peak load gpus ((left, right) ∷ rest) =
    let others = segments_peak load gpus rest in
    if leb right left then others else max (gpus_peak load gpus left right) others

unfoldable pub max_shared_record_count_for_reservation : List Reservation → Reservation → ℕ
unfolding segments_peak points_from shared_record_count_for_gpu
max_shared_record_count_for_reservation reservations r =
    if not (is_shared r.mode)
    then 0
    else segments_peak (shared_record_count_for_gpu reservations) r.gpus
        (adjacent (points_during reservations r))

unfoldable pub max_shared_capacity_units_for_reservation : List Reservation → Reservation → ℕ → ℕ
unfolding segments_peak points_from shared_capacity_units_for_gpu
max_shared_capacity_units_for_reservation reservations r max_shared_users =
    if not (is_shared r.mode)
    then 0
    else segments_peak
        (λ gpu left right.
          shared_capacity_units_for_gpu reservations gpu left right max_shared_users)
        r.gpus (adjacent (points_during reservations r))
