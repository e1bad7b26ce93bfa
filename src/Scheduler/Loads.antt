-- ===== src/Scheduler/Loads.antt =====
-- What the shared spans of a GPU hold over a segment: units and memory.
use gpubk.Prelude.{ℕ, zero, suc, max, Bool, Option, none, some, List, ◌&&◌, ltb, select, sum_of}
use gpubk.Models.{Instant, is_shared}
use gpubk.Sharing.{reservation_share_units, inferred_share_memory_mb}
use gpubk.ScheduleIndex.Spans.{ReservationSpan}

abbrev pub overlaps : Instant → Instant → Instant → Instant → Bool
overlaps start_a end_a start_b end_b = ltb start_a end_b && ltb start_b end_a

-- `value or default`, for a number that may be missing
abbrev pub or_default : Option ℕ → ℕ → ℕ
or_default none default = default
or_default (some zero) default = default
or_default (some (suc n)) default = suc n

abbrev pub units_of : ℕ → ReservationSpan → ℕ
units_of max_shared_users item =
    reservation_share_units item.reservation.share_units max_shared_users

abbrev pub memory_of : ℕ → ℕ → ReservationSpan → ℕ
memory_of usable max_shared_users item = max 1 (
    or_default item.reservation.expected_memory_mb
      (inferred_share_memory_mb usable max_shared_users (units_of max_shared_users item)))

-- The shared items that overlap a segment.
abbrev pub shared_in : Instant → Instant → ReservationSpan → Bool
shared_in start end item = is_shared item.mode && overlaps start end item.start item.end

unfoldable pub shared_capacity_units_in_spans : List ReservationSpan → Instant → Instant → ℕ → ℕ
shared_capacity_units_in_spans reservations start end max_shared_users =
    sum_of (units_of max_shared_users) (select (shared_in start end) reservations)

unfoldable pub shared_memory_in_spans : List ReservationSpan → Instant → Instant → ℕ → ℕ → ℕ
shared_memory_in_spans reservations start end usable_memory_mb max_shared_users =
    sum_of (memory_of usable_memory_mb max_shared_users) (select (shared_in start end) reservations)
