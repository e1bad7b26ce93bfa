-- ===== src/Scheduler/Availability/Spec.antt =====
-- When a GPU has room, stated instant by instant, and that the code decides it.
pub mod Exact
use gpubk.Prelude.{ℕ, ◌+◌, ◌-◌, ◌≤◌, ◌<◌, ◌≡◌, ◌⊎◌, false, List, [], select, sum_of, All}
use gpubk.Models.{Instant, Mode, shared, exclusive, unsupported}
use gpubk.Sharing.{inferred_share_memory_mb}
use gpubk.ScheduleIndex.Spans.{ReservationSpan}
use gpubk.Scheduler.Loads.{or_default, units_of, memory_of}
use gpubk.Scheduler.Availability.{Demand, capacity_of, is_exclusive_span}
use gpubk.Scheduler.Availability.Segments.{shared_at}

-- The share units that the given spans hold at an instant.
abbrev pub units_at : List ReservationSpan → ℕ → Instant → ℕ
units_at relevant max_shared_users t =
    sum_of (units_of max_shared_users) (select (shared_at t) relevant)

-- The memory that the given spans hold at an instant.
abbrev pub memory_at : List ReservationSpan → ℕ → ℕ → Instant → ℕ
memory_at relevant usable max_shared_users t =
    sum_of (memory_of usable max_shared_users) (select (shared_at t) relevant)

abbrev pub usable_of : ℕ → Demand → ℕ
usable_of gpu d = capacity_of gpu d.gpu_memory_capacity_mb - d.shared_memory_reserve_mb

abbrev pub requested_of : ℕ → Demand → ℕ
requested_of gpu d =
    or_default d.expected_memory_mb
      (inferred_share_memory_mb (usable_of gpu d) d.max_shared_users d.share_units)

-- At this instant the units fit, and so does the memory where the capacity is known.
pub record RoomAt (relevant : List ReservationSpan) (gpu : ℕ) (d : Demand) (t : Instant)
    : Type 0 where
  pub units : units_at relevant d.max_shared_users t + d.share_units ≤ d.max_shared_users
  pub memory :
      (capacity_of gpu d.gpu_memory_capacity_mb ≡ 0)
      ⊎ (memory_at relevant (usable_of gpu d) d.max_shared_users t + requested_of gpu d
          ≤ usable_of gpu d)

pub record SharedFits (relevant : List ReservationSpan) (gpu : ℕ) (start end : Instant) (d : Demand)
    : Type 0 where
  pub asked : 1 ≤ d.share_units
  pub no_exclusive : All (λ item. is_exclusive_span item ≡ false) relevant
  pub room : (t : Instant) → start ≤ t → t < end → RoomAt relevant gpu d t

-- A request of the given mode fits beside the spans that overlap its interval.
abbrev pub Fits : List ReservationSpan → ℕ → Instant → Instant → Demand → Mode → Type 0
Fits relevant gpu start end d exclusive = relevant ≡ []
Fits relevant gpu start end d shared = SharedFits relevant gpu start end d
Fits relevant gpu start end d (unsupported name) = ⊥
