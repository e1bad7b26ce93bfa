-- ===== src/Scheduler/Occupancy.antt =====
-- Who holds a GPU at an instant, by a ledger's reservations, and what a sound ledger never has: an
-- exclusive reservation beside another, or more share units than the limit.
pub mod Indexed
pub mod Fewer
pub mod Thins
pub mod Tidy
pub mod Added
pub mod Replaced
pub mod Edits
pub mod Written
pub mod Extended
pub mod Moved
pub mod Cases
pub mod Rewritten
pub mod Relocated
pub mod Edited
pub mod Writes
pub mod Booked
pub mod Administrator
pub mod Reach
use gpubk.Prelude.{
  ℕ, ◌≤◌, ◌<◌, ◌≡◌, ◌⊎◌, Bool, true, Option, List, leb, ltb, ◌&&◌, if◌then◌else◌, elem, sum_of,
}
use gpubk.Models.{Instant, Value, Mode, Reservation, is_active, is_shared, is_exclusive}
use gpubk.Sharing.{reservation_share_units}

-- An active reservation holds its GPUs from its start up to its end.
abbrev pub holds : ℕ → Instant → Reservation → Bool
holds gpu t r = is_active r.status && (elem gpu r.gpus && (leb r.start_at t && ltb t r.end_at))

-- What a reservation counts for, by its mode and the value under its share units.
abbrev pub Weight : Type 0
Weight = Mode → Option Value → ℕ

abbrev pub counts : Weight → ℕ → Instant → Reservation → ℕ
counts weight gpu t r = if holds gpu t r then weight r.mode r.share_units else 0

-- A weight summed over the reservations that hold the GPU.
abbrev pub held : Weight → ℕ → Instant → List Reservation → ℕ
held weight gpu t rs = sum_of (counts weight gpu t) rs

abbrev pub one : Weight
one mode units = 1

abbrev pub one_exclusive : Weight
one_exclusive mode units = if is_exclusive mode then 1 else 0

abbrev pub shared_units : ℕ → Weight
shared_units max_shared_users mode units =
    if is_shared mode then reservation_share_units units max_shared_users else 0

-- One GPU at one instant.
pub record IsSoundAt (max_shared_users gpu : ℕ) (t : Instant) (rs : List Reservation) : Type 0 where
  pub within : held (shared_units max_shared_users) gpu t rs ≤ max_shared_users
  pub alone : (held one_exclusive gpu t rs ≡ 0) ⊎ (held one gpu t rs ≤ 1)

-- Every GPU, at every instant from the given one on.
abbrev pub IsSound : ℕ → Instant → List Reservation → Type 0
IsSound max_shared_users from rs =
    (gpu : ℕ) (t : Instant) → from ≤ t → IsSoundAt max_shared_users gpu t rs
