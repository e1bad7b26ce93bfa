-- ===== src/Scheduler/Placement.antt =====
-- The choice of GPUs at one start: `_find_available_gpus_with_reason` and `_gpus_at_start`.
-- Scores and pressures stand in thousandths.
pub mod Ranking
pub mod Chosen
use gpubk.Prelude.{
  ℕ, suc, ◌+◌, ◌-◌, ◌*◌, ◌/◌, ◌%◌, min, max, Bool, true, false, not, ◌||◌, Option, none, some, List,
  [], ◌∷◌, map, ltb, leb, ◌==◌, if◌then◌else◌, elem, select, sum_of, length, take,
}
use gpubk.Models.{Instant, Mode, Config, is_shared}
use gpubk.Errors.{Result, ok, err, ◌>>=◌}
use gpubk.ScheduleIndex.{ReservationIndex, overlapping}
use gpubk.ScheduleIndex.Spans.{ReservationSpan}
use gpubk.Scheduler.Reasons.{Reason, not_eligible}
use gpubk.Scheduler.Loads.{units_of}
use gpubk.Scheduler.Availability.{Demand, availability_detail_indexed, capacity_at}
use gpubk.Scheduler.Gpus.{enabled_gpus, eligible_gpus, normalize_excluded_gpus, normalize_gpu_order}
use gpubk.Scheduler.Horizon.{booking_policy_conflict}
use gpubk.Scheduler.Placement.Ranking.{Candidate, ranked, combine_reasons}

-- What a request asks of each GPU.
pub record Ask : Type 0 where
  pub mode : Mode
  pub expected_memory_mb : Option ℕ
  pub gpu_memory_capacity_mb : Option (List (ℕ × ℕ))
  pub share_units : ℕ

-- The request's side and the configuration's side of the availability check.
abbrev pub demand_of : Config → Ask → Demand
demand_of config ask = record {
  mode = ask.mode;
  max_shared_users = config.max_shared_users;
  expected_memory_mb = ask.expected_memory_mb;
  gpu_memory_capacity_mb = ask.gpu_memory_capacity_mb;
  shared_memory_reserve_mb = config.shared_memory_reserve_mb;
  share_units = ask.share_units;
}

-- `round(x, …)` of the quotient `n / d`, to the even neighbour at a tie.
unfoldable pub round_half_even : ℕ → ℕ → ℕ
round_half_even n d =
    let q = n / d in
    let twice = 2 * (n % d) in if ltb twice d then q else if ltb d twice then q + 1 else q + q % 2

unfoldable pub overlap_total : List ReservationSpan → Instant → Instant → ℕ → ℕ
overlap_total items start end max_shared_users =
    sum_of (λ item. (min end item.end - max start item.start) * units_of max_shared_users item)
      (select (λ item. is_shared item.mode) items)

unfoldable pub reservation_pressure_score_indexed : ReservationIndex → ℕ → Instant → Instant → ℕ → ℕ
reservation_pressure_score_indexed index gpu start end max_shared_users =
    let duration = max 1 (end - start) in
    let total = overlap_total (overlapping index gpu start end) start end max_shared_users in
    round_half_even (100000 * total) (duration * max 1 max_shared_users)

-- The GPUs that are free, as sort keys, and the reasons of the others.
pub record Scan : Type 0 where
  pub available : List Candidate
  pub reasons : List Reason

-- What one GPU adds to the lists.
unfoldable pub noted : Option Reason → Candidate → Scan → Scan
noted none candidate rest = record rest { available = candidate ∷ rest.available }
noted (some reason) candidate rest = record rest { reasons = reason ∷ rest.reasons }

module _ (index : ReservationIndex) (config : Config) (start end : Instant) (ask : Ask) where
  unfoldable pub candidate_of : List (ℕ × ℕ) → ℕ → ℕ → Candidate
  candidate_of gpu_scores rank gpu = record {
    priority = capacity_at gpu config.gpu_priority;
    score =
        capacity_at gpu gpu_scores
        + reservation_pressure_score_indexed index gpu start end config.max_shared_users;
    rank = rank;
    gpu = gpu;
  }

  -- `for gpu in order`; a GPU's rank is its place, since `order` names each once.
  unfoldable pub scan_gpus : List (ℕ × ℕ) → ℕ → List ℕ → Scan
  scan_gpus gpu_scores rank [] = record { available = []; reasons = [] }
  scan_gpus gpu_scores rank (gpu ∷ rest) =
      noted (availability_detail_indexed index gpu start end (demand_of config ask))
        (candidate_of gpu_scores rank gpu) (scan_gpus gpu_scores (suc rank) rest)

-- `available.sort()`, the first `count`, and the reasons where they are too few.
unfoldable pub chosen : ℕ → Scan → List ℕ × List Reason
chosen count scan =
    let result = take count (map (λ candidate. candidate.gpu) (ranked scan.available)) in
    if length result == count then (result, []) else (result, combine_reasons scan.reasons)

module _ (index : ReservationIndex) (config : Config) (count : ℕ) (start : Instant) where
  -- From the order of the eligible GPUs on.
  unfoldable pub choose_from : Instant → Ask → List (ℕ × ℕ) → List ℕ → List ℕ → List ℕ × List Reason
  choose_from end ask gpu_scores excluded order =
      if ltb (length order) count
      then (
        [],
        not_eligible count (length (eligible_gpus config excluded)) config.disabled_gpus excluded
            ∷ [],
      )
      else chosen count (scan_gpus index config start end ask gpu_scores 0 order)

  unfoldable pub within_policy :
      Instant
      → Ask
      → Option (List ℕ)
      → List (ℕ × ℕ)
      → Option (List ℕ)
      → Result (List ℕ × List Reason)
  within_policy end ask gpu_order gpu_scores excluded_gpus = do
    excluded ← normalize_excluded_gpus excluded_gpus config
    configured ← normalize_gpu_order gpu_order config
    ok (
        choose_from end ask gpu_scores excluded
          (select (λ gpu. not (elem gpu excluded)) configured))

  -- `now` is this call's reading of the clock.
  unfoldable pub find_available_gpus_indexed :
      Instant
      → Ask
      → Option (List ℕ)
      → List (ℕ × ℕ)
      → Option (List ℕ)
      → Instant
      → Result (List ℕ × List Reason)
  find_available_gpus_indexed end ask gpu_order gpu_scores excluded_gpus now =
      elim (booking_policy_conflict config start end now) [
        | some reason ↦ ok ([], reason ∷ [])
        | none ↦ within_policy end ask gpu_order gpu_scores excluded_gpus
      ]

-- `for gpu in preferred_gpus`: whether each is enabled, not excluded, and free.
module _ (index : ReservationIndex) (config : Config) (start end : Instant) (ask : Ask) where
  unfoldable pub all_free : List ℕ → List ℕ → Bool
  all_free excluded [] = true
  all_free excluded (gpu ∷ rest) =
      let others = all_free excluded rest in
      if elem gpu config.disabled_gpus || elem gpu excluded
      then false
      else elim (availability_detail_indexed index gpu start end (demand_of config ask)) [
        | some _ ↦ false
        | none ↦ others
      ]

-- The two readings of the clock that one start takes.
pub record Readings : Type 0 where
  pub at_start : Instant
  pub at_scan : Instant

module _ (index : ReservationIndex) (config : Config) (count : ℕ) (start duration : ℕ)
    (ask : Ask) where
  -- The selected GPUs, if all of them are free.
  unfoldable pub preferred_at : List ℕ → List ℕ → List ℕ
  preferred_at excluded preferred =
      if all_free index config start (start + duration) ask excluded preferred
      then preferred
      else []

  unfoldable pub scanned_at : List ℕ → Option (List ℕ) → List (ℕ × ℕ) → Instant → Result (List ℕ)
  scanned_at excluded gpu_order gpu_scores now = do
    found ←
        find_available_gpus_indexed index config count start (start + duration) ask gpu_order
          gpu_scores (some excluded) now
    ok found.0

  unfoldable pub at_start_within :
      Option (List ℕ) → Option (List ℕ) → List (ℕ × ℕ) → Instant → List ℕ → Result (List ℕ)
  at_start_within (some preferred) gpu_order gpu_scores now excluded =
      ok (preferred_at excluded preferred)
  at_start_within none gpu_order gpu_scores now excluded =
      scanned_at excluded gpu_order gpu_scores now

  unfoldable pub gpus_at_start :
      Option (List ℕ)
      → Option (List ℕ)
      → List (ℕ × ℕ)
      → Option (List ℕ)
      → Readings
      → Result (List ℕ)
  gpus_at_start preferred gpu_order gpu_scores excluded_gpus readings =
      elim (booking_policy_conflict config start (start + duration) readings.at_start) [
        | some _ ↦ ok []
        | none ↦ do
          excluded ← normalize_excluded_gpus excluded_gpus config
          at_start_within preferred gpu_order gpu_scores readings.at_scan excluded
      ]
