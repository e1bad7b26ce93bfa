-- ===== src/Scheduler/Search.antt =====
-- `find_earliest_slot` and the candidate starts that it tries, in ascending order.
pub mod Sound
pub mod Aligned
pub mod Preferred
pub mod Elsewhere
pub mod Earlier
pub mod Candidates
pub mod Earliest
pub mod Nearest
use gpubk.Prelude.{
  ℕ, ◌+◌, ◌*◌, min, Bool, Option, none, some, List, [], ◌∷◌, ltb, leb, ◌==◌, if◌then◌else◌, ◌&&◌,
  length,
}
use gpubk.Prelude.Ascending.{add}
use gpubk.Models.{Instant, Blackout, Ledger, Config}
use gpubk.Granularity.{floor_to_slot, ceil_to_slot, is_slot_aligned}
use gpubk.Errors.{Result, ok, err, ◌>>=◌, ◌>>◌, start_granularity}
use gpubk.Policy.{validate_ledger_policy}
use gpubk.ScheduleIndex.{ReservationIndex, from_ledger}
use gpubk.ScheduleIndex.Spans.{ReservationSpan}
use gpubk.Scheduler.Horizon.{booking_policy_conflict, day}
use gpubk.Scheduler.Placement.{Ask, Readings, gpus_at_start}

-- `timeparse.normalize_queue_start`
unfoldable pub normalize_queue_start : Instant → Instant → ℕ → Instant
normalize_queue_start start current slot_minutes =
    if leb start current
    then floor_to_slot current slot_minutes
    else ceil_to_slot start slot_minutes

unfoldable pub normalize_start : Instant → Bool → Instant → ℕ → Result Instant
normalize_start start allow_queue now slot_minutes =
    if allow_queue
    then ok (normalize_queue_start start now slot_minutes)
    else if is_slot_aligned start slot_minutes
    then ok start
    else err (start_granularity slot_minutes)

-- The ends of the spans, rounded up, that lie in the range of the search.
unfoldable pub add_ends : List ReservationSpan → Instant → Instant → ℕ → List ℕ → List ℕ
add_ends [] earliest_start search_until slot_minutes candidates = candidates
add_ends (reservation ∷ rest) earliest_start search_until slot_minutes candidates =
    let end = ceil_to_slot reservation.end slot_minutes in
    add_ends rest earliest_start search_until slot_minutes
      (if leb earliest_start end && leb end search_until then add end candidates else candidates)

unfoldable pub candidate_starts_from_index : ReservationIndex → Instant → Instant → ℕ → List Instant
candidate_starts_from_index index earliest_start search_until slot_minutes =
    add_ends index.spans earliest_start search_until slot_minutes
      (add (ceil_to_slot earliest_start slot_minutes) [])

-- The ends of the blackouts in the range, rounded up, joined to the candidates.
unfoldable pub add_blackout_ends : List Blackout → Instant → Instant → ℕ → List ℕ → List ℕ
add_blackout_ends [] search_start search_until slot_minutes candidates = candidates
add_blackout_ends (window ∷ rest) search_start search_until slot_minutes candidates =
    add_blackout_ends rest search_start search_until slot_minutes (
      if leb search_start window.end_at && leb window.end_at search_until
      then add (ceil_to_slot window.end_at slot_minutes) candidates
      else candidates)

-- The readings of the clock: one of the search, and those of each candidate start.
pub record Clock : Type 0 where
  pub now : Instant
  pub at : Instant → Readings

-- A request to the search, once its lists are normalised.
pub record Wish : Type 0 where
  pub count : ℕ
  pub duration : ℕ
  pub ask : Ask
  pub preferred_gpus : Option (List ℕ)
  pub gpu_order : Option (List ℕ)
  pub gpu_scores : List (ℕ × ℕ)
  pub excluded_gpus : Option (List ℕ)

module _ (index : ReservationIndex) (config : Config) (wish : Wish) (clock : Clock) where
  -- The body of the loop: the GPUs of a candidate that serves.
  unfoldable pub try_start : Instant → Result (Option (List ℕ))
  try_start candidate =
      elim (booking_policy_conflict config candidate (candidate + wish.duration) clock.now) [
        | some _ ↦ ok none
        | none ↦ do
          gpus ←
              gpus_at_start index config wish.count candidate wish.duration wish.ask
                wish.preferred_gpus wish.gpu_order wish.gpu_scores wish.excluded_gpus
                (clock.at candidate)
          ok (if length gpus == wish.count then some gpus else none)
      ]

  -- `for candidate_start in candidate_starts`
  unfoldable pub first_start : List Instant → Result (Option (Instant × List ℕ))
  first_start [] = ok none
  first_start (candidate ∷ rest) = elim (try_start candidate) [
    | err e ↦ err e
    | ok (some gpus) ↦ ok (some (candidate, gpus))
    | ok none ↦ first_start rest
  ]

-- `_normalize_start(earliest_start, True, …)` where the request may queue.
abbrev pub search_start_of : Config → Instant → Bool → Instant → Instant
search_start_of config earliest_start allow_queue now =
    if allow_queue
    then normalize_queue_start earliest_start now config.slot_minutes
    else earliest_start

abbrev pub search_until_of : Config → Instant → Instant → Instant
search_until_of config search_start now =
    min (search_start + config.queue_search_hours * 3600) (now + config.booking_horizon_days * day)

unfoldable pub queue_candidates : ReservationIndex → Config → Instant → Instant → List Instant
queue_candidates index config search_start search_until =
    add_blackout_ends config.booking_blackouts search_start search_until config.slot_minutes
      (candidate_starts_from_index index search_start search_until config.slot_minutes)

unfoldable pub find_earliest_slot :
    Ledger → Config → Wish → Instant → Bool → Clock → Result (Option (Instant × List ℕ))
find_earliest_slot ledger config wish earliest_start allow_queue clock = do
  validate_ledger_policy ledger config
  let search_start = search_start_of config earliest_start allow_queue clock.now
  let search_until = search_until_of config search_start clock.now
  let index = from_ledger ledger clock.now
  let candidates = queue_candidates index config search_start search_until
  first_start index config wish clock (if allow_queue then candidates else earliest_start ∷ [])
