-- ===== src/Scheduler/Search/Nearest.antt =====
-- `find_nearest_slot`: the slot nearest to a target, before or after it.
pub mod Order
pub mod First
pub mod Between
pub mod Before
pub mod Best
use gpubk.Prelude.{
  ℕ, ◌+◌, ◌-◌, ◌*◌, min, max, Bool, true, false, Option, List, [], ◌∷◌, ltb, leb, ◌&&◌, ◌||◌,
  if◌then◌else◌,
}
use gpubk.Prelude.Ascending.{add}
use gpubk.Models.{Instant, Ledger, Config}
use gpubk.Granularity.{floor_to_slot, ceil_to_slot}
use gpubk.Errors.{Result, ◌>>◌}
use gpubk.Policy.{validate_ledger_policy}
use gpubk.ScheduleIndex.{ReservationIndex, from_ledger}
use gpubk.ScheduleIndex.Spans.{ReservationSpan}
use gpubk.Scheduler.Horizon.{day}
use gpubk.Scheduler.Search.{
  Clock, Wish, candidate_starts_from_index, add_blackout_ends, first_start,
}

-- `abs(candidate - target)`
abbrev pub distance : Instant → Instant → ℕ
distance candidate target = (candidate - target) + (target - candidate)

-- `key(a) < key(b)`: by the distance, then those before the target, then by time.
unfoldable pub nearer : Instant → Instant → Instant → Bool
nearer target a b =
    if ltb (distance a target) (distance b target)
    then true
    else if ltb (distance b target) (distance a target)
    then false
    else if ltb target a
    then ltb target b && ltb a b
    else ltb target b || ltb a b

unfoldable pub insert_nearest : Instant → Instant → List Instant → List Instant
unfolding nearer
insert_nearest target x [] = x ∷ []
insert_nearest target x (y ∷ ys) =
    let rest = insert_nearest target x ys in if nearer target y x then y ∷ rest else x ∷ y ∷ ys

unfoldable pub by_distance : Instant → List Instant → List Instant
unfolding insert_nearest
by_distance target [] = []
by_distance target (x ∷ xs) = insert_nearest target x (by_distance target xs)

-- The starts from which the wish ends where a reservation starts. A start before the epoch is
-- before the lower bound.
unfoldable pub add_befores : List ReservationSpan → ℕ → Instant → Instant → ℕ → List ℕ → List ℕ
add_befores [] duration lower_bound search_until slot_minutes candidates = candidates
add_befores (reservation ∷ rest) duration lower_bound search_until slot_minutes candidates =
    let before = floor_to_slot (reservation.start - duration) slot_minutes in
    add_befores rest duration lower_bound search_until slot_minutes (
      if leb duration reservation.start && (leb lower_bound before && leb before search_until)
      then add before candidates
      else candidates)

abbrev pub lower_bound_of : Config → Instant → Instant
lower_bound_of config now = floor_to_slot now config.slot_minutes

abbrev pub target_of : Config → Instant → Instant → Instant
target_of config target_start now =
    max (lower_bound_of config now) (ceil_to_slot target_start config.slot_minutes)

abbrev pub nearest_until_of : Config → Instant → Instant → Instant
nearest_until_of config target now =
    min (target + config.queue_search_hours * 3600) (now + config.booking_horizon_days * day)

unfoldable pub nearest_candidates :
    ReservationIndex → Config → ℕ → Instant → Instant → Instant → List Instant
unfolding add_befores
nearest_candidates index config duration lower_bound target search_until =
    add_befores index.spans duration lower_bound search_until config.slot_minutes (
      add_blackout_ends config.booking_blackouts lower_bound search_until config.slot_minutes (
        add target
          (candidate_starts_from_index index lower_bound search_until config.slot_minutes)))

unfoldable pub find_nearest_slot :
    Ledger → Config → Wish → Instant → Clock → Result (Option (Instant × List ℕ))
unfolding nearest_candidates by_distance
find_nearest_slot ledger config wish target_start clock = do
  validate_ledger_policy ledger config
  let lower_bound = lower_bound_of config clock.now
  let target = target_of config target_start clock.now
  let index = from_ledger ledger lower_bound
  first_start index config wish clock (
      by_distance target (
        nearest_candidates index config wish.duration lower_bound target
          (nearest_until_of config target clock.now)))
