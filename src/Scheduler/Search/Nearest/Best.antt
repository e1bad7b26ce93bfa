-- ===== src/Scheduler/Search/Nearest/Best.antt =====
-- `find_nearest_slot` passes over no start that is nearer to its target.
use gpubk.Prelude.{
  All, ◌⊎◌, inl, inr, In, ℕ, ◌+◌, ◌*◌, max, ◌≤◌, ◌<◌, ◌≡◌, subst, some, List, arith,
}
use gpubk.Models.{Instant, Blackout, Ledger, Config, is_active}
use gpubk.Errors.{ok}
use gpubk.Granularity.{floor_to_slot, ceil_to_slot}
use gpubk.Granularity.Slots.{IsAligned}
use gpubk.Policy.{validate_ledger_policy}
use gpubk.ScheduleIndex.{collect, build, from_ledger}
use gpubk.ScheduleIndex.Spans.{ReservationSpan}
use gpubk.Scheduler.Placement.{Readings}
use gpubk.Scheduler.Search.{Wish, try_start, first_start}
use gpubk.Scheduler.Search.Elsewhere.{steady}
use gpubk.Scheduler.Search.Earliest.{IsPrepared}
use gpubk.Scheduler.Search.Sound.{IsSlot, first_start-IsSlot}
use gpubk.Scheduler.Search.Nearest.{
  distance, by_distance, nearest_until_of, nearest_candidates, find_nearest_slot,
}
use gpubk.Scheduler.Search.Nearest.Order.{rank}
use gpubk.Scheduler.Search.Nearest.First.{first_start-nearest}
use gpubk.Scheduler.Search.Nearest.Between.{candidate_between}
use gpubk.Scheduler.Search.Nearest.Before.{candidate_before}

nearer_by_rank :
    (target start c s : ℕ)
    → distance c target ≤ distance s target
    → rank target start ≤ rank target c
    → distance start target ≤ distance s target
nearer_by_rank target start c s closer ranked = ground (arith, rank_distance target start c ranked)
  where
    rank_distance :
        (target start c : ℕ)
        → rank target start ≤ rank target c
        → distance start target ≤ distance c target
    rank_distance target start c h = ground arith

returned_at :
    (ledger : Ledger) (config : Config) (wish : Wish) (target_start now target : Instant)
    (readings : Readings) (start : Instant) (found : List ℕ)
    → validate_ledger_policy ledger config ≡ ok tt
    → target
      ≡ max (floor_to_slot now config.slot_minutes) (ceil_to_slot target_start config.slot_minutes)
    → first_start
        (from_ledger ledger (floor_to_slot now config.slot_minutes))
        config
        wish
        (steady now readings)
        (by_distance target (
          nearest_candidates
            (from_ledger ledger (floor_to_slot now config.slot_minutes))
            config
            wish.duration
            (floor_to_slot now config.slot_minutes)
            target
            (nearest_until_of config target now)))
      ≡ ok (some (start, found))
    → find_nearest_slot ledger config wish target_start (steady now readings)
      ≡ ok (some (start, found))
unfolding find_nearest_slot
returned_at ledger config wish target_start now target readings start found valid e k =
    let lo = floor_to_slot now config.slot_minutes in
    rw valid (
      subst
        (λ t.
          first_start (from_ledger ledger lo) config wish (steady now readings) (
            by_distance t (
              nearest_candidates (from_ledger ledger lo) config wish.duration lo t
                (nearest_until_of config t now)))
          ≡ ok (some (start, found)))
        e k)

-- With a clock that stands still during the search and lists that normalise, if an aligned start
-- from the slot of the present on serves the wish, the search returns a slot that serves it and lies
-- no farther from the target than that start; so where the target serves, it is returned. The target
-- is the wished start rounded up to a slot, or the slot of the present where that is later. A start
-- after the target has to be within the hours of the search and the horizon; for one before it, a
-- slot at the target has to end within the horizon, and no blackout begins between the end of a slot
-- at that start and the end of one at the target.
pub find_nearest_slot_nearest :
    (ledger : Ledger) (config : Config) (wish : Wish) (target_start now target s : Instant)
    (readings : Readings) (gpus : List ℕ)
    → validate_ledger_policy ledger config ≡ ok tt
    → IsPrepared config wish
    → 0 < config.slot_minutes
    → 0 < wish.duration
    → 0 < wish.count
    → now ≤ readings.at_start
    → now ≤ readings.at_scan
    → target
      ≡ max (floor_to_slot now config.slot_minutes) (ceil_to_slot target_start config.slot_minutes)
    → IsAligned config.slot_minutes s
    → floor_to_slot now config.slot_minutes ≤ s
    → ((target ≤ s)
        × (s ≤ target + config.queue_search_hours * 3600)
        × (s ≤ now + config.booking_horizon_days * 86400))
      ⊎ ((s ≤ target)
          × (target + wish.duration ≤ now + config.booking_horizon_days * 86400)
          × All
              (λ (window : Blackout).
                (window.start_at < s + wish.duration) ⊎ (target + wish.duration ≤ window.start_at))
              config.booking_blackouts)
    → try_start
        (from_ledger ledger (floor_to_slot now config.slot_minutes))
        config
        wish
        (steady now readings)
        s
      ≡ ok (some gpus)
    → (start : ℕ) × (found : List ℕ) × (find_nearest_slot ledger config wish target_start
          (steady now readings)
        ≡ ok (some (start, found)))
      × (distance start target ≤ distance s target)
      × IsSlot
          (from_ledger ledger (floor_to_slot now config.slot_minutes))
          config
          wish
          now
          start
          found
unfolding from_ledger
find_nearest_slot_nearest ledger config wish target_start now target s readings gpus valid prepared
      slotted lasting counted started scanned e aligned from side serves =
    let clock = steady now readings in
    let (c, there, closer, m, serves_there) = nearer_candidate side in
    let (start, found, k, ranked) =
      first_start-nearest spans config wish clock prepared c there serves_there target candidates
        m in
    (
      start,
      found,
      returned_at ledger config wish target_start now target readings start found valid e k,
      nearer_by_rank target start c s closer ranked,
      (first_start-IsSlot (build spans) config wish clock _ start found k).1,
    )
  where
    lo : ℕ
    lo = floor_to_slot now config.slot_minutes

    until : ℕ
    until = nearest_until_of config target now

    spans : List ReservationSpan
    spans = collect is_active lo ledger.reservations

    candidates : List ℕ
    candidates = nearest_candidates (build spans) config wish.duration lo target until

    nearer_candidate :
        ((target ≤ s)
            × (s ≤ target + config.queue_search_hours * 3600)
            × (s ≤ now + config.booking_horizon_days * 86400))
          ⊎ ((s ≤ target)
              × (target + wish.duration ≤ now + config.booking_horizon_days * 86400)
              × All
                  (λ (window : Blackout).
                    (window.start_at < s + wish.duration)
                    ⊎ (target + wish.duration ≤ window.start_at))
                  config.booking_blackouts)
        → (c : ℕ) × (found : List ℕ) × (distance c target ≤ distance s target)
          × In c candidates
          × (try_start (build spans) config wish (steady now readings) c ≡ ok (some found))
    nearer_candidate (inl (after, hours, horizon)) =
        let (c, found, a, b, m, there) =
          candidate_between spans config wish now readings lo target until s gpus slotted lasting
            counted aligned (omega (arith, e)) after (omega arith) serves in
        (c, found, omega arith, m, there)
    nearer_candidate (inr (before, near, calm)) =
        let (c, found, a, b, m, there) =
          candidate_before spans config wish now readings lo target until s gpus slotted lasting
            counted started scanned aligned from before (omega arith) near calm serves in
        (c, found, omega arith, m, there)
