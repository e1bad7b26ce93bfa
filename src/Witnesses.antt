-- ===== src/Witnesses.antt =====
-- The theorems with hypotheses, at the samples.
use gpubk.Prelude.{
  ℕ, ◌≡◌, refl, inl, ◌≤◌, ◌<◌, ◌↔◌, ◌⊎◌, String, Bool, true, false, Option, none, some, List, [],
  ◌∷◌, In, All, arith, select,
}
use gpubk.Models.{
  int, pos, str, shared, is_active, Config, Reservation, Ledger, BookingRequest, BookingResult,
}
use gpubk.Errors.{ok}
use gpubk.Granularity.{floor_to_slot, ceil_to_slot, is_slot_aligned}
use gpubk.Granularity.Slots.{IsAligned, ceil_to_slot_lem, floor_to_slot_lem, is_slot_aligned_iff}
use gpubk.Sharing.{reservation_share_units}
use gpubk.Sharing.Units.{normalize_share_units_lem, reservation_share_units-pos}
use gpubk.ScheduleIndex.{build, overlapping, from_ledger, collect}
use gpubk.ScheduleIndex.Spans.{sorted_spans}
use gpubk.ScheduleIndex.Grouping.{on_gpu}
use gpubk.ScheduleIndex.Overlap.{overlapping_lem, overlaps_span}
use gpubk.Policy.{bind_ledger_policy, validate_ledger_policy}
use gpubk.Policy.Binding.{bind_ledger_policy_lem}
use gpubk.Scheduler.Availability.{availability_detail_indexed}
use gpubk.Scheduler.Availability.Spec.{Fits}
use gpubk.Scheduler.Availability.Spec.Exact.{availability_detail_indexed_iff}
use gpubk.Scheduler.Search.{try_start, find_earliest_slot}
use gpubk.Scheduler.Search.Nearest.{distance, find_nearest_slot}
use gpubk.Scheduler.Search.Nearest.Best.{find_nearest_slot_nearest}
use gpubk.Scheduler.Search.Elsewhere.{steady}
use gpubk.Scheduler.Search.Sound.{IsSlot}
use gpubk.Scheduler.Search.Earliest.{find_earliest_slot_earliest}
use gpubk.Scheduler.Metadata.{normalize_operation_id}
use gpubk.Scheduler.Maintenance.{maintain_ledger, expire_old_reservations}
use gpubk.Scheduler.Maintenance.Terminal.{IsCurrent, maintain_ledger_lem}
use gpubk.Scheduler.Outcome.{Outcome}
use gpubk.Scheduler.Booking.{Placing, placing_of, add_booking}
use gpubk.Scheduler.Booking.Prepare.{Prepared, prepare}
use gpubk.Scheduler.Booking.Slot.{Books, add_booking-created}
use gpubk.Scheduler.Cancel.{cancel_booking}
use gpubk.Scheduler.Cancel.Steps.{Repeats}
use gpubk.Scheduler.Cancel.Owner.{GivesUp, cancel_booking-ok}
use gpubk.Scheduler.Cancel.Repeated.{answered, cancel_booking-again}
use gpubk.Scheduler.Cancel.Administrator.{cancel_booking_as_admin, admin_cancellation_reason}
use gpubk.Scheduler.Edit.{edit_booking}
use gpubk.Scheduler.Occupancy.{IsSound}
use gpubk.Scheduler.Violations.Complete.{find_policy_violations_complete}
use gpubk.Scheduler.Peaks.{max_shared_capacity_units_for_reservation}
use gpubk.Scheduler.Peaks.Limit.{max_shared_capacity_units-le}
use gpubk.Scheduler.Occupancy.Tidy.{IsTidy}
use gpubk.Scheduler.Occupancy.Booked.{add_booking-IsTidy}
use gpubk.Scheduler.Occupancy.Edited.{edit_booking-IsTidy}
use gpubk.Scheduler.Occupancy.Administrator.{Removes, cancel_booking_as_admin-ok}
use gpubk.Scheduler.Occupancy.Reach.{
  Reach-IsTidy, no_reservations-IsTidy, here, next, books, edits, removes,
}
use gpubk.Samples.{
  evening, root, empty_ledger, edit_request, config, now, training, unbound, ledger, actor, runtime,
  sign, readings, wish, demand, request, program, value_of,
}

find_earliest_slot_earliest_example :
    (start : ℕ) × (found : List ℕ) × (find_earliest_slot ledger config wish 600000 true
        (steady 600000 readings)
      ≡ ok (some (start, found)))
    × (start ≤ 600900)
    × IsSlot (from_ledger ledger 600000) config wish 600000 start found
unfolding program
find_earliest_slot_earliest_example =
    find_earliest_slot_earliest ledger config wish 600000 600000 600900 readings (0 ∷ 1 ∷ []) refl
      (record { banned = []; configured = 0 ∷ 1 ∷ []; excluded_ok = refl; order_ok = refl })
      (omega arith) (omega arith) (omega arith) (2003, refl) (omega arith) (omega arith) refl

find_nearest_slot_nearest_example :
    (start : ℕ) × (found : List ℕ) × (find_nearest_slot ledger config wish 600300
        (steady 600000 readings)
      ≡ ok (some (start, found)))
    × (distance start 600300 ≤ distance 600600 600300)
    × IsSlot
        (from_ledger ledger (floor_to_slot 600000 config.slot_minutes))
        config
        wish
        600000
        start
        found
unfolding program
find_nearest_slot_nearest_example =
    find_nearest_slot_nearest ledger config wish 600300 600000 600300 600600 readings (0 ∷ 1 ∷ [])
      refl (record { banned = []; configured = 0 ∷ 1 ∷ []; excluded_ok = refl; order_ok = refl })
      (omega arith) (omega arith) (omega arith) (omega arith) (omega arith) refl (2002, refl)
      (omega arith) (inl (omega arith, omega arith, omega arith)) refl

-- A blackout that begins at the target: the start that ends where it begins serves and is nearer,
-- but an earlier one is found.
abbrev closed_config : Config
closed_config = record config {
  booking_blackouts = record { start_at = 600600; end_at = 601200; reason = "repair" } ∷ [];
}

abbrev idle_ledger : Ledger
idle_ledger = record ledger { reservations = [] }

found_before_blackout :
    find_nearest_slot idle_ledger closed_config wish 600600 (steady 600000 readings)
    ≡ ok (some (600000, 0 ∷ 1 ∷ []))
unfolding program
found_before_blackout = refl

serves_before_blackout :
    try_start (from_ledger idle_ledger 600000) closed_config wish (steady 600000 readings) 600300
    ≡ ok (some (0 ∷ 1 ∷ []))
unfolding program
serves_before_blackout = refl

abbrev nothing : Outcome BookingResult
nothing = record {
  ledger = ledger;
  result = record { reservation = training; created = false; message = ""; queued = false };
  logs = [];
  changed = false;
}

abbrev booked : Outcome BookingResult
unfolding program
booked = value_of nothing (
    add_booking runtime sign config request now (steady now readings) (steady now readings) unbound)

abbrev first_booking : Outcome BookingResult
unfolding program
first_booking = value_of nothing (
    add_booking runtime sign config request now (steady now readings) (steady now readings)
      empty_ledger)

abbrev other_request : BookingRequest
other_request = record request { actor = record { uid = 2; username = "bob" } }

abbrev second_booking : Outcome BookingResult
unfolding program
second_booking = value_of nothing (
    add_booking (record runtime { fresh_id = "second" }) sign config other_request now
      (steady now readings) (steady now readings) first_booking.ledger)

abbrev edited : Outcome BookingResult
unfolding program
edited = value_of nothing (
    edit_booking runtime sign config edit_request now (steady now readings) (steady now readings)
      first_booking.ledger)

abbrev removed : Outcome Reservation
unfolding program
removed =
    value_of (record { ledger = empty_ledger; result = training; logs = []; changed = false })
      (cancel_booking_as_admin runtime sign config "new" root "maintenance" 600060 edited.ledger)

Reach-IsTidy_example : IsTidy config 600000 removed.ledger.reservations
unfolding program
Reach-IsTidy_example =
    Reach-IsTidy sign config 600000 empty_ledger removed.ledger
      (no_reservations-IsTidy config 600000 empty_ledger refl)
      (next
        (next
          (next here (
            books runtime request now (steady now readings) (steady now readings) empty_ledger
              first_booking refl (omega arith) refl))
          (edits runtime edit_request now (steady now readings) (steady now readings)
            first_booking.ledger edited refl (omega arith)))
        (removes runtime "new" root "maintenance" 600060 edited.ledger removed refl))

first_booking-IsTidy : IsTidy config 600000 first_booking.ledger.reservations
unfolding program
first_booking-IsTidy =
    Reach-IsTidy sign config 600000 empty_ledger first_booking.ledger
      (no_reservations-IsTidy config 600000 empty_ledger refl)
      (next here (
        books runtime request now (steady now readings) (steady now readings) empty_ledger
          first_booking refl (omega arith) refl))

add_booking-IsTidy_example : IsTidy config 600000 second_booking.ledger.reservations
unfolding program
add_booking-IsTidy_example =
    add_booking-IsTidy (record runtime { fresh_id = "second" }) sign config other_request now
      (steady now readings) (steady now readings) first_booking.ledger second_booking 600000 refl
      (omega arith) refl first_booking-IsTidy

edit_booking-IsTidy_example : IsTidy config 600000 edited.ledger.reservations
unfolding program
edit_booking-IsTidy_example =
    edit_booking-IsTidy runtime sign config edit_request now (steady now readings)
      (steady now readings) first_booking.ledger edited 600000 refl (omega arith)
      first_booking-IsTidy

cancel_booking_as_admin-ok_example :
    (bound : Ledger × Bool) × (reason : String) × (root.uid ≡ 0)
    × (bind_ledger_policy edited.ledger config ≡ ok bound)
    × (admin_cancellation_reason "maintenance" ≡ ok reason)
    × Removes runtime root 600060 "signature" reason "new"
        (maintain_ledger bound.0 600060 30).0
        removed
unfolding program
cancel_booking_as_admin-ok_example =
    cancel_booking_as_admin-ok runtime sign config "new" root "maintenance" 600060 edited.ledger
      removed refl

add_booking-created_example :
    (bound : Ledger × Bool) × (prepared : Prepared) × (p : Placing) × (bind_ledger_policy unbound
        config
      ≡ ok bound)
    × (prepare runtime config request ≡ ok prepared)
    × (placing_of sign config request prepared now ≡ ok p)
    × Books runtime config p now (steady now readings) (maintain_ledger bound.0 now 30).0 booked
unfolding program
add_booking-created_example =
    add_booking-created runtime sign config request now (steady now readings) (steady now readings)
      unbound booked refl refl

availability_detail_indexed_iff_example :
    (availability_detail_indexed
        (build (collect is_active now ledger.reservations))
        1
        600000
        600300
        (demand shared)
      ≡ none)
    ↔ Fits
        (overlapping (build (collect is_active now ledger.reservations)) 1 600000 600300)
        1
        600000
        600300
        (demand shared)
        shared
unfolding program
availability_detail_indexed_iff_example =
    availability_detail_indexed_iff (collect is_active now ledger.reservations) 1 600000 600300
      (demand shared) (omega arith)

overlapping_lem_example :
    overlapping (build (collect is_active now ledger.reservations)) 1 600000 600300
    ≡ select
        (overlaps_span 600000 600300)
        (on_gpu 1 (sorted_spans (collect is_active now ledger.reservations)))
overlapping_lem_example =
    overlapping_lem (collect is_active now ledger.reservations) 1 600000 600300

find_policy_violations_complete_example : IsSound 4 600000 ledger.reservations
unfolding program
find_policy_violations_complete_example = find_policy_violations_complete ledger 4 600000 refl

max_shared_capacity_units-le_example :
    max_shared_capacity_units_for_reservation ledger.reservations evening 4 ≤ 4
unfolding program
max_shared_capacity_units-le_example =
    max_shared_capacity_units-le ledger.reservations evening 4 (omega arith)
      (refl, (refl, (refl, tt))) (find_policy_violations_complete ledger 4 600000 refl)

abbrev freed : Outcome Reservation
unfolding program
freed =
    value_of (record { ledger = ledger; result = training; logs = []; changed = false })
      (cancel_booking runtime sign "training" actor (some "give-up-1") now ledger)

cancel_booking-ok_example :
    (op_id : Option String) × (normalize_operation_id (some "give-up-1") ≡ ok op_id)
    × (Repeats actor op_id "signature" "training" (expire_old_reservations ledger 600000).0 freed
        ⊎ GivesUp actor 600000 op_id "drawn" "signature" "training"
            (expire_old_reservations ledger 600000).0.reservations
            freed.ledger.reservations
            freed.result)
unfolding program
cancel_booking-ok_example =
    cancel_booking-ok runtime sign "training" actor (some "give-up-1") now ledger freed refl

cancel_booking-again_example :
    cancel_booking runtime sign "training" actor (some "give-up-1") 600060 freed.ledger
    ≡ ok (answered freed.ledger freed.result 600060)
unfolding program
cancel_booking-again_example =
    cancel_booking-again runtime runtime sign "training" actor (some "give-up-1") "give-up-1" now
      600060 ledger freed refl refl refl

maintain_ledger_lem_example :
    All (IsCurrent 600000) (maintain_ledger ledger 600000 30).0.reservations
    × ((r : Reservation)
        → In r ledger.reservations
        → is_active r.status ≡ true
        → 600000 < r.end_at
        → In r (maintain_ledger ledger 600000 30).0.reservations)
unfolding program
maintain_ledger_lem_example = maintain_ledger_lem ledger 600000 30

bind_ledger_policy_lem_example :
    (validate_ledger_policy ledger config ≡ ok tt)
    × (ledger.reservations ≡ unbound.reservations)
    × (bind_ledger_policy ledger config ≡ ok (ledger, false))
unfolding program
bind_ledger_policy_lem_example = bind_ledger_policy_lem unbound ledger config true refl

normalize_share_units_lem_example :
    (1 ≤ 3) × (3 ≤ 4) × (reservation_share_units (some (int (pos 3))) 4 ≡ 3)
unfolding program
normalize_share_units_lem_example = normalize_share_units_lem (some (str "3")) 4 3 refl

reservation_share_units-pos_example : 1 ≤ reservation_share_units (some (str "none")) 4
reservation_share_units-pos_example = reservation_share_units-pos (some (str "none")) 4

ceil_to_slot_lem_example :
    (600001 ≤ ceil_to_slot 600001 5)
    × IsAligned 5 (ceil_to_slot 600001 5)
    × ((a : ℕ) → IsAligned 5 a → 600001 ≤ a → ceil_to_slot 600001 5 ≤ a)
ceil_to_slot_lem_example = ceil_to_slot_lem 600001 5 (omega arith)

floor_to_slot_lem_example :
    (floor_to_slot 600001 5 ≤ 600001)
    × IsAligned 5 (floor_to_slot 600001 5)
    × ((a : ℕ) → IsAligned 5 a → a ≤ 600001 → a ≤ floor_to_slot 600001 5)
floor_to_slot_lem_example = floor_to_slot_lem 600001 5 (omega arith)

is_slot_aligned_iff_example : (is_slot_aligned 600300 5 ≡ true) ↔ IsAligned 5 600300
is_slot_aligned_iff_example = is_slot_aligned_iff 600300 5 (omega arith)
