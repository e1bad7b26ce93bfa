-- ===== src/Scheduler/Edit/Started.antt =====
-- `_edit_started_reservation`: a reservation that runs may only change its end.
use gpubk.Prelude.{
  ℕ, ◌+◌, ◌-◌, ◌*◌, ◌%◌, max, String, Bool, true, false, not, Option, none, some, List, [], ltb,
  leb, ◌==◌, ◌||◌, if◌then◌else◌, length,
}
use gpubk.Prelude.Ascending.{from_list}
use gpubk.Models.{Instant, Reservation, Ledger, Config, EditRequest, BookingResult, is_shared}
use gpubk.Granularity.{ceil_to_slot}
use gpubk.Sharing.{reservation_share_units}
use gpubk.Errors.{
  Result, ok, err, ◌>>=◌, ◌>>◌, raise_if, duration_not_positive, duration_granularity,
  started_immutable, started_needs_duration, started_elapsed, started_unavailable,
}
use gpubk.Scheduler.Gpus.{normalize_gpu_order, normalize_gpu_scores, normalize_expected_memory}
use gpubk.Scheduler.Horizon.{booking_policy_conflict}
use gpubk.Scheduler.Search.{Clock, Wish, find_earliest_slot}
use gpubk.Scheduler.Metadata.{Runtime}
use gpubk.Scheduler.Outcome.{Outcome}
use gpubk.Scheduler.Booking.{raise_conflict}
use gpubk.Scheduler.Booking.Prepare.{is_absent}
use gpubk.Scheduler.Lookup.{shadow_ledger}
use gpubk.Scheduler.Edit.History.{write_edit}

abbrev pub immutable_changes : EditRequest → Bool
immutable_changes request =
    not (is_absent request.start_at)
    || (not (is_absent request.mode)
        || (not (is_absent request.preferred_gpus)
            || (not (is_absent request.excluded_gpus)
                || (not (is_absent request.count)
                    || (request.update_expected_memory
                        || (request.update_share_units || request.allow_queue))))))

abbrev pub given_duration : Option ℕ → Result ℕ
given_duration none = err started_needs_duration
given_duration (some duration_seconds) = ok duration_seconds

-- What an extension asks of the GPUs that the reservation has.
abbrev pub extension_wish :
    Config → Reservation → ℕ → List ℕ → List (ℕ × ℕ) → Option ℕ → List (ℕ × ℕ) → Wish
extension_wish config r extension gpu_order gpu_scores expected_memory_mb capacities = record {
  count = length (from_list r.gpus);
  duration = extension;
  ask = record {
    mode = r.mode;
    expected_memory_mb = expected_memory_mb;
    gpu_memory_capacity_mb = some capacities;
    share_units =
        if is_shared r.mode
        then reservation_share_units r.share_units config.max_shared_users
        else 1;
  };
  preferred_gpus = some (from_list r.gpus);
  gpu_order = some gpu_order;
  gpu_scores = gpu_scores;
  excluded_gpus = some [];
}

-- The GPUs are free from the old end, or from the next slot, to the new end.
unfoldable pub check_extension :
    Config
    → EditRequest
    → Reservation
    → Instant
    → Instant
    → List (ℕ × ℕ)
    → Clock
    → Ledger
    → Result (Unit {0})
check_extension config request r now new_end capacities clock ledger = do
  let future_start = max (ceil_to_slot now config.slot_minutes) r.end_at
  raise_conflict (booking_policy_conflict config future_start new_end now) false
  gpu_order ← normalize_gpu_order request.gpu_order config
  gpu_scores ← normalize_gpu_scores request.gpu_scores config
  expected_memory_mb ← normalize_expected_memory r.expected_memory_mb
  slot ←
      find_earliest_slot (shadow_ledger ledger request.reservation_id) config
        (extension_wish config r (new_end - future_start) gpu_order gpu_scores expected_memory_mb
          capacities)
        future_start false clock
  elim slot [ none ↦ err started_unavailable | some _ ↦ ok tt ]

unfoldable pub edit_started :
    Runtime
    → Config
    → EditRequest
    → Reservation
    → Instant
    → Option String
    → String
    → List (ℕ × ℕ)
    → Clock
    → Ledger
    → Result (Outcome BookingResult)
unfolding check_extension write_edit
edit_started runtime config request r now op_id signature capacities clock ledger = do
  raise_if (immutable_changes request) started_immutable
  duration_seconds ← given_duration request.duration_seconds
  raise_if (duration_seconds == 0) duration_not_positive
  raise_if (not (duration_seconds % (config.slot_minutes * 60) == 0))
      (duration_granularity config.slot_minutes)
  let new_end = r.start_at + duration_seconds
  let earliest_end = ceil_to_slot now config.slot_minutes
  raise_if (ltb new_end earliest_end || leb new_end now) (started_elapsed earliest_end)
  (if ltb r.end_at new_end
      then check_extension config request r now new_end capacities clock ledger
      else ok tt)
  write_edit runtime request now op_id signature r
      (record r { end_at = new_end; updated_at = some now })
      "updated future end of started reservation"
      (record { reservation = r; created = true; message = "updated"; queued = false }) ledger
