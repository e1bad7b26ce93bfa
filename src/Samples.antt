-- ===== src/Samples.antt =====
-- Small ledgers and requests, and what the program does on them.
use gpubk.Prelude.{ℕ, ◌≡◌, refl, String, Bool, true, false, Option, none, some, List, [], ◌∷◌}
use gpubk.Models.{
  Instant, Mode, shared, exclusive, active, int, pos, Actor, Reservation, absent, Ledger, Config,
  BookingRequest, EditRequest,
}
use gpubk.Errors.{Result, ok, err, reservation_not_found, permission_denied, admin_required}
use gpubk.Granularity.{floor_to_slot, ceil_to_slot}
use gpubk.Sharing.{normalize_share_units, accepted}
use gpubk.ScheduleIndex.{from_ledger, overlapping}
use gpubk.Policy.{bind_ledger_policy, validate_ledger_policy}
use gpubk.Scheduler.Availability.{Demand, availability_detail_indexed}
use gpubk.Scheduler.Gpus.{normalize_excluded_gpus, normalize_gpu_order}
use gpubk.Scheduler.Placement.{Ask, Readings}
use gpubk.Scheduler.Search.{Clock, Wish, try_start, find_earliest_slot}
use gpubk.Scheduler.Search.Elsewhere.{steady}
use gpubk.Scheduler.Metadata.{Runtime, normalize_operation_id}
use gpubk.Scheduler.Operations.{Payload, find_applied_operation}
use gpubk.Scheduler.Maintenance.{expire_old_reservations, maintain_ledger}
use gpubk.Scheduler.Outcome.{Outcome}
use gpubk.Scheduler.Booking.{add_booking}
use gpubk.Scheduler.Edit.{edit_booking}
use gpubk.Scheduler.Peaks.{
  max_shared_capacity_units_for_reservation, max_shared_record_count_for_reservation,
}
use gpubk.Scheduler.Violations.{exclusive_overlap, find_policy_violations}
use gpubk.Scheduler.Cancel.{cancel_booking}
use gpubk.Scheduler.Cancel.Administrator.{cancel_booking_as_admin}

abbrev pub config : Config
config = record {
  gpu_count = 2;
  max_shared_users = 4;
  queue_search_hours = 24;
  booking_horizon_days = 7;
  max_booking_duration_hours = 24;
  booking_blackouts = [];
  ledger_retention_days = 30;
  require_shared_memory = false;
  shared_memory_reserve_mb = 0;
  file_mode = 432;
  dir_mode = 504;
  slot_minutes = 5;
  storage_gid = none;
  disabled_gpus = [];
  gpu_priority = [];
}

abbrev pub now : Instant
now = 600000

abbrev pub reservation : String → ℕ → List ℕ → Mode → Instant → Instant → Reservation
reservation id uid gpus mode start_at end_at = record {
  id = id;
  op_id = none;
  uid = uid;
  username = none;
  gpus = gpus;
  mode = mode;
  start_at = start_at;
  end_at = end_at;
  status = active;
  created_at = none;
  updated_at = none;
  expected_memory_mb = none;
  share_units = some (int (pos 1));
  operation_signature = none;
  job = none;
  edit_operations = [];
  cancel_operation = none;
  notifications = [];
}

abbrev pub training : Reservation
training = reservation "training" 1 (0 ∷ []) exclusive 600000 600600

abbrev pub notebook : Reservation
notebook = reservation "notebook" 2 (1 ∷ []) shared 599700 600300

abbrev pub finished : Reservation
finished = reservation "finished" 2 (0 ∷ []) exclusive 599000 599900

abbrev pub unbound : Ledger
unbound = record { reservations = finished ∷ training ∷ notebook ∷ []; policy = absent }

abbrev pub actor : Actor
actor = record { uid = 1; username = "ann" }

abbrev pub root : Actor
root = record { uid = 0; username = "root" }

abbrev pub empty_ledger : Ledger
empty_ledger = record { reservations = []; policy = absent }

abbrev pub runtime : Runtime
runtime = record {
  lower = λ text. text;
  uuid = λ text. some text;
  fresh_id = "new";
  fresh_op_id = "drawn";
  logged_at = 600001;
}

abbrev pub sign : Payload → String
sign payload = "signature"

abbrev pub readings : Readings
readings = record { at_start = now; at_scan = now }

abbrev pub ask : Mode → Ask
ask mode = record {
  mode = mode;
  expected_memory_mb = none;
  gpu_memory_capacity_mb = none;
  share_units = 1;
}

abbrev pub wish : Wish
wish = record {
  count = 2;
  duration = 300;
  ask = ask exclusive;
  preferred_gpus = none;
  gpu_order = none;
  gpu_scores = [];
  excluded_gpus = none;
}

abbrev pub demand : Mode → Demand
demand mode = record {
  mode = mode;
  max_shared_users = 4;
  expected_memory_mb = none;
  gpu_memory_capacity_mb = none;
  shared_memory_reserve_mb = 0;
  share_units = 3;
}

abbrev pub request : BookingRequest
request = record {
  actor = actor;
  count = 1;
  duration_seconds = 600;
  start_at = 600300;
  mode = shared;
  preferred_gpus = none;
  gpu_order = none;
  gpu_scores = none;
  op_id = some "operation-1";
  allow_queue = false;
  job_spec_id = none;
  job_digest = none;
  job_summary = none;
  job_digest_aliases = [];
  expected_memory_mb = none;
  gpu_memory_capacity_mb = none;
  share_units = some (int (pos 2));
  excluded_gpus = none;
}

-- A longer reservation under the same ID.
abbrev pub edit_request : EditRequest
edit_request = record {
  actor = actor;
  reservation_id = "new";
  op_id = some "operation-2";
  start_at = none;
  duration_seconds = some 900;
  mode = none;
  preferred_gpus = none;
  gpu_order = none;
  gpu_scores = none;
  count = none;
  allow_queue = false;
  expected_memory_mb = none;
  update_expected_memory = false;
  gpu_memory_capacity_mb = none;
  share_units = none;
  update_share_units = false;
  excluded_gpus = none;
}

unfoldable pub program : Unit {0}
unfolding gpubk.Granularity.validate_slot_minutes gpubk.Granularity.floor_to_slot
    gpubk.Granularity.ceil_to_slot gpubk.Granularity.is_slot_aligned gpubk.Policy.policy_for_config
    gpubk.Policy.policy_matches gpubk.Policy.validate_ledger_policy gpubk.Policy.bind_ledger_policy
    gpubk.Prelude.Ascending.add gpubk.Prelude.Ascending.from_list gpubk.ScheduleIndex.build
    gpubk.ScheduleIndex.collect gpubk.ScheduleIndex.from_ledger gpubk.ScheduleIndex.records
    gpubk.ScheduleIndex.bisect_left gpubk.ScheduleIndex.overlapping gpubk.ScheduleIndex.Grouping.get
    gpubk.ScheduleIndex.Grouping.append gpubk.ScheduleIndex.Grouping.group_span
    gpubk.ScheduleIndex.Grouping.group gpubk.ScheduleIndex.Spans.text_before
    gpubk.ScheduleIndex.Spans.span_before gpubk.ScheduleIndex.Spans.insert_span
    gpubk.ScheduleIndex.Spans.sorted_spans gpubk.Scheduler.Availability.availability_detail_indexed
    gpubk.Scheduler.Availability.availability_detail gpubk.Scheduler.Booking.new_job
    gpubk.Scheduler.Booking.new_reservation gpubk.Scheduler.Booking.book_slot
    gpubk.Scheduler.Booking.place gpubk.Scheduler.Booking.is_replay
    gpubk.Scheduler.Booking.applied_for gpubk.Scheduler.Booking.duplicate_of
    gpubk.Scheduler.Booking.answer gpubk.Scheduler.Booking.placing_of
    gpubk.Scheduler.Booking.mutate_add gpubk.Scheduler.Booking.add_booking
    gpubk.Scheduler.Booking.Failure.preferred_reasons
    gpubk.Scheduler.Booking.Failure.failure_reasons
    gpubk.Scheduler.Booking.Failure.availability_failure
    gpubk.Scheduler.Booking.Prepare.request_share_units gpubk.Scheduler.Booking.Prepare.prepare
    gpubk.Scheduler.Cancel.cancel_job gpubk.Scheduler.Cancel.cancelled_by
    gpubk.Scheduler.Cancel.cancel_first gpubk.Scheduler.Cancel.is_cancel_replay
    gpubk.Scheduler.Cancel.cancel_now gpubk.Scheduler.Cancel.mutate_cancel
    gpubk.Scheduler.Cancel.cancel_booking gpubk.Scheduler.Lookup.find_reservation
    gpubk.Scheduler.Violations.list_active gpubk.Scheduler.Violations.share_violation
    gpubk.Scheduler.Violations.find_invalid_share_unit_violations
    gpubk.Scheduler.Violations.pair_violations gpubk.Scheduler.Violations.left_violations
    gpubk.Scheduler.Violations.find_exclusive_overlap_violations gpubk.Scheduler.Violations.times_of
    gpubk.Scheduler.Violations.segment_violations gpubk.Scheduler.Violations.named_gpus
    gpubk.Scheduler.Violations.capacity_violations
    gpubk.Scheduler.Violations.find_shared_capacity_violations
    gpubk.Scheduler.Violations.violation_before gpubk.Scheduler.Violations.insert_violation
    gpubk.Scheduler.Violations.sorted_violations gpubk.Scheduler.Violations.find_policy_violations
    gpubk.Scheduler.Peaks.shared_capacity_units_for_gpu gpubk.Scheduler.Peaks.points_from
    gpubk.Scheduler.Peaks.gpus_peak gpubk.Scheduler.Peaks.segments_peak
    gpubk.Scheduler.Peaks.max_shared_capacity_units_for_reservation
    gpubk.Scheduler.Peaks.max_shared_record_count_for_reservation
    gpubk.Scheduler.Peaks.shared_record_count_for_gpu gpubk.Scheduler.Search.Nearest.nearer
    gpubk.Scheduler.Search.Nearest.insert_nearest gpubk.Scheduler.Search.Nearest.by_distance
    gpubk.Scheduler.Search.Nearest.add_befores gpubk.Scheduler.Search.Nearest.nearest_candidates
    gpubk.Scheduler.Search.Nearest.find_nearest_slot gpubk.Scheduler.Lookup.replace_first
    gpubk.Scheduler.Lookup.shadow_ledger gpubk.Scheduler.Edit.edit_target
    gpubk.Scheduler.Edit.is_edit_replay gpubk.Scheduler.Edit.edit_found
    gpubk.Scheduler.Edit.edit_or_missing gpubk.Scheduler.Edit.mutate_edit
    gpubk.Scheduler.Edit.edit_booking gpubk.Scheduler.Edit.History.reservation_edit_state
    gpubk.Scheduler.Edit.History.append_edit_history gpubk.Scheduler.Edit.History.edit_payload
    gpubk.Scheduler.Edit.History.write_edit gpubk.Scheduler.Edit.Started.check_extension
    gpubk.Scheduler.Edit.Started.edit_started gpubk.Scheduler.Edit.Future.moving_of
    gpubk.Scheduler.Edit.Future.moved_to gpubk.Scheduler.Edit.Future.edit_slot
    gpubk.Scheduler.Edit.Future.edit_future
    gpubk.Scheduler.Cancel.Administrator.admin_cancellation_reason
    gpubk.Scheduler.Cancel.Administrator.concat gpubk.Scheduler.Cancel.Administrator.prefix
    gpubk.Scheduler.Cancel.Administrator.cancellation_message
    gpubk.Scheduler.Cancel.Administrator.notify
    gpubk.Scheduler.Cancel.Administrator.cancelled_by_admin
    gpubk.Scheduler.Cancel.Administrator.decimal gpubk.Scheduler.Cancel.Administrator.owner_username
    gpubk.Scheduler.Cancel.Administrator.admin_log_item
    gpubk.Scheduler.Cancel.Administrator.admin_cancel_found
    gpubk.Scheduler.Cancel.Administrator.mutate_admin_cancel
    gpubk.Scheduler.Cancel.Administrator.cancel_booking_as_admin gpubk.Scheduler.Gpus.enabled_gpus
    gpubk.Scheduler.Gpus.validate_gpu_index gpubk.Scheduler.Gpus.validate_gpu_indices
    gpubk.Scheduler.Gpus.normalize_preferred_gpus gpubk.Scheduler.Gpus.normalize_excluded_gpus
    gpubk.Scheduler.Gpus.order_loop gpubk.Scheduler.Gpus.normalize_gpu_order
    gpubk.Scheduler.Gpus.scores_loop gpubk.Scheduler.Gpus.normalize_gpu_scores
    gpubk.Scheduler.Gpus.capacities_loop gpubk.Scheduler.Gpus.normalize_memory_capacities
    gpubk.Scheduler.Gpus.normalize_expected_memory gpubk.Scheduler.Gpus.preferred_scope
    gpubk.Scheduler.Gpus.scope_of gpubk.Scheduler.Gpus.validate_gpu_scope
    gpubk.Scheduler.Horizon.blackout_conflict gpubk.Scheduler.Horizon.booking_policy_conflict
    gpubk.Scheduler.Loads.shared_capacity_units_in_spans
    gpubk.Scheduler.Loads.shared_memory_in_spans gpubk.Scheduler.Maintenance.expire_job
    gpubk.Scheduler.Maintenance.expire_one gpubk.Scheduler.Maintenance.expire_all
    gpubk.Scheduler.Maintenance.any_due gpubk.Scheduler.Maintenance.expire_old_reservations
    gpubk.Scheduler.Maintenance.retained gpubk.Scheduler.Maintenance.maintain_ledger
    gpubk.Scheduler.Metadata.lstrip gpubk.Scheduler.Metadata.rstrip gpubk.Scheduler.Metadata.strip
    gpubk.Scheduler.Metadata.normalize_operation_id gpubk.Scheduler.Metadata.checked_intent
    gpubk.Scheduler.Metadata.normalize_job_intent gpubk.Scheduler.Metadata.with_spec_id
    gpubk.Scheduler.Metadata.normalize_job_metadata gpubk.Scheduler.Metadata.aliases_loop
    gpubk.Scheduler.Metadata.normalize_job_digest_aliases gpubk.Scheduler.Operations.create_payload
    gpubk.Scheduler.Operations.find_edit gpubk.Scheduler.Operations.applied_in
    gpubk.Scheduler.Operations.find_applied gpubk.Scheduler.Operations.find_applied_operation
    gpubk.Scheduler.Operations.same_request_metadata gpubk.Scheduler.Operations.find_duplicate
    gpubk.Scheduler.Operations.gpus_test gpubk.Scheduler.Operations.find_active_duplicate
    gpubk.Scheduler.Outcome.log_item gpubk.Scheduler.Placement.round_half_even
    gpubk.Scheduler.Placement.overlap_total
    gpubk.Scheduler.Placement.reservation_pressure_score_indexed gpubk.Scheduler.Placement.noted
    gpubk.Scheduler.Placement.candidate_of gpubk.Scheduler.Placement.scan_gpus
    gpubk.Scheduler.Placement.chosen gpubk.Scheduler.Placement.choose_from
    gpubk.Scheduler.Placement.within_policy gpubk.Scheduler.Placement.find_available_gpus_indexed
    gpubk.Scheduler.Placement.all_free gpubk.Scheduler.Placement.preferred_at
    gpubk.Scheduler.Placement.scanned_at gpubk.Scheduler.Placement.at_start_within
    gpubk.Scheduler.Placement.gpus_at_start gpubk.Scheduler.Placement.Ranking.ranks_before
    gpubk.Scheduler.Placement.Ranking.insert_ranked gpubk.Scheduler.Placement.Ranking.ranked
    gpubk.Scheduler.Placement.Ranking.same_reason gpubk.Scheduler.Placement.Ranking.combine_reasons
    gpubk.Scheduler.Search.normalize_queue_start gpubk.Scheduler.Search.normalize_start
    gpubk.Scheduler.Search.add_ends gpubk.Scheduler.Search.candidate_starts_from_index
    gpubk.Scheduler.Search.add_blackout_ends gpubk.Scheduler.Search.try_start
    gpubk.Scheduler.Search.first_start gpubk.Scheduler.Search.queue_candidates
    gpubk.Scheduler.Search.find_earliest_slot gpubk.Sharing.whole_number
    gpubk.Sharing.normalize_share_units gpubk.Sharing.parse_share_units
    gpubk.Sharing.reservation_share_units gpubk.Sharing.share_example
    gpubk.Sharing.inferred_share_memory_mb gpubk.Sharing.Numerals.parse_int
program = tt

abbrev pub value_of {ℓ} : {A : Type ℓ} → A → Result A → A
value_of default (ok a) = a
value_of default (err e) = default

-- The ledger bound to the configuration, as the first write leaves it.
abbrev pub ledger : Ledger
unfolding program
ledger = (value_of (unbound, false) (bind_ledger_policy unbound config)).0

earliest_slot :
    find_earliest_slot ledger config wish now true (steady now readings)
    ≡ ok (some (600600, 0 ∷ 1 ∷ []))
unfolding program
earliest_slot = refl

unknown_reservation :
    cancel_booking runtime sign "absent" actor none now ledger ≡ err reservation_not_found
unfolding program
unknown_reservation = refl

not_root :
    cancel_booking_as_admin runtime sign config "notebook" actor "maintenance" now ledger
    ≡ err admin_required
unfolding program
not_root = refl

other_owner : cancel_booking runtime sign "notebook" actor none now ledger ≡ err permission_denied
unfolding program
other_owner = refl

-- Two exclusive reservations of GPU 0 that meet.
overlap_found :
    find_policy_violations
      (record ledger {
        reservations = training ∷ reservation "second" 2 (0 ∷ 1 ∷ []) exclusive 600300 600900 ∷ [];
      })
      4
      now
    ≡ exclusive_overlap 0 "training" "second" 600000 600600 600300 600900 600300 600600 ∷ []
unfolding program
overlap_found = refl

abbrev pub evening : Reservation
evening = reservation "evening" 1 (1 ∷ []) shared 600000 600600

-- It shares GPU 1 with the notebook up to 600300, and counts itself too.
evening_peaks :
    (max_shared_capacity_units_for_reservation (evening ∷ notebook ∷ []) evening 4 ≡ 2)
    × (max_shared_record_count_for_reservation (evening ∷ notebook ∷ []) evening ≡ 2)
unfolding program
evening_peaks = (refl, refl)
