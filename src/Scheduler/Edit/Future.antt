-- ===== src/Scheduler/Edit/Future.antt =====
-- The edit of a reservation that has not started.
use gpubk.Prelude.{
  ℕ, ◌+◌, ◌-◌, ◌*◌, ◌%◌, String, Bool, true, false, not, Option, none, some, List, [], ltb, ◌==◌,
  ◌&&◌, if◌then◌else◌, length,
}
use gpubk.Prelude.Ascending.{from_list}
use gpubk.Models.{
  Instant, int, pos, Mode, Job, Reservation, Ledger, Config, EditRequest, BookingRequest,
  BookingResult, is_shared, is_pending,
}
use gpubk.Granularity.{ceil_to_slot}
use gpubk.Errors.{
  Result, ok, err, ◌>>=◌, ◌>>◌, raise_if, edit_job_state, memory_budget_missing, edit_start_in_past,
  edit_in_past, duration_not_positive, duration_granularity, edit_moved_unexpectedly,
}
use gpubk.Scheduler.Gpus.{
  normalize_preferred_gpus, normalize_excluded_gpus, normalize_gpu_order, normalize_gpu_scores,
  validate_gpu_scope,
}
use gpubk.Scheduler.Horizon.{booking_policy_conflict}
use gpubk.Scheduler.Search.{Clock, Wish, normalize_start, find_earliest_slot}
use gpubk.Scheduler.Metadata.{Runtime}
use gpubk.Scheduler.Outcome.{Outcome}
use gpubk.Scheduler.Booking.{raise_conflict}
use gpubk.Scheduler.Booking.Failure.{availability_failure}
use gpubk.Scheduler.Booking.Prepare.{is_absent}
use gpubk.Scheduler.Lookup.{shadow_ledger}
use gpubk.Scheduler.Edit.History.{write_edit}

-- What the edited reservation is to have, once checked.
pub record EditTarget : Type 0 where
  pub mode : Mode
  pub expected_memory_mb : Option ℕ
  pub share_units : ℕ
  pub capacities : List (ℕ × ℕ)

abbrev pub check_job : Option Job → Result (Unit {0})
check_job none = ok tt
check_job (some job) = raise_if (not (is_pending job.status)) (edit_job_state job.status)

abbrev pub number_or : Option ℕ → ℕ → ℕ
number_or none default = default
number_or (some n) default = n

-- `request.start_at is not None and start < now`
abbrev pub is_before : Option Instant → Instant → Bool
is_before none now = false
is_before (some start) now = ltb start now

-- A queued edit is moved up to the next slot.
abbrev pub not_before : Instant → Bool → Instant → Result Instant
not_before earliest_start allow_queue start =
    if ltb start earliest_start
    then (if allow_queue then ok earliest_start else err edit_in_past)
    else ok start

-- The GPUs of the request, or those that the reservation has where it says nothing of GPUs.
abbrev pub edit_preferred : EditRequest → Reservation → Option (List ℕ)
edit_preferred request r =
    if is_absent request.preferred_gpus
      && (is_absent request.count && is_absent request.excluded_gpus)
    then some (from_list r.gpus)
    else normalize_preferred_gpus request.preferred_gpus

abbrev pub count_of : Option ℕ → Option (List ℕ) → Reservation → ℕ
count_of (some count) preferred r = count
count_of none (some preferred) r = length preferred
count_of none none r = length r.gpus

-- The edit as it goes into the search.
pub record Moving : Type 0 where
  pub start : Instant
  pub duration : ℕ
  pub count : ℕ
  pub preferred : Option (List ℕ)
  pub excluded : List ℕ
  pub gpu_order : List ℕ
  pub gpu_scores : List (ℕ × ℕ)

unfoldable pub moving_of : Config → EditRequest → Reservation → EditTarget → Instant → Result Moving
moving_of config request r target now = do
  check_job r.job
  raise_if
      (is_shared target.mode
        && (config.require_shared_memory && is_absent target.expected_memory_mb))
      memory_budget_missing
  raise_if (is_before request.start_at now)
      (edit_start_in_past (ceil_to_slot now config.slot_minutes))
  let duration = number_or request.duration_seconds (r.end_at - r.start_at)
  raise_if (duration == 0) duration_not_positive
  raise_if (not (duration % (config.slot_minutes * 60) == 0))
      (duration_granularity config.slot_minutes)
  aligned ←
      normalize_start (number_or request.start_at r.start_at) request.allow_queue now
        config.slot_minutes
  start ← not_before (ceil_to_slot now config.slot_minutes) request.allow_queue aligned
  raise_conflict (booking_policy_conflict config start (start + duration) now) request.allow_queue
  excluded ← normalize_excluded_gpus request.excluded_gpus config
  let preferred = edit_preferred request r
  let count = count_of request.count preferred r
  validate_gpu_scope config count preferred excluded
  gpu_order ← normalize_gpu_order request.gpu_order config
  gpu_scores ← normalize_gpu_scores request.gpu_scores config
  ok (record {
    start = start;
    duration = duration;
    count = count;
    preferred = preferred;
    excluded = excluded;
    gpu_order = gpu_order;
    gpu_scores = gpu_scores;
  })

abbrev pub edit_wish : EditTarget → Moving → Wish
edit_wish target moving = record {
  count = moving.count;
  duration = moving.duration;
  ask = record {
    mode = target.mode;
    expected_memory_mb = target.expected_memory_mb;
    gpu_memory_capacity_mb = some target.capacities;
    share_units = target.share_units;
  };
  preferred_gpus = moving.preferred;
  gpu_order = some moving.gpu_order;
  gpu_scores = moving.gpu_scores;
  excluded_gpus = some moving.excluded;
}

-- `reason_request`
abbrev pub reason_request : EditRequest → EditTarget → Moving → BookingRequest
reason_request request target moving = record {
  actor = request.actor;
  count = moving.count;
  duration_seconds = moving.duration;
  start_at = moving.start;
  mode = target.mode;
  preferred_gpus = moving.preferred;
  gpu_order = some moving.gpu_order;
  gpu_scores = some moving.gpu_scores;
  op_id = none;
  allow_queue = request.allow_queue;
  job_spec_id = none;
  job_digest = none;
  job_summary = none;
  job_digest_aliases = [];
  expected_memory_mb = target.expected_memory_mb;
  gpu_memory_capacity_mb = some target.capacities;
  share_units = if is_shared target.mode then some (int (pos target.share_units)) else none;
  excluded_gpus = some moving.excluded;
}

-- The reservation with the fields of the slot that was found.
unfoldable pub moved_to : Reservation → EditTarget → ℕ → Instant → Instant → List ℕ → Reservation
moved_to r target duration now scheduled_start gpus = record r {
  gpus = gpus;
  mode = target.mode;
  start_at = scheduled_start;
  end_at = scheduled_start + duration;
  expected_memory_mb = target.expected_memory_mb;
  share_units = if is_shared target.mode then some (int (pos target.share_units)) else none;
  updated_at = some now;
}

unfoldable pub edit_slot :
    Runtime
    → EditRequest
    → Reservation
    → EditTarget
    → Moving
    → Instant
    → Option String
    → String
    → Ledger
    → Instant × List ℕ
    → Result (Outcome BookingResult)
unfolding moved_to write_edit
edit_slot runtime request r target moving now op_id signature ledger (scheduled_start, gpus) =
    let queued = ltb moving.start scheduled_start in
    let message = if queued then "queued" else "updated" in
    if not request.allow_queue && not (scheduled_start == moving.start)
    then err edit_moved_unexpectedly
    else write_edit runtime request now op_id signature r
        (moved_to r target moving.duration now scheduled_start gpus) message
        (record { reservation = r; created = true; message = message; queued = queued }) ledger

unfoldable pub edit_future :
    Runtime
    → Config
    → EditRequest
    → Reservation
    → EditTarget
    → Instant
    → Option String
    → String
    → Clock
    → Clock
    → Ledger
    → Result (Outcome BookingResult)
unfolding moving_of edit_slot
edit_future runtime config request r target now op_id signature clock hint_clock ledger = do
  moving ← moving_of config request r target now
  let shadow = shadow_ledger ledger request.reservation_id
  slot ←
      find_earliest_slot shadow config (edit_wish target moving) moving.start request.allow_queue
        clock
  elim slot [
    | some found ↦ edit_slot runtime request r target moving now op_id signature ledger found
    | none ↦ do
      reason ←
          availability_failure shadow config (reason_request request target moving) moving.start
            (moving.start + moving.duration) moving.preferred target.share_units hint_clock
      err reason
  ]
