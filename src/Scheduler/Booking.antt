-- ===== src/Scheduler/Booking.antt =====
-- `add_booking`: the checks of a request, and the write under the ledger's lock. The clock's
-- readings, the random IDs and the hash of a signature come with the call.
pub mod Failure
pub mod Prepare
pub mod Slot
use gpubk.Prelude.{
  ℕ, ◌+◌, ◌*◌, ◌%◌, String, Bool, true, false, not, Option, none, some, List, [], ◌∷◌, ◌++◌, ltb,
  ◌==◌, ◌&&◌, ◌||◌, if◌then◌else◌, length,
}
use gpubk.Models.{
  Instant, Value, int, pos, Mode, shared, exclusive, unsupported, active, Job, pending, Actor,
  Reservation, Ledger, Config, BookingRequest, BookingResult, is_shared, same_text,
}
use gpubk.Sharing.{Checked, accepted, refused, normalize_share_units}
use gpubk.Granularity.{floor_to_slot}
use gpubk.Errors.{
  Result, ok, err, ◌>>=◌, ◌>>◌, raise_if, unsupported_booking_mode, count_below_one,
  duration_not_positive, duration_granularity, memory_budget_missing, share_slots_exclusive,
  share_slots, job_aliases_alone, operation_id_reused, policy_conflict, start_before_slice,
  moved_unexpectedly, unavailable,
}
use gpubk.Policy.{bind_ledger_policy}
use gpubk.Scheduler.Reasons.{Reason}
use gpubk.Scheduler.Gpus.{
  normalize_preferred_gpus, normalize_excluded_gpus, normalize_gpu_order, normalize_gpu_scores,
  normalize_memory_capacities, normalize_expected_memory, validate_gpu_scope,
}
use gpubk.Scheduler.Horizon.{booking_policy_conflict}
use gpubk.Scheduler.Placement.{Ask}
use gpubk.Scheduler.Search.{Clock, Wish, normalize_start, find_earliest_slot}
use gpubk.Scheduler.Metadata.{
  Runtime, JobIntent, JobMetadata, normalize_operation_id, normalize_job_metadata,
  normalize_job_digest_aliases,
}
use gpubk.Scheduler.Operations.{
  Payload, create_payload, Applied, create_action, Action, edit_action, cancel_action,
  find_applied_operation, find_active_duplicate, same_request_metadata,
}
use gpubk.Scheduler.Maintenance.{maintain_ledger}
use gpubk.Scheduler.Booking.Failure.{availability_failure}
use gpubk.Scheduler.Outcome.{LogItem, or_else, log_item, Outcome}
use gpubk.Scheduler.Booking.Prepare.{Prepared, prepare, is_absent, is_empty, intent_of}

unfoldable pub new_job : Option JobMetadata → Instant → Option Job
new_job none now = none
new_job (some job) now = some (record {
  spec_id = job.spec_id;
  digest = job.intent.digest;
  summary = job.intent.summary;
  status = pending;
  submitted_at = now;
  claimed_at = none;
  started_at = none;
  finished_at = none;
  exit_code = none;
  runner_pid = none;
  runner_host = none;
  cancel_requested_at = none;
  recovery_state = none;
  message = none;
})

-- The request as the mutator sees it, with its lists normalised and its start fixed.
pub record Placing : Type 0 where
  pub request : BookingRequest
  pub prepared : Prepared
  pub start : Instant
  pub preferred : Option (List ℕ)
  pub excluded : List ℕ
  pub gpu_order : List ℕ
  pub gpu_scores : List (ℕ × ℕ)
  pub signature : String

abbrev pub end_of : Placing → Instant
end_of p = p.start + p.request.duration_seconds

unfoldable pub new_reservation : Runtime → Placing → Instant → Instant → List ℕ → Reservation
unfolding new_job
new_reservation runtime p now scheduled_start gpus = record {
  id = runtime.fresh_id;
  op_id = or_else p.prepared.op_id (some runtime.fresh_op_id);
  uid = p.request.actor.uid;
  username = some p.request.actor.username;
  gpus = gpus;
  mode = p.request.mode;
  start_at = scheduled_start;
  end_at = scheduled_start + p.request.duration_seconds;
  status = active;
  created_at = some now;
  updated_at = some now;
  expected_memory_mb = p.prepared.expected_memory_mb;
  share_units = if is_shared p.request.mode then some (int (pos p.prepared.share_units)) else none;
  operation_signature = if is_absent p.prepared.op_id then none else some p.signature;
  job = new_job p.prepared.job now;
  edit_operations = [];
  cancel_operation = none;
  notifications = [];
}

abbrev pub wish_of : Placing → Wish
wish_of p = record {
  count = p.request.count;
  duration = p.request.duration_seconds;
  ask = record {
    mode = p.request.mode;
    expected_memory_mb = p.prepared.expected_memory_mb;
    gpu_memory_capacity_mb = some p.prepared.capacities;
    share_units = p.prepared.share_units;
  };
  preferred_gpus = p.preferred;
  gpu_order = some p.gpu_order;
  gpu_scores = p.gpu_scores;
  excluded_gpus = some p.excluded;
}

-- The reservation that a found slot adds.
unfoldable pub book_slot :
    Runtime → Ledger → Placing → Instant → Instant × List ℕ → Result (Outcome BookingResult)
unfolding new_reservation log_item
book_slot runtime ledger p now (scheduled_start, gpus) =
    let queued = ltb p.start scheduled_start in
    let message = if queued then "queued" else "created" in
    let r = new_reservation runtime p now scheduled_start gpus in
    if not p.request.allow_queue && not (scheduled_start == p.start)
    then err moved_unexpectedly
    else ok (record {
      ledger = record ledger { reservations = ledger.reservations ++ r ∷ [] };
      result = record { reservation = r; created = true; message = message; queued = queued };
      logs = log_item p.request.actor "add" r "ok" message none runtime.logged_at ∷ [];
      changed = true;
    })

-- From the search for a slot on.
unfoldable pub place :
    Runtime → Ledger → Config → Placing → Instant → Clock → Clock → Result (Outcome BookingResult)
unfolding book_slot availability_failure
place runtime ledger config p now clock hint_clock = do
  raise_if (ltb p.start (floor_to_slot now config.slot_minutes))
      (start_before_slice (floor_to_slot now config.slot_minutes))
  slot ← find_earliest_slot ledger config (wish_of p) p.start p.request.allow_queue clock
  elim slot [
    | some found ↦ book_slot runtime ledger p now found
    | none ↦ do
      reason ←
          availability_failure ledger config p.request p.start (end_of p) p.preferred
            p.prepared.share_units hint_clock
      err reason
  ]

-- An operation that is already applied, or a reservation that the request repeats.
abbrev pub unchanged : Ledger → Reservation → String → Bool → Outcome BookingResult
unchanged ledger r message changed = record {
  ledger = ledger;
  result = record { reservation = r; created = false; message = message; queued = false };
  logs = [];
  changed = changed;
}

abbrev pub is_create : Action → Bool
is_create create_action = true
is_create _ = false

-- `existing_signature is None or existing_signature == operation_signature`
abbrev pub signature_fits : Option String → String → Bool
signature_fits none signature = true
signature_fits (some existing) signature = same_text (some existing) (some signature)

unfoldable pub is_replay : Applied → Placing → Bool
is_replay applied p =
    is_create applied.action
    && (signature_fits applied.signature p.signature
        && same_request_metadata applied.reservation p.prepared.expected_memory_mb
            (intent_of p.prepared.job) p.prepared.share_units p.prepared.aliases)

-- The lookup of a caller's operation ID.
unfoldable pub applied_for : Ledger → Placing → Option String → Result (Option Applied)
applied_for ledger p none = ok none
applied_for ledger p (some op_id) = find_applied_operation ledger p.request.actor.uid op_id

unfoldable pub duplicate_of : Ledger → Placing → Option Reservation
duplicate_of ledger p =
    if p.request.allow_queue
    then none
    else find_active_duplicate ledger p.preferred p.request.count p.request.actor.uid p.start
        (end_of p) p.request.mode p.prepared.expected_memory_mb (intent_of p.prepared.job)
        p.prepared.share_units p.prepared.aliases

-- After the policy's test: a replay, a duplicate, or a new reservation.
unfoldable pub answer :
    Runtime
    → Ledger
    → Bool
    → Config
    → Placing
    → Instant
    → Clock
    → Clock
    → Result (Outcome BookingResult)
unfolding place is_replay applied_for duplicate_of
answer runtime ledger changed config p now clock hint_clock = do
  applied ← applied_for ledger p p.prepared.op_id
  elim applied [
    | some found ↦
        if is_replay found p
        then ok (unchanged ledger found.reservation "operation already applied" changed)
        else err operation_id_reused
    | none ↦ elim (duplicate_of ledger p) [
      | some r ↦ ok (unchanged ledger r "duplicate request ignored" changed)
      | none ↦ place runtime ledger config p now clock hint_clock
    ]
  ]

abbrev pub raise_conflict : Option Reason → Bool → Result (Unit {0})
raise_conflict none allow_queue = ok tt
raise_conflict (some reason) allow_queue = raise_if (not allow_queue) (policy_conflict reason)

-- The normalisations inside the transaction.
unfoldable pub placing_of :
    (Payload → String) → Config → BookingRequest → Prepared → Instant → Result Placing
placing_of sign config request prepared now = do
  start ← normalize_start request.start_at request.allow_queue now config.slot_minutes
  let preferred = normalize_preferred_gpus request.preferred_gpus
  excluded ← normalize_excluded_gpus request.excluded_gpus config
  gpu_order ← normalize_gpu_order request.gpu_order config
  gpu_scores ← normalize_gpu_scores request.gpu_scores config
  validate_gpu_scope config request.count preferred excluded
  raise_conflict (booking_policy_conflict config start (start + request.duration_seconds) now)
      request.allow_queue
  ok (record {
    request = request;
    prepared = prepared;
    start = start;
    preferred = preferred;
    excluded = excluded;
    gpu_order = gpu_order;
    gpu_scores = gpu_scores;
    signature = sign (
        create_payload request start preferred prepared.expected_memory_mb (intent_of prepared.job)
          prepared.share_units excluded);
  })

-- `mutate(ledger)`: `clock` serves the search, `hint_clock` the text of a failure.
unfoldable pub mutate_add :
    Runtime
    → (Payload → String)
    → Config
    → BookingRequest
    → Prepared
    → Instant
    → Clock
    → Clock
    → Ledger
    → Result (Outcome BookingResult)
unfolding answer placing_of
mutate_add runtime sign config request prepared now clock hint_clock ledger = do
  bound ← bind_ledger_policy ledger config
  let (current, maintained) = maintain_ledger bound.0 now config.ledger_retention_days
  p ← placing_of sign config request prepared now
  answer runtime current (maintained || bound.1) config p now clock hint_clock

-- `add_booking` on a local store: the checks, then the mutator on the ledger that the store holds.
unfoldable pub add_booking :
    Runtime
    → (Payload → String)
    → Config
    → BookingRequest
    → Instant
    → Clock
    → Clock
    → Ledger
    → Result (Outcome BookingResult)
unfolding prepare mutate_add
add_booking runtime sign config request now clock hint_clock ledger = do
  prepared ← prepare runtime config request
  mutate_add runtime sign config request prepared now clock hint_clock ledger
