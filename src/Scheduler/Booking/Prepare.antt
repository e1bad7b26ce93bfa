-- ===== src/Scheduler/Booking/Prepare.antt =====
-- The checks of a booking request, before the ledger is read.
use gpubk.Prelude.{
  ℕ, ◌*◌, ◌%◌, String, Bool, true, false, not, Option, none, some, List, [], ◌∷◌, ltb, ◌==◌, ◌&&◌,
  if◌then◌else◌,
}
use gpubk.Models.{Value, Mode, shared, exclusive, Config, BookingRequest, is_shared}
use gpubk.Sharing.{Checked, accepted, refused, normalize_share_units}
use gpubk.Errors.{
  Result, ok, err, ◌>>=◌, ◌>>◌, raise_if, unsupported_booking_mode, count_below_one,
  duration_not_positive, duration_granularity, memory_budget_missing, share_slots_exclusive,
  share_slots, job_aliases_alone,
}
use gpubk.Scheduler.Gpus.{normalize_memory_capacities, normalize_expected_memory}
use gpubk.Scheduler.Metadata.{
  Runtime, JobIntent, JobMetadata, normalize_operation_id, normalize_job_metadata,
  normalize_job_digest_aliases,
}

abbrev pub from_checked : Checked → Result ℕ
from_checked (accepted units) = ok units
from_checked (refused e) = err (share_slots e)

abbrev pub is_given : Option Value → Bool
is_given none = false
is_given (some _) = true

-- `_request_share_units`
unfoldable pub request_share_units : Mode → Option Value → ℕ → Result ℕ
request_share_units exclusive value capacity_units =
    if is_given value then err share_slots_exclusive else ok capacity_units
request_share_units _ value capacity_units =
    from_checked (normalize_share_units value capacity_units)

abbrev pub check_mode : Mode → Result (Unit {0})
check_mode shared = ok tt
check_mode exclusive = ok tt
check_mode mode = err (unsupported_booking_mode mode)

-- The request once its fields are checked.
pub record Prepared : Type 0 where
  pub job : Option JobMetadata
  pub aliases : List String
  pub op_id : Option String
  pub expected_memory_mb : Option ℕ
  pub share_units : ℕ
  pub capacities : List (ℕ × ℕ)

abbrev pub is_absent {ℓ} : {A : Type ℓ} → Option A → Bool
is_absent none = true
is_absent (some a) = false

abbrev pub is_empty {ℓ} : {A : Type ℓ} → List A → Bool
is_empty [] = true
is_empty (x ∷ xs) = false

-- The body of `add_booking` before the transaction.
unfoldable pub prepare : Runtime → Config → BookingRequest → Result Prepared
prepare runtime config request = do
  check_mode request.mode
  raise_if (ltb request.count 1) count_below_one
  raise_if (request.duration_seconds == 0) duration_not_positive
  raise_if (not (request.duration_seconds % (config.slot_minutes * 60) == 0))
      (duration_granularity config.slot_minutes)
  job ← normalize_job_metadata runtime request.job_spec_id request.job_digest request.job_summary
  aliases ← normalize_job_digest_aliases runtime request.job_digest_aliases
  raise_if (is_absent job && not (is_empty aliases)) job_aliases_alone
  op_id ← normalize_operation_id request.op_id
  expected_memory_mb ← normalize_expected_memory request.expected_memory_mb
  share_units ← request_share_units request.mode request.share_units config.max_shared_users
  raise_if
      (is_shared request.mode && (config.require_shared_memory && is_absent expected_memory_mb))
      memory_budget_missing
  capacities ← normalize_memory_capacities request.gpu_memory_capacity_mb config
  ok (record {
    job = job;
    aliases = aliases;
    op_id = op_id;
    expected_memory_mb = expected_memory_mb;
    share_units = share_units;
    capacities = capacities;
  })

abbrev pub intent_of : Option JobMetadata → Option JobIntent
intent_of none = none
intent_of (some job) = some job.intent
