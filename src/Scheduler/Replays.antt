-- ===== src/Scheduler/Replays.antt =====
-- Lookups of writes that a ledger records already, which write nothing themselves:
-- `find_applied_create`, `find_applied_edit` and the public `find_applied_operation`.
use gpubk.Prelude.{
  ℕ, ◌*◌, ◌%◌, String, false, not, Option, none, some, List, ltb, ◌==◌, ◌&&◌, if◌then◌else◌,
}
use gpubk.Models.{
  Instant, Actor, Reservation, Ledger, Config, BookingRequest, EditRequest, BookingResult,
  is_shared, same_text,
}
use gpubk.Errors.{
  Result, ok, err, ◌>>=◌, ◌>>◌, raise_if, count_below_one, duration_not_positive,
  duration_granularity, job_aliases_alone, memory_budget_missing, operation_id_reused,
}
use gpubk.Policy.{validate_ledger_policy}
use gpubk.Scheduler.Gpus.{
  normalize_preferred_gpus, normalize_excluded_gpus, normalize_expected_memory, validate_gpu_scope,
}
use gpubk.Scheduler.Search.{normalize_start}
use gpubk.Scheduler.Metadata.{
  Runtime, JobIntent, normalize_operation_id, normalize_job_intent, normalize_job_digest_aliases,
}
use gpubk.Scheduler.Operations.{
  Payload, create_payload, Applied, Action, find_applied_operation, same_request_metadata,
}
use gpubk.Scheduler.Booking.{is_create}
use gpubk.Scheduler.Booking.Prepare.{check_mode, request_share_units, is_absent, is_empty}
use gpubk.Scheduler.Edit.{is_edit_replay}
use gpubk.Scheduler.Edit.History.{edit_payload}

abbrev pub already_applied : Reservation → BookingResult
already_applied r = record {
  reservation = r;
  created = false;
  message = "operation already applied";
  queued = false;
}

-- The intent of a request and its signature, as the lookup reads them.
pub record Intent : Type 0 where
  pub expected_memory_mb : Option ℕ
  pub job : Option JobIntent
  pub share_units : ℕ
  pub aliases : List String
  pub signature : String

-- The verdict on the recorded operation. One with no signature is passed over.
unfoldable pub create_verdict : Applied → Intent → Result (Option BookingResult)
create_verdict applied intent =
    if is_absent applied.signature
    then ok none
    else if is_create applied.action
        && (same_text applied.signature (some intent.signature)
            && same_request_metadata applied.reservation intent.expected_memory_mb intent.job
                intent.share_units intent.aliases)
    then ok (some (already_applied applied.reservation))
    else err operation_id_reused

unfoldable pub create_intent :
    Runtime → (Payload → String) → Ledger → Config → BookingRequest → Instant → Result Intent
create_intent runtime sign ledger config request now = do
  validate_ledger_policy ledger config
  check_mode request.mode
  raise_if (ltb request.count 1) count_below_one
  raise_if (request.duration_seconds == 0) duration_not_positive
  raise_if (not (request.duration_seconds % (config.slot_minutes * 60) == 0))
      (duration_granularity config.slot_minutes)
  job ← normalize_job_intent runtime request.job_digest request.job_summary
  aliases ← normalize_job_digest_aliases runtime request.job_digest_aliases
  raise_if (is_absent job && not (is_empty aliases)) job_aliases_alone
  expected_memory_mb ← normalize_expected_memory request.expected_memory_mb
  share_units ← request_share_units request.mode request.share_units config.max_shared_users
  raise_if
      (is_shared request.mode && (config.require_shared_memory && is_absent expected_memory_mb))
      memory_budget_missing
  start ← normalize_start request.start_at request.allow_queue now config.slot_minutes
  let preferred = normalize_preferred_gpus request.preferred_gpus
  excluded ← normalize_excluded_gpus request.excluded_gpus config
  validate_gpu_scope config request.count preferred excluded
  ok (record {
    expected_memory_mb = expected_memory_mb;
    job = job;
    share_units = share_units;
    aliases = aliases;
    signature =
        sign (create_payload request start preferred expected_memory_mb job share_units excluded);
  })

-- `none` where the request has no operation ID, or none that is recorded.
unfoldable pub applied_create_of :
    Runtime
    → (Payload → String)
    → Ledger
    → Config
    → BookingRequest
    → Instant
    → Option String
    → Result (Option BookingResult)
unfolding create_intent create_verdict
applied_create_of runtime sign ledger config request now none = ok none
applied_create_of runtime sign ledger config request now (some op_id) = do
  intent ← create_intent runtime sign ledger config request now
  applied ← find_applied_operation ledger request.actor.uid op_id
  elim applied [ none ↦ ok none | some found ↦ create_verdict found intent ]

unfoldable pub find_applied_create :
    Runtime
    → (Payload → String)
    → Ledger
    → Config
    → BookingRequest
    → Instant
    → Result (Option BookingResult)
unfolding applied_create_of
find_applied_create runtime sign ledger config request now = do
  op_id ← normalize_operation_id request.op_id
  applied_create_of runtime sign ledger config request now op_id

unfoldable pub applied_edit_of :
    (Payload → String)
    → Ledger
    → Config
    → EditRequest
    → Option String
    → Result (Option BookingResult)
applied_edit_of sign ledger config request none = ok none
applied_edit_of sign ledger config request (some op_id) = do
  validate_ledger_policy ledger config
  applied ← find_applied_operation ledger request.actor.uid op_id
  elim applied [
    | none ↦ ok none
    | some found ↦
        if is_edit_replay found request.reservation_id (sign (edit_payload request))
        then ok (some (already_applied found.reservation))
        else err operation_id_reused
  ]

unfoldable pub find_applied_edit :
    (Payload → String) → Ledger → Config → EditRequest → Result (Option BookingResult)
unfolding applied_edit_of
find_applied_edit sign ledger config request = do
  op_id ← normalize_operation_id request.op_id
  applied_edit_of sign ledger config request op_id

-- The action and its reservation, without the signature.
unfoldable pub applied_action : Ledger → Actor → String → Result (Option (Action × Reservation))
applied_action ledger actor operation_id = do
  op_id ← normalize_operation_id (some operation_id)
  elim op_id [
    | none ↦ ok none
    | some op_id ↦ do
      applied ← find_applied_operation ledger actor.uid op_id
      elim applied [ none ↦ ok none | some found ↦ ok (some (found.action, found.reservation)) ]
  ]
