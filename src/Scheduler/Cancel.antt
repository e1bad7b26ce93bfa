-- ===== src/Scheduler/Cancel.antt =====
-- `cancel_booking`: an owner gives up a reservation.
pub mod Steps
pub mod Cancelled
pub mod Owner
pub mod Administrator
pub mod Again
pub mod Repeated
use gpubk.Prelude.{
  ℕ, String, Bool, true, false, Option, none, some, List, [], ◌∷◌, ◌==◌, ◌&&◌, ◌||◌, if◌then◌else◌,
  str_eq,
}
use gpubk.Models.{
  Instant, Status, JobStatus, Job, owner, Actor, Reservation, Ledger, is_active, is_pending,
  is_claimed, is_running, same_text,
}
use gpubk.Errors.{
  Result, ok, err, ◌>>=◌, operation_id_reused, reservation_not_found, reservation_not_active,
  permission_denied,
}
use gpubk.Scheduler.Metadata.{Runtime, normalize_operation_id}
use gpubk.Scheduler.Operations.{
  Payload, cancel, Applied, Action, cancel_action, find_applied_operation,
}
use gpubk.Scheduler.Maintenance.{expire_old_reservations, map_job}
use gpubk.Scheduler.Outcome.{log_item, Outcome}
use gpubk.Scheduler.Lookup.{is_named}

-- A job that waits is cancelled at once; one that a worker holds is asked to stop.
unfoldable pub cancel_job : Instant → Job → Job
cancel_job now job =
    if is_pending job.status
    then record job { status = JobStatus.cancelled; finished_at = some now }
    else if is_claimed job.status || is_running job.status
    then record job { cancel_requested_at = some now }
    else job

-- The cancelled reservation, with the operation that cancelled it.
unfoldable pub cancelled_by : Actor → Instant → String → String → Reservation → Reservation
unfolding cancel_job
cancelled_by actor now op_id signature r = record r {
  status = Status.cancelled;
  updated_at = some now;
  cancel_operation = some (record {
    op_id = op_id;
    signature = signature;
    at = now;
    actor_uid = actor.uid;
    actor_username = actor.username;
    kind = owner;
    reason = "cancelled by reservation owner";
  });
  job = map_job (cancel_job now) r.job;
}

-- The loop over the reservations, which writes to the first that has the ID.
unfoldable pub cancel_first :
    Actor
    → Instant
    → String
    → String
    → String
    → List Reservation
    → Result (List Reservation × Reservation)
cancel_first actor now op_id signature reservation_id [] = err reservation_not_found
cancel_first actor now op_id signature reservation_id (r ∷ rest) =
    let others = cancel_first actor now op_id signature reservation_id rest in
    let written = cancelled_by actor now op_id signature r in
    if is_named reservation_id r
    then if is_active r.status
      then if r.uid == actor.uid then ok (written ∷ rest, written) else err permission_denied
      else err reservation_not_active
    else elim others [ err e ↦ err e | ok (reservations, found) ↦ ok (r ∷ reservations, found) ]

abbrev pub is_cancel : Action → Bool
is_cancel cancel_action = true
is_cancel _ = false

-- The applied operation is this cancellation of this reservation.
unfoldable pub is_cancel_replay : Applied → String → String → Bool
is_cancel_replay applied reservation_id signature =
    is_cancel applied.action
    && (is_named reservation_id applied.reservation && same_text applied.signature (some signature))

abbrev pub applied_to : Ledger → ℕ → Option String → Result (Option Applied)
applied_to ledger uid none = ok none
applied_to ledger uid (some op_id) = find_applied_operation ledger uid op_id

abbrev pub op_id_or : Option String → String → String
op_id_or none fresh = fresh
op_id_or (some op_id) fresh = op_id

-- The write to a reservation, for an operation that is not applied yet.
unfoldable pub cancel_now :
    Runtime
    → Actor
    → Instant
    → Option String
    → String
    → String
    → Ledger
    → Result (Outcome Reservation)
unfolding cancel_first log_item
cancel_now runtime actor now op_id signature reservation_id ledger = do
  (reservations, r) ←
      cancel_first actor now (op_id_or op_id runtime.fresh_op_id) signature reservation_id
        ledger.reservations
  ok (record {
    ledger = record ledger { reservations = reservations };
    result = r;
    logs =
        log_item actor "cancel" r "ok" "cancelled" (some (op_id_or op_id runtime.fresh_op_id))
          runtime.logged_at
        ∷ [];
    changed = true;
  })

-- `mutate(ledger)` of `cancel_booking`.
unfoldable pub mutate_cancel :
    Runtime
    → Actor
    → Instant
    → Option String
    → String
    → String
    → Ledger
    → Result (Outcome Reservation)
unfolding cancel_now is_cancel_replay
mutate_cancel runtime actor now op_id signature reservation_id ledger = do
  let (current, changed) = expire_old_reservations ledger now
  applied ← applied_to current actor.uid op_id
  elim applied [
    | none ↦ cancel_now runtime actor now op_id signature reservation_id current
    | some found ↦
        if is_cancel_replay found reservation_id signature
        then ok
            (record { ledger = current; result = found.reservation; logs = []; changed = changed })
        else err operation_id_reused
  ]

-- `cancel_booking` on a local store.
unfoldable pub cancel_booking :
    Runtime
    → (Payload → String)
    → String
    → Actor
    → Option String
    → Instant
    → Ledger
    → Result (Outcome Reservation)
unfolding mutate_cancel
cancel_booking runtime sign reservation_id actor operation_id now ledger = do
  op_id ← normalize_operation_id operation_id
  mutate_cancel runtime actor now op_id (sign (cancel reservation_id)) reservation_id ledger
