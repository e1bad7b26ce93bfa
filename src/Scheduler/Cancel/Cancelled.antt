-- ===== src/Scheduler/Cancel/Cancelled.antt =====
-- What a cancelled reservation is, field by field.
use gpubk.Prelude.{Asked, ◌≡◌, refl, ap, String, true, Option, none, some, List}
use gpubk.Models.{
  Instant, Status, active, JobStatus, pending, claimed, running, succeeded, failed, missed,
  timed_out, interrupted, uncertain, Job, CancelOperation, Reservation, is_active,
}
use gpubk.Scheduler.Maintenance.{map_job}
use gpubk.Scheduler.Cancel.{cancel_job, op_id_or}
use gpubk.Scheduler.Lookup.Rewritten.{RewritesFirst}
use gpubk.Scheduler.Occupancy.Thins.{Releases, Thins, rewrites, Thins-refl, Thins-append}

-- A waiting job is cancelled and ends at the instant, a job that a worker holds is asked to stop,
-- and a job that is over stays as it is.
abbrev pub StopsAs : Instant → JobStatus → Job → Job → Type 0
StopsAs now pending old new =
    new ≡ record old { status = JobStatus.cancelled; finished_at = some now }
StopsAs now claimed old new = new ≡ record old { cancel_requested_at = some now }
StopsAs now running old new = new ≡ record old { cancel_requested_at = some now }
StopsAs now succeeded old new = new ≡ old
StopsAs now failed old new = new ≡ old
StopsAs now JobStatus.cancelled old new = new ≡ old
StopsAs now missed old new = new ≡ old
StopsAs now timed_out old new = new ≡ old
StopsAs now interrupted old new = new ≡ old
StopsAs now uncertain old new = new ≡ old

abbrev pub StopsJob : Instant → Option Job → Option Job → Type 0
StopsJob now none none = Unit {0}
StopsJob now none (some new) = ⊥
StopsJob now (some old) none = ⊥
StopsJob now (some old) (some new) = StopsAs now old.status old new

-- Of the reservation, only the status, the time, the operation, the job and the notifications may
-- differ.
pub record IsCancelled (now : Instant) (operation : CancelOperation) (target written : Reservation)
    : Type 0 where
  pub written_as : written ≡ record target {
    status = Status.cancelled;
    updated_at = some now;
    cancel_operation = some operation;
    job = written.job;
    notifications = written.notifications;
  }
  pub stops : StopsJob now target.job written.job

cancel_job-StopsAs :
    (now : Instant) (job : Job) (status : JobStatus)
    → job.status ≡ status
    → StopsAs now status job (cancel_job now job)
unfolding cancel_job
cancel_job-StopsAs now job pending e = rw e refl
cancel_job-StopsAs now job claimed e = rw e refl
cancel_job-StopsAs now job running e = rw e refl
cancel_job-StopsAs now job succeeded e = rw e refl
cancel_job-StopsAs now job failed e = rw e refl
cancel_job-StopsAs now job JobStatus.cancelled e = rw e refl
cancel_job-StopsAs now job missed e = rw e refl
cancel_job-StopsAs now job timed_out e = rw e refl
cancel_job-StopsAs now job interrupted e = rw e refl
cancel_job-StopsAs now job uncertain e = rw e refl

pub cancel_job-StopsJob :
    (now : Instant) (job : Option Job) → StopsJob now job (map_job (cancel_job now) job)
cancel_job-StopsJob now none = tt
cancel_job-StopsJob now (some job) = cancel_job-StopsAs now job job.status refl

pub op_id_or-Asked :
    (op_id : Option String) (fresh : String) → Asked op_id fresh (op_id_or op_id fresh)
op_id_or-Asked none fresh = refl
op_id_or-Asked (some given) fresh = refl

pub active_status : (status : Status) → is_active status ≡ true → status ≡ active
active_status active h = refl
active_status Status.cancelled h = cc
active_status Status.expired h = cc

IsCancelled-Releases :
    (now : Instant) (operation : CancelOperation) (target written : Reservation)
    → IsCancelled now operation target written
    → Releases written target
IsCancelled-Releases now operation target written c = record {
  same_id = ap (λ (r : Reservation). r.id) c.written_as;
  gpus_kept = ap (λ (r : Reservation). r.gpus) c.written_as;
  same_mode = ap (λ (r : Reservation). r.mode) c.written_as;
  units_kept = ap (λ (r : Reservation). r.share_units) c.written_as;
  same_start = ap (λ (r : Reservation). r.start_at) c.written_as;
  same_end = ap (λ (r : Reservation). r.end_at) c.written_as;
  not_revived = λ h. let idle = ap (λ (r : Reservation). is_active r.status) c.written_as in cc;
}

-- Cancelling one reservation of a ledger thins it.
pub IsCancelled-Thins :
    (reservation_id : String) (now : Instant) (operation : CancelOperation)
    (old new : List Reservation) (target written : Reservation)
    → RewritesFirst reservation_id old new target written
    → IsCancelled now operation target written
    → Thins new old
IsCancelled-Thins reservation_id now operation old new target written w c =
    rw (w.was, w.becomes)
      (Thins-append w.before
        (rewrites (IsCancelled-Releases now operation target written c) (Thins-refl w.after)))
