-- ===== src/Scheduler/Maintenance.antt =====
-- `_expire_old_reservations` and `_maintain_ledger`, which every write runs first.
pub mod Terminal
use gpubk.Prelude.{
  ℕ, ◌+◌, ◌*◌, ◌-◌, Bool, true, false, Option, none, some, List, [], ◌∷◌, ltb, leb, ◌==◌, ◌&&◌,
  ◌||◌, if◌then◌else◌, length,
}
use gpubk.Models.{
  Instant, Status, active, cancelled, expired, JobStatus, missed, uncertain, Job, Reservation,
  Ledger, is_active, is_pending, is_claimed, is_running,
}
use gpubk.Scheduler.Horizon.{day}

-- The job of a reservation that expires.
unfoldable pub expire_job : Job → Instant → Job
expire_job job now =
    if is_pending job.status || is_claimed job.status
    then record job { status = missed; finished_at = some now }
    else if is_running job.status
    then record job {
      status = uncertain;
      finished_at = some now;
      recovery_state = some "expired-unverified";
      message = some "reservation ended without worker completion; process state is uncertain";
    }
    else job

abbrev pub map_job : (Job → Job) → Option Job → Option Job
map_job f none = none
map_job f (some job) = some (f job)

abbrev pub is_due : Reservation → Instant → Bool
is_due r now = is_active r.status && leb r.end_at now

unfoldable pub expire_one : Reservation → Instant → Reservation
unfolding expire_job
expire_one r now =
    if is_due r now
    then record r {
      status = expired;
      updated_at = some now;
      job = map_job (λ job. expire_job job now) r.job;
    }
    else r

unfoldable pub expire_all : List Reservation → Instant → List Reservation
unfolding expire_one
expire_all [] now = []
expire_all (r ∷ rest) now = expire_one r now ∷ expire_all rest now

unfoldable pub any_due : List Reservation → Instant → Bool
any_due [] now = false
any_due (r ∷ rest) now = is_due r now || any_due rest now

-- The ledger, and whether it changed.
unfoldable pub expire_old_reservations : Ledger → Instant → Ledger × Bool
unfolding expire_all any_due
expire_old_reservations ledger now = (
  record ledger { reservations = expire_all ledger.reservations now },
  any_due ledger.reservations now,
)

-- `updated_at or end_at`
abbrev pub or_end : Option Instant → Instant → Instant
or_end none end = end
or_end (some at) end = at

-- `terminal_at > now - retention`, with the subtraction moved to the other side.
abbrev pub is_recent : Instant → ℕ → Instant → Bool
is_recent terminal_at retention_days now = ltb now (terminal_at + retention_days * day)

abbrev pub retains_status : Status → Reservation → ℕ → Instant → Bool
retains_status expired r retention_days now = is_recent r.end_at retention_days now
retains_status cancelled r retention_days now =
    is_recent (or_end r.updated_at r.end_at) retention_days now
retains_status active r retention_days now = true

unfoldable pub retained : List Reservation → ℕ → Instant → List Reservation
retained [] retention_days now = []
retained (r ∷ rest) retention_days now =
    let others = retained rest retention_days now in
    if retains_status r.status r retention_days now then r ∷ others else others

unfoldable pub maintain_ledger : Ledger → Instant → ℕ → Ledger × Bool
unfolding expire_old_reservations retained
maintain_ledger ledger now retention_days =
    let (current, changed) = expire_old_reservations ledger now in
    let kept = retained current.reservations retention_days now in
    if retention_days == 0 then (current, changed) else (
      record current { reservations = kept },
      changed || ltb (length kept) (length current.reservations),
    )
