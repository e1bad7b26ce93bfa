-- ===== src/Lib.antt =====
-- A model of gpubk, the booking program that lets the users of one machine reserve its GPUs without
-- a resident server. Every user's process reads a shared ledger, decides, and writes the ledger back
-- under a lock. What the model covers is the decision: the scheduler of src/bk/scheduler.py, and the
-- modules that it computes with.
--
-- How the parts fit together. A write (`add_booking`, `edit_booking`, `cancel_booking`,
-- `cancel_booking_as_admin`) normalises its request, then hands a function `mutate` to the store,
-- which runs it on the ledger under the lock. `mutate` binds the ledger to the policy of the
-- configuration (Policy), expires and drops old reservations (Scheduler/Maintenance), looks for
-- the operation among those already recorded (Scheduler/Operations), and then searches a slot
-- (Scheduler/Search). A cancellation by the owner only expires and looks up. The search builds an
-- index of the active reservations (ScheduleIndex), makes a list of candidate starts, and at each
-- start chooses GPUs (Scheduler/Placement), each of which passes the availability check
-- (Scheduler/Availability). Instants are aligned to slots (Granularity), and shares are counted in
-- units (Sharing).
--
-- Which file models what, by the paths of the repository:
--   Models: src/bk/models.py, the fields of src/bk/config.py that the scheduler reads, and the
--     records that the scheduler writes into the ledger. A key that a dictionary may lack is an
--     Option; a mode that is neither shared nor exclusive is `unsupported`.
--   Errors: BookingError, with a constructor for each message, and the monad of results.
--   Granularity: src/bk/granularity.py. Granularity/Slots has its theorems.
--   Sharing: src/bk/sharing.py; Sharing/Numerals reads numbers from text as `int` does.
--   ScheduleIndex: src/bk/schedule_index.py; Spans is its order, Grouping its lists by GPU, Overlap
--     what its lookup returns.
--   Policy: src/bk/policy.py, without the store that guards it.
--   Scheduler/Reasons, Loads, Availability: `_availability_detail_indexed` and the sums it uses.
--   Scheduler/Gpus: the lists of GPUs in a request, and `_validate_gpu_scope`.
--   Scheduler/Horizon, Placement, Search: `booking_policy_conflict`, `_find_available_gpus_with_reason`,
--     `_gpus_at_start`, `find_earliest_slot`; Search/Nearest has `find_nearest_slot`, with First,
--     Between and Before for its order and its candidates.
--   Scheduler/Metadata, Operations, Outcome: the operation IDs, job metadata, signatures and log lines.
--   Scheduler/Maintenance: `_expire_old_reservations` and `_maintain_ledger`.
--   Scheduler/Booking: `add_booking`, with Prepare before the lock and Failure for its messages.
--   Scheduler/Cancel: `cancel_booking`, and Cancel/Administrator `cancel_booking_as_admin`; Cancelled
--     describes a cancelled reservation, Steps follows the verdicts.
--   Scheduler/Lookup: `_find_reservation` and a write to what it returns, which Rewritten describes.
--   Scheduler/Edit: `edit_booking`, of started reservations (Started) and others (Future).
--   Scheduler/Replays: `find_applied_create`, `find_applied_edit`, `find_applied_operation`.
--   Scheduler/Violations: `find_policy_violations`, the audit of a ledger.
--   Scheduler/Peaks: the greatest load that a reservation sees, of shared records and share units.
--   Scheduler/Occupancy: what a sound and a tidy ledger are, and what each write does to one;
--     Rewritten and Relocated describe an edited reservation.
--   Samples, Witnesses: small ledgers and requests, and the theorems at them.
--
-- How state and effects are written. A `mutate` is a function from a ledger to a result that holds
-- the new ledger, the answer, the lines for the log and whether anything changed. What the code reads
-- from outside is a parameter: the clock (a record of its readings, one for each call of `utc_now`
-- whose value matters), random IDs, `str.lower`, `uuid.UUID` and the hash of a signature's payload.
-- Instants are seconds on the native numbers, since the ledger keeps whole seconds; a pressure score
-- is a whole number of thousandths, where the code rounds a float to three digits.
--
-- Loops are structural recursion on the lists that they run over, so nothing runs out of fuel. The
-- bisection of a sorted list is its result, the number of leading elements below the bound. Only the
-- digits of a number take fuel: the number and one more, while each round divides it by ten.
--
-- Not modelled: the storage below `transaction` (src/bk/storage.py and its files), the broker
-- (src/bk/broker.py), the worker that starts jobs (src/bk/worker.py, src/bk/job_recovery.py), the
-- validation of a ledger document (src/bk/ledger_schema.py), the advice on GPUs, the cluster, usage
-- accounting, monitoring, administration and the user interfaces, which make no scheduling decision.
mod Prelude
pub mod Models
pub mod Granularity
pub mod Sharing
pub mod ScheduleIndex
pub mod Errors
pub mod Policy
pub mod Scheduler
pub mod Samples
mod Witnesses
