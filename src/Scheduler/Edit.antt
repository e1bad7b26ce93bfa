-- ===== src/Scheduler/Edit.antt =====
-- `edit_booking`: an owner changes a reservation.
pub mod History
pub mod Started
pub mod Future
use gpubk.Prelude.{
  ℕ, String, Bool, true, false, not, Option, none, some, List, leb, ◌==◌, ◌&&◌, ◌||◌, if◌then◌else◌,
}
use gpubk.Models.{
  Instant, int, pos, Value, Mode, Reservation, Ledger, Config, EditRequest, BookingResult,
  is_shared, is_active, same_text,
}
use gpubk.Sharing.{reservation_share_units}
use gpubk.Errors.{
  Result, ok, err, ◌>>=◌, ◌>>◌, raise_if, operation_id_reused, reservation_not_found,
  reservation_not_active, permission_denied,
}
use gpubk.Policy.{bind_ledger_policy}
use gpubk.Scheduler.Gpus.{normalize_memory_capacities, normalize_expected_memory}
use gpubk.Scheduler.Search.{Clock}
use gpubk.Scheduler.Metadata.{Runtime, normalize_operation_id}
use gpubk.Scheduler.Operations.{Payload, Applied, Action, edit_action, find_applied_operation}
use gpubk.Scheduler.Maintenance.{maintain_ledger}
use gpubk.Scheduler.Outcome.{Outcome}
use gpubk.Scheduler.Lookup.{is_named, find_reservation}
use gpubk.Scheduler.Cancel.{applied_to}
use gpubk.Scheduler.Booking.{unchanged}
use gpubk.Scheduler.Booking.Prepare.{check_mode, request_share_units}
use gpubk.Scheduler.Edit.Started.{edit_started}
use gpubk.Scheduler.Edit.Future.{EditTarget, edit_future}
use gpubk.Scheduler.Edit.History.{edit_payload}

abbrev pub mode_or : Option Mode → Mode → Mode
mode_or none default = default
mode_or (some mode) default = mode

-- The units of the stored reservation, where it is shared and stays so.
abbrev pub kept_units : Config → Reservation → Mode → Option Value
kept_units config r mode =
    if is_shared mode && is_shared r.mode
    then some (int (pos (reservation_share_units r.share_units config.max_shared_users)))
    else none

-- The mode, the memory and the share of the edited reservation.
unfoldable pub edit_target : Config → EditRequest → Reservation → Result EditTarget
edit_target config request r = do
  let mode = mode_or request.mode r.mode
  check_mode mode
  expected_memory_mb ←
      normalize_expected_memory (
        if request.update_expected_memory then request.expected_memory_mb else r.expected_memory_mb)
  share_units ←
      request_share_units mode
        (if request.update_share_units then request.share_units else kept_units config r mode)
        config.max_shared_users
  capacities ← normalize_memory_capacities request.gpu_memory_capacity_mb config
  ok (record {
    mode = mode;
    expected_memory_mb = expected_memory_mb;
    share_units = share_units;
    capacities = capacities;
  })

abbrev pub is_edit : Action → Bool
is_edit edit_action = true
is_edit _ = false

-- The applied operation is this edit of this reservation.
unfoldable pub is_edit_replay : Applied → String → String → Bool
is_edit_replay applied reservation_id signature =
    is_edit applied.action
    && (is_named reservation_id applied.reservation && same_text applied.signature (some signature))

-- The edit of a reservation that was found.
unfoldable pub edit_found :
    Runtime
    → Config
    → EditRequest
    → Instant
    → Option String
    → String
    → Clock
    → Clock
    → Ledger
    → Reservation
    → Result (Outcome BookingResult)
unfolding edit_target edit_started edit_future
edit_found runtime config request now op_id signature clock hint_clock ledger r = do
  raise_if (not (is_active r.status)) reservation_not_active
  raise_if (not (r.uid == request.actor.uid)) permission_denied
  target ← edit_target config request r
  if leb r.start_at now
      then edit_started runtime config request r now op_id signature target.capacities clock ledger
      else edit_future runtime config request r target now op_id signature clock hint_clock ledger

unfoldable pub edit_or_missing :
    Runtime
    → Config
    → EditRequest
    → Instant
    → Option String
    → String
    → Clock
    → Clock
    → Ledger
    → Option Reservation
    → Result (Outcome BookingResult)
unfolding edit_found
edit_or_missing runtime config request now op_id signature clock hint_clock ledger none =
    err reservation_not_found
edit_or_missing runtime config request now op_id signature clock hint_clock ledger (some r) =
    edit_found runtime config request now op_id signature clock hint_clock ledger r

-- `mutate(ledger)` of `edit_booking`.
unfoldable pub mutate_edit :
    Runtime
    → Config
    → EditRequest
    → Instant
    → Option String
    → String
    → Clock
    → Clock
    → Ledger
    → Result (Outcome BookingResult)
unfolding edit_or_missing is_edit_replay find_reservation
mutate_edit runtime config request now op_id signature clock hint_clock ledger = do
  bound ← bind_ledger_policy ledger config
  let (current, maintained) = maintain_ledger bound.0 now config.ledger_retention_days
  applied ← applied_to current request.actor.uid op_id
  elim applied [
    | some found ↦
        if is_edit_replay found request.reservation_id signature
        then ok (
            unchanged current found.reservation "operation already applied" (maintained || bound.1))
        else err operation_id_reused
    | none ↦
        edit_or_missing runtime config request now op_id signature clock hint_clock current
          (find_reservation current.reservations request.reservation_id)
  ]

-- `edit_booking` on a local store.
unfoldable pub edit_booking :
    Runtime
    → (Payload → String)
    → Config
    → EditRequest
    → Instant
    → Clock
    → Clock
    → Ledger
    → Result (Outcome BookingResult)
unfolding mutate_edit edit_payload
edit_booking runtime sign config request now clock hint_clock ledger = do
  op_id ← normalize_operation_id request.op_id
  mutate_edit runtime config request now op_id (sign (edit_payload request)) clock hint_clock ledger
