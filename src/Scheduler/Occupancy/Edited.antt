-- ===== src/Scheduler/Occupancy/Edited.antt =====
-- `edit_booking`: what a successful edit has done, and that a tidy ledger stays tidy.
use gpubk.Prelude.{Asked, ◌≤◌, ◌<◌, ◌≡◌, ◌⊎◌, inl, inr, sym, subst, String, Option, [], All}
use gpubk.Models.{Instant, Reservation, Ledger, Config, EditRequest, BookingResult, active}
use gpubk.Errors.{ok}
use gpubk.Scheduler.Search.{Clock}
use gpubk.Scheduler.Metadata.{Runtime}
use gpubk.Scheduler.Operations.{Payload}
use gpubk.Scheduler.Maintenance.Terminal.{IsCurrent, maintain_ledger_lem}
use gpubk.Scheduler.Outcome.{Outcome}
use gpubk.Scheduler.Edit.{edit_booking}
use gpubk.Scheduler.Edit.History.{edit_payload}
use gpubk.Scheduler.Occupancy.Tidy.{IsSlotted, IsTidy}
use gpubk.Scheduler.Occupancy.Replaced.{find_reservation-All}
use gpubk.Scheduler.Occupancy.Edits.{Edits, Edits-IsTidy}
use gpubk.Scheduler.Occupancy.Extended.Room.{Extends-Edits}
use gpubk.Scheduler.Occupancy.Moved.Room.{Moves-Edits}
use gpubk.Scheduler.Occupancy.Writes.{maintained-IsTidy}
use gpubk.Scheduler.Lookup.Rewritten.{RewritesFirst}
use gpubk.Scheduler.Occupancy.Cases.{EditsOwn, current_of, edit_booking-cases}
use gpubk.Scheduler.Occupancy.Rewritten.{Entered, Stretches}
use gpubk.Scheduler.Occupancy.Relocated.{Relocates}

-- An active reservation of the actor is edited in place: stretched if it has started, relocated if
-- not, with one operation more in its history.
pub record Rewrites (runtime : Runtime) (config : Config) (request : EditRequest) (now : Instant)
    (op_id : Option String) (signature : String) (clock : Clock) (current : Ledger)
    (o : Outcome BookingResult) : Type 0 where
  pub r : Reservation
  pub one :
      RewritesFirst request.reservation_id current.reservations o.ledger.reservations r
        o.result.reservation
  pub was_active : r.status ≡ active
  pub owned : r.uid ≡ request.actor.uid
  pub key : String
  pub keyed : Asked op_id runtime.fresh_op_id key
  pub entered : Entered request.actor now key signature r o.result.reservation
  pub edited :
      ((r.start_at ≤ now) × Stretches config request r now clock current o.result.reservation)
      ⊎ ((now < r.start_at) × Relocates config request r now clock current o.result.reservation)

EditsOwn-Edits :
    (runtime : Runtime) (config : Config) (request : EditRequest) (now : Instant)
    (op_id : Option String) (signature : String) (clock : Clock) (current : Ledger)
    (o : Outcome BookingResult)
    → EditsOwn runtime config request now op_id signature clock current o
    → All (IsCurrent now) current.reservations
    → All (IsSlotted config.slot_minutes) current.reservations
    → Edits config clock.now request.reservation_id current.reservations o.ledger.reservations
EditsOwn-Edits runtime config request now op_id signature clock current o own fresh slotted =
    elim own.edited [
      | inl (_, extends) ↦
          Extends-Edits runtime config request own.r now op_id signature [] clock current o extends
            (find_reservation-All request.reservation_id (IsCurrent now) current.reservations own.r
              own.found fresh own.running)
            (find_reservation-All request.reservation_id (IsSlotted config.slot_minutes)
              current.reservations own.r own.found slotted)
            own.found
      | inr (_, moves) ↦
          Moves-Edits runtime config request own.r own.target now op_id signature clock clock
            current o moves own.found
    ]

-- An edit that succeeds keeps a ledger tidy from any instant on that the search's clock has reached.
pub edit_booking-IsTidy :
    (runtime : Runtime) (sign : Payload → String) (config : Config) (request : EditRequest)
    (now : Instant) (clock hint_clock : Clock) (ledger : Ledger) (o : Outcome BookingResult)
    (from : Instant)
    → edit_booking runtime sign config request now clock hint_clock ledger ≡ ok o
    → clock.now ≤ from
    → IsTidy config from ledger.reservations
    → IsTidy config from o.ledger.reservations
edit_booking-IsTidy runtime sign config request now clock hint_clock ledger o from h recent tidy =
    let (op_id, bound, _, bind, outcome) =
      edit_booking-cases runtime sign config request now clock hint_clock ledger o h in
    let current = current_of config now bound.0 in
    let kept : IsTidy config from current.reservations =
      maintained-IsTidy config now from ledger bound bind tidy in
    elim outcome [
      | inl repeats ↦
          subst (λ (l : Ledger). IsTidy config from l.reservations) (sym repeats.untouched) kept
      | inr own ↦
          Edits-IsTidy config clock.now from request.reservation_id current.reservations
            o.ledger.reservations
            (EditsOwn-Edits runtime config request now op_id (sign (edit_payload request)) clock
              current o own (maintain_ledger_lem bound.0 now config.ledger_retention_days).0
              kept.slotted)
            recent kept
    ]
