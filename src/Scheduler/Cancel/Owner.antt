-- ===== src/Scheduler/Cancel/Owner.antt =====
-- What `cancel_booking` does to the ledger.
use gpubk.Prelude.{
  Asked, ◌≡◌, ◌⊎◌, inl, inr, refl, ap, sym, subst, String, false, Option, List, All, All-map,
  eq_iff,
}
use gpubk.Models.{Instant, owner, active, Actor, Reservation, Ledger}
use gpubk.Errors.{ok}
use gpubk.Scheduler.Metadata.{Runtime, normalize_operation_id}
use gpubk.Scheduler.Operations.{Payload, cancel}
use gpubk.Scheduler.Maintenance.{expire_old_reservations}
use gpubk.Scheduler.Outcome.{Outcome}
use gpubk.Scheduler.Lookup.{is_named}
use gpubk.Scheduler.Lookup.Rewritten.{RewritesFirst, unnamed}
use gpubk.Scheduler.Cancel.{cancelled_by, op_id_or, cancel_booking}
use gpubk.Scheduler.Cancel.Steps.{Cancels, Repeats, cancel_booking-cases}
use gpubk.Scheduler.Cancel.Cancelled.{
  IsCancelled, cancel_job-StopsJob, op_id_or-Asked, active_status,
}

-- The reservation that the owner gave up: active, the actor's, and cancelled in place.
pub record GivesUp (actor : Actor) (now : Instant) (op_id : Option String)
    (fresh signature reservation_id : String) (old new : List Reservation) (written : Reservation)
    : Type 0 where
  pub key : String
  pub keyed : Asked op_id fresh key
  pub target : Reservation
  pub one : RewritesFirst reservation_id old new target written
  pub was_active : target.status ≡ active
  pub owned : target.uid ≡ actor.uid
  pub given_up :
      IsCancelled now
        (record {
          op_id = key;
          signature = signature;
          at = now;
          actor_uid = actor.uid;
          actor_username = actor.username;
          kind = owner;
          reason = "cancelled by reservation owner";
        })
        target
        written
  pub nobody_told : written.notifications ≡ target.notifications

All-unnamed :
    (reservation_id : String) (rs : List Reservation)
    → All (λ r. is_named reservation_id r ≡ false) rs
    → All (λ (r : Reservation). ¬ (r.id ≡ reservation_id)) rs
All-unnamed reservation_id rs h = All-map (unnamed reservation_id) rs h

Cancels-GivesUp :
    (actor : Actor) (now : Instant) (op_id : Option String)
    (fresh signature reservation_id : String) (old new : List Reservation) (written : Reservation)
    → Cancels actor now (op_id_or op_id fresh) signature reservation_id old new written
    → GivesUp actor now op_id fresh signature reservation_id old new written
unfolding cancelled_by
Cancels-GivesUp actor now op_id fresh signature reservation_id old new written c = record {
  key = op_id_or op_id fresh;
  keyed = op_id_or-Asked op_id fresh;
  target = c.target;
  one = record {
    before = c.before;
    after = c.after;
    was = c.was;
    becomes = c.becomes;
    first = All-unnamed reservation_id c.before c.first;
    named = (eq_iff c.target.id reservation_id).0 c.named;
  };
  was_active = active_status c.target.status c.running;
  owned = c.owned;
  given_up =
      subst (IsCancelled now _ c.target) (sym c.rewritten)
        (record { written_as = refl; stops = cancel_job-StopsJob now c.target.job });
  nobody_told = ap (λ (r : Reservation). r.notifications) c.rewritten;
}

-- A cancellation that succeeds either repeats an operation of the same ID, UID, reservation and
-- signature, and then writes nothing of its own; or it rewrites one reservation, the first of its
-- ID, which was active and is the actor's, and leaves every other as it is. The written
-- reservation has the status `cancelled`, the instant, and the owner's operation, under the given
-- ID or a fresh one; a waiting job is cancelled, a held one asked to stop, a finished one kept;
-- and every other field stays.
pub cancel_booking-ok :
    (runtime : Runtime) (sign : Payload → String) (reservation_id : String) (actor : Actor)
    (operation_id : Option String) (now : Instant) (ledger : Ledger) (o : Outcome Reservation)
    → cancel_booking runtime sign reservation_id actor operation_id now ledger ≡ ok o
    → (op_id : Option String) × (normalize_operation_id operation_id ≡ ok op_id)
      × (Repeats actor op_id
            (sign (cancel reservation_id))
            reservation_id
            (expire_old_reservations ledger now).0
            o
          ⊎ GivesUp actor now op_id runtime.fresh_op_id
              (sign (cancel reservation_id))
              reservation_id
              (expire_old_reservations ledger now).0.reservations
              o.ledger.reservations
              o.result)
cancel_booking-ok runtime sign reservation_id actor operation_id now ledger o h =
    let (op_id, q, outcome) =
      cancel_booking-cases runtime sign reservation_id actor operation_id now ledger o h in
    (
      op_id,
      q,
      elim outcome [
        | inl repeats ↦ inl repeats
        | inr cancels ↦
            inr (Cancels-GivesUp actor now op_id _ _ reservation_id _ _ o.result cancels)
      ],
    )
