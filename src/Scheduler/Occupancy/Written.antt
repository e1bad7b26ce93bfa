-- ===== src/Scheduler/Occupancy/Written.antt =====
-- The end of an edit: the reservation with its history grown by one, over the old one.
use gpubk.Prelude.{
  ◌≤◌, ◌≡◌, refl, subst, String, Option, [], ◌∷◌, ◌++◌, arith, leb, leb→gt, length, length-append,
}
use gpubk.Models.{Instant, Actor, EditState, Reservation, Ledger, EditRequest, BookingResult}
use gpubk.Errors.{ok, >>=-eq-ok, ok-injective, raise_if, raise_if-ok, edit_history_full}
use gpubk.Scheduler.Metadata.{Runtime}
use gpubk.Scheduler.Operations.{max_edit_operations_per_reservation}
use gpubk.Scheduler.Outcome.{Outcome}
use gpubk.Scheduler.Lookup.{replace_first}
use gpubk.Scheduler.Cancel.{op_id_or}
use gpubk.Scheduler.Edit.History.{reservation_edit_state, append_edit_history, write_edit}
use gpubk.Scheduler.Occupancy.Thins.{Releases}

-- The operation stands last in the history, which is within its bound.
pub record Records (edited written : Reservation) (actor : Actor) (now : Instant)
    (op_id signature : String) (before : EditState) : Type 0 where
  pub releases : Releases written edited
  pub only_history : written ≡ record edited { edit_operations = written.edit_operations }
  pub history :
      written.edit_operations
      ≡ edited.edit_operations
        ++ record {
          op_id = op_id;
          signature = signature;
          at = now;
          actor_uid = actor.uid;
          actor_username = actor.username;
          before = before;
          after = reservation_edit_state edited;
        }
          ∷ []
  pub within_bound : length written.edit_operations ≤ max_edit_operations_per_reservation

append_edit_history-Records :
    (edited written : Reservation) (actor : Actor) (now : Instant) (op_id signature : String)
    (before : EditState)
    → append_edit_history edited actor now op_id signature before ≡ ok written
    → Records edited written actor now op_id signature before
unfolding append_edit_history
append_edit_history-Records edited written actor now op_id signature before h =
    let full = leb max_edit_operations_per_reservation (length edited.edit_operations) in
    let (_, q, k) = >>=-eq-ok (raise_if full edit_history_full) _ h in
    subst (λ w. Records edited w actor now op_id signature before) (ok-injective k)
      (record {
        releases = record {
          same_id = refl;
          gpus_kept = refl;
          same_mode = refl;
          units_kept = refl;
          same_start = refl;
          same_end = refl;
          not_revived = λ runs. runs;
        };
        only_history = refl;
        history = refl;
        within_bound = omega (
          arith,
          length-append edited.edit_operations (_ ∷ []),
          leb→gt _ _ (raise_if-ok full edit_history_full q),
        );
      })

-- What a write of an edited reservation leaves.
pub record WritesEdit (runtime : Runtime) (request : EditRequest) (now : Instant)
    (op_id : Option String) (signature : String) (r edited : Reservation) (ledger : Ledger)
    (o : Outcome BookingResult) : Type 0 where
  pub recorded :
      Records edited o.result.reservation request.actor now
        (op_id_or op_id runtime.fresh_op_id)
        signature
        (reservation_edit_state r)
  pub replaced :
      o.ledger.reservations
      ≡ replace_first request.reservation_id o.result.reservation ledger.reservations

pub write_edit-WritesEdit :
    (runtime : Runtime) (request : EditRequest) (now : Instant) (op_id : Option String)
    (signature : String) (r edited : Reservation) (message : String) (result : BookingResult)
    (ledger : Ledger) (o : Outcome BookingResult)
    → write_edit runtime request now op_id signature r edited message result ledger ≡ ok o
    → WritesEdit runtime request now op_id signature r edited ledger o
unfolding write_edit
write_edit-WritesEdit runtime request now op_id signature r edited message result ledger o h =
    let (written, q, k) =
      >>=-eq-ok
        (append_edit_history edited request.actor now (op_id_or op_id runtime.fresh_op_id) signature
          (reservation_edit_state r))
        _ h in
    subst (WritesEdit runtime request now op_id signature r edited ledger) (ok-injective k)
      (record {
        recorded = append_edit_history-Records edited written request.actor now _ signature _ q;
        replaced = refl;
      })
