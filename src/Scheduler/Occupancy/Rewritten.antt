-- ===== src/Scheduler/Occupancy/Rewritten.antt =====
-- What an edit makes of a reservation, field by field.
use gpubk.Prelude.{
  ℕ, ◌+◌, ◌-◌, ◌≤◌, ◌<◌, ◌≡◌, ap, sym, ◌∙◌, subst, String, false, Option, some, [], ◌∷◌, ◌++◌,
  length,
}
use gpubk.Models.{
  Instant, Actor, EditState, EditOperation, Reservation, Ledger, Config, EditRequest, BookingResult,
}
use gpubk.Granularity.{ceil_to_slot}
use gpubk.Granularity.Slots.{IsAligned}
use gpubk.Scheduler.Search.{Clock}
use gpubk.Scheduler.Metadata.{Runtime}
use gpubk.Scheduler.Operations.{max_edit_operations_per_reservation}
use gpubk.Scheduler.Outcome.{Outcome}
use gpubk.Scheduler.Cancel.{op_id_or}
use gpubk.Scheduler.Edit.History.{reservation_edit_state}
use gpubk.Scheduler.Edit.Started.{immutable_changes}
use gpubk.Scheduler.Occupancy.Extended.{Free, future_start, Extends}
use gpubk.Scheduler.Occupancy.Written.{WritesEdit}

abbrev pub state_of : Reservation → EditState
state_of r = record {
  gpus = r.gpus;
  mode = r.mode;
  start_at = r.start_at;
  end_at = r.end_at;
  expected_memory_mb = r.expected_memory_mb;
  share_units = r.share_units;
}

-- The operation stands last in the history, with what it found and what it left.
pub record Entered (actor : Actor) (now : Instant) (op_id signature : String)
    (r written : Reservation) : Type 0 where
  pub entry :
      written.edit_operations
      ≡ r.edit_operations
        ++ record {
          op_id = op_id;
          signature = signature;
          at = now;
          actor_uid = actor.uid;
          actor_username = actor.username;
          before = state_of r;
          after = state_of written;
        }
          ∷ []
  pub within_bound : length written.edit_operations ≤ max_edit_operations_per_reservation

pub WritesEdit-Entered :
    (runtime : Runtime) (request : EditRequest) (now : Instant) (op_id : Option String)
    (signature : String) (r edited : Reservation) (ledger : Ledger) (o : Outcome BookingResult)
    → edited.edit_operations ≡ r.edit_operations
    → WritesEdit runtime request now op_id signature r edited ledger o
    → Entered request.actor now
        (op_id_or op_id runtime.fresh_op_id)
        signature
        r
        o.result.reservation
unfolding reservation_edit_state
WritesEdit-Entered runtime request now op_id signature r edited ledger o same writes =
    let recorded = writes.recorded in
    let left : state_of edited ≡ state_of o.result.reservation =
      sym (ap state_of recorded.only_history) in
    let entry : EditState → EditOperation = λ after. record {
      op_id = op_id_or op_id runtime.fresh_op_id;
      signature = signature;
      at = now;
      actor_uid = request.actor.uid;
      actor_username = request.actor.username;
      before = state_of r;
      after = after;
    } in
    record {
      entry =
          recorded.history
          ∙ ap (λ past. past ++ entry (state_of edited) ∷ []) same
          ∙ ap (λ after. r.edit_operations ++ entry after ∷ []) left;
      within_bound = recorded.within_bound;
    }

-- A started reservation with another end: nothing else of it changes but its history.
pub record Stretches (config : Config) (request : EditRequest) (r : Reservation) (now : Instant)
    (clock : Clock) (current : Ledger) (written : Reservation) : Type 0 where
  pub duration : ℕ
  pub asked : request.duration_seconds ≡ some duration
  pub written_as : written ≡ record r {
    end_at = r.start_at + duration;
    updated_at = some now;
    edit_operations = written.edit_operations;
  }
  pub on_slots : IsAligned config.slot_minutes duration
  pub ahead : now < r.start_at + duration
  pub not_elapsed : ceil_to_slot now config.slot_minutes ≤ r.start_at + duration
  pub only_end : immutable_changes request ≡ false
  pub served :
      r.end_at < r.start_at + duration
      → Free config clock request r
          (future_start config r now)
          (future_start config r now + (r.start_at + duration - future_start config r now))
          current

pub Extends-Stretches :
    (runtime : Runtime) (config : Config) (request : EditRequest) (r : Reservation) (now : Instant)
    (op_id : Option String) (signature : String) (clock : Clock) (current : Ledger)
    (o : Outcome BookingResult)
    → Extends runtime config request r now op_id signature clock current o
    → Stretches config request r now clock current o.result.reservation
Extends-Stretches runtime config request r now op_id signature clock current o e =
    let w = o.result.reservation in
    record {
      duration = e.duration;
      asked = e.asked;
      written_as =
          e.writes.recorded.only_history
          ∙ ap
              (λ end. record r {
                end_at = end;
                updated_at = some now;
                edit_operations = w.edit_operations;
              })
              e.total;
      on_slots = e.on_slot;
      ahead = subst (λ end. now < end) e.total e.ahead;
      not_elapsed = subst (λ end. ceil_to_slot now config.slot_minutes ≤ end) e.total e.not_elapsed;
      only_end = e.only_end;
      served =
          subst
            (λ end.
              r.end_at < end
              → Free config clock request r (future_start config r now)
                  (future_start config r now + (end - future_start config r now)) current)
            e.total e.free;
    }
