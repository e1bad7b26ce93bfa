-- ===== src/Scheduler/Edit/History.antt =====
-- The history of the edits of a reservation: `_reservation_edit_state`, `_append_edit_history`, `_edit_operation_signature`.
use gpubk.Prelude.{ℕ, String, true, Option, none, some, List, [], ◌∷◌, ◌++◌, leb, length}
use gpubk.Prelude.Ascending.{from_list}
use gpubk.Models.{Instant, Actor, EditState, Reservation, Ledger, EditRequest, BookingResult}
use gpubk.Errors.{Result, ok, ◌>>=◌, ◌>>◌, raise_if, edit_history_full}
use gpubk.Scheduler.Gpus.{normalize_preferred_gpus}
use gpubk.Scheduler.Metadata.{Runtime}
use gpubk.Scheduler.Operations.{Payload, edit, max_edit_operations_per_reservation}
use gpubk.Scheduler.Outcome.{log_item, Outcome}
use gpubk.Scheduler.Lookup.{replace_first}
use gpubk.Scheduler.Cancel.{op_id_or}

unfoldable pub reservation_edit_state : Reservation → EditState
reservation_edit_state r = record {
  gpus = r.gpus;
  mode = r.mode;
  start_at = r.start_at;
  end_at = r.end_at;
  expected_memory_mb = r.expected_memory_mb;
  share_units = r.share_units;
}

-- The reservation with one more operation. `r` has its new fields, `before` its old ones.
unfoldable pub append_edit_history :
    Reservation → Actor → Instant → String → String → EditState → Result Reservation
unfolding reservation_edit_state
append_edit_history r actor now history_op_id signature before = do
  raise_if (leb max_edit_operations_per_reservation (length r.edit_operations)) edit_history_full
  ok (record r {
    edit_operations =
        r.edit_operations
        ++ record {
          op_id = history_op_id;
          signature = signature;
          at = now;
          actor_uid = actor.uid;
          actor_username = actor.username;
          before = before;
          after = reservation_edit_state r;
        }
          ∷ [];
  })

abbrev pub list_or_empty : Option (List ℕ) → List ℕ
list_or_empty none = []
list_or_empty (some gpus) = gpus

-- What the signature of an edit is the hash of.
unfoldable pub edit_payload : EditRequest → Payload
edit_payload request = edit (record {
  reservation_id = request.reservation_id;
  start_at = request.start_at;
  duration_seconds = request.duration_seconds;
  mode = request.mode;
  preferred_gpus = normalize_preferred_gpus request.preferred_gpus;
  count = request.count;
  allow_queue = request.allow_queue;
  expected_memory_mb = request.expected_memory_mb;
  update_expected_memory = request.update_expected_memory;
  share_units = request.share_units;
  update_share_units = request.update_share_units;
  excluded_gpus = from_list (list_or_empty request.excluded_gpus);
})

-- The end of both kinds of edit: the history, the reservation in the ledger, the line of the log.
-- `edited` is the reservation with its new fields.
unfoldable pub write_edit :
    Runtime
    → EditRequest
    → Instant
    → Option String
    → String
    → Reservation
    → Reservation
    → String
    → BookingResult
    → Ledger
    → Result (Outcome BookingResult)
unfolding append_edit_history replace_first log_item reservation_edit_state
write_edit runtime request now op_id signature r edited message result ledger = do
  written ←
      append_edit_history edited request.actor now (op_id_or op_id runtime.fresh_op_id) signature
        (reservation_edit_state r)
  ok (record {
    ledger = record ledger {
      reservations = replace_first request.reservation_id written ledger.reservations;
    };
    result = record result { reservation = written };
    logs =
        log_item request.actor "edit" written "ok" message
          (some (op_id_or op_id runtime.fresh_op_id)) runtime.logged_at
        ∷ [];
    changed = true;
  })
