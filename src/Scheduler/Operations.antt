-- ===== src/Scheduler/Operations.antt =====
-- Replays and duplicates: the operations that a ledger records, and the requests that match one.
use gpubk.Prelude.{
  ℕ, String, Bool, true, false, Option, none, some, List, [], ◌∷◌, ltb, ◌==◌, ◌&&◌, ◌||◌,
  if◌then◌else◌, any, length, str_eq,
}
use gpubk.Prelude.Ascending.{from_list}
use gpubk.Models.{
  Instant, ℤ, pos, Value, bool, int, str, Mode, Job, EditOperation, CancelOperation, Reservation,
  Ledger, BookingRequest, is_shared, same_mode, same_number,
}
use gpubk.Sharing.Numerals.{parse_int}
use gpubk.Errors.{Result, ok, err, edit_history_unsafe}
use gpubk.ScheduleIndex.{from_ledger, records}
use gpubk.Scheduler.Metadata.{JobIntent}

abbrev pub max_edit_operations_per_reservation : ℕ
max_edit_operations_per_reservation = 256

-- What an operation's signature is the hash of.
pub record CreatePayload : Type 0 where
  pub count : ℕ
  pub duration_seconds : ℕ
  pub start_at : Option Instant
  pub mode : Mode
  pub preferred_gpus : Option (List ℕ)
  pub allow_queue : Bool
  pub expected_memory_mb : Option ℕ
  pub share_units : Option ℕ
  pub excluded_gpus : List ℕ
  pub job_summary : Option String

pub record EditPayload : Type 0 where
  pub reservation_id : String
  pub start_at : Option Instant
  pub duration_seconds : Option ℕ
  pub mode : Option Mode
  pub preferred_gpus : Option (List ℕ)
  pub count : Option ℕ
  pub allow_queue : Bool
  pub expected_memory_mb : Option ℕ
  pub update_expected_memory : Bool
  pub share_units : Option Value
  pub update_share_units : Bool
  pub excluded_gpus : List ℕ

pub data Payload : Type 0 where
  create : CreatePayload → Payload
  edit : EditPayload → Payload
  cancel : (reservation_id : String) → Payload
  admin_cancel : (reservation_id reason : String) → Payload

-- `job_metadata.get("summary")`
abbrev pub summary_of : Option JobIntent → Option String
summary_of none = none
summary_of (some intent) = some intent.summary

unfoldable pub create_payload :
    BookingRequest → Instant → Option (List ℕ) → Option ℕ → Option JobIntent → ℕ → List ℕ → Payload
create_payload request start preferred expected_memory_mb job share_units excluded =
    create (record {
      count = request.count;
      duration_seconds = request.duration_seconds;
      start_at = if request.allow_queue then none else some start;
      mode = request.mode;
      preferred_gpus = preferred;
      allow_queue = request.allow_queue;
      expected_memory_mb = expected_memory_mb;
      share_units = if is_shared request.mode then some share_units else none;
      excluded_gpus = excluded;
      job_summary = summary_of job;
    })

pub data Action : Type 0 where
  create_action edit_action cancel_action : Action

-- The action, its reservation, and the recorded signature.
pub record Applied : Type 0 where
  pub action : Action
  pub reservation : Reservation
  pub signature : Option String

-- `item.get("op_id") == operation_id` in the edit history.
unfoldable pub find_edit : List EditOperation → String → Option String
find_edit [] operation_id = none
find_edit (item ∷ rest) operation_id =
    let others = find_edit rest operation_id in
    if str_eq item.op_id operation_id then some item.signature else others

abbrev pub is_text : Option String → String → Bool
is_text none text = false
is_text (some value) text = str_eq value text

abbrev pub cancel_signature : Option CancelOperation → String → Option String
cancel_signature none operation_id = none
cancel_signature (some cancellation) operation_id =
    if str_eq cancellation.op_id operation_id then some cancellation.signature else none

-- One reservation of the UID.
unfoldable pub applied_in : Reservation → String → Result (Option Applied)
unfolding find_edit
applied_in r operation_id =
    if is_text r.op_id operation_id
    then ok (
        some
          (record { action = create_action; reservation = r; signature = r.operation_signature }))
    else elim (cancel_signature r.cancel_operation operation_id) [
      | some signature ↦
          ok (some (record { action = cancel_action; reservation = r; signature = some signature }))
      | none ↦
          if ltb max_edit_operations_per_reservation (length r.edit_operations)
          then err edit_history_unsafe
          else elim (find_edit r.edit_operations operation_id) [
            | some signature ↦ ok (
                some (record { action = edit_action; reservation = r; signature = some signature }))
            | none ↦ ok none
          ]
    ]

unfoldable pub find_applied : List Reservation → ℕ → String → Result (Option Applied)
unfolding applied_in
find_applied [] uid operation_id = ok none
find_applied (r ∷ rest) uid operation_id =
    let others = find_applied rest uid operation_id in
    if r.uid == uid
    then elim (applied_in r operation_id) [
      | err e ↦ err e
      | ok (some applied) ↦ ok (some applied)
      | ok none ↦ others
    ]
    else others

unfoldable pub find_applied_operation : Ledger → ℕ → String → Result (Option Applied)
unfolding find_applied
find_applied_operation ledger uid operation_id = find_applied ledger.reservations uid operation_id

-- `int(value)`, with `none` for its error.
abbrev pub int_of : Value → Option ℤ
int_of (bool true) = some (pos 1)
int_of (bool false) = some (pos 0)
int_of (int n) = some n
int_of (str text) = parse_int text
int_of _ = none

abbrev pub is_units : Option ℤ → ℕ → Bool
is_units (some (pos n)) share_units = n == share_units
is_units _ share_units = false

-- `int(reservation.get("share_units", 1)) == share_units`
abbrev pub same_units : Option Value → ℕ → Bool
same_units none share_units = 1 == share_units
same_units (some value) share_units = is_units (int_of value) share_units

abbrev pub same_job : Option Job → Option JobIntent → List String → Bool
same_job none none aliases = true
same_job (some job) (some intent) aliases =
    str_eq job.digest intent.digest || any (str_eq job.digest) aliases
same_job _ _ aliases = false

unfoldable pub same_request_metadata :
    Reservation → Option ℕ → Option JobIntent → ℕ → List String → Bool
same_request_metadata r expected_memory_mb job share_units aliases =
    same_number r.expected_memory_mb expected_memory_mb
    && ((if is_shared r.mode then same_units r.share_units share_units else true)
        && same_job r.job job aliases)

abbrev pub same_gpus : List ℕ → List ℕ → Bool
same_gpus [] [] = true
same_gpus (x ∷ xs) (y ∷ ys) = x == y && same_gpus xs ys
same_gpus _ _ = false

-- `_find_exact_duplicate` and `_find_auto_duplicate` differ in the test of the GPUs. A ledger's
-- GPU lists hold no index twice, so that sorting one gives the list of its set.
unfoldable pub find_duplicate :
    (List ℕ → Bool)
    → List Reservation
    → ℕ
    → Instant
    → Instant
    → Mode
    → Option ℕ
    → Option JobIntent
    → ℕ
    → List String
    → Option Reservation
unfolding same_request_metadata
find_duplicate gpus_match [] uid start end mode expected job units aliases = none
find_duplicate gpus_match (r ∷ rest) uid start end mode expected job units aliases =
    let others = find_duplicate gpus_match rest uid start end mode expected job units aliases in
    if r.uid == uid
      && (same_mode r.mode mode
          && (gpus_match r.gpus
              && (same_request_metadata r expected job units aliases
                  && (r.start_at == start && r.end_at == end))))
    then some r
    else others

-- The test of `_find_exact_duplicate` for the preferred GPUs, of `_find_auto_duplicate` otherwise.
unfoldable pub gpus_test : Option (List ℕ) → ℕ → List ℕ → Bool
gpus_test none count gpus = length gpus == count
gpus_test (some preferred) count gpus = same_gpus (from_list gpus) (from_list preferred)

unfoldable pub find_active_duplicate :
    Ledger
    → Option (List ℕ)
    → ℕ
    → ℕ
    → Instant
    → Instant
    → Mode
    → Option ℕ
    → Option JobIntent
    → ℕ
    → List String
    → Option Reservation
unfolding find_duplicate gpus_test
find_active_duplicate ledger preferred count uid start end mode expected job units aliases =
    find_duplicate (gpus_test preferred count) (records (from_ledger ledger start)) uid start end
      mode expected job units aliases
