-- ===== src/Scheduler/Outcome.antt =====
-- What a write hands back: the ledger, the result, the lines of the log, and whether the ledger
-- changed.
use gpubk.Prelude.{ℕ, String, Bool, Option, none, some, List}
use gpubk.Models.{Instant, Value, Mode, Actor, Reservation, Ledger}

-- `actor` stands for the keys `actor_uid` and `actor_username`, which an administrator's line adds.
pub record LogItem : Type 0 where
  pub ts : Instant
  pub uid : ℕ
  pub username : String
  pub action : String
  pub reservation_id : String
  pub op_id : Option String
  pub gpus : List ℕ
  pub mode : Mode
  pub share_units : Option Value
  pub start_at : Instant
  pub end_at : Instant
  pub result : String
  pub message : String
  pub actor : Option Actor

abbrev pub or_else : Option String → Option String → Option String
or_else none default = default
or_else (some text) default = some text

-- `_log_item`, with its reading of the clock.
unfoldable pub log_item :
    Actor → String → Reservation → String → String → Option String → Instant → LogItem
log_item actor action r result message operation_id ts = record {
  ts = ts;
  uid = actor.uid;
  username = actor.username;
  action = action;
  reservation_id = r.id;
  op_id = or_else operation_id r.op_id;
  gpus = r.gpus;
  mode = r.mode;
  share_units = r.share_units;
  start_at = r.start_at;
  end_at = r.end_at;
  result = result;
  message = message;
  actor = none;
}

-- What a mutator hands to `store.transaction`.
pub record Outcome (A : Type 0) : Type 0 where
  pub ledger : Ledger
  pub result : A
  pub logs : List LogItem
  pub changed : Bool
