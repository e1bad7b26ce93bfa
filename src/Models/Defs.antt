-- ===== src/Models/Defs.antt =====
-- Modes, states, and the documents of the ledger.
use gpubk.Prelude.{ℕ, String, Bool, Option, List}

abbrev pub Instant : Type 0
Instant = ℕ

-- A signed whole number: `negsuc n` is -(n + 1).
pub data ℤ : Type 0 where
  pos : ℕ → ℤ
  negsuc : ℕ → ℤ

-- A JSON value under a key whose type the schema leaves open.
pub data Value : Type 0 where
  null : Value
  bool : Bool → Value
  int : ℤ → Value
  str : String → Value
  other : Value

pub data Mode : Type 0 where
  shared exclusive : Mode
  unsupported : String → Mode

pub data Status : Type 0 where
  active cancelled expired : Status

pub data JobStatus : Type 0 where
  pending claimed running succeeded failed cancelled missed timed_out interrupted uncertain :
      JobStatus

pub data CancelKind : Type 0 where
  owner administrator : CancelKind

pub record Actor : Type 0 where
  pub uid : ℕ
  pub username : String

pub record Job : Type 0 where
  pub spec_id : String
  pub digest : String
  pub summary : String
  pub status : JobStatus
  pub submitted_at : Instant
  pub claimed_at : Option Instant
  pub started_at : Option Instant
  pub finished_at : Option Instant
  pub exit_code : Option ℤ
  pub runner_pid : Option ℕ
  pub runner_host : Option String
  pub cancel_requested_at : Option Instant
  pub recovery_state : Option String
  pub message : Option String

pub record EditState : Type 0 where
  pub gpus : List ℕ
  pub mode : Mode
  pub start_at : Instant
  pub end_at : Instant
  pub expected_memory_mb : Option ℕ
  pub share_units : Option Value

pub record EditOperation : Type 0 where
  pub op_id : String
  pub signature : String
  pub at : Instant
  pub actor_uid : ℕ
  pub actor_username : String
  pub before : EditState
  pub after : EditState

pub record CancelOperation : Type 0 where
  pub op_id : String
  pub signature : String
  pub at : Instant
  pub actor_uid : ℕ
  pub actor_username : String
  pub kind : CancelKind
  pub reason : String

pub record Notification : Type 0 where
  pub id : String
  pub type : String
  pub created_at : Instant
  pub actor_uid : ℕ
  pub actor_username : String
  pub reason : String
  pub message : String

pub record Reservation : Type 0 where
  pub id : String
  pub op_id : Option String
  pub uid : ℕ
  pub username : Option String
  pub gpus : List ℕ
  pub mode : Mode
  pub start_at : Instant
  pub end_at : Instant
  pub status : Status
  pub created_at : Option Instant
  pub updated_at : Option Instant
  pub expected_memory_mb : Option ℕ
  pub share_units : Option Value
  pub operation_signature : Option String
  pub job : Option Job
  pub edit_operations : List EditOperation
  pub cancel_operation : Option CancelOperation
  pub notifications : List Notification

-- The policy that a ledger is bound to; `current.get(key)` is `none` where the key is missing.
pub record LedgerPolicy : Type 0 where
  pub version : Option ℕ
  pub gpu_count : Option ℕ
  pub max_shared_reservations_per_gpu : Option ℕ
  pub granularity_seconds : Option ℕ
  pub require_shared_memory : Option Bool
  pub shared_memory_reserve_mb : Option ℕ
  pub file_mode : Option ℕ
  pub dir_mode : Option ℕ
  pub storage_gid : Option ℕ

-- The value under the ledger's `policy` key.
pub data PolicyEntry : Type 0 where
  absent malformed : PolicyEntry
  bound : LedgerPolicy → PolicyEntry

pub record Ledger : Type 0 where
  pub reservations : List Reservation
  pub policy : PolicyEntry

pub record Blackout : Type 0 where
  pub start_at : Instant
  pub end_at : Instant
  pub reason : String

-- The fields of config.Config that the scheduler reads.
pub record Config : Type 0 where
  pub gpu_count : ℕ
  pub max_shared_users : ℕ
  pub queue_search_hours : ℕ
  pub booking_horizon_days : ℕ
  pub max_booking_duration_hours : ℕ
  pub booking_blackouts : List Blackout
  pub ledger_retention_days : ℕ
  pub require_shared_memory : Bool
  pub shared_memory_reserve_mb : ℕ
  pub file_mode : ℕ
  pub dir_mode : ℕ
  pub slot_minutes : ℕ
  pub storage_gid : Option ℕ
  pub disabled_gpus : List ℕ
  pub gpu_priority : List (ℕ × ℕ)
