-- ===== src/Models/Requests.antt =====
-- Requests and their results.
use gpubk.Prelude.{ℕ, String, Bool, Option, List}
use gpubk.Models.Defs.{Instant, Value, Mode, Actor, Reservation}

-- Scores stand in thousandths.
pub record BookingRequest : Type 0 where
  pub actor : Actor
  pub count : ℕ
  pub duration_seconds : ℕ
  pub start_at : Instant
  pub mode : Mode
  pub preferred_gpus : Option (List ℕ)
  pub gpu_order : Option (List ℕ)
  pub gpu_scores : Option (List (ℕ × ℕ))
  pub op_id : Option String
  pub allow_queue : Bool
  pub job_spec_id : Option String
  pub job_digest : Option String
  pub job_summary : Option String
  pub job_digest_aliases : List String
  pub expected_memory_mb : Option ℕ
  pub gpu_memory_capacity_mb : Option (List (ℕ × ℕ))
  pub share_units : Option Value
  pub excluded_gpus : Option (List ℕ)

pub record EditRequest : Type 0 where
  pub actor : Actor
  pub reservation_id : String
  pub op_id : Option String
  pub start_at : Option Instant
  pub duration_seconds : Option ℕ
  pub mode : Option Mode
  pub preferred_gpus : Option (List ℕ)
  pub gpu_order : Option (List ℕ)
  pub gpu_scores : Option (List (ℕ × ℕ))
  pub count : Option ℕ
  pub allow_queue : Bool
  pub expected_memory_mb : Option ℕ
  pub update_expected_memory : Bool
  pub gpu_memory_capacity_mb : Option (List (ℕ × ℕ))
  pub share_units : Option Value
  pub update_share_units : Bool
  pub excluded_gpus : Option (List ℕ)

pub record BookingResult : Type 0 where
  pub reservation : Reservation
  pub created : Bool
  pub message : String
  pub queued : Bool
