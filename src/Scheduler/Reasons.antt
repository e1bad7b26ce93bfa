-- ===== src/Scheduler/Reasons.antt =====
-- Why a placement is refused: each reason text is a constructor with the values that stand in it.
use gpubk.Prelude.{ℕ, String, List}
use gpubk.Models.{Instant, Mode}
use gpubk.Sharing.{ShareError}

pub data Reason : Type 0 where
  exclusive_conflict : (gpu : ℕ) → Reason
  has_shared : (gpu : ℕ) → Reason
  unsupported_mode : Mode → Reason
  invalid_share : ShareError → Reason
  shared_capacity_full : (gpu request used maximum : ℕ) → Reason
  shared_memory_full : (gpu requested projected usable : ℕ) → Reason
  duration_exceeded : (hours : ℕ) → Reason
  beyond_horizon : (days : ℕ) (horizon : Instant) → Reason
  blackout : (start end : Instant) (reason : String) → Reason
  not_eligible : (count eligible : ℕ) (disabled excluded : List ℕ) → Reason
