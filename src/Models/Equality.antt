-- ===== src/Models/Equality.antt =====
-- Comparisons of modes, states and optional values, as the scheduler writes them.
use gpubk.Prelude.{ℕ, String, Bool, true, false, Option, none, some, str_eq}
use gpubk.Prelude.{◌==◌ as nat_eq}
use gpubk.Models.Defs.{
  Mode, shared, exclusive, unsupported, Status, active, JobStatus, pending, claimed, running,
}

abbrev pub is_shared : Mode → Bool
is_shared shared = true
is_shared _ = false

abbrev pub is_exclusive : Mode → Bool
is_exclusive exclusive = true
is_exclusive _ = false

abbrev pub same_mode : Mode → Mode → Bool
same_mode shared shared = true
same_mode exclusive exclusive = true
same_mode (unsupported a) (unsupported b) = str_eq a b
same_mode _ _ = false

abbrev pub is_active : Status → Bool
is_active active = true
is_active _ = false

abbrev pub is_pending : JobStatus → Bool
is_pending pending = true
is_pending _ = false

abbrev pub is_claimed : JobStatus → Bool
is_claimed claimed = true
is_claimed _ = false

abbrev pub is_running : JobStatus → Bool
is_running running = true
is_running _ = false

abbrev pub same_number : Option ℕ → Option ℕ → Bool
same_number none none = true
same_number (some a) (some b) = nat_eq a b
same_number _ _ = false

abbrev pub same_text : Option String → Option String → Bool
same_text none none = true
same_text (some a) (some b) = str_eq a b
same_text _ _ = false
