-- ===== src/Scheduler/Booking/Failure.antt =====
-- `_availability_failure_message`: why an exact request has no slot, and where the nearest one is.
use gpubk.Prelude.{ℕ, true, Option, none, some, List, [], ◌∷◌, if◌then◌else◌}
use gpubk.Models.{Instant, Ledger, Config, BookingRequest, is_shared}
use gpubk.Errors.{Result, ok, ◌>>=◌, ◌>>◌, BookingError, unavailable}
use gpubk.Policy.{validate_ledger_policy}
use gpubk.ScheduleIndex.{from_ledger}
use gpubk.Scheduler.Reasons.{Reason}
use gpubk.Scheduler.Availability.{availability_detail}
use gpubk.Scheduler.Placement.Ranking.{combine_reasons}
use gpubk.Scheduler.Placement.{Ask, demand_of, find_available_gpus_indexed}
use gpubk.Scheduler.Search.{Clock, find_earliest_slot}

-- The request's own values; `request.share_units or 1` reads as the units that were accepted for a
-- shared request, and is not used for an exclusive one.
abbrev pub ask_of : BookingRequest → ℕ → Ask
ask_of request share_units = record {
  mode = request.mode;
  expected_memory_mb = request.expected_memory_mb;
  gpu_memory_capacity_mb = request.gpu_memory_capacity_mb;
  share_units = if is_shared request.mode then share_units else 1;
}

-- `if not ok: reasons.append(reason)`
abbrev pub add_reason : Option Reason → List Reason → List Reason
add_reason none reasons = reasons
add_reason (some reason) reasons = reason ∷ reasons

unfoldable pub preferred_reasons : Ledger → Config → Ask → Instant → Instant → List ℕ → List Reason
preferred_reasons ledger config ask start end [] = []
preferred_reasons ledger config ask start end (gpu ∷ rest) =
    add_reason (availability_detail ledger gpu start end (demand_of config ask))
      (preferred_reasons ledger config ask start end rest)

abbrev pub scores_of : Option (List (ℕ × ℕ)) → List (ℕ × ℕ)
scores_of none = []
scores_of (some scores) = scores

unfoldable pub failure_reasons :
    Ledger
    → Config
    → BookingRequest
    → Ask
    → Instant
    → Instant
    → Option (List ℕ)
    → Instant
    → Result (List Reason)
unfolding preferred_reasons
failure_reasons ledger config request ask start end (some preferred) now =
    ok (combine_reasons (preferred_reasons ledger config ask start end preferred))
failure_reasons ledger config request ask start end none now = do
  validate_ledger_policy ledger config
  found ←
      find_available_gpus_indexed (from_ledger ledger start) config request.count start end ask
        request.gpu_order (scores_of request.gpu_scores) request.excluded_gpus now
  ok found.1

-- The reasons, and the nearest slot that a queued search finds (`_nearest_available_hint`).
unfoldable pub availability_failure :
    Ledger
    → Config
    → BookingRequest
    → Instant
    → Instant
    → Option (List ℕ)
    → ℕ
    → Clock
    → Result BookingError
unfolding failure_reasons
availability_failure ledger config request start end preferred share_units clock = do
  let ask = ask_of request share_units
  reasons ← failure_reasons ledger config request ask start end preferred clock.now
  slot ←
      find_earliest_slot ledger config
        (record {
          count = request.count;
          duration = request.duration_seconds;
          ask = ask;
          preferred_gpus = preferred;
          gpu_order = request.gpu_order;
          gpu_scores = scores_of request.gpu_scores;
          excluded_gpus = request.excluded_gpus;
        })
        start true clock
  ok (unavailable reasons slot)
