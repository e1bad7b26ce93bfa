-- ===== src/Scheduler/Occupancy/Relocated.antt =====
-- What an edit makes of a reservation that has not started, field by field.
use gpubk.Prelude.{
  Asked, ℕ, ◌+◌, ◌-◌, ◌≡◌, refl, sym, ◌∙◌, subst, String, false, Option, none, some, List, All,
  if◌then◌else◌, length,
}
use gpubk.Prelude.Ascending.{from_list}
use gpubk.Models.{
  Instant, int, pos, Mode, Reservation, Ledger, Config, EditRequest, BookingResult, is_shared,
}
use gpubk.Granularity.Slots.{IsAligned}
use gpubk.Errors.{ok, >>=-eq-ok, ok-injective}
use gpubk.ScheduleIndex.{from_ledger}
use gpubk.Scheduler.Gpus.{normalize_memory_capacities, normalize_expected_memory}
use gpubk.Scheduler.Horizon.{booking_policy_conflict}
use gpubk.Scheduler.Placement.{Ask}
use gpubk.Scheduler.Search.{Clock}
use gpubk.Scheduler.Search.Sound.{Serves, find_earliest_slot-IsSlot}
use gpubk.Scheduler.Search.Preferred.{find_preferred}
use gpubk.Scheduler.Search.Aligned.{find_earliest_slot-IsAligned}
use gpubk.Scheduler.Metadata.{Runtime}
use gpubk.Scheduler.Outcome.{Outcome}
use gpubk.Scheduler.Lookup.{shadow_ledger}
use gpubk.Scheduler.Booking.Prepare.{check_mode, request_share_units}
use gpubk.Scheduler.Edit.{mode_or, kept_units, edit_target}
use gpubk.Scheduler.Edit.Future.{EditTarget, count_of, edit_preferred, edit_wish, moved_to}
use gpubk.Scheduler.Occupancy.Extended.{normalized_memory}
use gpubk.Scheduler.Occupancy.Moved.{moving_of-IsPlanned, Moves}

-- What the edited reservation asks of its GPUs: what the request says, or what it had.
pub record AsksFor (config : Config) (request : EditRequest) (r : Reservation) (ask : Ask)
    : Type 0 where
  pub mode_asked : Asked request.mode r.mode ask.mode
  pub memory_asked : ask.expected_memory_mb ≡ (
      if request.update_expected_memory then request.expected_memory_mb else r.expected_memory_mb)
  pub share_asked :
      request_share_units ask.mode
        (if request.update_share_units then request.share_units else kept_units config r ask.mode)
        config.max_shared_users
      ≡ ok ask.share_units
  pub capacities : List (ℕ × ℕ)
  pub capacities_asked :
      normalize_memory_capacities request.gpu_memory_capacity_mb config ≡ ok capacities
  pub against : ask.gpu_memory_capacity_mb ≡ some capacities

-- A reservation at a slot that serves the edit by the ledger without it.
pub record Relocates (config : Config) (request : EditRequest) (r : Reservation) (now : Instant)
    (clock : Clock) (current : Ledger) (written : Reservation) : Type 0 where
  pub ask : Ask
  pub start : Instant
  pub duration : ℕ
  pub gpus : List ℕ
  pub asks : AsksFor config request r ask
  pub written_as : written ≡ record r {
    gpus = gpus;
    mode = ask.mode;
    start_at = start;
    end_at = start + duration;
    expected_memory_mb = ask.expected_memory_mb;
    share_units = if is_shared ask.mode then some (int (pos ask.share_units)) else none;
    updated_at = some now;
    edit_operations = written.edit_operations;
  }
  pub lasts : Asked request.duration_seconds (r.end_at - r.start_at) duration
  pub starts : request.allow_queue ≡ false → Asked request.start_at r.start_at start
  pub start_on_slots : IsAligned config.slot_minutes start
  pub duration_on_slots : IsAligned config.slot_minutes duration
  pub all_counted : length gpus ≡ count_of request.count (edit_preferred request r) r
  pub stays_put :
      request.preferred_gpus ≡ none
      → request.count ≡ none
      → request.excluded_gpus ≡ none
      → gpus ≡ from_list r.gpus
  pub within_policy : booking_policy_conflict config start (start + duration) clock.now ≡ none
  pub each_serves :
      All
        (Serves
          (from_ledger (shadow_ledger current request.reservation_id) clock.now)
          config
          start
          (start + duration)
          ask)
        gpus

mode_or-Asked : (wished : Option Mode) (old : Mode) → Asked wished old (mode_or wished old)
mode_or-Asked none old = refl
mode_or-Asked (some mode) old = refl

edit_target-AsksFor :
    (config : Config) (request : EditRequest) (r : Reservation) (target : EditTarget)
    → edit_target config request r ≡ ok target
    → AsksFor config request r (record {
      mode = target.mode;
      expected_memory_mb = target.expected_memory_mb;
      gpu_memory_capacity_mb = some target.capacities;
      share_units = target.share_units;
    })
unfolding edit_target
edit_target-AsksFor config request r target h =
    let mode = mode_or request.mode r.mode in
    let (_, _, h1) = >>=-eq-ok (check_mode mode) _ h in
    let wished =
      if request.update_expected_memory then request.expected_memory_mb else r.expected_memory_mb in
    let (memory, q2, h2) = >>=-eq-ok (normalize_expected_memory wished) _ h1 in
    let (units, q3, h3) =
      >>=-eq-ok
        (request_share_units mode
          (if request.update_share_units then request.share_units else kept_units config r mode)
          config.max_shared_users)
        _ h2 in
    let (capacities, q4, h4) =
      >>=-eq-ok (normalize_memory_capacities request.gpu_memory_capacity_mb config) _ h3 in
    subst
      (λ (target : EditTarget). AsksFor config request r (record {
        mode = target.mode;
        expected_memory_mb = target.expected_memory_mb;
        gpu_memory_capacity_mb = some target.capacities;
        share_units = target.share_units;
      }))
      (ok-injective h4)
      (record {
        mode_asked = mode_or-Asked request.mode r.mode;
        memory_asked = normalized_memory wished memory q2;
        share_asked = q3;
        capacities = capacities;
        capacities_asked = q4;
        against = refl;
      })

-- A request that says nothing of GPUs selects those of the reservation.
keeps_gpus :
    (request : EditRequest) (r : Reservation)
    → request.preferred_gpus ≡ none
    → request.count ≡ none
    → request.excluded_gpus ≡ none
    → (edit_preferred request r ≡ some (from_list r.gpus))
      × (count_of request.count (edit_preferred request r) r ≡ length (from_list r.gpus))
keeps_gpus request r a b c = (rw (a, b, c) refl, rw (a, b, c) refl)

pub Moves-Relocates :
    (runtime : Runtime) (config : Config) (request : EditRequest) (r : Reservation)
    (target : EditTarget) (now : Instant) (op_id : Option String) (signature : String)
    (clock : Clock) (current : Ledger) (o : Outcome BookingResult)
    → edit_target config request r ≡ ok target
    → Moves runtime config request r target now op_id signature clock current o
    → Relocates config request r now clock current o.result.reservation
unfolding moved_to
Moves-Relocates runtime config request r target now op_id signature clock current o aimed moves =
    let planned = moving_of-IsPlanned config request r target now moves.moving moves.wished in
    let shadow = shadow_ledger current request.reservation_id in
    let wish = edit_wish target moves.moving in
    let slot =
      find_earliest_slot-IsSlot shadow config wish moves.moving.start request.allow_queue clock
        moves.start moves.gpus moves.found in
    record {
      ask = wish.ask;
      start = moves.start;
      duration = moves.moving.duration;
      gpus = moves.gpus;
      asks = edit_target-AsksFor config request r target aimed;
      written_as = moves.writes.recorded.only_history;
      lasts = planned.lasts;
      starts = λ exact.
          subst (Asked request.start_at r.start_at) (sym (moves.unmoved exact))
            (planned.starts exact);
      start_on_slots =
          find_earliest_slot-IsAligned shadow config wish moves.moving.start request.allow_queue
            clock moves.start moves.gpus moves.found planned.start_aligned;
      duration_on_slots = planned.duration_aligned;
      all_counted = slot.all_counted ∙ planned.counted;
      stays_put = λ a b c.
          let (kept, as_many) = keeps_gpus request r a b c in
          find_preferred (from_ledger shadow clock.now) config wish clock (from_list r.gpus)
            (planned.preferring ∙ kept) (planned.counted ∙ as_many) shadow moves.moving.start
            moves.start request.allow_queue moves.gpus refl moves.found;
      within_policy = slot.within_policy;
      each_serves = slot.each_serves;
    }
