-- ===== src/Scheduler/Occupancy/Moved.antt =====
-- The edit of a reservation that has not started: what holds of it.
pub mod Room
use gpubk.Prelude.{
  Asked, ℕ, ◌+◌, ◌-◌, ◌%◌, ◌≤◌, ◌<◌, ◌≡◌, refl, sym, subst, String, Bool, true, false, not, Option,
  none, some, List, arith, ltb, ◌==◌, ◌&&◌, if◌then◌else◌, elem-In, All-In, Bool-cases, inl, inr,
  &&-eq-true, ltb→lt,
}
use gpubk.Models.{Instant, Reservation, Ledger, Config, EditRequest, BookingResult, is_shared}
use gpubk.Granularity.{ceil_to_slot, slot_seconds}
use gpubk.Granularity.Slots.{IsAligned, IsAligned-multiple, IsAligned_add, ceil-IsAligned}
use gpubk.Sharing.Units.{stored_int}
use gpubk.Errors.{
  Result, ok, err, ◌>>=◌, >>=-eq-ok, ok-injective, raise_if, memory_budget_missing,
  edit_start_in_past, duration_not_positive, duration_granularity, edit_in_past, whole_multiple,
}
use gpubk.ScheduleIndex.{from_ledger}
use gpubk.Scheduler.Gpus.{
  normalize_excluded_gpus, normalize_gpu_order, normalize_gpu_scores, validate_gpu_scope,
}
use gpubk.Scheduler.Horizon.{booking_policy_conflict}
use gpubk.Scheduler.Placement.{demand_of}
use gpubk.Scheduler.Search.{Clock, normalize_start, find_earliest_slot}
use gpubk.Scheduler.Search.Sound.{find_earliest_slot-IsSlot}
use gpubk.Scheduler.Search.Aligned.{normalize_start-IsAligned, find_earliest_slot-IsAligned}
use gpubk.Scheduler.Metadata.{Runtime}
use gpubk.Scheduler.Outcome.{Outcome}
use gpubk.Scheduler.Booking.{raise_conflict}
use gpubk.Scheduler.Booking.Failure.{availability_failure}
use gpubk.Scheduler.Booking.Prepare.{is_absent}
use gpubk.Scheduler.Lookup.{find_reservation, shadow_ledger}
use gpubk.Scheduler.Edit.Future.{
  EditTarget, check_job, number_or, is_before, not_before, edit_preferred, count_of, Moving,
  moving_of, edit_wish, reason_request, moved_to, edit_slot, edit_future,
}
use gpubk.Scheduler.Occupancy.{Weight, holds, counts}
use gpubk.Scheduler.Occupancy.Added.{HasRoom, available-HasRoom}
use gpubk.Scheduler.Occupancy.Tidy.{IsSlotted}
use gpubk.Scheduler.Occupancy.Replaced.{others}
use gpubk.Scheduler.Occupancy.Thins.{Releases-counts, Releases-holds}
use gpubk.Scheduler.Occupancy.Edits.{Edits, Releases-HasRoom}
use gpubk.Scheduler.Occupancy.Written.{WritesEdit, write_edit-WritesEdit}

not_before-IsAligned :
    (now m : ℕ) (allow_queue : Bool) (start s : Instant)
    → not_before (ceil_to_slot now m) allow_queue start ≡ ok s
    → IsAligned m start
    → IsAligned m s
not_before-IsAligned now m allow_queue start s h aligned =
    elim (Bool-cases (ltb start (ceil_to_slot now m))) [
      | inr ahead ↦ subst (IsAligned m) (ok-injective (rw ahead at h)) aligned
      | inl behind ↦ moved_up allow_queue (rw behind at h)
    ]
  where
    moved_up :
        (queue : Bool)
        → ◌≡◌ {A = Result Instant}
            (if queue then ok (ceil_to_slot now m) else err edit_in_past)
            (ok s)
        → IsAligned m s
    moved_up true k = subst (IsAligned m) (ok-injective k) (ceil-IsAligned now m)
    moved_up false k = cc

pub number_or-Asked : (wished : Option ℕ) (old : ℕ) → Asked wished old (number_or wished old)
number_or-Asked none old = refl
number_or-Asked (some n) old = refl

-- The start and the duration of an edit: on slot boundaries, and as asked.
pub record IsPlanned (config : Config) (request : EditRequest) (r : Reservation) (moving : Moving)
    : Type 0 where
  pub start_aligned : IsAligned config.slot_minutes moving.start
  pub duration_aligned : IsAligned config.slot_minutes moving.duration
  pub lasts : Asked request.duration_seconds (r.end_at - r.start_at) moving.duration
  pub starts : request.allow_queue ≡ false → Asked request.start_at r.start_at moving.start
  pub counted : moving.count ≡ count_of request.count (edit_preferred request r) r
  pub preferring : moving.preferred ≡ edit_preferred request r

-- An edit that does not queue starts where it was asked to.
exact_start :
    (wished : Instant) (queue : Bool) (now m : ℕ) (aligned start : Instant)
    → normalize_start wished queue now m ≡ ok aligned
    → not_before (ceil_to_slot now m) queue aligned ≡ ok start
    → queue ≡ false
    → start ≡ wished
unfolding normalize_start
exact_start wished true now m aligned start h k e = cc
exact_start wished false now m aligned start h k e = ground arith

pub moving_of-IsPlanned :
    (config : Config) (request : EditRequest) (r : Reservation) (target : EditTarget)
    (now : Instant) (moving : Moving)
    → moving_of config request r target now ≡ ok moving
    → IsPlanned config request r moving
unfolding moving_of
moving_of-IsPlanned config request r target now moving h =
    let m = config.slot_minutes in
    let (_, _, h1) = >>=-eq-ok (check_job r.job) _ h in
    let (_, _, h2) =
      >>=-eq-ok
        (raise_if
          (is_shared target.mode
            && (config.require_shared_memory && is_absent target.expected_memory_mb))
          memory_budget_missing)
        _ h1 in
    let (_, _, h3) =
      >>=-eq-ok
        (raise_if (is_before request.start_at now) (edit_start_in_past (ceil_to_slot now m))) _
        h2 in
    let duration = number_or request.duration_seconds (r.end_at - r.start_at) in
    let (_, _, h4) = >>=-eq-ok (raise_if (duration == 0) duration_not_positive) _ h3 in
    let whole = duration % slot_seconds m == 0 in
    let (_, q5, h5) = >>=-eq-ok (raise_if (not whole) (duration_granularity m)) _ h4 in
    let (aligned, q6, h6) =
      >>=-eq-ok (normalize_start (number_or request.start_at r.start_at) request.allow_queue now m)
        _ h5 in
    let (start, q7, h7) =
      >>=-eq-ok (not_before (ceil_to_slot now m) request.allow_queue aligned) _ h6 in
    let (_, _, h8) =
      >>=-eq-ok
        (raise_conflict (booking_policy_conflict config start (start + duration) now)
          request.allow_queue)
        _ h7 in
    let (excluded, _, h9) = >>=-eq-ok (normalize_excluded_gpus request.excluded_gpus config) _ h8 in
    let preferred = edit_preferred request r in
    let count = count_of request.count preferred r in
    let (_, _, h10) = >>=-eq-ok (validate_gpu_scope config count preferred excluded) _ h9 in
    let (order, _, h11) = >>=-eq-ok (normalize_gpu_order request.gpu_order config) _ h10 in
    let (scores, _, h12) = >>=-eq-ok (normalize_gpu_scores request.gpu_scores config) _ h11 in
    subst (IsPlanned config request r) (ok-injective h12) (record {
      start_aligned =
          not_before-IsAligned now m request.allow_queue aligned start q7
            (normalize_start-IsAligned _ request.allow_queue now m aligned q6);
      duration_aligned = IsAligned-multiple duration m (whole_multiple duration m _ q5);
      lasts = number_or-Asked request.duration_seconds (r.end_at - r.start_at);
      starts = λ exact.
          subst (Asked request.start_at r.start_at)
            (sym (exact_start _ request.allow_queue now m aligned start q6 q7 exact))
            (number_or-Asked request.start_at r.start_at);
      counted = refl;
      preferring = refl;
    })

-- What the edit of a future reservation leaves: the reservation at a slot that serves the edit by
-- the ledger without it, at the requested start unless the edit queues.
pub record Moves (runtime : Runtime) (config : Config) (request : EditRequest) (r : Reservation)
    (target : EditTarget) (now : Instant) (op_id : Option String) (signature : String)
    (clock : Clock) (ledger : Ledger) (o : Outcome BookingResult) : Type 0 where
  pub moving : Moving
  pub start : Instant
  pub gpus : List ℕ
  pub wished : moving_of config request r target now ≡ ok moving
  pub found :
      find_earliest_slot
        (shadow_ledger ledger request.reservation_id)
        config
        (edit_wish target moving)
        moving.start
        request.allow_queue
        clock
      ≡ ok (some (start, gpus))
  pub unmoved : request.allow_queue ≡ false → start ≡ moving.start
  pub writes :
      WritesEdit runtime request now op_id signature r
        (moved_to r target moving.duration now start gpus)
        ledger
        o

module _ (runtime : Runtime) (config : Config) (request : EditRequest) (r : Reservation)
    (target : EditTarget) (now : Instant) (op_id : Option String) (signature : String)
    (clock hint_clock : Clock) (ledger : Ledger) (o : Outcome BookingResult) where
  edit_slot-Moves :
      (moving : Moving) (start : Instant) (gpus : List ℕ)
      → moving_of config request r target now ≡ ok moving
      → find_earliest_slot
          (shadow_ledger ledger request.reservation_id)
          config
          (edit_wish target moving)
          moving.start
          request.allow_queue
          clock
        ≡ ok (some (start, gpus))
      → edit_slot runtime request r target moving now op_id signature ledger (start, gpus) ≡ ok o
      → Moves runtime config request r target now op_id signature clock ledger o
  unfolding edit_slot
  edit_slot-Moves moving start gpus wished q h =
      elim (Bool-cases (not request.allow_queue && not (start == moving.start))) [
        | inl moved ↦ let e = rw (moved, edit_slot) at h in cc
        | inr fits ↦ record {
          moving = moving;
          start = start;
          gpus = gpus;
          wished = wished;
          found = q;
          unmoved = λ exact. ground arith;
          writes =
              write_edit-WritesEdit runtime request now op_id signature r
                (moved_to r target moving.duration now start gpus) _
                (record {
                  reservation = r;
                  created = true;
                  message = if ltb moving.start start then "queued" else "updated";
                  queued = ltb moving.start start;
                })
                ledger o (rw (fits, edit_slot) at h);
        }
      ]

  pub edit_future-Moves :
      edit_future runtime config request r target now op_id signature clock hint_clock ledger ≡ ok o
      → Moves runtime config request r target now op_id signature clock ledger o
  unfolding edit_future
  edit_future-Moves h =
      let (moving, wished, h1) = >>=-eq-ok (moving_of config request r target now) _ h in
      let (slot, q, k) =
        >>=-eq-ok
          (find_earliest_slot (shadow_ledger ledger request.reservation_id) config
            (edit_wish target moving) moving.start request.allow_queue clock)
          _ h1 in
      by_slot moving wished slot q k
    where
      by_slot :
          (moving : Moving)
          → moving_of config request r target now ≡ ok moving
          → (slot : Option (Instant × List ℕ))
          → find_earliest_slot
              (shadow_ledger ledger request.reservation_id)
              config
              (edit_wish target moving)
              moving.start
              request.allow_queue
              clock
            ≡ ok slot
          → ◌≡◌ {A = Result (Outcome BookingResult)}
              (elim slot [
                | some found ↦
                    edit_slot runtime request r target moving now op_id signature ledger found
                | none ↦ do
                  reason ←
                      availability_failure
                        (shadow_ledger ledger request.reservation_id)
                        config
                        (reason_request request target moving)
                        moving.start
                        (moving.start + moving.duration)
                        moving.preferred
                        target.share_units
                        hint_clock
                  err reason
              ])
              (ok o)
          → Moves runtime config request r target now op_id signature clock ledger o
      by_slot moving wished (some (start, gpus)) q k = edit_slot-Moves moving start gpus wished q k
      by_slot moving wished none q k =
          let (reason, _, e) =
            >>=-eq-ok
              (availability_failure (shadow_ledger ledger request.reservation_id) config
                (reason_request request target moving) moving.start (moving.start + moving.duration)
                moving.preferred target.share_units hint_clock)
              (λ reason. err reason) k in
          absurd (cc)
