-- ===== src/Scheduler/Occupancy/Booked.antt =====
-- A booking keeps a tidy ledger tidy.
use gpubk.Prelude.{
  ℕ, ◌+◌, ◌%◌, ◌≤◌, ◌≡◌, inl, inr, refl, ap, sym, subst, ◌∙◌, true, not, [], String, ◌∷◌, ◌++◌,
  arith, ltb, ◌==◌, All, elem-In, All-In, leb→le, ltb→lt, &&-eq-true,
}
use gpubk.Models.{Instant, Reservation, Ledger, Config, BookingRequest, BookingResult}
use gpubk.Granularity.{slot_seconds}
use gpubk.Granularity.Slots.{IsAligned, IsAligned-multiple, IsAligned_add}
use gpubk.Errors.{
  ok, >>=-eq-ok, ok-injective, raise_if, count_below_one, duration_not_positive,
  duration_granularity, whole_multiple,
}
use gpubk.Policy.{bind_ledger_policy}
use gpubk.Sharing.Units.{stored_int}
use gpubk.ScheduleIndex.{from_ledger}
use gpubk.Scheduler.Gpus.{
  normalize_excluded_gpus, normalize_gpu_order, normalize_gpu_scores, normalize_preferred_gpus,
  validate_gpu_scope,
}
use gpubk.Scheduler.Horizon.{booking_policy_conflict}
use gpubk.Scheduler.Placement.{demand_of}
use gpubk.Scheduler.Search.{Clock, normalize_start}
use gpubk.Scheduler.Search.Aligned.{normalize_start-IsAligned, find_earliest_slot-IsAligned}
use gpubk.Scheduler.Metadata.{Runtime}
use gpubk.Scheduler.Operations.{Payload}
use gpubk.Scheduler.Maintenance.{maintain_ledger}
use gpubk.Scheduler.Outcome.{Outcome}
use gpubk.Scheduler.Booking.Prepare.{Prepared, prepare, check_mode}
use gpubk.Scheduler.Booking.{
  raise_conflict, Placing, placing_of, wish_of, new_reservation, mutate_add, add_booking,
}
use gpubk.Scheduler.Booking.Slot.{Books, answer-cases}
use gpubk.Scheduler.Occupancy.{holds, held, IsSound}
use gpubk.Scheduler.Occupancy.Fewer.{held-append}
use gpubk.Scheduler.Occupancy.Added.{HasRoom, available-HasRoom, IsSoundAt-added}
use gpubk.Scheduler.Occupancy.Tidy.{named, IsUnique, IsSlotted, IsTidy, IsUnique-append, All-append}
use gpubk.Scheduler.Occupancy.Writes.{maintained-IsTidy, maintained-named}

prepare-IsAligned :
    (runtime : Runtime) (config : Config) (request : BookingRequest) (prepared : Prepared)
    → prepare runtime config request ≡ ok prepared
    → IsAligned config.slot_minutes request.duration_seconds
unfolding prepare
prepare-IsAligned runtime config request prepared h =
    let (_, _, h1) = >>=-eq-ok (check_mode request.mode) _ h in
    let (_, _, h2) = >>=-eq-ok (raise_if (ltb request.count 1) count_below_one) _ h1 in
    let (_, _, h3) =
      >>=-eq-ok (raise_if (request.duration_seconds == 0) duration_not_positive) _ h2 in
    let whole = request.duration_seconds % slot_seconds config.slot_minutes == 0 in
    let (_, q, _) =
      >>=-eq-ok (raise_if (not whole) (duration_granularity config.slot_minutes)) _ h3 in
    IsAligned-multiple request.duration_seconds config.slot_minutes
      (whole_multiple request.duration_seconds config.slot_minutes _ q)

placing_of-IsAligned :
    (sign : Payload → String) (config : Config) (request : BookingRequest) (prepared : Prepared)
    (now : Instant) (p : Placing)
    → placing_of sign config request prepared now ≡ ok p
    → IsAligned config.slot_minutes p.start × (p.request ≡ request)
unfolding placing_of
placing_of-IsAligned sign config request prepared now p h =
    let (start, q, h1) =
      >>=-eq-ok (normalize_start request.start_at request.allow_queue now config.slot_minutes) _
        h in
    let (excluded, _, h2) = >>=-eq-ok (normalize_excluded_gpus request.excluded_gpus config) _ h1 in
    let (gpu_order, _, h3) = >>=-eq-ok (normalize_gpu_order request.gpu_order config) _ h2 in
    let (gpu_scores, _, h4) = >>=-eq-ok (normalize_gpu_scores request.gpu_scores config) _ h3 in
    let preferred = normalize_preferred_gpus request.preferred_gpus in
    let (_, _, h5) = >>=-eq-ok (validate_gpu_scope config request.count preferred excluded) _ h4 in
    let (_, _, h6) =
      >>=-eq-ok
        (raise_conflict
          (booking_policy_conflict config start (start + request.duration_seconds) now)
          request.allow_queue)
        _ h5 in
    subst (λ (p : Placing). IsAligned config.slot_minutes p.start × (p.request ≡ request))
      (ok-injective h6)
      (
        normalize_start-IsAligned request.start_at request.allow_queue now config.slot_minutes start
            q,
        refl,
      )

module _ (runtime : Runtime) (config : Config) (p : Placing) (now : Instant) (clock : Clock)
    (current : Ledger) (o : Outcome BookingResult)
    (books : Books runtime config p now clock current o) where
  abbrev added : Reservation
  added = new_reservation runtime p now books.start books.gpus

  -- Wherever the new reservation holds a GPU, the search has found room for it.
  added-HasRoom :
      (gpu : ℕ) (t : Instant)
      → clock.now ≤ t
      → holds gpu t added ≡ true
      → HasRoom config.max_shared_users gpu t current.reservations added.mode added.share_units
  unfolding new_reservation from_ledger
  added-HasRoom gpu t recent h =
      let (named, span) = &&-eq-true _ _ h in
      let (after, before) = &&-eq-true _ _ span in
      let serves = All-In _ books.gpus books.slot.each_serves gpu (elem-In gpu books.gpus named) in
      available-HasRoom current.reservations added gpu t clock.now
        (demand_of config (wish_of p).ask) recent (leb→le _ _ after) (ltb→lt _ _ before)
        (λ asked is_shared_one.
          rw is_shared_one (stored_int config.max_shared_users p.prepared.share_units asked))
        refl serves.0

  Books-IsSound :
      (from : Instant)
      → clock.now ≤ from
      → IsSound config.max_shared_users from current.reservations
      → IsSound config.max_shared_users from o.ledger.reservations
  Books-IsSound from recent sound gpu t later =
      IsSoundAt-added config.max_shared_users gpu t current.reservations o.ledger.reservations added
        (sound gpu t later) (added-HasRoom gpu t (omega arith))
        (λ weight. omega (
          arith,
          ap (held weight gpu t)
              (books.grown ∙ ap (λ r. current.reservations ++ r ∷ []) books.written),
          held-append weight gpu t current.reservations (added ∷ []),
        ))

  -- The new reservation has a new ID, and lies on slot boundaries.
  Books-IsTidy :
      (from : Instant)
      → clock.now ≤ from
      → named runtime.fresh_id current.reservations ≡ 0
      → IsAligned config.slot_minutes p.start
      → IsAligned config.slot_minutes p.request.duration_seconds
      → IsTidy config from current.reservations
      → IsTidy config from o.ledger.reservations
  unfolding new_reservation
  Books-IsTidy from recent fresh start_aligned duration_aligned tidy =
      let grown : o.ledger.reservations ≡ current.reservations ++ added ∷ [] =
        books.grown ∙ ap (λ r. current.reservations ++ r ∷ []) books.written in
      let on_slot : IsAligned config.slot_minutes books.start =
        find_earliest_slot-IsAligned current config (wish_of p) p.start p.request.allow_queue clock
          books.start books.gpus books.found start_aligned in
      record {
        sound = Books-IsSound from recent tidy.sound;
        unique =
            subst IsUnique (sym grown)
              (IsUnique-append added current.reservations fresh tidy.unique);
        slotted = subst (All (IsSlotted config.slot_minutes)) (sym grown) (
            All-append (IsSlotted config.slot_minutes) current.reservations added tidy.slotted (
              on_slot,
              IsAligned_add config.slot_minutes books.start p.request.duration_seconds on_slot
                  duration_aligned,
            ));
      }

-- A booking that succeeds keeps a ledger tidy from any instant on that the search's clock has
-- reached, whether it creates a reservation under a new ID, repeats an operation or meets a
-- duplicate.
pub add_booking-IsTidy :
    (runtime : Runtime) (sign : Payload → String) (config : Config) (request : BookingRequest)
    (now : Instant) (clock hint_clock : Clock) (ledger : Ledger) (o : Outcome BookingResult)
    (from : Instant)
    → add_booking runtime sign config request now clock hint_clock ledger ≡ ok o
    → clock.now ≤ from
    → named runtime.fresh_id ledger.reservations ≡ 0
    → IsTidy config from ledger.reservations
    → IsTidy config from o.ledger.reservations
unfolding add_booking mutate_add
add_booking-IsTidy runtime sign config request now clock hint_clock ledger o from h recent fresh
      tidy =
    let (prepared, q, h1) = >>=-eq-ok (prepare runtime config request) _ h in
    let (bound, bind, h2) = >>=-eq-ok (bind_ledger_policy ledger config) _ h1 in
    let (p, placed, k) = >>=-eq-ok (placing_of sign config request prepared now) _ h2 in
    let current = maintain_ledger bound.0 now config.ledger_retention_days in
    let kept : IsTidy config from current.0.reservations =
      maintained-IsTidy config now from ledger bound bind tidy in
    elim (answer-cases runtime config p now clock hint_clock current.0 _ o k) [
      | inl (idle, _) ↦ subst (λ (l : Ledger). IsTidy config from l.reservations) (sym idle) kept
      | inr books ↦
          let (aligned, same) = placing_of-IsAligned sign config request prepared now p placed in
          Books-IsTidy runtime config p now clock current.0 o books from recent
            (omega (arith, fresh, maintained-named config now runtime.fresh_id ledger bound bind))
            aligned
            (subst (λ (r : BookingRequest). IsAligned config.slot_minutes r.duration_seconds)
              (sym same) (prepare-IsAligned runtime config request prepared q))
            kept
    ]
