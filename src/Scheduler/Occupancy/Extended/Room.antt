-- ===== src/Scheduler/Occupancy/Extended/Room.antt =====
-- An extended reservation takes only what is free: its edit keeps the invariant.
use gpubk.Prelude.{
  ℕ, ◌+◌, ◌-◌, ◌≤◌, ◌<◌, ◌≡◌, sym, subst, ◌∙◌, String, true, Option, none, some, List, arith,
  lt→ltb, ltb→lt, ==→eq, ◌==◌, elem-In, Bool-cases, inl, inr, &&-eq-true,
}
use gpubk.Models.{Instant, Reservation, Ledger, Config, EditRequest, BookingResult}
use gpubk.Granularity.Slots.{IsAligned, IsAligned_add, ceil_least}
use gpubk.ScheduleIndex.{from_ledger}
use gpubk.Scheduler.Availability.{availability_detail_indexed}
use gpubk.Scheduler.Placement.{demand_of}
use gpubk.Scheduler.Search.{Clock}
use gpubk.Scheduler.Metadata.{Runtime}
use gpubk.Scheduler.Outcome.{Outcome}
use gpubk.Scheduler.Lookup.{find_reservation, shadow_ledger}
use gpubk.Scheduler.Occupancy.{Weight, holds, counts}
use gpubk.Scheduler.Occupancy.Added.{HasRoom, available-HasRoom}
use gpubk.Scheduler.Occupancy.Tidy.{IsSlotted}
use gpubk.Scheduler.Occupancy.Replaced.{others}
use gpubk.Scheduler.Occupancy.Thins.{Releases-counts, Releases-holds}
use gpubk.Scheduler.Occupancy.Edits.{Edits, Releases-HasRoom}
use gpubk.Scheduler.Occupancy.Extended.{future_start, extended, Extends, no_minutes}

module _ (runtime : Runtime) (config : Config) (request : EditRequest) (r : Reservation)
    (now : Instant) (op_id : Option String) (signature : String) (capacities : List (ℕ × ℕ))
    (clock : Clock) (ledger : Ledger) (o : Outcome BookingResult) where
  module _ (extends : Extends runtime config request r now op_id signature clock ledger o)
      (running : now < r.end_at) (slotted : IsSlotted config.slot_minutes r)
      (found : find_reservation ledger.reservations request.reservation_id ≡ some r) where
    abbrev edited : Reservation
    edited = extended r now extends.new_end

    -- An aligned end that is still ahead is not before the next slot.
    begins_at_end : future_start config r now ≡ r.end_at
    begins_at_end = omega (
      arith,
      ceil_least now config.slot_minutes r.end_at (has_slots slotted.1) slotted.1 (omega arith),
    )
      where
        has_slots : IsAligned config.slot_minutes r.end_at → 0 < config.slot_minutes
        has_slots (k, e) = elim (Bool-cases (config.slot_minutes == 0)) [
          | inl zero_minutes ↦
              absurd
                (no_minutes k config.slot_minutes r.end_at now e (==→eq _ _ zero_minutes) running)
          | inr some_minutes ↦ ground arith
        ]

    ends_there :
        r.end_at < extends.new_end
        → future_start config r now + (extends.new_end - future_start config r now)
          ≡ extends.new_end
    ends_there longer = omega (arith, begins_at_end)

    extended-early :
        (weight : Weight) (gpu : ℕ) (t : Instant)
        → t < r.end_at
        → counts weight gpu t edited ≤ counts weight gpu t r
    extended-early weight gpu t soon = rw (lt→ltb t r.end_at soon) (ground arith)

    extended-room :
        (gpu : ℕ) (t : Instant)
        → clock.now ≤ t
        → r.end_at ≤ t
        → holds gpu t edited ≡ true
        → HasRoom config.max_shared_users gpu t
            (others request.reservation_id ledger.reservations)
            r.mode
            r.share_units
    unfolding from_ledger shadow_ledger
    extended-room gpu t recent late h =
        let (named, span) = &&-eq-true _ _ ((&&-eq-true _ _ h).1) in
        let before = ltb→lt t extends.new_end (&&-eq-true _ _ span).1 in
        let room = extends.free (omega arith) in
        available-HasRoom (others request.reservation_id ledger.reservations)
          (record r { start_at = r.end_at; end_at = extends.new_end }) gpu t clock.now
          (demand_of config room.ask) recent late before (λ asked shares. room.units_kept shares)
          room.same_mode
          (subst
            (λ begin.
              availability_detail_indexed
                (from_ledger (shadow_ledger ledger request.reservation_id) clock.now) gpu begin
                extends.new_end (demand_of config room.ask)
              ≡ none)
            begins_at_end
            (subst
              (λ end.
                availability_detail_indexed
                  (from_ledger (shadow_ledger ledger request.reservation_id) clock.now) gpu
                  (future_start config r now) end (demand_of config room.ask)
                ≡ none)
              (ends_there (omega arith)) (room.free gpu (elem-In gpu r.gpus named))))

    pub Extends-Edits :
        Edits config clock.now request.reservation_id ledger.reservations o.ledger.reservations
    Extends-Edits =
        let written = o.result.reservation in
        let kept = extends.writes.recorded.releases in
        record {
          target = r;
          written = written;
          turn = r.end_at;
          found = found;
          replaced = extends.writes.replaced;
          same_id = kept.same_id;
          slotted = (
            subst (IsAligned config.slot_minutes) (sym kept.same_start) slotted.0,
            subst (IsAligned config.slot_minutes) (sym (kept.same_end ∙ extends.total)) (
                IsAligned_add config.slot_minutes r.start_at extends.duration slotted.0
                  extends.on_slot),
          );
          early = λ weight gpu t soon. omega (
            arith,
            Releases-counts weight gpu t written edited kept,
            extended-early weight gpu t soon,
          );
          room = λ gpu t recent late h.
              Releases-HasRoom config.max_shared_users gpu t
                (others request.reservation_id ledger.reservations) written edited kept
                (extended-room gpu t recent late (Releases-holds gpu t written edited kept h));
        }
