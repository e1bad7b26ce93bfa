-- ===== src/Scheduler/Occupancy/Moved/Room.antt =====
-- A moved reservation takes only what is free: its edit keeps the invariant.
use gpubk.Prelude.{
  ℕ, ◌≤◌, ◌<◌, ◌≡◌, refl, sym, subst, String, true, Option, some, arith, elem-In, All-In,
  &&-eq-true, ltb→lt,
}
use gpubk.Models.{Instant, Reservation, Ledger, Config, EditRequest, BookingResult}
use gpubk.Granularity.Slots.{IsAligned, IsAligned_add}
use gpubk.Sharing.Units.{stored_int}
use gpubk.ScheduleIndex.{from_ledger}
use gpubk.Scheduler.Placement.{demand_of}
use gpubk.Scheduler.Search.{Clock}
use gpubk.Scheduler.Search.Sound.{find_earliest_slot-IsSlot}
use gpubk.Scheduler.Search.Aligned.{find_earliest_slot-IsAligned}
use gpubk.Scheduler.Metadata.{Runtime}
use gpubk.Scheduler.Outcome.{Outcome}
use gpubk.Scheduler.Lookup.{find_reservation, shadow_ledger}
use gpubk.Scheduler.Edit.Future.{EditTarget, edit_wish, moved_to}
use gpubk.Scheduler.Occupancy.{Weight, holds, counts}
use gpubk.Scheduler.Occupancy.Added.{HasRoom, available-HasRoom}
use gpubk.Scheduler.Occupancy.Tidy.{IsSlotted}
use gpubk.Scheduler.Occupancy.Replaced.{others}
use gpubk.Scheduler.Occupancy.Thins.{Releases-counts, Releases-holds}
use gpubk.Scheduler.Occupancy.Edits.{Edits, Releases-HasRoom}
use gpubk.Scheduler.Occupancy.Moved.{Moves, moving_of-IsPlanned}

module _ (runtime : Runtime) (config : Config) (request : EditRequest) (r : Reservation)
    (target : EditTarget) (now : Instant) (op_id : Option String) (signature : String)
    (clock hint_clock : Clock) (ledger : Ledger) (o : Outcome BookingResult) where
  module _ (moves : Moves runtime config request r target now op_id signature clock ledger o)
      (found : find_reservation ledger.reservations request.reservation_id ≡ some r) where
    abbrev moved : Reservation
    moved = moved_to r target moves.moving.duration now moves.start moves.gpus

    moved-IsSlotted : IsSlotted config.slot_minutes moved
    unfolding moved_to
    moved-IsSlotted =
        let planned = moving_of-IsPlanned config request r target now moves.moving moves.wished in
        let on_slot : IsAligned config.slot_minutes moves.start =
          find_earliest_slot-IsAligned (shadow_ledger ledger request.reservation_id) config
            (edit_wish target moves.moving) moves.moving.start request.allow_queue clock moves.start
            moves.gpus moves.found planned.start_aligned in
        (
          on_slot,
          IsAligned_add config.slot_minutes moves.start moves.moving.duration on_slot
              planned.duration_aligned,
        )

    moved-early :
        (weight : Weight) (gpu : ℕ) (t : Instant)
        → t < moves.start
        → counts weight gpu t moved ≤ counts weight gpu t r
    unfolding moved_to
    moved-early weight gpu t soon = ground arith

    moved-room :
        (gpu : ℕ) (t : Instant)
        → clock.now ≤ t
        → moves.start ≤ t
        → holds gpu t moved ≡ true
        → HasRoom config.max_shared_users gpu t
            (others request.reservation_id ledger.reservations)
            moved.mode
            moved.share_units
    unfolding from_ledger shadow_ledger moved_to
    moved-room gpu t recent late h =
        let (named, span) = &&-eq-true _ _ ((&&-eq-true _ _ h).1) in
        let slot =
          find_earliest_slot-IsSlot (shadow_ledger ledger request.reservation_id) config
            (edit_wish target moves.moving) moves.moving.start request.allow_queue clock moves.start
            moves.gpus moves.found in
        let serves = All-In _ moves.gpus slot.each_serves gpu (elem-In gpu moves.gpus named) in
        available-HasRoom (others request.reservation_id ledger.reservations) moved gpu t clock.now
          (demand_of config (edit_wish target moves.moving).ask) recent late
          (ltb→lt _ _ (&&-eq-true _ _ span).1)
          (λ asked shares. rw shares (stored_int config.max_shared_users target.share_units asked))
          refl serves.0

    pub Moves-Edits :
        Edits config clock.now request.reservation_id ledger.reservations o.ledger.reservations
    unfolding moved_to
    Moves-Edits =
        let written = o.result.reservation in
        let kept = moves.writes.recorded.releases in
        record {
          target = r;
          written = written;
          turn = moves.start;
          found = found;
          replaced = moves.writes.replaced;
          same_id = kept.same_id;
          slotted = (
            subst (IsAligned config.slot_minutes) (sym kept.same_start) moved-IsSlotted.0,
            subst (IsAligned config.slot_minutes) (sym kept.same_end) moved-IsSlotted.1,
          );
          early = λ weight gpu t soon. omega (
            arith,
            Releases-counts weight gpu t written moved kept,
            moved-early weight gpu t soon,
          );
          room = λ gpu t recent late h.
              Releases-HasRoom config.max_shared_users gpu t
                (others request.reservation_id ledger.reservations) written moved kept
                (moved-room gpu t recent late (Releases-holds gpu t written moved kept h));
        }
