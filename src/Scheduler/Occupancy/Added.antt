-- ===== src/Scheduler/Occupancy/Added.antt =====
-- A reservation that the availability check has let through leaves the ledger sound.
use gpubk.Prelude.{
  ℕ, ◌+◌, ◌≤◌, ◌<◌, ◌≡◌, ◌⊎◌, inl, inr, refl, sym, ap, true, false, none, List, [], ◌∷◌, arith,
  sum_of, All, Bool-cases, Option,
}
use gpubk.Models.{
  Instant, Value, Mode, shared, exclusive, unsupported, Reservation, is_active, is_shared,
}
use gpubk.Sharing.{reservation_share_units}
use gpubk.ScheduleIndex.{build, collect, overlapping}
use gpubk.ScheduleIndex.Spans.{ReservationSpan}
use gpubk.Scheduler.Availability.{Demand, is_exclusive_span, availability_detail_indexed}
use gpubk.Scheduler.Availability.Spec.{Fits, SharedFits, units_at}
use gpubk.Scheduler.Availability.Spec.Exact.{availability_detail_indexed_iff}
use gpubk.Scheduler.Occupancy.{
  Weight, holds, counts, held, one, one_exclusive, shared_units, IsSoundAt,
}
use gpubk.Scheduler.Occupancy.Fewer.{IsSoundAt-fewer}
use gpubk.Scheduler.Occupancy.Indexed.{at_instant, held-le-overlapping}

-- Room for one more reservation beside those that hold the GPU.
pub record HasRoom (max_shared_users gpu : ℕ) (t : Instant) (rs : List Reservation) (mode : Mode)
    (share_units : Option Value) : Type 0 where
  pub units :
      held (shared_units max_shared_users) gpu t rs + shared_units max_shared_users mode share_units
      ≤ max_shared_users
  pub company :
      ((held one_exclusive gpu t rs ≡ 0) × (one_exclusive mode share_units ≡ 0))
      ⊎ (held one gpu t rs ≡ 0)

units_at-ge :
    (max_shared_users : ℕ) (t : Instant) (items : List ReservationSpan)
    → sum_of (at_instant (shared_units max_shared_users) t) items
      ≤ units_at items max_shared_users t
units_at-ge max_shared_users t [] = omega arith
units_at-ge max_shared_users t (item ∷ items) = ground (arith, units_at-ge max_shared_users t items)

no_exclusive-sum :
    (t : Instant) (items : List ReservationSpan)
    → All (λ item. is_exclusive_span item ≡ false) items
    → sum_of (at_instant one_exclusive t) items ≡ 0
no_exclusive-sum t [] h = refl
no_exclusive-sum t (item ∷ items) h = ground (arith, no_exclusive-sum t items)

module _ (rs : List Reservation) (r : Reservation) (gpu : ℕ) (t after : Instant) (d : Demand)
    (recent : after ≤ t) (started : r.start_at ≤ t) (running : t < r.end_at)
    (stored : 1 ≤ d.share_units
      → is_shared r.mode ≡ true
      → reservation_share_units r.share_units d.max_shared_users ≡ d.share_units) where
  abbrev relevant : List ReservationSpan
  relevant = overlapping (build (collect is_active after rs)) gpu r.start_at r.end_at

  held-empty : (weight : Weight) → relevant ≡ [] → held weight gpu t rs ≡ 0
  held-empty weight e = omega (
    arith,
    held-le-overlapping weight gpu t rs after r.start_at r.end_at recent started running,
    ap (sum_of (at_instant weight t)) e,
  )

  room_exclusive :
      r.mode ≡ exclusive → relevant ≡ [] → HasRoom d.max_shared_users gpu t rs r.mode r.share_units
  room_exclusive e empty =
      let idle : held (shared_units d.max_shared_users) gpu t rs ≡ 0 =
        held-empty (shared_units d.max_shared_users) empty in
      let own : shared_units d.max_shared_users r.mode r.share_units ≡ 0 = rw e refl in
      record { units = omega arith; company = inr (held-empty one empty) }

  room_shared :
      r.mode ≡ shared
      → SharedFits relevant gpu r.start_at r.end_at d
      → HasRoom d.max_shared_users gpu t rs r.mode r.share_units
  room_shared e fits =
      let load : held (shared_units d.max_shared_users) gpu t rs
          ≤ sum_of (at_instant (shared_units d.max_shared_users) t) relevant =
        held-le-overlapping (shared_units d.max_shared_users) gpu t rs after r.start_at r.end_at
          recent started running in
      let others : held one_exclusive gpu t rs ≤ sum_of (at_instant one_exclusive t) relevant =
        held-le-overlapping one_exclusive gpu t rs after r.start_at r.end_at recent started
          running in
      let own : shared_units d.max_shared_users r.mode r.share_units ≡ d.share_units =
        rw e (stored fits.asked (rw e refl)) in
      record {
        units = omega (
          arith,
          load,
          own,
          units_at-ge d.max_shared_users t relevant,
          (fits.room t started running).units,
        );
        company =
            inl (omega (arith, others, no_exclusive-sum t relevant fits.no_exclusive), rw e refl);
      }

  room_by_mode :
      (mode : Mode)
      → r.mode ≡ mode
      → Fits relevant gpu r.start_at r.end_at d mode
      → HasRoom d.max_shared_users gpu t rs r.mode r.share_units
  room_by_mode exclusive e empty = room_exclusive e empty
  room_by_mode shared e fits = room_shared e fits
  room_by_mode (unsupported name) e fits = absurd fits

  pub available-HasRoom :
      d.mode ≡ r.mode
      → availability_detail_indexed (build (collect is_active after rs)) gpu r.start_at r.end_at d
        ≡ none
      → HasRoom d.max_shared_users gpu t rs r.mode r.share_units
  available-HasRoom same free = room_by_mode d.mode (sym same) (
      (availability_detail_indexed_iff (collect is_active after rs) gpu r.start_at r.end_at d
          (omega arith)).0
        free)

-- A list that holds no more than an old one with one more reservation is sound, if there was room
-- for the reservation wherever it holds a GPU.
pub IsSoundAt-added :
    (max_shared_users gpu : ℕ) (t : Instant) (old new : List Reservation) (r : Reservation)
    → IsSoundAt max_shared_users gpu t old
    → (holds gpu t r ≡ true → HasRoom max_shared_users gpu t old r.mode r.share_units)
    → ((weight : Weight) → held weight gpu t new ≤ held weight gpu t old + counts weight gpu t r)
    → IsSoundAt max_shared_users gpu t new
IsSoundAt-added max_shared_users gpu t old new r sound room le = elim (Bool-cases (holds gpu t r)) [
  | inl here ↦
      let beside = room here in
      record {
        within = omega (arith, rw here at (le (shared_units max_shared_users)), beside.units);
        alone = joined here beside.company;
      }
  | inr away ↦
      IsSoundAt-fewer max_shared_users gpu t new old
        (λ weight. omega (arith, rw away at (le weight))) sound
]
  where
    joined :
        holds gpu t r ≡ true
        → ((held one_exclusive gpu t old ≡ 0) × (one_exclusive r.mode r.share_units ≡ 0))
          ⊎ (held one gpu t old ≡ 0)
        → (held one_exclusive gpu t new ≡ 0) ⊎ (held one gpu t new ≤ 1)
    joined here (inl (idle, own)) = inl (omega (arith, rw here at (le one_exclusive), idle, own))
    joined here (inr empty) = inr (omega (arith, rw here at (le one), empty))
