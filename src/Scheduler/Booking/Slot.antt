-- ===== src/Scheduler/Booking/Slot.antt =====
-- What a created booking holds.
use gpubk.Prelude.{
  ◌⊎◌, sym, ℕ, ◌≡◌, refl, inl, inr, Bool, true, false, not, Option, none, some, List, [], ◌∷◌, ◌++◌,
  ltb, ◌==◌, ◌&&◌, if◌then◌else◌, Bool-cases, ◌∙◌, subst, arith, String,
}
use gpubk.Models.{Instant, Config, Ledger, Reservation, BookingRequest, BookingResult}
use gpubk.Errors.{
  ok, err, ◌>>=◌, >>=-eq-ok, ok-injective, operation_id_reused, raise_if, start_before_slice,
}
use gpubk.Policy.{bind_ledger_policy}
use gpubk.Granularity.{floor_to_slot}
use gpubk.ScheduleIndex.{from_ledger}
use gpubk.Scheduler.Search.{Clock, find_earliest_slot}
use gpubk.Scheduler.Search.Sound.{find_earliest_slot-IsSlot, IsSlot}
use gpubk.Scheduler.Metadata.{Runtime}
use gpubk.Scheduler.Operations.{Payload, Applied}
use gpubk.Scheduler.Maintenance.{maintain_ledger}
use gpubk.Scheduler.Outcome.{Outcome}
use gpubk.Scheduler.Booking.Prepare.{Prepared, prepare}
use gpubk.Scheduler.Booking.Failure.{availability_failure}
use gpubk.Scheduler.Booking.{
  end_of, Placing, placing_of, wish_of, new_reservation, book_slot, place, answer, mutate_add,
  add_booking, is_replay, applied_for, duplicate_of, unchanged,
}

-- The new reservation stands at the end of the ledger, on a slot that serves the request.
pub record Books (runtime : Runtime) (config : Config) (p : Placing) (now : Instant) (clock : Clock)
    (current : Ledger) (o : Outcome BookingResult) : Type 0 where
  pub start : Instant
  pub gpus : List ℕ
  pub found :
      find_earliest_slot current config (wish_of p) p.start p.request.allow_queue clock
      ≡ ok (some (start, gpus))
  pub slot : IsSlot (from_ledger current clock.now) config (wish_of p) clock.now start gpus
  pub written : o.result.reservation ≡ new_reservation runtime p now start gpus
  pub grown : o.ledger.reservations ≡ current.reservations ++ o.result.reservation ∷ []
  pub unmoved : p.request.allow_queue ≡ false → start ≡ p.start

book_slot-Books :
    (runtime : Runtime) (config : Config) (p : Placing) (now : Instant) (clock : Clock)
    (current : Ledger) (o : Outcome BookingResult) (start : Instant) (gpus : List ℕ)
    → find_earliest_slot current config (wish_of p) p.start p.request.allow_queue clock
      ≡ ok (some (start, gpus))
    → book_slot runtime current p now (start, gpus) ≡ ok o
    → Books runtime config p now clock current o
unfolding book_slot
book_slot-Books runtime config p now clock current o start gpus q h =
    elim (Bool-cases (not p.request.allow_queue && not (start == p.start))) [
      | inl moved ↦ let e = rw (moved, book_slot) at h in cc
      | inr fits ↦
          subst (λ (o : Outcome BookingResult). Books runtime config p now clock current o)
            (ok-injective (rw (fits, book_slot) at h))
            (record {
              start = start;
              gpus = gpus;
              found = q;
              slot =
                  find_earliest_slot-IsSlot current config (wish_of p) p.start p.request.allow_queue
                    clock start gpus q;
              written = refl;
              grown = refl;
              unmoved = λ exact. unmoved_start exact fits;
            })
    ]
  where
    unmoved_start :
        p.request.allow_queue ≡ false
        → (not p.request.allow_queue && not (start == p.start)) ≡ false
        → start ≡ p.start
    unmoved_start exact fits = ground arith

place-Books :
    (runtime : Runtime) (config : Config) (p : Placing) (now : Instant) (clock hint_clock : Clock)
    (current : Ledger) (o : Outcome BookingResult)
    → place runtime current config p now clock hint_clock ≡ ok o
    → Books runtime config p now clock current o
unfolding place
place-Books runtime config p now clock hint_clock current o h =
    let (_, _, h1) =
      >>=-eq-ok
        (raise_if (ltb p.start (floor_to_slot now config.slot_minutes))
          (start_before_slice (floor_to_slot now config.slot_minutes)))
        _ h in
    let (slot, q, k) =
      >>=-eq-ok (find_earliest_slot current config (wish_of p) p.start p.request.allow_queue clock)
        _ h1 in
    by_slot slot q k
  where
    by_slot :
        (slot : Option (Instant × List ℕ))
        → find_earliest_slot current config (wish_of p) p.start p.request.allow_queue clock
          ≡ ok slot
        → elim slot [
          | some found ↦ book_slot runtime current p now found
          | none ↦ do
            reason ←
                availability_failure current config p.request p.start
                  (end_of p)
                  p.preferred
                  p.prepared.share_units
                  hint_clock
            err reason
        ]
          ≡ ok o
        → Books runtime config p now clock current o
    by_slot (some (start, gpus)) q k =
        book_slot-Books runtime config p now clock current o start gpus q k
    by_slot none q k =
        let (reason, _, e) =
          >>=-eq-ok
            (availability_failure current config p.request p.start (end_of p) p.preferred
              p.prepared.share_units hint_clock)
            (λ reason. err reason) k in
        absurd (cc)

-- A replay or a duplicate leaves the ledger alone and creates nothing.
abbrev Leaves : Ledger → Outcome BookingResult → Type 0
Leaves current o = (o.ledger ≡ current) × (o.result.created ≡ false)

unchanged-Leaves :
    (ledger : Ledger) (r : Reservation) (message : String) (changed : Bool)
    (o : Outcome BookingResult)
    → ok (unchanged ledger r message changed) ≡ ok o
    → Leaves ledger o
unchanged-Leaves ledger r message changed o e = subst (Leaves ledger) (ok-injective e) (refl, refl)

pub answer-cases :
    (runtime : Runtime) (config : Config) (p : Placing) (now : Instant) (clock hint_clock : Clock)
    (current : Ledger) (changed : Bool) (o : Outcome BookingResult)
    → answer runtime current changed config p now clock hint_clock ≡ ok o
    → ((o.ledger ≡ current) × (o.result.created ≡ false))
      ⊎ Books runtime config p now clock current o
unfolding answer
answer-cases runtime config p now clock hint_clock current changed o h =
    let (applied, q, k) = >>=-eq-ok (applied_for current p p.prepared.op_id) _ h in
    by_applied applied k
  where
    by_duplicate :
        (duplicate : Option Reservation)
        → elim duplicate [
          | some r ↦ ok (unchanged current r "duplicate request ignored" changed)
          | none ↦ place runtime current config p now clock hint_clock
        ]
          ≡ ok o
        → Leaves current o ⊎ Books runtime config p now clock current o
    by_duplicate (some r) k = inl (unchanged-Leaves current r _ changed o k)
    by_duplicate none k = inr (place-Books runtime config p now clock hint_clock current o k)

    by_applied :
        (applied : Option Applied)
        → elim applied [
          | some found ↦
              if is_replay found p
              then ok (unchanged current found.reservation "operation already applied" changed)
              else err operation_id_reused
          | none ↦ elim (duplicate_of current p) [
            | some r ↦ ok (unchanged current r "duplicate request ignored" changed)
            | none ↦ place runtime current config p now clock hint_clock
          ]
        ]
          ≡ ok o
        → Leaves current o ⊎ Books runtime config p now clock current o
    by_applied none k = by_duplicate (duplicate_of current p) k
    by_applied (some found) k = elim (Bool-cases (is_replay found p)) [
      | inl same ↦ inl (unchanged-Leaves current found.reservation _ changed o (rw same at k))
      | inr other ↦ let e = rw other at k in absurd (cc)
    ]

answer-Books :
    (runtime : Runtime) (config : Config) (p : Placing) (now : Instant) (clock hint_clock : Clock)
    (current : Ledger) (changed : Bool) (o : Outcome BookingResult)
    → answer runtime current changed config p now clock hint_clock ≡ ok o
    → o.result.created ≡ true
    → Books runtime config p now clock current o
answer-Books runtime config p now clock hint_clock current changed o h made =
    elim (answer-cases runtime config p now clock hint_clock current changed o h) [
      | inl (_, idle) ↦ let k : false ≡ true = sym idle ∙ made in absurd (cc)
      | inr books ↦ books
    ]

-- A booking that reports a created reservation appends it to the maintained ledger, on a start and
-- GPUs that serve the request by that ledger: as many GPUs as asked, each enabled and with room for
-- the whole interval, within the policy's window, and at the exact start unless the request queues.
pub add_booking-created :
    (runtime : Runtime) (sign : Payload → String) (config : Config) (request : BookingRequest)
    (now : Instant) (clock hint_clock : Clock) (ledger : Ledger) (o : Outcome BookingResult)
    → add_booking runtime sign config request now clock hint_clock ledger ≡ ok o
    → o.result.created ≡ true
    → (bound : Ledger × Bool) × (prepared : Prepared) × (p : Placing) × (bind_ledger_policy ledger
          config
        ≡ ok bound)
      × (prepare runtime config request ≡ ok prepared)
      × (placing_of sign config request prepared now ≡ ok p)
      × Books runtime config p now clock
          (maintain_ledger bound.0 now config.ledger_retention_days).0
          o
unfolding add_booking mutate_add
add_booking-created runtime sign config request now clock hint_clock ledger o h made =
    let (prepared, q, h1) = >>=-eq-ok (prepare runtime config request) _ h in
    let (bound, q', h2) = >>=-eq-ok (bind_ledger_policy ledger config) _ h1 in
    let (p, q'', k) = >>=-eq-ok (placing_of sign config request prepared now) _ h2 in
    (
      bound,
      prepared,
      p,
      q',
      q,
      q'',
      answer-Books runtime config p now clock hint_clock _ _ o k made,
    )
