-- ===== src/Scheduler/Cancel/Steps.antt =====
-- The verdicts of `cancel_booking`, in the words of the code.
use gpubk.Prelude.{
  ◌≡◌, ◌⊎◌, inl, inr, refl, String, true, false, Option, none, some, List, [], ◌∷◌, ◌++◌, All,
  Bool-cases, ap, sym, ◌∙◌, subst, ◌==◌, if◌then◌else◌, ==→eq,
}
use gpubk.Models.{Instant, Actor, Reservation, Ledger, is_active}
use gpubk.Errors.{Result, ok, err, >>=-eq-ok, ok-injective, operation_id_reused}
use gpubk.Scheduler.Metadata.{Runtime, normalize_operation_id}
use gpubk.Scheduler.Operations.{Payload, cancel, Applied}
use gpubk.Scheduler.Maintenance.{expire_old_reservations}
use gpubk.Scheduler.Outcome.{Outcome}
use gpubk.Scheduler.Lookup.{is_named}
use gpubk.Scheduler.Cancel.{
  cancelled_by, cancel_first, cancel_now, applied_to, op_id_or, is_cancel_replay, mutate_cancel,
  cancel_booking,
}

-- One reservation is rewritten, the first of its ID: an active one of the actor's.
pub record Cancels (actor : Actor) (now : Instant) (op_id signature reservation_id : String)
    (old new : List Reservation) (written : Reservation) : Type 0 where
  pub before : List Reservation
  pub target : Reservation
  pub after : List Reservation
  pub was : old ≡ before ++ target ∷ after
  pub becomes : new ≡ before ++ written ∷ after
  pub first : All (λ r. is_named reservation_id r ≡ false) before
  pub named : is_named reservation_id target ≡ true
  pub running : is_active target.status ≡ true
  pub owned : target.uid ≡ actor.uid
  pub rewritten : written ≡ cancelled_by actor now op_id signature target

module _ (actor : Actor) (now : Instant) (op_id signature reservation_id : String) where
  -- The verdict on the first reservation of the ID.
  first_named :
      (r : Reservation) (rest new : List Reservation) (written : Reservation)
      → is_named reservation_id r ≡ true
      → cancel_first actor now op_id signature reservation_id (r ∷ rest) ≡ ok (new, written)
      → (is_active r.status ≡ true)
        × (r.uid ≡ actor.uid)
        × (◌≡◌ {A = List Reservation × Reservation}
            (
              cancelled_by actor now op_id signature r ∷ rest,
              cancelled_by actor now op_id signature r,
            )
            (new, written))
  unfolding cancel_first
  first_named r rest new written hit h = elim (Bool-cases (is_active r.status)) [
    | inl runs ↦ elim (Bool-cases (r.uid == actor.uid)) [
      | inl own ↦
          (runs, ==→eq r.uid actor.uid own, ok-injective (rw (hit, runs, own, cancel_first) at h))
      | inr other ↦ let e = rw (hit, runs, other, cancel_first) at h in cc
    ]
    | inr ended ↦ let e = rw (hit, ended, cancel_first) at h in cc
  ]

  elsewhere_ok :
      (r : Reservation) (rest new : List Reservation) (written : Reservation)
      → is_named reservation_id r ≡ false
      → cancel_first actor now op_id signature reservation_id (r ∷ rest) ≡ ok (new, written)
      → (others : List Reservation) × (cancel_first actor now op_id signature reservation_id rest
          ≡ ok (others, written))
        × (new ≡ r ∷ others)
  unfolding cancel_first
  elsewhere_ok r rest new written miss h =
      by_result (cancel_first actor now op_id signature reservation_id rest) refl
    where
      by_result :
          (m : Result (List Reservation × Reservation))
          → cancel_first actor now op_id signature reservation_id rest ≡ m
          → (others : List Reservation) × (m ≡ ok (others, written)) × (new ≡ r ∷ others)
      by_result (err e) q = let e' = rw (miss, q, cancel_first) at h in cc
      by_result (ok (others, w)) q =
          let e : ◌≡◌ {A = List Reservation × Reservation} (r ∷ others, w) (new, written) =
            ok-injective (rw (miss, q, cancel_first) at h) in
          (others, ap (λ z. ok (others, z)) (ap (λ z. z.1) e), sym (ap (λ z. z.0) e))

  empty_list :
      (new : List Reservation) (written : Reservation)
      → cancel_first actor now op_id signature reservation_id [] ≡ ok (new, written)
      → ⊥
  unfolding cancel_first
  empty_list new written h = cc

  cancel_first-Cancels :
      (old new : List Reservation) (written : Reservation)
      → cancel_first actor now op_id signature reservation_id old ≡ ok (new, written)
      → Cancels actor now op_id signature reservation_id old new written
  cancel_first-Cancels [] new written h = absurd (empty_list new written h)
  cancel_first-Cancels (r ∷ rest) new written h = elim (Bool-cases (is_named reservation_id r)) [
    | inl hit ↦
        let (runs, own, e) = first_named r rest new written hit h in
        record {
          before = [];
          target = r;
          after = rest;
          was = refl;
          becomes = sym (ap (λ z. z.0) e) ∙ ap (λ z. z ∷ rest) (ap (λ z. z.1) e);
          first = tt;
          named = hit;
          running = runs;
          owned = own;
          rewritten = sym (ap (λ z. z.1) e);
        }
    | inr miss ↦
        let (others, q, e) = elsewhere_ok r rest new written miss h in
        let c = cancel_first-Cancels rest others written q in
        record {
          before = r ∷ c.before;
          target = c.target;
          after = c.after;
          was = ap (λ z. r ∷ z) c.was;
          becomes = e ∙ ap (λ z. r ∷ z) c.becomes;
          first = (miss, c.first);
          named = c.named;
          running = c.running;
          owned = c.owned;
          rewritten = c.rewritten;
        }
  ]

-- The ledger is only brought up to date, and the operation of the same ID is answered again.
pub record Repeats (actor : Actor) (op_id : Option String) (signature reservation_id : String)
    (current : Ledger) (o : Outcome Reservation) : Type 0 where
  pub applied : Applied
  pub found : applied_to current actor.uid op_id ≡ ok (some applied)
  pub matches : is_cancel_replay applied reservation_id signature ≡ true
  pub untouched : o.ledger ≡ current
  pub same : o.result ≡ applied.reservation
  pub silent : o.logs ≡ []

module _ (runtime : Runtime) (actor : Actor) (now : Instant)
    (signature reservation_id : String) where
  cancel_now-Cancels :
      (op_id : Option String) (ledger : Ledger) (o : Outcome Reservation)
      → cancel_now runtime actor now op_id signature reservation_id ledger ≡ ok o
      → Cancels actor now
          (op_id_or op_id runtime.fresh_op_id)
          signature
          reservation_id
          ledger.reservations
          o.ledger.reservations
          o.result
  unfolding cancel_now
  cancel_now-Cancels op_id ledger o h =
      let ((new, w), q, e) = >>=-eq-ok _ _ h in
      subst
        (λ (o : Outcome Reservation).
          Cancels actor now (op_id_or op_id runtime.fresh_op_id) signature reservation_id
            ledger.reservations o.ledger.reservations o.result)
        (ok-injective e)
        (cancel_first-Cancels actor now (op_id_or op_id runtime.fresh_op_id) signature
          reservation_id ledger.reservations new w q)

  pub mutate_cancel-ok :
      (op_id : Option String) (ledger : Ledger) (o : Outcome Reservation)
      → mutate_cancel runtime actor now op_id signature reservation_id ledger ≡ ok o
      → Repeats actor op_id signature reservation_id (expire_old_reservations ledger now).0 o
        ⊎ Cancels actor now
            (op_id_or op_id runtime.fresh_op_id)
            signature
            reservation_id
            (expire_old_reservations ledger now).0.reservations
            o.ledger.reservations
            o.result
  unfolding mutate_cancel
  mutate_cancel-ok op_id ledger o h =
      let (applied, q, k) = >>=-eq-ok _ _ h in by_applied applied q k
    where
      by_applied :
          (applied : Option Applied)
          → applied_to (expire_old_reservations ledger now).0 actor.uid op_id ≡ ok applied
          → elim applied [
            | none ↦
                cancel_now runtime actor now op_id signature reservation_id
                  (expire_old_reservations ledger now).0
            | some found ↦
                if is_cancel_replay found reservation_id signature
                then ok (record {
                  ledger = (expire_old_reservations ledger now).0;
                  result = found.reservation;
                  logs = [];
                  changed = (expire_old_reservations ledger now).1;
                })
                else err operation_id_reused
          ]
            ≡ ok o
          → Repeats actor op_id signature reservation_id (expire_old_reservations ledger now).0 o
            ⊎ Cancels actor now
                (op_id_or op_id runtime.fresh_op_id)
                signature
                reservation_id
                (expire_old_reservations ledger now).0.reservations
                o.ledger.reservations
                o.result
      by_applied none q k = inr (cancel_now-Cancels op_id _ o k)
      by_applied (some found) q k =
          elim (Bool-cases (is_cancel_replay found reservation_id signature)) [
            | inl fits ↦
                let e = ok-injective (rw fits at k) in
                inl (record {
                  applied = found;
                  found = q;
                  matches = fits;
                  untouched = sym (ap (λ (o : Outcome Reservation). o.ledger) e);
                  same = sym (ap (λ (o : Outcome Reservation). o.result) e);
                  silent = sym (ap (λ (o : Outcome Reservation). o.logs) e);
                })
            | inr other ↦ let e = rw other at k in cc
          ]

-- A cancellation repeats, or cancels.
pub cancel_booking-cases :
    (runtime : Runtime) (sign : Payload → String) (reservation_id : String) (actor : Actor)
    (operation_id : Option String) (now : Instant) (ledger : Ledger) (o : Outcome Reservation)
    → cancel_booking runtime sign reservation_id actor operation_id now ledger ≡ ok o
    → (op_id : Option String) × (normalize_operation_id operation_id ≡ ok op_id)
      × (Repeats actor op_id
            (sign (cancel reservation_id))
            reservation_id
            (expire_old_reservations ledger now).0
            o
          ⊎ Cancels actor now
              (op_id_or op_id runtime.fresh_op_id)
              (sign (cancel reservation_id))
              reservation_id
              (expire_old_reservations ledger now).0.reservations
              o.ledger.reservations
              o.result)
unfolding cancel_booking
cancel_booking-cases runtime sign reservation_id actor operation_id now ledger o h =
    let (op_id, q, k) = >>=-eq-ok _ _ h in
    (
      op_id,
      q,
      mutate_cancel-ok runtime actor now (sign (cancel reservation_id)) reservation_id op_id ledger
          o k,
    )
