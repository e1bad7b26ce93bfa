-- ===== src/Scheduler/Occupancy/Administrator.antt =====
-- The administrator's cancellation: what it leaves, and that a tidy ledger stays tidy.
use gpubk.Prelude.{
  ℕ, zero, suc, ◌-◌, min, ◌≡◌, refl, ap, subst, String, Bool, not, Option, none, some, List, [],
  ◌∷◌, ◌++◌, ◌==◌, arith, length, Bool-cases, inl, inr,
}
use gpubk.Models.{
  Instant, active, administrator, Actor, Notification, Reservation, Ledger, Config, is_active,
}
use gpubk.Errors.{ok, raise_if, >>=-eq-ok, ok-injective, admin_required}
use gpubk.Policy.{bind_ledger_policy}
use gpubk.Scheduler.Metadata.{Runtime}
use gpubk.Scheduler.Operations.{Payload, admin_cancel}
use gpubk.Scheduler.Maintenance.{maintain_ledger}
use gpubk.Scheduler.Outcome.{Outcome}
use gpubk.Scheduler.Lookup.{find_reservation}
use gpubk.Scheduler.Lookup.Rewritten.{RewritesFirst, replace_first-RewritesFirst}
use gpubk.Scheduler.Cancel.Cancelled.{
  IsCancelled, cancel_job-StopsJob, active_status, IsCancelled-Thins,
}
use gpubk.Scheduler.Cancel.Administrator.{
  drop, notify, cancellation_message, cancelled_by_admin, admin_cancel_found,
  admin_cancellation_reason, mutate_admin_cancel, cancel_booking_as_admin,
}
use gpubk.Scheduler.Occupancy.Tidy.{IsTidy, Thins-IsTidy}
use gpubk.Scheduler.Occupancy.Writes.{maintained-IsTidy}

-- What is dropped and what is kept.
drop-split {ℓ} :
    {A : Type ℓ} (n : ℕ) (xs : List A)
    → (forgotten : List A) × (xs ≡ forgotten ++ drop n xs) × (length (drop n xs) ≡ length xs - n)
drop-split zero xs = ([], refl, omega arith)
drop-split (suc n) [] = ([], refl, omega arith)
drop-split (suc n) (x ∷ xs) =
    let (forgotten, e, counted) = drop-split n xs in
    (x ∷ forgotten, ap (λ ys. x ∷ ys) e, omega (arith, counted))

-- The owner is told last, after the latest 127 notifications.
pub record Tells (notice : Notification) (old new : List Notification) : Type 0 where
  pub forgotten : List Notification
  pub kept : List Notification
  pub split : old ≡ forgotten ++ kept
  pub told : new ≡ kept ++ notice ∷ []
  pub latest : length kept ≡ min 127 (length old)

notify-Tells :
    (notice : Notification) (old : List Notification) → Tells notice old (notify notice old)
unfolding notify
notify-Tells notice old =
    let (forgotten, e, counted) = drop-split (length old - 127) old in
    record {
      forgotten = forgotten;
      kept = drop (length old - 127) old;
      split = e;
      told = refl;
      latest = omega (arith, counted);
    }

-- What a cancellation by the administrator has done to the maintained ledger.
pub record Removes (runtime : Runtime) (actor : Actor) (now : Instant)
    (signature reason reservation_id : String) (current : Ledger) (o : Outcome Reservation)
    : Type 0 where
  pub target : Reservation
  pub one : RewritesFirst reservation_id current.reservations o.ledger.reservations target o.result
  pub was_active : target.status ≡ active
  pub taken :
      IsCancelled now
        (record {
          op_id = runtime.fresh_op_id;
          signature = signature;
          at = now;
          actor_uid = actor.uid;
          actor_username = actor.username;
          kind = administrator;
          reason = reason;
        })
        target
        o.result
  pub tells :
      Tells
        (record {
          id = runtime.fresh_id;
          type = "reservation-admin-cancelled";
          created_at = now;
          actor_uid = actor.uid;
          actor_username = actor.username;
          reason = reason;
          message = cancellation_message target.id actor.username reason;
        })
        target.notifications
        o.result.notifications

module _ (runtime : Runtime) (actor : Actor) (now : Instant)
    (signature reason reservation_id : String) (current : Ledger) (o : Outcome Reservation) where
  found-Removes :
      (r : Reservation)
      → find_reservation current.reservations reservation_id ≡ some r
      → admin_cancel_found runtime actor now signature reason reservation_id current (some r) ≡ ok o
      → Removes runtime actor now signature reason reservation_id current o
  unfolding admin_cancel_found
  found-Removes r q h = elim (Bool-cases (is_active r.status)) [
    | inr idle ↦ let e = rw (idle, admin_cancel_found) at h in cc
    | inl runs ↦
        subst (Removes runtime actor now signature reason reservation_id current)
          (ok-injective (rw (runs, admin_cancel_found) at h))
          (record {
            target = r;
            one = replace_first-RewritesFirst reservation_id _ r current.reservations q;
            was_active = active_status r.status runs;
            taken =
                unfold cancelled_by_admin in
                record { written_as = refl; stops = cancel_job-StopsJob now r.job };
            tells = unfold cancelled_by_admin in notify-Tells _ r.notifications;
          })
  ]

  admin_cancel_found-Removes :
      (found : Option Reservation)
      → find_reservation current.reservations reservation_id ≡ found
      → admin_cancel_found runtime actor now signature reason reservation_id current found ≡ ok o
      → Removes runtime actor now signature reason reservation_id current o
  unfolding admin_cancel_found
  admin_cancel_found-Removes none q h = cc
  admin_cancel_found-Removes (some r) q h = found-Removes r q h

-- A cancellation by the administrator that succeeds came from UID 0 with an accepted reason, and
-- rewrites one reservation of the maintained ledger, the first of its ID, which was active; every
-- other stays as it is. The written reservation has the status `cancelled`, the instant, and the
-- administrator's operation with the reason; a waiting job is cancelled, a held one asked to stop, a
-- finished one kept; a notice with the reason stands after the latest 127 notifications, or all that
-- there were; and every other field stays.
pub cancel_booking_as_admin-ok :
    (runtime : Runtime) (sign : Payload → String) (config : Config) (reservation_id : String)
    (actor : Actor) (value : String) (now : Instant) (ledger : Ledger) (o : Outcome Reservation)
    → cancel_booking_as_admin runtime sign config reservation_id actor value now ledger ≡ ok o
    → (bound : Ledger × Bool) × (reason : String) × (actor.uid ≡ 0)
      × (bind_ledger_policy ledger config ≡ ok bound)
      × (admin_cancellation_reason value ≡ ok reason)
      × Removes runtime actor now
          (sign (admin_cancel reservation_id reason))
          reason
          reservation_id
          (maintain_ledger bound.0 now config.ledger_retention_days).0
          o
unfolding cancel_booking_as_admin mutate_admin_cancel
cancel_booking_as_admin-ok runtime sign config reservation_id actor value now ledger o h =
    let (_, root, h1) = >>=-eq-ok (raise_if (not (actor.uid == 0)) admin_required) _ h in
    let (reason, given, h2) = >>=-eq-ok (admin_cancellation_reason value) _ h1 in
    let (bound, bind, k) = >>=-eq-ok (bind_ledger_policy ledger config) _ h2 in
    (
      bound,
      reason,
      is_root root,
      bind,
      given,
      admin_cancel_found-Removes runtime actor now (sign (admin_cancel reservation_id reason))
          reason reservation_id (maintain_ledger bound.0 now config.ledger_retention_days).0 o _
          refl k,
    )
  where
    is_root : raise_if (not (actor.uid == 0)) admin_required ≡ ok tt → actor.uid ≡ 0
    is_root e = ground arith

-- Such a cancellation keeps a tidy ledger tidy.
pub cancel_booking_as_admin-IsTidy :
    (runtime : Runtime) (sign : Payload → String) (config : Config) (reservation_id : String)
    (actor : Actor) (value : String) (now : Instant) (ledger : Ledger) (o : Outcome Reservation)
    (from : Instant)
    → cancel_booking_as_admin runtime sign config reservation_id actor value now ledger ≡ ok o
    → IsTidy config from ledger.reservations
    → IsTidy config from o.ledger.reservations
cancel_booking_as_admin-IsTidy runtime sign config reservation_id actor value now ledger o from h
      tidy =
    let (bound, reason, _, bind, _, removes) =
      cancel_booking_as_admin-ok runtime sign config reservation_id actor value now ledger o h in
    let current = maintain_ledger bound.0 now config.ledger_retention_days in
    Thins-IsTidy config from o.ledger.reservations current.0.reservations
      (IsCancelled-Thins reservation_id now _ current.0.reservations o.ledger.reservations
        removes.target o.result removes.one removes.taken)
      (maintained-IsTidy config now from ledger bound bind tidy)
