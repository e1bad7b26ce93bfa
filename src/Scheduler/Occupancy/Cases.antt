-- ===== src/Scheduler/Occupancy/Cases.antt =====
-- The verdicts of `edit_booking`, in the words of the code.
use gpubk.Prelude.{
  ◌≤◌, ◌<◌, ◌≡◌, ◌⊎◌, inl, inr, refl, subst, String, Bool, true, false, not, Option, none, some,
  ◌||◌, arith, leb, leb→le, leb→gt, ◌==◌, Bool-cases, if◌then◌else◌,
}
use gpubk.Models.{Instant, Reservation, Ledger, Config, EditRequest, BookingResult, is_active}
use gpubk.Errors.{
  Result, ok, err, >>=-eq-ok, ok-injective, raise_if, raise_if-ok, operation_id_reused,
  reservation_not_active, permission_denied,
}
use gpubk.Policy.{bind_ledger_policy}
use gpubk.Scheduler.Search.{Clock}
use gpubk.Scheduler.Metadata.{Runtime, normalize_operation_id}
use gpubk.Scheduler.Operations.{Payload, Applied}
use gpubk.Scheduler.Maintenance.{maintain_ledger}
use gpubk.Scheduler.Outcome.{Outcome}
use gpubk.Scheduler.Lookup.{find_reservation}
use gpubk.Scheduler.Cancel.{applied_to}
use gpubk.Scheduler.Booking.{unchanged}
use gpubk.Scheduler.Edit.{
  edit_target, is_edit_replay, edit_found, edit_or_missing, mutate_edit, edit_booking,
}
use gpubk.Scheduler.Edit.Future.{EditTarget, edit_future}
use gpubk.Scheduler.Edit.Started.{edit_started}
use gpubk.Scheduler.Edit.History.{edit_payload}
use gpubk.Scheduler.Occupancy.Extended.{Extends, edit_started-Extends}
use gpubk.Scheduler.Occupancy.Moved.{Moves, edit_future-Moves}

-- An edit that writes: of an active reservation of the actor, found under the ID of the request.
pub record EditsOwn (runtime : Runtime) (config : Config) (request : EditRequest) (now : Instant)
    (op_id : Option String) (signature : String) (clock : Clock) (current : Ledger)
    (o : Outcome BookingResult) : Type 0 where
  pub r : Reservation
  pub target : EditTarget
  pub found : find_reservation current.reservations request.reservation_id ≡ some r
  pub running : is_active r.status ≡ true
  pub owned : r.uid ≡ request.actor.uid
  pub aimed : edit_target config request r ≡ ok target
  pub edited :
      ((r.start_at ≤ now) × Extends runtime config request r now op_id signature clock current o)
      ⊎ ((now < r.start_at)
          × Moves runtime config request r target now op_id signature clock current o)

-- An edit that was recorded already: the ledger is only brought up to date.
pub record RepeatsEdit (request : EditRequest) (op_id : Option String) (signature : String)
    (current : Ledger) (o : Outcome BookingResult) : Type 0 where
  pub applied : Applied
  pub found : applied_to current request.actor.uid op_id ≡ ok (some applied)
  pub matches : is_edit_replay applied request.reservation_id signature ≡ true
  pub untouched : o.ledger ≡ current
  pub same : o.result.reservation ≡ applied.reservation
  pub not_created : o.result.created ≡ false

module _ (runtime : Runtime) (config : Config) (request : EditRequest) (now : Instant)
    (op_id : Option String) (signature : String) (clock hint_clock : Clock) (current : Ledger)
    (o : Outcome BookingResult) where
  edit_found-EditsOwn :
      (r : Reservation)
      → find_reservation current.reservations request.reservation_id ≡ some r
      → edit_found runtime config request now op_id signature clock hint_clock current r ≡ ok o
      → EditsOwn runtime config request now op_id signature clock current o
  unfolding edit_found
  edit_found-EditsOwn r found h =
      let (_, q1, h1) =
        >>=-eq-ok (raise_if (not (is_active r.status)) reservation_not_active) _ h in
      let (_, q2, h2) =
        >>=-eq-ok (raise_if (not (r.uid == request.actor.uid)) permission_denied) _ h1 in
      let (target, q3, h3) = >>=-eq-ok (edit_target config request r) _ h2 in
      record {
        r = r;
        target = target;
        found = found;
        running = is_running (raise_if-ok _ _ q1);
        owned = is_own (raise_if-ok _ _ q2);
        aimed = q3;
        edited = by_start target (Bool-cases (leb r.start_at now)) h3;
      }
    where
      is_running : not (is_active r.status) ≡ false → is_active r.status ≡ true
      is_running e = ground arith

      is_own : not (r.uid == request.actor.uid) ≡ false → r.uid ≡ request.actor.uid
      is_own e = ground arith

      by_start :
          (target : EditTarget)
          → (leb r.start_at now ≡ true) ⊎ (leb r.start_at now ≡ false)
          → ◌≡◌ {A = Result (Outcome BookingResult)}
              (if leb r.start_at now
                then edit_started runtime config request r now op_id signature target.capacities
                    clock current
                else edit_future runtime config request r target now op_id signature clock
                    hint_clock current)
              (ok o)
          → ((r.start_at ≤ now)
              × Extends runtime config request r now op_id signature clock current o)
            ⊎ ((now < r.start_at)
                × Moves runtime config request r target now op_id signature clock current o)
      by_start target (inl started) k = inl (
        leb→le r.start_at now started,
        edit_started-Extends runtime config request r now op_id signature target.capacities clock
            current o (rw started at k),
      )
      by_start target (inr ahead) k = inr (
        leb→gt r.start_at now ahead,
        edit_future-Moves runtime config request r target now op_id signature clock hint_clock
            current o (rw ahead at k),
      )

  edit_or_missing-EditsOwn :
      (found : Option Reservation)
      → find_reservation current.reservations request.reservation_id ≡ found
      → edit_or_missing runtime config request now op_id signature clock hint_clock current found
        ≡ ok o
      → EditsOwn runtime config request now op_id signature clock current o
  unfolding edit_or_missing
  edit_or_missing-EditsOwn none q h = cc
  edit_or_missing-EditsOwn (some r) q h = edit_found-EditsOwn r q h

  replayed :
      (maintained : Bool) (applied : Applied)
      → applied_to current request.actor.uid op_id ≡ ok (some applied)
      → ◌≡◌ {A = Result (Outcome BookingResult)}
          (if is_edit_replay applied request.reservation_id signature
            then ok (unchanged current applied.reservation "operation already applied" maintained)
            else err operation_id_reused)
          (ok o)
      → RepeatsEdit request op_id signature current o
  replayed maintained applied q k =
      elim (Bool-cases (is_edit_replay applied request.reservation_id signature)) [
        | inr other ↦ let e = rw other at k in cc
        | inl fits ↦
            subst (RepeatsEdit request op_id signature current) (ok-injective (rw fits at k))
              (record {
                applied = applied;
                found = q;
                matches = fits;
                untouched = refl;
                same = refl;
                not_created = refl;
              })
      ]

-- The ledger that an edit works on.
abbrev pub current_of : Config → Instant → Ledger → Ledger
current_of config now bound = (maintain_ledger bound now config.ledger_retention_days).0

-- An edit repeats, or writes.
pub edit_booking-cases :
    (runtime : Runtime) (sign : Payload → String) (config : Config) (request : EditRequest)
    (now : Instant) (clock hint_clock : Clock) (ledger : Ledger) (o : Outcome BookingResult)
    → edit_booking runtime sign config request now clock hint_clock ledger ≡ ok o
    → (op_id : Option String) × (bound : Ledger × Bool) × (normalize_operation_id request.op_id
        ≡ ok op_id)
      × (bind_ledger_policy ledger config ≡ ok bound)
      × (RepeatsEdit request op_id (sign (edit_payload request)) (current_of config now bound.0) o
          ⊎ EditsOwn runtime config request now op_id
              (sign (edit_payload request))
              clock
              (current_of config now bound.0)
              o)
unfolding edit_booking mutate_edit
edit_booking-cases runtime sign config request now clock hint_clock ledger o h =
    let (op_id, q, h1) = >>=-eq-ok (normalize_operation_id request.op_id) _ h in
    let (bound, bind, h2) = >>=-eq-ok (bind_ledger_policy ledger config) _ h1 in
    let (applied, k, h3) =
      >>=-eq-ok (applied_to (current_of config now bound.0) request.actor.uid op_id) _ h2 in
    (op_id, bound, q, bind, by_applied op_id bound applied k h3)
  where
    signature : String
    signature = sign (edit_payload request)

    by_applied :
        (op_id : Option String) (bound : Ledger × Bool) (applied : Option Applied)
        → applied_to (current_of config now bound.0) request.actor.uid op_id ≡ ok applied
        → ◌≡◌ {A = Result (Outcome BookingResult)}
            (elim applied [
              | some found ↦
                  if is_edit_replay found request.reservation_id signature
                  then ok (
                      unchanged
                        (current_of config now bound.0)
                        found.reservation
                        "operation already applied"
                        ((maintain_ledger bound.0 now config.ledger_retention_days).1 || bound.1))
                  else err operation_id_reused
              | none ↦
                  edit_or_missing runtime config request now op_id signature clock hint_clock
                    (current_of config now bound.0)
                    (find_reservation
                      (current_of config now bound.0).reservations
                      request.reservation_id)
            ])
            (ok o)
        → RepeatsEdit request op_id signature (current_of config now bound.0) o
          ⊎ EditsOwn runtime config request now op_id signature clock
              (current_of config now bound.0)
              o
    by_applied op_id bound (some found) q k = inl (
        replayed runtime config request now op_id signature clock hint_clock
          (current_of config now bound.0) o _ found q k)
    by_applied op_id bound none q k = inr (
        edit_or_missing-EditsOwn runtime config request now op_id signature clock hint_clock
          (current_of config now bound.0) o _ refl k)
