-- ===== src/Scheduler/Cancel/Repeated.antt =====
-- A cancellation that is sent twice under one operation ID.
use gpubk.Prelude.{
  ◌≡◌, refl, inl, inr, String, true, Option, none, some, List, ap, sym, ◌∙◌, ◌++◌, ◌∷◌, [],
}
use gpubk.Models.{Instant, Actor, Reservation, Ledger}
use gpubk.Errors.{Result, ok}
use gpubk.Scheduler.Metadata.{Runtime, normalize_operation_id}
use gpubk.Scheduler.Operations.{
  Payload, cancel, Applied, cancel_action, find_applied_operation, find_applied,
}
use gpubk.Scheduler.Maintenance.{expire_old_reservations}
use gpubk.Scheduler.Outcome.{Outcome}
use gpubk.Scheduler.Lookup.{is_named}
use gpubk.Scheduler.Cancel.{cancelled_by, is_cancel_replay, mutate_cancel, cancel_booking}
use gpubk.Scheduler.Cancel.Steps.{Cancels, mutate_cancel-ok}
use gpubk.Scheduler.Cancel.Again.{find_applied-again, kept_id, str_eq_refl}

-- What the second call hands back.
abbrev pub answered : Ledger → Reservation → Instant → Outcome Reservation
answered ledger r later = record {
  ledger = (expire_old_reservations ledger later).0;
  result = r;
  logs = [];
  changed = (expire_old_reservations ledger later).1;
}

module _ (actor : Actor) (now later : Instant) (op_id signature reservation_id : String) where
  replay_matches :
      (r : Reservation)
      → is_named reservation_id r ≡ true
      → is_cancel_replay
          (record {
            action = cancel_action;
            reservation = cancelled_by actor now op_id signature r;
            signature = some signature;
          })
          reservation_id
          signature
        ≡ true
  unfolding is_cancel_replay
  replay_matches r named =
      rw (kept_id actor now op_id signature r, named, str_eq_refl signature) refl

  mutate_cancel-again :
      (runtime : Runtime) (old : List Reservation) (ledger : Ledger) (w : Reservation)
      → find_applied old actor.uid op_id ≡ ok none
      → Cancels actor now op_id signature reservation_id old ledger.reservations w
      → mutate_cancel runtime actor later (some op_id) signature reservation_id ledger
        ≡ ok (answered ledger w later)
  unfolding mutate_cancel find_applied_operation expire_old_reservations
  mutate_cancel-again runtime old ledger w fresh c =
      let e : ledger.reservations
          ≡ c.before ++ cancelled_by actor now op_id signature c.target ∷ c.after =
        c.becomes ∙ ap (λ z. c.before ++ z ∷ c.after) c.rewritten in
      let found : find_applied_operation (expire_old_reservations ledger later).0 actor.uid op_id
          ≡ ok (
              some (record {
                action = cancel_action;
                reservation = cancelled_by actor now op_id signature c.target;
                signature = some signature;
              })) =
        rw e (
          find_applied-again actor now op_id signature old c.before c.after c.target later c.was
            fresh c.owned) in
      rw (found, replay_matches c.target c.named, c.rewritten) refl

-- A cancellation under an operation ID that is not applied yet, sent again under the same ID at any
-- other instant to the ledger it left, writes nothing of its own: it brings the ledger up to date
-- and answers with the reservation of the first call.
pub cancel_booking-again :
    (runtime runtime' : Runtime) (sign : Payload → String) (reservation_id : String) (actor : Actor)
    (operation_id : Option String) (op_id : String) (now later : Instant) (ledger : Ledger)
    (o : Outcome Reservation)
    → normalize_operation_id operation_id ≡ ok (some op_id)
    → find_applied_operation (expire_old_reservations ledger now).0 actor.uid op_id ≡ ok none
    → cancel_booking runtime sign reservation_id actor operation_id now ledger ≡ ok o
    → cancel_booking runtime' sign reservation_id actor operation_id later o.ledger
      ≡ ok (answered o.ledger o.result later)
unfolding cancel_booking find_applied_operation
cancel_booking-again runtime runtime' sign reservation_id actor operation_id op_id now later ledger
      o named fresh h =
    rw named
      elim (mutate_cancel-ok runtime actor now (sign (cancel reservation_id)) reservation_id
        (some op_id) ledger o (rw (named, cancel_booking) at h)) [
          | inl twice ↦
              let k : ◌≡◌ {A = Result (Option Applied)} (ok none) (ok (some twice.applied)) =
                sym fresh ∙ twice.found in
              absurd (cc)
          | inr c ↦
              mutate_cancel-again actor now later op_id (sign (cancel reservation_id))
                reservation_id runtime' _ o.ledger o.result fresh c
        ]
