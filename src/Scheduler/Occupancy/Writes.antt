-- ===== src/Scheduler/Occupancy/Writes.antt =====
-- Expiry, retention and cancellation thin a ledger.
use gpubk.Prelude.{
  ◌≡◌, inl, inr, refl, sym, subst, String, Option, List, [], ◌∷◌, ◌==◌, Bool-cases, ℕ, ◌≤◌, Bool,
}
use gpubk.Models.{Instant, Actor, Reservation, Ledger, Config}
use gpubk.Errors.{ok}
use gpubk.Policy.{bind_ledger_policy}
use gpubk.Policy.Binding.{bind_ledger_policy_lem}
use gpubk.Scheduler.Metadata.{Runtime}
use gpubk.Scheduler.Operations.{Payload}
use gpubk.Scheduler.Maintenance.{
  is_due, expire_one, expire_all, retained, retains_status, expire_old_reservations,
  maintain_ledger,
}
use gpubk.Scheduler.Outcome.{Outcome}
use gpubk.Scheduler.Cancel.{cancel_booking}
use gpubk.Scheduler.Cancel.Cancelled.{IsCancelled-Thins}
use gpubk.Scheduler.Cancel.Owner.{cancel_booking-ok}
use gpubk.Scheduler.Occupancy.Thins.{
  Releases, Releases-refl, Thins, nothing, rewrites, drops, Thins-trans,
}
use gpubk.Scheduler.Occupancy.Tidy.{named, IsTidy, Thins-named, Thins-IsTidy}

expire_one-Releases : (r : Reservation) (now : Instant) → Releases (expire_one r now) r
unfolding expire_one
expire_one-Releases r now = elim (Bool-cases (is_due r now)) [
  | inr late ↦ rw late (Releases-refl r)
  | inl due ↦ rw due (record {
    same_id = refl;
    gpus_kept = refl;
    same_mode = refl;
    units_kept = refl;
    same_start = refl;
    same_end = refl;
    not_revived = λ h. cc;
  })
]

expire_all-Thins : (rs : List Reservation) (now : Instant) → Thins (expire_all rs now) rs
unfolding expire_all
expire_all-Thins [] now = nothing
expire_all-Thins (r ∷ rs) now = rewrites (expire_one-Releases r now) (expire_all-Thins rs now)

retained-Thins :
    (rs : List Reservation) (days : ℕ) (now : Instant) → Thins (retained rs days now) rs
unfolding retained
retained-Thins [] days now = nothing
retained-Thins (r ∷ rs) days now = elim (Bool-cases (retains_status r.status r days now)) [
  | inl keeps ↦ rw keeps (rewrites (Releases-refl r) (retained-Thins rs days now))
  | inr old ↦ rw old (drops (retained-Thins rs days now))
]

expire_old-Thins :
    (ledger : Ledger) (now : Instant)
    → Thins (expire_old_reservations ledger now).0.reservations ledger.reservations
unfolding expire_old_reservations
expire_old-Thins ledger now = expire_all-Thins ledger.reservations now

maintain_ledger-Thins :
    (ledger : Ledger) (now : Instant) (retention_days : ℕ)
    → Thins (maintain_ledger ledger now retention_days).0.reservations ledger.reservations
unfolding maintain_ledger expire_old_reservations
maintain_ledger-Thins ledger now retention_days = elim (Bool-cases (retention_days == 0)) [
  | inl forever ↦ rw forever (expire_all-Thins ledger.reservations now)
  | inr limited ↦ rw limited (
      Thins-trans (retained-Thins (expire_all ledger.reservations now) retention_days now)
        (expire_all-Thins ledger.reservations now))
]

-- A cancellation by the owner that succeeds keeps a tidy ledger tidy.
pub cancel_booking-IsTidy :
    (runtime : Runtime) (sign : Payload → String) (config : Config) (reservation_id : String)
    (actor : Actor) (operation_id : Option String) (now : Instant) (ledger : Ledger)
    (o : Outcome Reservation) (from : Instant)
    → cancel_booking runtime sign reservation_id actor operation_id now ledger ≡ ok o
    → IsTidy config from ledger.reservations
    → IsTidy config from o.ledger.reservations
cancel_booking-IsTidy runtime sign config reservation_id actor operation_id now ledger o from h
      tidy =
    let (op_id, _, outcome) =
      cancel_booking-ok runtime sign reservation_id actor operation_id now ledger o h in
    let current = expire_old_reservations ledger now in
    let kept : IsTidy config from current.0.reservations =
      Thins-IsTidy config from current.0.reservations ledger.reservations
        (expire_old-Thins ledger now) tidy in
    elim outcome [
      | inl repeats ↦
          subst (λ (l : Ledger). IsTidy config from l.reservations) (sym repeats.untouched) kept
      | inr gives_up ↦
          Thins-IsTidy config from o.ledger.reservations current.0.reservations
            (IsCancelled-Thins reservation_id now _ current.0.reservations o.ledger.reservations
              gives_up.target o.result gives_up.one gives_up.given_up)
            kept
    ]

-- The ledger that a write starts from: bound to the policy, then maintained.
pub maintained-IsTidy :
    (config : Config) (now from : Instant) (ledger : Ledger) (bound : Ledger × Bool)
    → bind_ledger_policy ledger config ≡ ok bound
    → IsTidy config from ledger.reservations
    → IsTidy config from (maintain_ledger bound.0 now config.ledger_retention_days).0.reservations
maintained-IsTidy config now from ledger bound bind tidy =
    Thins-IsTidy config from _ _ (maintain_ledger-Thins bound.0 now config.ledger_retention_days) (
      subst (IsTidy config from) (sym (bind_ledger_policy_lem ledger bound.0 config bound.1 bind).1)
        tidy)

pub maintained-named :
    (config : Config) (now : Instant) (reservation_id : String) (ledger : Ledger)
    (bound : Ledger × Bool)
    → bind_ledger_policy ledger config ≡ ok bound
    → named reservation_id (maintain_ledger bound.0 now config.ledger_retention_days).0.reservations
      ≤ named reservation_id ledger.reservations
maintained-named config now reservation_id ledger bound bind =
    subst
      (λ rs.
        named reservation_id
          (maintain_ledger bound.0 now config.ledger_retention_days).0.reservations
        ≤ named reservation_id rs)
      (bind_ledger_policy_lem ledger bound.0 config bound.1 bind).1
      (Thins-named reservation_id _ _
        (maintain_ledger-Thins bound.0 now config.ledger_retention_days))
