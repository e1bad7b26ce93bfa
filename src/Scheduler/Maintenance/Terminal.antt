-- ===== src/Scheduler/Maintenance/Terminal.antt =====
-- What the maintenance of a ledger leaves behind.
use gpubk.Prelude.{
  ℕ, ◌≡◌, ◌<◌, true, false, List, [], ◌∷◌, arith, ◌==◌, All, Bool-cases, inl, inr, In, refl, subst,
  sym,
}
use gpubk.Models.{Instant, Reservation, Ledger, Status, active, cancelled, expired, is_active}
use gpubk.Scheduler.Maintenance.{
  is_due, expire_one, expire_all, retained, retains_status, expire_old_reservations,
  maintain_ledger,
}

-- An active reservation ends after the given instant.
abbrev pub IsCurrent : Instant → Reservation → Type 0
IsCurrent now r = is_active r.status ≡ true → now < r.end_at

not_due : (r : Reservation) (now : Instant) → is_due r now ≡ false → IsCurrent now r
not_due r now late running = ground arith

kept_running : (r : Reservation) (now : Instant) → now < r.end_at → expire_one r now ≡ r
unfolding expire_one
kept_running r now h = elim (Bool-cases (is_due r now)) [
  | inl due ↦ absurd (ground arith)
  | inr late ↦ rw late refl
]

expire_one-IsCurrent : (r : Reservation) (now : Instant) → IsCurrent now (expire_one r now)
unfolding expire_one
expire_one-IsCurrent r now h = elim (Bool-cases (is_due r now)) [
  | inl due ↦ let e = rw (due, expire_one) at h in cc
  | inr late ↦ rw (late, expire_one) (not_due r now late (rw (late, expire_one) at h))
]

expire_all-IsCurrent :
    (rs : List Reservation) (now : Instant) → All (IsCurrent now) (expire_all rs now)
unfolding expire_all
expire_all-IsCurrent [] now = tt
expire_all-IsCurrent (r ∷ rs) now = (expire_one-IsCurrent r now, expire_all-IsCurrent rs now)

retained-All :
    (P : Reservation → Type 0) (rs : List Reservation) (days : ℕ) (now : Instant)
    → All P rs
    → All P (retained rs days now)
unfolding retained
retained-All P [] days now h = tt
retained-All P (r ∷ rs) days now h = elim (Bool-cases (retains_status r.status r days now)) [
  | inl keeps ↦ rw keeps (h.0, retained-All P rs days now h.1)
  | inr drops ↦ rw drops (retained-All P rs days now h.1)
]

retained-In :
    (rs : List Reservation) (days : ℕ) (now : Instant) (r : Reservation)
    → In r rs
    → is_active r.status ≡ true
    → In r (retained rs days now)
unfolding retained
retained-In [] days now r m h = absurd m
retained-In (x ∷ rs) days now r (inl e) h =
    let keeps : retains_status x.status x days now ≡ true =
      always x.status x (subst (λ z. is_active z.status ≡ true) e h) in
    rw keeps (inl e)
  where
    always :
        (status : Status) (z : Reservation)
        → is_active status ≡ true
        → retains_status status z days now ≡ true
    always active z g = refl
    always cancelled z g = cc
    always expired z g = cc
retained-In (x ∷ rs) days now r (inr m) h = elim (Bool-cases (retains_status x.status x days now)) [
  | inl keeps ↦ rw keeps (inr (retained-In rs days now r m h))
  | inr drops ↦ rw drops (retained-In rs days now r m h)
]

expire_all-In :
    (rs : List Reservation) (now : Instant) (r : Reservation)
    → In r rs
    → now < r.end_at
    → In r (expire_all rs now)
unfolding expire_all expire_one
expire_all-In [] now r m h = absurd m
expire_all-In (x ∷ rs) now r (inl e) h =
    inl (sym (subst (λ z. expire_one z now ≡ r) e (kept_running r now h)))
expire_all-In (x ∷ rs) now r (inr m) h = inr (expire_all-In rs now r m h)

-- After the maintenance of a ledger, each active reservation ends after the instant it ran at, and
-- each active reservation of the old ledger that ends after this instant is still there, unchanged.
pub maintain_ledger_lem :
    (ledger : Ledger) (now : Instant) (retention_days : ℕ)
    → All (IsCurrent now) (maintain_ledger ledger now retention_days).0.reservations
      × ((r : Reservation)
          → In r ledger.reservations
          → is_active r.status ≡ true
          → now < r.end_at
          → In r (maintain_ledger ledger now retention_days).0.reservations)
unfolding maintain_ledger expire_old_reservations
maintain_ledger_lem ledger now retention_days =
    let rs = ledger.reservations in
    elim (Bool-cases (retention_days == 0)) [
      | inl forever ↦
          rw forever (expire_all-IsCurrent rs now, λ r m _ later. expire_all-In rs now r m later)
      | inr bounded ↦ rw bounded (
        retained-All (IsCurrent now) _ retention_days now (expire_all-IsCurrent rs now),
        λ r m running later.
            retained-In _ retention_days now r (expire_all-In rs now r m later) running,
      )
    ]
