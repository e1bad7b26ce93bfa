-- ===== src/Scheduler/Occupancy/Thins.antt =====
-- Lists of reservations in which some were dropped and others given up: expiry, retention and
-- cancellation make such lists.
use gpubk.Prelude.{
  ℕ, ◌≤◌, ◌≡◌, refl, ◌∙◌, true, List, [], ◌∷◌, ◌++◌, arith, Bool-cases, inl, inr, &&-eq-true,
}
use gpubk.Models.{Instant, Reservation, is_active}
use gpubk.Scheduler.Occupancy.{Weight, holds, counts}
use gpubk.Scheduler.Occupancy.Fewer.{HoldsNoMore}

-- A reservation rewritten so that it takes nothing that it did not have.
pub record Releases (written r : Reservation) : Type 0 where
  pub same_id : written.id ≡ r.id
  pub gpus_kept : written.gpus ≡ r.gpus
  pub same_mode : written.mode ≡ r.mode
  pub units_kept : written.share_units ≡ r.share_units
  pub same_start : written.start_at ≡ r.start_at
  pub same_end : written.end_at ≡ r.end_at
  pub not_revived : is_active written.status ≡ true → is_active r.status ≡ true

pub Releases-refl : (r : Reservation) → Releases r r
Releases-refl r = record {
  same_id = refl;
  gpus_kept = refl;
  same_mode = refl;
  units_kept = refl;
  same_start = refl;
  same_end = refl;
  not_revived = λ runs. runs;
}

Releases-trans : {a b c : Reservation} → Releases a b → Releases b c → Releases a c
Releases-trans one two = record {
  same_id = one.same_id ∙ two.same_id;
  gpus_kept = one.gpus_kept ∙ two.gpus_kept;
  same_mode = one.same_mode ∙ two.same_mode;
  units_kept = one.units_kept ∙ two.units_kept;
  same_start = one.same_start ∙ two.same_start;
  same_end = one.same_end ∙ two.same_end;
  not_revived = λ h. two.not_revived (one.not_revived h);
}

pub data Thins : List Reservation → List Reservation → Type 0 where
  nothing : Thins [] []
  rewrites :
      {written r : Reservation} {new old : List Reservation}
      → Releases written r
      → Thins new old
      → Thins (written ∷ new) (r ∷ old)
  drops : {r : Reservation} {new old : List Reservation} → Thins new old → Thins new (r ∷ old)

pub Thins-refl : (rs : List Reservation) → Thins rs rs
Thins-refl [] = nothing
Thins-refl (r ∷ rs) = rewrites (Releases-refl r) (Thins-refl rs)

pub Thins-append :
    (before : List Reservation) {new old : List Reservation}
    → Thins new old
    → Thins (before ++ new) (before ++ old)
Thins-append [] h = h
Thins-append (r ∷ before) h = rewrites (Releases-refl r) (Thins-append before h)

pub Thins-trans : {a b c : List Reservation} → Thins a b → Thins b c → Thins a c
Thins-trans h nothing = h
Thins-trans h (drops k) = drops (Thins-trans h k)
Thins-trans (drops h) (rewrites one k) = drops (Thins-trans h k)
Thins-trans (rewrites one h) (rewrites two k) = rewrites (Releases-trans one two) (Thins-trans h k)

pub Releases-counts :
    (weight : Weight) (gpu : ℕ) (t : Instant) (written r : Reservation)
    → Releases written r
    → counts weight gpu t written ≤ counts weight gpu t r
Releases-counts weight gpu t written r h = elim (Bool-cases (is_active written.status)) [
  | inr ended ↦ rw ended (omega arith)
  | inl runs ↦
      rw
        (h.gpus_kept, h.same_mode, h.units_kept, h.same_start, h.same_end, runs, h.not_revived runs)
        (omega arith)
]

pub Releases-holds :
    (gpu : ℕ) (t : Instant) (written r : Reservation)
    → Releases written r
    → holds gpu t written ≡ true
    → holds gpu t r ≡ true
Releases-holds gpu t written r h k =
    let (runs, rest) = &&-eq-true _ _ k in
    rw (h.not_revived runs, ← h.gpus_kept, ← h.same_start, ← h.same_end) rest

pub Thins-HoldsNoMore : (new old : List Reservation) → Thins new old → HoldsNoMore new old
Thins-HoldsNoMore _ _ nothing weight gpu t = omega arith
Thins-HoldsNoMore _ _ (rewrites {written} {r} {new} {old} one h) weight gpu t =
    omega
      (arith, Releases-counts weight gpu t written r one, Thins-HoldsNoMore new old h weight gpu t)
Thins-HoldsNoMore _ _ (drops {r} {new} {old} h) weight gpu t =
    omega (arith, Thins-HoldsNoMore new old h weight gpu t)
