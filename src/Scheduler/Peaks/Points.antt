-- ===== src/Scheduler/Peaks/Points.antt =====
-- The points at which the load that a reservation sees can change.
use gpubk.Prelude.{
  ℕ, ◌≤◌, ◌≡◌, ◌⊎◌, inl, inr, sym, subst, true, false, List, [], ◌∷◌, arith, ltb, max, min,
  if◌then◌else◌, Bool-cases, In, &&-eq-true, ltb→lt,
}
use gpubk.Prelude.Ascending.{add, IsAscending, add-IsAscending, add-In_self, In-add, add-In}
use gpubk.Models.{Reservation}
use gpubk.Scheduler.Peaks.{meets, points_from}

pub points_from-IsAscending :
    (rs : List Reservation) (r : Reservation) (points : List ℕ)
    → IsAscending points
    → IsAscending (points_from rs r points)
unfolding points_from
points_from-IsAscending [] r points h = h
points_from-IsAscending (item ∷ rest) r points h =
    points_from-IsAscending rest r _ (elim (Bool-cases (meets r item)) [
      | inl met ↦ rw met (add-IsAscending _ _ (add-IsAscending _ _ h))
      | inr apart ↦ rw apart h
    ])

pub In-points_from :
    (rs : List Reservation) (r : Reservation) (points : List ℕ) (p : ℕ)
    → In p points
    → In p (points_from rs r points)
unfolding points_from
In-points_from [] r points p m = m
In-points_from (item ∷ rest) r points p m =
    In-points_from rest r _ p (elim (Bool-cases (meets r item)) [
      | inl met ↦ rw met (In-add _ _ p (In-add _ points p m))
      | inr apart ↦ rw apart m
    ])

-- The start of an item that meets the reservation is a point, if it is not before it.
pub points_from-start :
    (rs : List Reservation) (r : Reservation) (points : List ℕ) (item : Reservation)
    → In item rs
    → meets r item ≡ true
    → In (max r.start_at item.start_at) (points_from rs r points)
unfolding points_from
points_from-start [] r points item m met = absurd m
points_from-start (x ∷ rest) r points item (inr m) met = points_from-start rest r _ item m met
points_from-start (x ∷ rest) r points item (inl e) met =
    let met_x : meets r x ≡ true = subst (λ z. meets r z ≡ true) e met in
    In-points_from rest r _ (max r.start_at item.start_at) (
      rw met_x (
        subst
          (λ z.
            In (max r.start_at z.start_at)
              (add (max r.start_at x.start_at) (add (min r.end_at x.end_at) points)))
          (sym e) (add-In_self (max r.start_at x.start_at) _)))

-- Every point lies in the reservation.
pub points_from-within :
    (rs : List Reservation) (r : Reservation) (points : List ℕ)
    → r.start_at ≤ r.end_at
    → ((p : ℕ) → In p points → (r.start_at ≤ p) × (p ≤ r.end_at))
    → (p : ℕ) → In p (points_from rs r points)
    → (r.start_at ≤ p) × (p ≤ r.end_at)
unfolding points_from
points_from-within [] r points order h p m = h p m
points_from-within (item ∷ rest) r points order h p m =
    points_from-within rest r _ order (next_points (Bool-cases (meets r item))) p m
  where
    next_points :
        (meets r item ≡ true) ⊎ (meets r item ≡ false)
        → (q : ℕ)
        → In q (
            if meets r item
            then add (max r.start_at item.start_at) (add (min r.end_at item.end_at) points)
            else points)
        → (r.start_at ≤ q) × (q ≤ r.end_at)
    next_points (inr apart) q n = h q (rw apart at n)
    next_points (inl met) q n =
        let (_, rest) = &&-eq-true _ _ met in
        let (_, meet) = &&-eq-true _ _ rest in
        let (a, b) = &&-eq-true (ltb r.start_at item.end_at) (ltb item.start_at r.end_at) meet in
        let before = ltb→lt r.start_at item.end_at a in
        let after = ltb→lt item.start_at r.end_at b in
        elim (add-In _ _ q (rw met at n)) [
          | inl e ↦ (omega arith, omega arith)
          | inr k ↦ elim (add-In _ points q k) [
            | inl e ↦ (omega arith, omega arith)
            | inr l ↦ h q l
          ]
        ]
