-- ===== src/Scheduler/Occupancy/Replaced.antt =====
-- A write over the one reservation of an ID, against the ledger without it.
use gpubk.Prelude.{
  ℕ, ◌+◌, ◌≤◌, ◌≡◌, refl, ap, sym, subst, ◌∙◌, eq_of_some, eq_iff, String, true, not, some, List,
  [], ◌∷◌, arith, Bool-cases, inl, inr, select, All,
}
use gpubk.Models.{Instant, Reservation}
use gpubk.Scheduler.Lookup.{is_named, find_reservation, replace_first}
use gpubk.Scheduler.Occupancy.{Weight, counts, held}
use gpubk.Scheduler.Occupancy.Tidy.{named}

abbrev pub others : String → List Reservation → List Reservation
others reservation_id rs = select (λ r. not (is_named reservation_id r)) rs

module _ (reservation_id : String) where
  others-absent :
      (rs : List Reservation) → named reservation_id rs ≡ 0 → others reservation_id rs ≡ rs
  others-absent [] h = refl
  others-absent (r ∷ rs) h = elim (Bool-cases (is_named reservation_id r)) [
    | inl hit ↦ absurd (omega (arith, rw hit at h))
    | inr miss ↦ rw miss (ap (λ xs. r ∷ xs) (others-absent rs (omega (arith, rw miss at h))))
  ]

  -- The found reservation has the ID, and shares what holds for all.
  pub find_reservation-named :
      (rs : List Reservation) (r : Reservation)
      → find_reservation rs reservation_id ≡ some r
      → is_named reservation_id r ≡ true
  unfolding find_reservation
  find_reservation-named [] r q = cc
  find_reservation-named (x ∷ rs) r q = elim (Bool-cases (is_named reservation_id x)) [
    | inl hit ↦
        let same : some x ≡ some r = rw hit at q in
        subst (λ z. is_named reservation_id z ≡ true) (eq_of_some same) hit
    | inr miss ↦ find_reservation-named rs r (rw miss at q)
  ]

  pub find_reservation-All :
      (P : Reservation → Type 0) (rs : List Reservation) (r : Reservation)
      → find_reservation rs reservation_id ≡ some r
      → All P rs
      → P r
  unfolding find_reservation
  find_reservation-All P [] r q h = cc
  find_reservation-All P (x ∷ rs) r q (here, h) = elim (Bool-cases (is_named reservation_id x)) [
    | inl hit ↦ let same : some x ≡ some r = rw hit at q in subst P (eq_of_some same) here
    | inr miss ↦ find_reservation-All P rs r (rw miss at q) h
  ]

  pub replace_first-All :
      (P : Reservation → Type 0) (written : Reservation) (rs : List Reservation)
      → P written
      → All P rs
      → All P (replace_first reservation_id written rs)
  unfolding replace_first
  replace_first-All P written [] new h = tt
  replace_first-All P written (x ∷ rs) new (here, h) =
      elim (Bool-cases (is_named reservation_id x)) [
        | inl hit ↦ rw hit (new, h)
        | inr miss ↦ rw miss (here, replace_first-All P written rs new h)
      ]

  -- Writing a reservation of the same ID changes no count of IDs.
  pub named-replace_first :
      (id : String) (written : Reservation) (rs : List Reservation)
      → written.id ≡ reservation_id
      → named id (replace_first reservation_id written rs) ≡ named id rs
  unfolding replace_first
  named-replace_first id written [] same = refl
  named-replace_first id written (x ∷ rs) same = elim (Bool-cases (is_named reservation_id x)) [
    | inl hit ↦
        let e : written.id ≡ x.id = same ∙ sym ((eq_iff x.id reservation_id).0 hit) in
        rw (hit, e) refl
    | inr miss ↦ rw miss (omega (arith, named-replace_first id written rs same))
  ]

  -- What the written reservation counts for comes on top of the others.
  pub held-replace_first :
      (weight : Weight) (gpu : ℕ) (t : Instant) (written r : Reservation) (rs : List Reservation)
      → find_reservation rs reservation_id ≡ some r
      → named reservation_id rs ≤ 1
      → held weight gpu t (replace_first reservation_id written rs)
        ≡ held weight gpu t (others reservation_id rs) + counts weight gpu t written
  unfolding find_reservation replace_first
  held-replace_first weight gpu t written r [] q unique = cc
  held-replace_first weight gpu t written r (x ∷ rs) q unique =
      elim (Bool-cases (is_named reservation_id x)) [
        | inl hit ↦ rw hit (
            omega
              (arith, ap (held weight gpu t) (others-absent rs (omega (arith, rw hit at unique)))))
        | inr miss ↦ rw miss (
            omega (
              arith,
              held-replace_first weight gpu t written r rs (rw miss at q)
                  (omega (arith, rw miss at unique)),
            ))
      ]

  replace_found :
      (r : Reservation) (rs : List Reservation)
      → find_reservation rs reservation_id ≡ some r
      → replace_first reservation_id r rs ≡ rs
  unfolding find_reservation replace_first
  replace_found r [] q = cc
  replace_found r (x ∷ rs) q = elim (Bool-cases (is_named reservation_id x)) [
    | inl hit ↦
        let same : some x ≡ some r = rw hit at q in
        rw hit (ap (λ z. z ∷ rs) (sym (eq_of_some same)))
    | inr miss ↦ rw miss (ap (λ xs. x ∷ xs) (replace_found r rs (rw miss at q)))
  ]

  pub held-found :
      (weight : Weight) (gpu : ℕ) (t : Instant) (r : Reservation) (rs : List Reservation)
      → find_reservation rs reservation_id ≡ some r
      → named reservation_id rs ≤ 1
      → held weight gpu t rs ≡ held weight gpu t (others reservation_id rs) + counts weight gpu t r
  held-found weight gpu t r rs q unique =
      ap (held weight gpu t) (sym (replace_found r rs q))
      ∙ held-replace_first weight gpu t r r rs q unique
