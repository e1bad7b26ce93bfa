-- ===== src/Scheduler/Peaks/Limit.antt =====
-- In a sound ledger no reservation sees more share units than the limit.
use gpubk.Prelude.{
  ℕ, ◌≤◌, ◌<◌, ◌≡◌, ◌⊎◌, inl, inr, refl, subst, Bool, true, List, [], ◌∷◌, arith, leb, ltb, ◌||◌,
  max, any, elem, elem-In, In-elem, Bool-cases, All, In, &&-eq-true, ltb→lt, lt→ltb, le→leb,
}
use gpubk.Prelude.Ascending.{
  add, adjacent, IsAscending, IsGap, add-IsAscending, add-In, adjacent-IsGap,
}
use gpubk.Models.{Instant, Reservation, is_active, is_shared}
use gpubk.Scheduler.Loads.{overlaps}
use gpubk.Scheduler.Occupancy.{held, shared_units, IsSound}
use gpubk.Scheduler.Peaks.{
  shared_in_segment, shared_capacity_units_for_gpu, meets, points_during, gpus_peak, segments_peak,
  max_shared_capacity_units_for_reservation,
}
use gpubk.Scheduler.Peaks.Points.{points_from-IsAscending, points_from-start, points_from-within}

any-In : (p : ℕ → Bool) (xs : List ℕ) (a : ℕ) → In a xs → p a ≡ true → any p xs ≡ true
any-In p [] a m h = absurd m
any-In p (x ∷ xs) a (inl e) h = rw (subst (λ z. p z ≡ true) e h) refl
any-In p (x ∷ xs) a (inr m) h = either (any-In p xs a m h)
  where
    either : any p xs ≡ true → (p x || any p xs) ≡ true
    either k = ground arith

module _ (reservations : List Reservation) (r : Reservation) (order : r.start_at ≤ r.end_at) where
  abbrev points : List ℕ
  points = points_during reservations r

  points-IsAscending : IsAscending points
  points-IsAscending =
      points_from-IsAscending reservations r _
        (add-IsAscending r.start_at _ (add-IsAscending r.end_at [] tt))

  points_within : (p : ℕ) → In p points → (r.start_at ≤ p) × (p ≤ r.end_at)
  points_within = points_from-within reservations r _ order first
    where
      first : (p : ℕ) → In p (add r.start_at (add r.end_at [])) → (r.start_at ≤ p) × (p ≤ r.end_at)
      first p m = elim (add-In r.start_at (add r.end_at []) p m) [
        | inl e ↦ (omega arith, omega arith)
        | inr k ↦ elim (add-In r.end_at [] p k) [
          | inl e ↦ (omega arith, omega arith)
          | inr n ↦ absurd n
        ]
      ]

  -- An item that overlaps a segment on a GPU of the reservation has started with the segment.
  started :
      (gpu left right : ℕ) (item : Reservation)
      → In gpu r.gpus
      → IsGap points left right
      → In item reservations
      → is_shared item.mode ≡ true
      → elem gpu item.gpus ≡ true
      → overlaps left right item.start_at item.end_at ≡ true
      → (item.start_at ≤ left) × (left < item.end_at)
  started gpu left right item named gap m shares has meet =
      let (a, b) = &&-eq-true (ltb left item.end_at) (ltb item.start_at right) meet in
      let before = ltb→lt left item.end_at a in
      let after = ltb→lt item.start_at right b in
      let (low, _) = points_within left gap.left_in in
      let (_, high) = points_within right gap.right_in in
      let rising = gap.rising in
      let common =
        any-In (λ g. elem g r.gpus) item.gpus gpu (elem-In gpu item.gpus has)
          (In-elem gpu r.gpus named) in
      let met : meets r item ≡ true =
        rw
          (
            shares,
            common,
            lt→ltb r.start_at item.end_at (omega arith),
            lt→ltb item.start_at r.end_at (omega arith),
          )
          refl in
      (
        begun
            (gap.outside (max r.start_at item.start_at)
              (points_from-start reservations r _ item m met))
            low rising after,
        before,
      )
    where
      begun :
          (max r.start_at item.start_at ≤ left) ⊎ (right ≤ max r.start_at item.start_at)
          → r.start_at ≤ left
          → left < right
          → item.start_at < right
          → item.start_at ≤ left
      begun (inl le) low rising after = omega arith
      begun (inr ge) low rising after = omega arith

  segment-held :
      (gpu left right limit : ℕ) (xs : List Reservation)
      → In gpu r.gpus
      → IsGap points left right
      → ((item : Reservation) → In item xs → In item reservations)
      → All (λ item. is_active item.status ≡ true) xs
      → shared_capacity_units_for_gpu xs gpu left right limit
        ≤ held (shared_units limit) gpu left xs
  unfolding shared_capacity_units_for_gpu
  segment-held gpu left right limit [] named gap sub active = omega arith
  segment-held gpu left right limit (x ∷ xs) named gap sub (runs, active) =
      let ih = segment-held gpu left right limit xs named gap (λ item m. sub item (inr m)) active in
      elim (Bool-cases (elem gpu x.gpus)) [
        | inr away ↦ rw away (omega (arith, ih))
        | inl has ↦ elim (Bool-cases (shared_in_segment left right x)) [
          | inr outside ↦ rw (has, outside) (omega (arith, ih))
          | inl inside ↦
              let (shares, meet) =
                &&-eq-true (is_shared x.mode) (overlaps left right x.start_at x.end_at) inside in
              let (a, b) = started gpu left right x named gap (sub x (inl refl)) shares has meet in
              rw (has, inside, runs, le→leb x.start_at left a, lt→ltb left x.end_at b, shares)
                (omega (arith, ih))
        ]
      ]

gpus_peak-le :
    (load : ℕ → Instant → Instant → ℕ) (gpus : List ℕ) (left right limit : ℕ)
    → ((gpu : ℕ) → In gpu gpus → load gpu left right ≤ limit)
    → gpus_peak load gpus left right ≤ limit
unfolding gpus_peak
gpus_peak-le load [] left right limit h = omega arith
gpus_peak-le load (g ∷ rest) left right limit h =
    omega (arith, h g (inl refl), gpus_peak-le load rest left right limit (λ gpu m. h gpu (inr m)))

segments_peak-le :
    (load : ℕ → Instant → Instant → ℕ) (gpus : List ℕ) (segments : List (ℕ × ℕ)) (limit : ℕ)
    → ((left right gpu : ℕ) → In (left, right) segments → In gpu gpus → load gpu left right ≤ limit)
    → segments_peak load gpus segments ≤ limit
unfolding segments_peak
segments_peak-le load gpus [] limit h = omega arith
segments_peak-le load gpus ((l, r) ∷ rest) limit h =
    let others =
      segments_peak-le load gpus rest limit (λ left right gpu m. h left right gpu (inr m)) in
    let here = gpus_peak-le load gpus l r limit (λ gpu m. h l r gpu (inl refl) m) in
    elim (Bool-cases (leb r l)) [
      | inl empty ↦ rw empty others
      | inr proper ↦ rw proper (omega (arith, others, here))
    ]

-- In a list of active reservations that is sound from the start of a reservation on, the reservation
-- sees no more share units than the limit on any of its GPUs.
pub max_shared_capacity_units-le :
    (reservations : List Reservation) (r : Reservation) (limit : ℕ)
    → r.start_at ≤ r.end_at
    → All (λ item. is_active item.status ≡ true) reservations
    → IsSound limit r.start_at reservations
    → max_shared_capacity_units_for_reservation reservations r limit ≤ limit
unfolding max_shared_capacity_units_for_reservation
max_shared_capacity_units-le reservations r limit order active sound =
    elim (Bool-cases (is_shared r.mode)) [
      | inr alone ↦ rw alone (omega arith)
      | inl shares ↦ rw shares (segments_peak-le _ r.gpus _ limit each_within)
    ]
  where
    each_within :
        (left right gpu : ℕ)
        → In (left, right) (adjacent (points_during reservations r))
        → In gpu r.gpus
        → shared_capacity_units_for_gpu reservations gpu left right limit ≤ limit
    each_within left right gpu m named =
        let gap =
          adjacent-IsGap (points_during reservations r) left right
            (points-IsAscending reservations r order) m in
        let (low, _) = points_within reservations r order left gap.left_in in
        omega (
          arith,
          segment-held reservations r order gpu left right limit reservations named gap
              (λ item n. n) active,
          (sound gpu left low).within,
        )
