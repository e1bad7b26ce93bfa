-- ===== src/Scheduler/Occupancy/Indexed.antt =====
-- The load of a GPU at an instant, by the reservations of a ledger, is at most the load by the spans
-- that the index returns for an interval around the instant.
use gpubk.Prelude.{
  ℕ, ◌+◌, ◌≤◌, ◌<◌, ◌≡◌, refl, true, false, List, [], ◌∷◌, ◌++◌, arith, leb, ltb, ◌==◌, ◌&&◌,
  if◌then◌else◌, elem, sum_of, select, Bool-cases, inl, inr,
}
use gpubk.Models.{Instant, Reservation, is_active}
use gpubk.ScheduleIndex.{build, collect, overlapping, span_of}
use gpubk.ScheduleIndex.Spans.{ReservationSpan, span_before, insert_span, sorted_spans}
use gpubk.ScheduleIndex.Grouping.{copies, on_gpu}
use gpubk.ScheduleIndex.Overlap.{overlapping_lem, overlaps_span}
use gpubk.Scheduler.Occupancy.{Weight, held}

sum_of-append :
    (f : ReservationSpan → ℕ) (xs ys : List ReservationSpan)
    → sum_of f (xs ++ ys) ≡ sum_of f xs + sum_of f ys
sum_of-append f [] ys = omega arith
sum_of-append f (x ∷ xs) ys = omega (arith, sum_of-append f xs ys)

-- The weight of a span that holds its GPUs at the instant.
abbrev pub at_instant : Weight → Instant → ReservationSpan → ℕ
at_instant weight t item =
    if leb item.start t && ltb t item.end then weight item.mode item.reservation.share_units else 0

module _ (weight : Weight) (gpu : ℕ) (t : Instant) where
  copies-ge :
      (span : ReservationSpan) (gpus : List ℕ)
      → elem gpu gpus ≡ true
      → at_instant weight t span ≤ sum_of (at_instant weight t) (copies gpu span gpus)
  copies-ge span [] h = cc
  copies-ge span (g ∷ gs) h = elim (Bool-cases (g == gpu)) [
    | inl same ↦ rw same (omega arith)
    | inr differs ↦ rw differs (copies-ge span gs (ground arith))
  ]

  -- What the ledger holds is among the spans that `from_ledger` collects.
  held-le-collect :
      (rs : List Reservation) (after : Instant)
      → after ≤ t
      → held weight gpu t rs
        ≤ sum_of (at_instant weight t) (on_gpu gpu (collect is_active after rs))
  unfolding collect
  held-le-collect [] after h = omega arith
  held-le-collect (r ∷ rs) after h =
      let ih = held-le-collect rs after h in
      elim (Bool-cases (is_active r.status)) [
        | inr ended ↦ rw ended (omega (arith, ih))
        | inl runs ↦ elim (Bool-cases (leb r.end_at after)) [
          | inl past ↦ rw (runs, past) (gone past ih)
          | inr future ↦
              rw (runs, future)
                (here future ih (
                  sum_of-append (at_instant weight t) (copies gpu (span_of r) r.gpus)
                    (on_gpu gpu (collect is_active after rs))))
        ]
      ]
    where
      gone :
          leb r.end_at after ≡ true
          → held weight gpu t rs
            ≤ sum_of (at_instant weight t) (on_gpu gpu (collect is_active after rs))
          → (if elem gpu r.gpus && (leb r.start_at t && ltb t r.end_at)
                then weight r.mode r.share_units
                else 0)
              + held weight gpu t rs
            ≤ sum_of (at_instant weight t) (on_gpu gpu (collect is_active after rs))
      gone past ih = ground arith

      here :
          leb r.end_at after ≡ false
          → held weight gpu t rs
            ≤ sum_of (at_instant weight t) (on_gpu gpu (collect is_active after rs))
          → sum_of
              (at_instant weight t)
              (copies gpu (span_of r) r.gpus ++ on_gpu gpu (collect is_active after rs))
            ≡ sum_of (at_instant weight t) (copies gpu (span_of r) r.gpus)
              + sum_of (at_instant weight t) (on_gpu gpu (collect is_active after rs))
          → (if elem gpu r.gpus && (leb r.start_at t && ltb t r.end_at)
                then weight r.mode r.share_units
                else 0)
              + held weight gpu t rs
            ≤ sum_of
                (at_instant weight t)
                (copies gpu (span_of r) r.gpus ++ on_gpu gpu (collect is_active after rs))
      here future ih e = elim (Bool-cases (elem gpu r.gpus)) [
        | inl named ↦ rw named (omega (arith, copies-ge (span_of r) r.gpus named))
        | inr other ↦ rw other (omega arith)
      ]

  insert_span-sum :
      (x : ReservationSpan) (ys : List ReservationSpan)
      → sum_of (at_instant weight t) (on_gpu gpu (insert_span x ys))
        ≡ sum_of (at_instant weight t) (copies gpu x x.gpus)
          + sum_of (at_instant weight t) (on_gpu gpu ys)
  unfolding insert_span
  insert_span-sum x [] = sum_of-append (at_instant weight t) (copies gpu x x.gpus) []
  insert_span-sum x (y ∷ ys) = elim (Bool-cases (span_before y x)) [
    | inl later ↦ rw later (
        omega (
          arith,
          sum_of-append (at_instant weight t) (copies gpu y y.gpus) (on_gpu gpu (insert_span x ys)),
          sum_of-append (at_instant weight t) (copies gpu y y.gpus) (on_gpu gpu ys),
          insert_span-sum x ys,
        ))
    | inr first ↦
        rw first (sum_of-append (at_instant weight t) (copies gpu x x.gpus) (on_gpu gpu (y ∷ ys)))
  ]

  sorted_spans-sum :
      (xs : List ReservationSpan)
      → sum_of (at_instant weight t) (on_gpu gpu (sorted_spans xs))
        ≡ sum_of (at_instant weight t) (on_gpu gpu xs)
  unfolding sorted_spans
  sorted_spans-sum [] = refl
  sorted_spans-sum (x ∷ xs) = omega (
    arith,
    insert_span-sum x (sorted_spans xs),
    sorted_spans-sum xs,
    sum_of-append (at_instant weight t) (copies gpu x x.gpus) (on_gpu gpu xs),
  )

  -- The spans that the interval does not meet do not hold the instant.
  select-sum :
      (start end : Instant) (xs : List ReservationSpan)
      → start ≤ t
      → t < end
      → sum_of (at_instant weight t) (select (overlaps_span start end) xs)
        ≡ sum_of (at_instant weight t) xs
  select-sum start end [] a b = refl
  select-sum start end (x ∷ xs) a b = ground (arith, select-sum start end xs a b)

  pub held-le-overlapping :
      (rs : List Reservation) (after start end : Instant)
      → after ≤ t
      → start ≤ t
      → t < end
      → held weight gpu t rs
        ≤ sum_of
            (at_instant weight t)
            (overlapping (build (collect is_active after rs)) gpu start end)
  held-le-overlapping rs after start end h a b =
      let spans = collect is_active after rs in
      rw (overlapping_lem spans gpu start end) (
        omega (
          arith,
          held-le-collect rs after h,
          sorted_spans-sum spans,
          select-sum start end (on_gpu gpu (sorted_spans spans)) a b,
        ))
