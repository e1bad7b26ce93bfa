-- ===== src/Scheduler/Availability/Segments.antt =====
-- The points of `_availability_detail_indexed` cut the interval into segments on which the shared
-- load is constant.
use gpubk.Prelude.{
  ℕ, ◌≤◌, ◌<◌, ◌≡◌, ◌⊎◌, Bool, true, ◌&&◌, List, [], ◌∷◌, arith, min, max, ltb, leb, select, sum_of,
  In, All, All-In, In-All,
}
use gpubk.Prelude.Ascending.{
  add, from_list, IsAscending, IsGap, add-In_self, In-add, add-In, add-IsAscending,
}
use gpubk.Models.{Instant, is_shared}
use gpubk.ScheduleIndex.Spans.{ReservationSpan}
use gpubk.ScheduleIndex.Overlap.{overlaps_span}
use gpubk.Scheduler.Loads.{shared_in}
use gpubk.Scheduler.Availability.{add_points, points_of}

-- A shared item that holds the GPU at an instant.
abbrev pub shared_at : Instant → ReservationSpan → Bool
shared_at t item = is_shared item.mode && (leb item.start t && ltb t item.end)

abbrev pub AllOverlap : Instant → Instant → List ReservationSpan → Type 0
AllOverlap start end relevant = All (λ item. overlaps_span start end item ≡ true) relevant

module _ {A : Type 0} (f : A → ℕ) (p q : A → Bool) where
  -- A sum over fewer items is no larger.
  pub sum_of-select-le :
      (xs : List A)
      → All (λ x. p x ≡ true → q x ≡ true) xs
      → sum_of f (select p xs) ≤ sum_of f (select q xs)
  sum_of-select-le [] h = omega arith
  sum_of-select-le (x ∷ xs) h = ground (arith, h.0, sum_of-select-le xs h.1)

module _ (start end : Instant) where
  add_points-IsAscending :
      (items : List ReservationSpan) (points : List ℕ)
      → IsAscending points
      → IsAscending (add_points start end items points)
  add_points-IsAscending [] points h = h
  add_points-IsAscending (item ∷ rest) points h =
      add_points-IsAscending rest _ (add-IsAscending _ _ (add-IsAscending _ points h))

  In-add_points :
      (items : List ReservationSpan) (points : List ℕ) (p : ℕ)
      → In p points
      → In p (add_points start end items points)
  In-add_points [] points p m = m
  In-add_points (item ∷ rest) points p m =
      In-add_points rest _ p (In-add _ _ p (In-add _ points p m))

  -- The clipped start of every item is a point.
  starts-In :
      (items : List ReservationSpan) (points : List ℕ)
      → All (λ item. In (max start item.start) (add_points start end items points)) items
  starts-In [] points = tt
  starts-In (item ∷ rest) points = (
    In-add_points rest _ _ (In-add _ _ _ (add-In_self (max start item.start) points)),
    starts-In rest _,
  )

  Inside : List ℕ → Type 0
  Inside points = (p : ℕ) → In p points → (start ≤ p) × (p ≤ end)

  add_points-Inside :
      (items : List ReservationSpan) (points : List ℕ)
      → start < end
      → AllOverlap start end items
      → Inside points
      → Inside (add_points start end items points)
  unfolding Inside
  add_points-Inside [] points lt h inside = inside
  add_points-Inside (item ∷ rest) points lt h inside = add_points-Inside rest _ lt h.1 λ p m.
      ground (
        arith,
        add-In (min end item.end) (add (max start item.start) points) p,
        add-In (max start item.start) points p,
        inside p,
        h.0,
      )

  pub points_of-IsAscending :
      (relevant : List ReservationSpan) → IsAscending (points_of start end relevant)
  unfolding from_list
  points_of-IsAscending relevant =
      add_points-IsAscending relevant _
        (add-IsAscending start (add end []) (add-IsAscending end [] tt))

  pub ends-In :
      (relevant : List ReservationSpan)
      → In start (points_of start end relevant) × In end (points_of start end relevant)
  unfolding from_list
  ends-In relevant = (
    In-add_points relevant _ start (add-In_self start (add end [])),
    In-add_points relevant _ end (In-add start (add end []) end (add-In_self end [])),
  )

  points_of-Inside :
      (relevant : List ReservationSpan)
      → start < end
      → AllOverlap start end relevant
      → Inside (points_of start end relevant)
  unfolding Inside from_list
  points_of-Inside relevant lt h =
      add_points-Inside relevant _ lt h
        λ p m. ground (arith, add-In start (add end []) p, add-In end [] p)

  -- On a segment an item overlaps only if it holds the left end.
  pub gap-shared_at :
      (relevant : List ReservationSpan) (l r : ℕ)
      → start < end
      → AllOverlap start end relevant
      → IsGap (points_of start end relevant) l r
      → (start ≤ l)
        × (l < end)
        × All (λ item. shared_in l r item ≡ true → shared_at l item ≡ true) relevant
  unfolding Inside
  gap-shared_at relevant l r lt h gap = (
    inside.0,
    omega (arith, points_of-Inside relevant lt h r gap.right_in),
    In-All _ relevant
        λ item m. held item (gap.outside _ (All-In _ relevant (starts-In relevant _) item m)),
  )
    where
      points : List ℕ
      points = points_of start end relevant

      inside : (start ≤ l) × (l ≤ end)
      inside = points_of-Inside relevant lt h l gap.left_in

      rising : l < r
      rising = gap.rising

      held :
          (item : ReservationSpan)
          → (max start item.start ≤ l) ⊎ (r ≤ max start item.start)
          → shared_in l r item ≡ true
          → shared_at l item ≡ true
      held item side e = ground (arith, inside, rising, side)

-- An item that holds an instant overlaps every segment around it.
pub shared_at-shared_in :
    (t l r : ℕ) (relevant : List ReservationSpan)
    → l ≤ t
    → t < r
    → All (λ item. shared_at t item ≡ true → shared_in l r item ≡ true) relevant
shared_at-shared_in t l r [] a b = tt
shared_at-shared_in t l r (item ∷ rest) a b =
    (λ h. ground arith, shared_at-shared_in t l r rest a b)
