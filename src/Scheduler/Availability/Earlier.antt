-- ===== src/Scheduler/Availability/Earlier.antt =====
-- A GPU that is free from `s` on is free from an earlier `c` on, if no span ends in between, and from
-- a later one on, if no span starts between the ends.
use gpubk.Prelude.{
  ℕ, ◌+◌, ◌≤◌, ◌<◌, ◌≡◌, refl, ◌⊎◌, inl, inr, Bool, true, none, List, [], ◌∷◌, ◌++◌, arith, min,
  max, ◌-◌, All-map, ◌==◌, select, sum_of, All, if◌then◌else◌, Bool-cases,
}
use gpubk.Models.{Mode, shared, exclusive, unsupported}
use gpubk.ScheduleIndex.{build, overlapping}
use gpubk.ScheduleIndex.Spans.{ReservationSpan, sorted_spans}
use gpubk.ScheduleIndex.Grouping.{copies, on_gpu}
use gpubk.ScheduleIndex.Overlap.{overlaps_span, overlapping_lem}
use gpubk.Scheduler.Loads.{units_of, memory_of}
use gpubk.Scheduler.Availability.{Demand, availability_detail_indexed}
use gpubk.Scheduler.Availability.Segments.{shared_at}
use gpubk.Scheduler.Availability.Spec.{usable_of, RoomAt, Fits}
use gpubk.Scheduler.Availability.Spec.Exact.{availability_detail_indexed_iff}

module _ (P : ReservationSpan → Type 0) where
  All-append : (xs ys : List ReservationSpan) → All P xs → All P ys → All P (xs ++ ys)
  All-append [] ys h k = k
  All-append (x ∷ xs) ys h k = (h.0, All-append xs ys h.1 k)

  copies-All :
      (gpu : ℕ) (span : ReservationSpan) (gs : List ℕ) → P span → All P (copies gpu span gs)
  copies-All gpu span [] h = tt
  copies-All gpu span (g ∷ gs) h = elim (Bool-cases (g == gpu)) [
    | inl same ↦ rw same (h, copies-All gpu span gs h)
    | inr differs ↦ rw differs (copies-All gpu span gs h)
  ]

  on_gpu-All : (gpu : ℕ) (spans : List ReservationSpan) → All P spans → All P (on_gpu gpu spans)
  on_gpu-All gpu [] h = tt
  on_gpu-All gpu (span ∷ spans) h =
      All-append (copies gpu span span.gpus) (on_gpu gpu spans) (copies-All gpu span span.gpus h.0)
        (on_gpu-All gpu spans h.1)

module _ {A : Type 0} (p q : A → Bool) where
  select-All-le :
      (R : A → Type 0) (xs : List A)
      → All (λ x. p x ≡ true → q x ≡ true) xs
      → All R (select q xs)
      → All R (select p xs)
  select-All-le R [] h k = tt
  select-All-le R (x ∷ xs) h k = elim (Bool-cases (p x)) [
    | inl keeps ↦ rw keeps (
        let both : All R (x ∷ select q xs) = rw (h.0 keeps) at k in
        (both.0, select-All-le R xs h.1 both.1))
    | inr drops ↦ rw drops (select-All-le R xs h.1 (later k))
  ]
    where
      later : All R (if q x then x ∷ select q xs else select q xs) → All R (select q xs)
      later m = elim (Bool-cases (q x)) [
        | inl e ↦ let both : All R (x ∷ select q xs) = rw e at m in both.1
        | inr e ↦ rw e at m
      ]

  select-nil-le :
      (xs : List A) → All (λ x. p x ≡ true → q x ≡ true) xs → select q xs ≡ [] → select p xs ≡ []
  select-nil-le [] h k = refl
  select-nil-le (x ∷ xs) h k = ground (arith, h.0, select-nil-le xs)

  sum_of-selects-le :
      (f : A → ℕ) (a b : A → Bool) (xs : List A)
      → All (λ x. p x ≡ true → a x ≡ true → (q x ≡ true) × (b x ≡ true)) xs
      → sum_of f (select a (select p xs)) ≤ sum_of f (select b (select q xs))
  sum_of-selects-le f a b [] h = omega arith
  sum_of-selects-le f a b (x ∷ xs) h = ground (arith, h.0, sum_of-selects-le f a b xs)

abbrev pub NoEndBetween : ℕ → ℕ → ReservationSpan → Type 0
NoEndBetween c s span = (span.end ≤ c) ⊎ (s < span.end)

abbrev pub NoStartBetween : ℕ → ℕ → ℕ → ReservationSpan → Type 0
NoStartBetween s c duration span = (span.start < s + duration) ⊎ (c + duration ≤ span.start)

-- What a span takes from `c` on, it takes from `s` on, with the instants moved by `g`.
abbrev Shifts : ℕ → ℕ → ℕ → (ℕ → ℕ) → ReservationSpan → Type 0
Shifts c s duration g x =
    (overlaps_span c (c + duration) x ≡ true → overlaps_span s (s + duration) x ≡ true)
    × ((t : ℕ)
        → overlaps_span c (c + duration) x ≡ true
        → shared_at t x ≡ true
        → (overlaps_span s (s + duration) x ≡ true) × (shared_at (g t) x ≡ true))

Shifts-earlier :
    (c s duration : ℕ)
    → c ≤ s
    → (x : ReservationSpan) → NoEndBetween c s x
    → Shifts c s duration (λ t. max t s) x
Shifts-earlier c s duration le x h = (λ e. ground arith, λ t e k. ground arith)

Shifts-later :
    (c s duration : ℕ)
    → s ≤ c
    → 0 < duration
    → (x : ReservationSpan) → NoStartBetween s c duration x
    → Shifts c s duration (λ t. min t (s + duration - 1)) x
Shifts-later c s duration le pos x h = (λ e. ground arith, λ t e k. ground arith)

module _ (spans : List ReservationSpan) (gpu c s duration : ℕ) (g : ℕ → ℕ)
    (shifts : All (Shifts c s duration g) (sorted_spans spans))
    (inside : (t : ℕ) → c ≤ t → t < c + duration → (s ≤ g t) × (g t < s + duration)) where
  here : List ReservationSpan
  here = on_gpu gpu (sorted_spans spans)

  Shifts-here : All (Shifts c s duration g) here
  unfolding here
  Shifts-here = on_gpu-All (Shifts c s duration g) gpu (sorted_spans spans) shifts

  relevant_at : ℕ → List ReservationSpan
  unfolding here
  relevant_at x = select (overlaps_span x (x + duration)) here

  RoomAt-elsewhere :
      (d : Demand) (t : ℕ) → RoomAt (relevant_at s) gpu d (g t) → RoomAt (relevant_at c) gpu d t
  unfolding relevant_at
  RoomAt-elsewhere d t room =
      let held = All-map (λ x h. h.1 t) here Shifts-here in
      let p = overlaps_span c (c + duration) in
      let q = overlaps_span s (s + duration) in
      let units =
        sum_of-selects-le p q (units_of d.max_shared_users) (shared_at t) (shared_at (g t)) here
          held in
      let memory =
        sum_of-selects-le p q (memory_of (usable_of gpu d) d.max_shared_users) (shared_at t)
          (shared_at (g t)) here held in
      record {
        units = omega (arith, units);
        memory = elim room.memory [ inl e ↦ inl e | inr fits ↦ inr (omega (arith, memory)) ];
      }

  Fits-elsewhere :
      (d : Demand) (mode : Mode)
      → Fits (relevant_at s) gpu s (s + duration) d mode
      → Fits (relevant_at c) gpu c (c + duration) d mode
  unfolding relevant_at
  Fits-elsewhere d exclusive h = select-nil-le _ _ here (All-map (λ x k. k.0) here Shifts-here) h
  Fits-elsewhere d shared h = record {
    asked = h.asked;
    no_exclusive = select-All-le _ _ _ here (All-map (λ x k. k.0) here Shifts-here) h.no_exclusive;
    room =
        λ t a b. let (from, until) = inside t a b in RoomAt-elsewhere d t (h.room (g t) from until);
  }
  Fits-elsewhere d (unsupported name) h = h

  overlapping-relevant_at : (x : ℕ) → overlapping (build spans) gpu x (x + duration) ≡ relevant_at x
  unfolding relevant_at
  overlapping-relevant_at x = overlapping_lem spans gpu x (x + duration)

  availability-elsewhere :
      (d : Demand)
      → 0 < duration
      → availability_detail_indexed (build spans) gpu s (s + duration) d ≡ none
      → availability_detail_indexed (build spans) gpu c (c + duration) d ≡ none
  availability-elsewhere d pos free =
      let there =
        (availability_detail_indexed_iff spans gpu s (s + duration) d (omega arith)).0 free in
      (availability_detail_indexed_iff spans gpu c (c + duration) d (omega arith)).1 (
        rw (overlapping-relevant_at c)
          (Fits-elsewhere d d.mode (rw (overlapping-relevant_at s) at there)))

module _ (spans : List ReservationSpan) (gpu c s duration : ℕ) (d : Demand) (pos : 0 < duration)
    (free : availability_detail_indexed (build spans) gpu s (s + duration) d ≡ none) where
  -- What is free later is free earlier.
  pub availability-earlier :
      c ≤ s
      → All (NoEndBetween c s) (sorted_spans spans)
      → availability_detail_indexed (build spans) gpu c (c + duration) d ≡ none
  availability-earlier le quiet =
      availability-elsewhere spans gpu c s duration (λ t. max t s)
        (All-map (Shifts-earlier c s duration le) (sorted_spans spans) quiet)
        (λ t a b. (omega arith, omega arith)) d pos free

  -- What is free earlier is free later.
  pub availability-later :
      s ≤ c
      → All (NoStartBetween s c duration) (sorted_spans spans)
      → availability_detail_indexed (build spans) gpu c (c + duration) d ≡ none
  availability-later le quiet =
      availability-elsewhere spans gpu c s duration (λ t. min t (s + duration - 1))
        (All-map (Shifts-later c s duration le pos) (sorted_spans spans) quiet)
        (λ t a b. (omega arith, omega arith)) d pos free
