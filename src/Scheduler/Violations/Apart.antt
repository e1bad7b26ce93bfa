-- ===== src/Scheduler/Violations/Apart.antt =====
-- Where the audit finds no overlap, an exclusive reservation stands alone.
use gpubk.Prelude.{
  ℕ, ◌≤◌, ◌≡◌, ◌⊎◌, inl, inr, refl, true, false, not, List, [], ◌∷◌, map, arith, ◌&&◌, ◌||◌, elem,
  elem-In, select, Bool-cases, In, select-In, lt→ltb,
}
use gpubk.Prelude.Ascending.{from_list, In-from_list}
use gpubk.Models.{Reservation, is_exclusive}
use gpubk.Scheduler.Loads.{overlaps}
use gpubk.Scheduler.Occupancy.{Weight, holds, held, one, one_exclusive}
use gpubk.Scheduler.Violations.{
  Violation, pair_violations, overlap_of, left_violations, find_exclusive_overlap_violations,
}
use gpubk.Scheduler.Violations.Segments.{append_none, holds-parts}

map_none : {A : Type 0} (f : A → Violation) (xs : List A) (x : A) → map f xs ≡ [] → In x xs → ⊥
map_none f [] x h m = absurd m
map_none f (y ∷ ys) x h m = cc

-- Two reservations without a violation, one of them exclusive, do not hold a GPU together.
pair_apart :
    (gpu t : ℕ) (left right : Reservation)
    → pair_violations left right ≡ []
    → holds gpu t left ≡ true
    → holds gpu t right ≡ true
    → (is_exclusive left.mode || is_exclusive right.mode) ≡ true
    → ⊥
unfolding pair_violations
pair_apart gpu t left right h here there single =
    let (named, a, b) = holds-parts gpu t left here in
    let (named_too, c, d) = holds-parts gpu t right there in
    let meets : overlaps left.start_at left.end_at right.start_at right.end_at ≡ true =
      rw
        (
          lt→ltb left.start_at right.end_at (omega arith),
          lt→ltb right.start_at left.end_at (omega arith),
        )
        refl in
    let one_is : (not (is_exclusive left.mode) && not (is_exclusive right.mode)) ≡ false =
      ground arith in
    map_none (overlap_of left right) (select (λ gpu. elem gpu right.gpus) (from_list left.gpus)) gpu
      (rw (one_is, meets, pair_violations) at h)
      (select-In (λ gpu. elem gpu right.gpus) (from_list left.gpus) gpu
        (In-from_list gpu left.gpus (elem-In gpu left.gpus named)) named_too)

left_apart :
    (gpu t : ℕ) (x : Reservation) (rest : List Reservation)
    → left_violations x rest ≡ []
    → holds gpu t x ≡ true
    → (is_exclusive x.mode ≡ true → held one gpu t rest ≡ 0) × (held one_exclusive gpu t rest ≡ 0)
unfolding left_violations
left_apart gpu t x [] h here = (λ e. refl, refl)
left_apart gpu t x (y ∷ rest) h here =
    let (first, others) = append_none (pair_violations x y) (left_violations x rest) h in
    let ih = left_apart gpu t x rest others here in
    elim (Bool-cases (holds gpu t y)) [
      | inr away ↦
          (λ e. not_counted one y rest away (ih.0 e), not_counted one_exclusive y rest away ih.1)
      | inl there ↦ elim (Bool-cases (is_exclusive x.mode || is_exclusive y.mode)) [
        | inl single ↦ absurd (pair_apart gpu t x y first here there single)
        | inr neither ↦ (λ e. absurd (both_ways e neither), others_shared y rest neither ih.1)
      ]
    ]
  where
    not_counted :
        (weight : Weight) (y : Reservation) (rest : List Reservation)
        → holds gpu t y ≡ false
        → held weight gpu t rest ≡ 0
        → held weight gpu t (y ∷ rest) ≡ 0
    not_counted weight y rest away idle = rw away (omega (arith, idle))

    both_ways :
        is_exclusive x.mode ≡ true → (is_exclusive x.mode || is_exclusive y.mode) ≡ false → ⊥
    both_ways e neither = ground arith

    others_shared :
        (y : Reservation) (rest : List Reservation)
        → (is_exclusive x.mode || is_exclusive y.mode) ≡ false
        → held one_exclusive gpu t rest ≡ 0
        → held one_exclusive gpu t (y ∷ rest) ≡ 0
    others_shared y rest neither idle = ground arith

pub overlaps-alone :
    (gpu t : ℕ) (active : List Reservation)
    → find_exclusive_overlap_violations active ≡ []
    → (held one_exclusive gpu t active ≡ 0) ⊎ (held one gpu t active ≤ 1)
unfolding find_exclusive_overlap_violations
overlaps-alone gpu t [] h = inl refl
overlaps-alone gpu t (x ∷ rest) h =
    let (first, others) =
      append_none (left_violations x rest) (find_exclusive_overlap_violations rest) h in
    let ih = overlaps-alone gpu t rest others in
    elim (Bool-cases (holds gpu t x)) [
      | inr away ↦ elim ih [
        | inl idle ↦ inl (rw away (omega (arith, idle)))
        | inr single ↦ inr (rw away (omega (arith, single)))
      ]
      | inl here ↦
          let (alone, shares) = left_apart gpu t x rest first here in
          elim (Bool-cases (is_exclusive x.mode)) [
            | inl single ↦ inr (rw here (omega (arith, alone single)))
            | inr shared ↦ inl (rw (here, shared) (omega (arith, shares)))
          ]
    ]
