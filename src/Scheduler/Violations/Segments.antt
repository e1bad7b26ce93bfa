-- ===== src/Scheduler/Violations/Segments.antt =====
-- Where the audit finds no segment over the limit, no GPU is over it at any instant.
use gpubk.Prelude.{
  ℕ, ◌≤◌, ◌<◌, ◌≡◌, ◌⊎◌, inl, inr, refl, ap, sym, subst, true, false, List, [], ◌∷◌, ◌++◌, map,
  arith, ltb, leb, ◌&&◌, ◌||◌, if◌then◌else◌, elem, Bool-cases, length, In, leb→le, ltb→lt,
  &&-eq-true,
}
use gpubk.Prelude.Ascending.{
  adjacent, IsAscending, add-IsAscending, add-In_self, In-add, adjacent_covers,
}
use gpubk.Models.{Reservation, is_active, is_shared}
use gpubk.Scheduler.Occupancy.{holds, held, shared_units}
use gpubk.Scheduler.Violations.{
  Violation, shared_on, times_of, within_segment, units_in, segment_violations, capacity_violations,
  shared_capacity,
}

pub append_none : (xs ys : List Violation) → xs ++ ys ≡ [] → (xs ≡ []) × (ys ≡ [])
append_none [] ys h = (refl, h)
append_none (x ∷ xs) ys h = cc

-- No segment over the limit.
segments_within :
    (gpu limit : ℕ) (shared : List Reservation) (segments : List (ℕ × ℕ)) (left right : ℕ)
    → segment_violations gpu shared limit segments ≡ []
    → In (left, right) segments
    → left < right
    → units_in limit (within_segment left right shared) ≤ limit
unfolding segment_violations
segments_within gpu limit shared [] left right h m lt = absurd m
segments_within gpu limit shared ((l, r) ∷ rest) left right h m lt =
    let (first, others) = append_none _ _ h in
    elim m [
      | inr n ↦ segments_within gpu limit shared rest left right others n lt
      | inl e ↦ here (ap (λ s. s.0) e) (ap (λ s. s.1) e) first
    ]
  where
    here :
        left ≡ l
        → right ≡ r
        → (if leb r l || leb (units_in limit (within_segment l r shared)) limit
            then []
            else shared_capacity gpu
                (length (within_segment l r shared))
                (units_in limit (within_segment l r shared))
                limit
                (map (λ r. r.id) (within_segment l r shared))
                l
                r
              ∷ [])
          ≡ []
        → units_in limit (within_segment left right shared) ≤ limit
    here a b none_there =
        rw (a, b)
          (elim (Bool-cases (leb (units_in limit (within_segment l r shared)) limit)) [
            | inl fits ↦ leb→le _ _ fits
            | inr over ↦ elim (Bool-cases (leb r l)) [
              | inl empty ↦ absurd (omega (arith, a, b, leb→le r l empty))
              | inr proper ↦ let bad = rw (proper, over) at none_there in cc
            ]
          ])

-- What is held at an instant is within each segment around it.
held-segment :
    (gpu t left right limit : ℕ) (active : List Reservation)
    → left ≤ t
    → t < right
    → held (shared_units limit) gpu t active
      ≤ units_in limit (within_segment left right (shared_on gpu active))
held-segment gpu t left right limit [] a b = omega arith
held-segment gpu t left right limit (r ∷ rest) a b =
    let ih = held-segment gpu t left right limit rest a b in
    elim (Bool-cases (is_shared r.mode)) [
      | inr alone ↦ rw alone (ground (arith, ih))
      | inl shares ↦ elim (Bool-cases (elem gpu r.gpus)) [
        | inr away ↦ rw (shares, away) (ground (arith, ih))
        | inl named ↦ rw (shares, named) (ground (arith, ih))
      ]
    ]

times_of-IsAscending : (rs : List Reservation) → IsAscending (times_of rs)
unfolding times_of
times_of-IsAscending [] = tt
times_of-IsAscending (r ∷ rs) =
    add-IsAscending r.start_at _ (add-IsAscending r.end_at _ (times_of-IsAscending rs))

In-times_of :
    (rs : List Reservation) (r : Reservation)
    → In r rs
    → In r.start_at (times_of rs) × In r.end_at (times_of rs)
unfolding times_of
In-times_of [] r m = absurd m
In-times_of (x ∷ rs) r (inl e) =
    subst (λ z. In z.start_at (times_of (x ∷ rs)) × In z.end_at (times_of (x ∷ rs))) (sym e)
      (add-In_self x.start_at _, In-add x.start_at _ x.end_at (add-In_self x.end_at (times_of rs)))
In-times_of (x ∷ rs) r (inr m) =
    let (a, b) = In-times_of rs r m in
    (
      In-add x.start_at _ r.start_at (In-add x.end_at (times_of rs) r.start_at a),
      In-add x.start_at _ r.end_at (In-add x.end_at (times_of rs) r.end_at b),
    )

pub holds-parts :
    (gpu t : ℕ) (r : Reservation)
    → holds gpu t r ≡ true
    → (elem gpu r.gpus ≡ true) × (r.start_at ≤ t) × (t < r.end_at)
holds-parts gpu t r h =
    let (_, rest) =
      &&-eq-true (is_active r.status) (elem gpu r.gpus && (leb r.start_at t && ltb t r.end_at)) h in
    let (named, span) = &&-eq-true (elem gpu r.gpus) (leb r.start_at t && ltb t r.end_at) rest in
    let (a, b) = &&-eq-true (leb r.start_at t) (ltb t r.end_at) span in
    (named, leb→le r.start_at t a, ltb→lt t r.end_at b)

-- Where shared units are held, some shared reservation holds the GPU.
holder :
    (gpu t limit : ℕ) (active : List Reservation)
    → (held (shared_units limit) gpu t active ≡ 0)
      ⊎ ((r : Reservation) × In r (shared_on gpu active) × (r.start_at ≤ t) × (t < r.end_at))
holder gpu t limit [] = inl refl
holder gpu t limit (x ∷ rest) = elim (Bool-cases (is_shared x.mode && holds gpu t x)) [
  | inl here ↦
      let (shares, h) = &&-eq-true (is_shared x.mode) (holds gpu t x) here in
      let (named, a, b) = holds-parts gpu t x h in inr (x, rw (shares, named) (inl refl), a, b)
  | inr none_here ↦ elim (holder gpu t limit rest) [
    | inl idle ↦ inl (idle_too none_here idle)
    | inr (r, m, a, b) ↦ inr (r, deeper r m, a, b)
  ]
]
  where
    idle_too :
        (is_shared x.mode && holds gpu t x) ≡ false
        → held (shared_units limit) gpu t rest ≡ 0
        → held (shared_units limit) gpu t (x ∷ rest) ≡ 0
    idle_too e idle = ground arith

    deeper : (r : Reservation) → In r (shared_on gpu rest) → In r (shared_on gpu (x ∷ rest))
    deeper r m = elim (Bool-cases (is_shared x.mode && elem gpu x.gpus)) [
      | inl kept ↦ rw kept (inr m)
      | inr dropped ↦ rw dropped m
    ]

pub gpu_within :
    (gpu t limit : ℕ) (active : List Reservation)
    → segment_violations gpu
        (shared_on gpu active)
        limit
        (adjacent (times_of (shared_on gpu active)))
      ≡ []
    → held (shared_units limit) gpu t active ≤ limit
gpu_within gpu t limit active h = elim (holder gpu t limit active) [
  | inl idle ↦ omega (arith, idle)
  | inr (r, m, a, b) ↦
      let (starts, ends) = In-times_of (shared_on gpu active) r m in
      let (left, right, n, c, d) =
        adjacent_covers (times_of (shared_on gpu active)) r.start_at t r.end_at
          (times_of-IsAscending (shared_on gpu active)) starts ends a b in
      omega (
        arith,
        held-segment gpu t left right limit active c d,
        segments_within gpu limit (shared_on gpu active) _ left right h n (omega arith),
      )
]

pub capacity_none :
    (gpus : List ℕ) (active : List Reservation) (limit gpu : ℕ)
    → capacity_violations gpus active limit ≡ []
    → In gpu gpus
    → segment_violations gpu
        (shared_on gpu active)
        limit
        (adjacent (times_of (shared_on gpu active)))
      ≡ []
unfolding capacity_violations
capacity_none [] active limit gpu h m = absurd m
capacity_none (g ∷ rest) active limit gpu h m =
    let (first, others) = append_none _ _ h in
    elim m [
      | inr n ↦ capacity_none rest active limit gpu others n
      | inl e ↦
          subst
            (λ g.
              segment_violations g (shared_on g active) limit
                (adjacent (times_of (shared_on g active)))
              ≡ [])
            (sym e) first
    ]
