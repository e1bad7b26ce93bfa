-- ===== src/Scheduler/Search/Candidates.antt =====
-- The candidate starts are in order, and hold each rounded end in the range of the search.
use gpubk.Prelude.{
  ℕ, ◌≤◌, ◌<◌, ◌≡◌, refl, ◌⊎◌, inl, inr, Bool, true, false, ◌&&◌, List, [], ◌∷◌, arith, leb, ltb,
  if◌then◌else◌, In, All, In-All, All-In, Bool-cases, ltb→lt, ltb→ge,
}
use gpubk.Prelude.Ascending.{add, IsAscending, add-In_self, In-add, add-IsAscending}
use gpubk.Models.{Config, Blackout}
use gpubk.Granularity.{ceil_to_slot}
use gpubk.Granularity.Slots.{IsAligned, ceil-ge, ceil_least}
use gpubk.ScheduleIndex.{build}
use gpubk.ScheduleIndex.Spans.{ReservationSpan, sorted_spans}
use gpubk.Scheduler.Availability.Earlier.{NoEndBetween}
use gpubk.Scheduler.Search.Earlier.{NoBlackoutBetween}
use gpubk.Scheduler.Search.{
  add_ends, add_blackout_ends, candidate_starts_from_index, queue_candidates,
}

module _ (lo until slot : ℕ) where
  -- One conditional addition.
  abbrev add_if : Bool → ℕ → List ℕ → List ℕ
  add_if b x candidates = if b then add x candidates else candidates

  add_if-IsAscending :
      (b : Bool) (x : ℕ) (candidates : List ℕ)
      → IsAscending candidates
      → IsAscending (add_if b x candidates)
  add_if-IsAscending true x candidates h = add-IsAscending x candidates h
  add_if-IsAscending false x candidates h = h

  pub In-add_if :
      (b : Bool) (x : ℕ) (candidates : List ℕ) (a : ℕ)
      → In a candidates
      → In a (add_if b x candidates)
  In-add_if true x candidates a m = In-add x candidates a m
  In-add_if false x candidates a m = m

  add_ends-IsAscending :
      (spans : List ReservationSpan) (candidates : List ℕ)
      → IsAscending candidates
      → IsAscending (add_ends spans lo until slot candidates)
  unfolding add_ends
  add_ends-IsAscending [] candidates h = h
  add_ends-IsAscending (span ∷ rest) candidates h =
      add_ends-IsAscending rest _ (add_if-IsAscending _ _ candidates h)

  In-add_ends :
      (spans : List ReservationSpan) (candidates : List ℕ) (a : ℕ)
      → In a candidates
      → In a (add_ends spans lo until slot candidates)
  unfolding add_ends
  In-add_ends [] candidates a m = m
  In-add_ends (span ∷ rest) candidates a m = In-add_ends rest _ a (In-add_if _ _ candidates a m)

  in_range : (x : ℕ) → lo ≤ x → x ≤ until → (leb lo x && leb x until) ≡ true
  in_range x a b = ground arith

  add_ends-ends :
      (spans : List ReservationSpan) (candidates : List ℕ)
      → All
          (λ span.
            lo ≤ ceil_to_slot span.end slot
            → ceil_to_slot span.end slot ≤ until
            → In (ceil_to_slot span.end slot) (add_ends spans lo until slot candidates))
          spans
  unfolding add_ends
  add_ends-ends [] candidates = tt
  add_ends-ends (span ∷ rest) candidates = (
    λ a b.
        In-add_ends rest _ _
          (rw (in_range _ a b) (add-In_self (ceil_to_slot span.end slot) candidates)),
    add_ends-ends rest _,
  )

  add_blackout_ends-IsAscending :
      (windows : List Blackout) (candidates : List ℕ)
      → IsAscending candidates
      → IsAscending (add_blackout_ends windows lo until slot candidates)
  unfolding add_blackout_ends
  add_blackout_ends-IsAscending [] candidates h = h
  add_blackout_ends-IsAscending (window ∷ rest) candidates h =
      add_blackout_ends-IsAscending rest _ (add_if-IsAscending _ _ candidates h)

  pub In-add_blackout_ends :
      (windows : List Blackout) (candidates : List ℕ) (a : ℕ)
      → In a candidates
      → In a (add_blackout_ends windows lo until slot candidates)
  unfolding add_blackout_ends
  In-add_blackout_ends [] candidates a m = m
  In-add_blackout_ends (window ∷ rest) candidates a m =
      In-add_blackout_ends rest _ a (In-add_if _ _ candidates a m)

  add_blackout_ends-ends :
      (windows : List Blackout) (candidates : List ℕ)
      → All
          (λ window.
            lo ≤ window.end_at
            → window.end_at ≤ until
            → In
                (ceil_to_slot window.end_at slot)
                (add_blackout_ends windows lo until slot candidates))
          windows
  unfolding add_blackout_ends
  add_blackout_ends-ends [] candidates = tt
  add_blackout_ends-ends (window ∷ rest) candidates = (
    λ a b.
        In-add_blackout_ends rest _ _
          (rw (in_range _ a b) (add-In_self (ceil_to_slot window.end_at slot) candidates)),
    add_blackout_ends-ends rest _,
  )

-- The last candidate up to `s`: no other lies between it and `s`.
pub record IsLast (candidates : List ℕ) (s c : ℕ) : Type 0 where
  pub member : In c candidates
  pub le : c ≤ s
  pub last : (x : ℕ) → In x candidates → (x ≤ c) ⊎ (s < x)

IsLast-or_none : (s : ℕ) (cs : List ℕ) → ((c : ℕ) × IsLast cs s c) ⊎ ((x : ℕ) → In x cs → s < x)
IsLast-or_none s [] = inr (λ x m. absurd m)
IsLast-or_none s (y ∷ ys) = elim (IsLast-or_none s ys) [
  | inl (c, h) ↦ elim (Bool-cases (ltb s y)) [
    | inl after ↦ inl (
      c,
      record {
        member = inr h.member;
        le = h.le;
        last = λ x m. elim m [ inl e ↦ inr (rw e (ltb→lt s y after)) | inr n ↦ h.last x n ];
      },
    )
    | inr upto ↦ elim (Bool-cases (ltb c y)) [
      | inl above ↦ inl (
        y,
        record { member = inl refl; le = ltb→ge s y upto; last = λ x m. ground (arith, h.last x) },
      )
      | inr below ↦
          inl
            (c, record { member = inr h.member; le = h.le; last = λ x m. ground (arith, h.last x) })
    ]
  ]
  | inr none_upto ↦ elim (Bool-cases (ltb s y)) [
    | inl after ↦ inr (λ x m. ground (arith, none_upto x))
    | inr upto ↦ inl (
      y,
      record { member = inl refl; le = ltb→ge s y upto; last = λ x m. ground (arith, none_upto x) },
    )
  ]
]

pub IsLast-upto : (s lo : ℕ) (cs : List ℕ) → In lo cs → lo ≤ s → (c : ℕ) × IsLast cs s c
IsLast-upto s lo cs m le = elim (IsLast-or_none s cs) [
  | inl found ↦ found
  | inr none_upto ↦ absurd (omega (arith, none_upto lo m))
]

module _ (config : Config) (spans : List ReservationSpan) (lo until : ℕ)
    (slotted : 0 < config.slot_minutes) where
  pub queue_candidates-IsAscending : IsAscending (queue_candidates (build spans) config lo until)
  unfolding queue_candidates candidate_starts_from_index build
  queue_candidates-IsAscending =
      add_blackout_ends-IsAscending lo until config.slot_minutes config.booking_blackouts _ (
        add_ends-IsAscending lo until config.slot_minutes (sorted_spans spans) _
          (add-IsAscending (ceil_to_slot lo config.slot_minutes) [] tt))

  pub first-In :
      In (ceil_to_slot lo config.slot_minutes) (queue_candidates (build spans) config lo until)
  unfolding queue_candidates candidate_starts_from_index build
  first-In = In-add_blackout_ends lo until config.slot_minutes config.booking_blackouts _ _ (
      In-add_ends lo until config.slot_minutes (sorted_spans spans) _ _
        (add-In_self (ceil_to_slot lo config.slot_minutes) []))

  span_end-In :
      All
        (λ span.
          lo ≤ ceil_to_slot span.end config.slot_minutes
          → ceil_to_slot span.end config.slot_minutes ≤ until
          → In
              (ceil_to_slot span.end config.slot_minutes)
              (queue_candidates (build spans) config lo until))
        (sorted_spans spans)
  unfolding queue_candidates candidate_starts_from_index build
  span_end-In = In-All _ _ λ span m a b.
      In-add_blackout_ends lo until config.slot_minutes config.booking_blackouts _ _
        (All-In _ _ (add_ends-ends lo until config.slot_minutes (sorted_spans spans) _) span m a b)

  blackout_end-In :
      All
        (λ window.
          lo ≤ window.end_at
          → window.end_at ≤ until
          → In
              (ceil_to_slot window.end_at config.slot_minutes)
              (queue_candidates (build spans) config lo until))
        config.booking_blackouts
  unfolding queue_candidates
  blackout_end-In = add_blackout_ends-ends lo until config.slot_minutes config.booking_blackouts _

  module _ (s c : ℕ) (aligned : IsAligned config.slot_minutes s) (from : lo ≤ s) (upto : s ≤ until)
      (last : IsLast (queue_candidates (build spans) config lo until) s c) where
    from_first : ceil_to_slot lo config.slot_minutes ≤ c
    from_first = ground (
      arith,
      last.last (ceil_to_slot lo config.slot_minutes) first-In,
      ceil_least lo config.slot_minutes s slotted aligned from,
    )

    lo-le : lo ≤ c
    lo-le = omega (arith, from_first, ceil-ge lo config.slot_minutes slotted)

    -- A rounded end that is a candidate does not lie between the last candidate and `s`.
    rounded :
        (x : ℕ)
        → In (ceil_to_slot x config.slot_minutes) (queue_candidates (build spans) config lo until)
        → (x ≤ c) ⊎ (s < x)
    rounded x m = elim (last.last _ m) [
      | inl before ↦ inl (omega (arith, ceil-ge x config.slot_minutes slotted))
      | inr after ↦ elim (Bool-cases (ltb s x)) [
        | inl late ↦ inr (ltb→lt s x late)
        | inr early ↦ absurd (
            omega (
              arith,
              ltb→ge s x early,
              ceil_least x config.slot_minutes s slotted aligned (ltb→ge s x early),
            ))
      ]
    ]

    pub last-quiet : All (NoEndBetween c s) (sorted_spans spans)
    last-quiet = In-All _ _ λ span m. at_span span (All-In _ _ span_end-In span m)
      where
        at_span :
            (span : ReservationSpan)
            → (lo ≤ ceil_to_slot span.end config.slot_minutes
                → ceil_to_slot span.end config.slot_minutes ≤ until
                → In
                    (ceil_to_slot span.end config.slot_minutes)
                    (queue_candidates (build spans) config lo until))
            → NoEndBetween c s span
        at_span span f = elim (Bool-cases (ltb (ceil_to_slot span.end config.slot_minutes) lo)) [
          | inl low ↦
              inl
                (omega (arith, lo-le, ltb→lt _ _ low, ceil-ge span.end config.slot_minutes slotted))
          | inr high ↦ elim (Bool-cases (ltb s span.end)) [
            | inl late ↦ inr (ltb→lt s span.end late)
            | inr early ↦ rounded span.end (
                f (ltb→ge _ _ high) (
                  omega (
                    arith,
                    ceil_least span.end config.slot_minutes s slotted aligned (ltb→ge _ _ early),
                  )))
          ]
        ]

    pub last-calm : All (NoBlackoutBetween c s) config.booking_blackouts
    last-calm = In-All _ _ λ window m. at_window window (All-In _ _ blackout_end-In window m)
      where
        at_window :
            (window : Blackout)
            → (lo ≤ window.end_at
                → window.end_at ≤ until
                → In
                    (ceil_to_slot window.end_at config.slot_minutes)
                    (queue_candidates (build spans) config lo until))
            → NoBlackoutBetween c s window
        at_window window f = elim (Bool-cases (ltb window.end_at lo)) [
          | inl low ↦ inl (omega (arith, lo-le, ltb→lt _ _ low))
          | inr high ↦ elim (Bool-cases (ltb s window.end_at)) [
            | inl late ↦ inr (ltb→lt s window.end_at late)
            | inr early ↦
                rounded window.end_at (f (ltb→ge _ _ high) (omega (arith, ltb→ge _ _ early)))
          ]
        ]
