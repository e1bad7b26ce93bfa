-- ===== src/Scheduler/Search/Nearest/Before.antt =====
-- The candidates of `find_nearest_slot` between a start that serves and the target after it.
use gpubk.Prelude.{
  ℕ, ◌+◌, ◌-◌, ◌*◌, ◌≤◌, ◌<◌, ◌≡◌, ◌⊎◌, inl, inr, refl, true, some, List, [], ◌∷◌, arith, All, In,
  In-All, All-In, All-map, ltb, leb, ltb→lt, ltb→ge, leb→le, leb→gt, Bool-cases, ◌&&◌,
}
use gpubk.Prelude.Ascending.{add-In_self}
use gpubk.Models.{Config}
use gpubk.Errors.{ok}
use gpubk.Granularity.{floor_to_slot}
use gpubk.Granularity.Slots.{IsAligned, floor_greatest, floor-le}
use gpubk.ScheduleIndex.{build}
use gpubk.ScheduleIndex.Spans.{ReservationSpan, sorted_spans}
use gpubk.Scheduler.Horizon.{day}
use gpubk.Scheduler.Placement.{Readings}
use gpubk.Scheduler.Availability.Earlier.{NoStartBetween}
use gpubk.Scheduler.Search.{Wish, try_start}
use gpubk.Scheduler.Search.Elsewhere.{steady}
use gpubk.Scheduler.Search.Earlier.{NoBlackoutBegins, try_start-later}
use gpubk.Scheduler.Search.Nearest.{add_befores, nearest_candidates}
use gpubk.Scheduler.Search.Nearest.Between.{In-add_befores, target-In}

-- The first candidate from `s` on: no other lies between `s` and it.
record IsFirst (candidates : List ℕ) (s c : ℕ) : Type 0 where
  pub member : In c candidates
  pub le : s ≤ c
  pub first : (x : ℕ) → In x candidates → (x < s) ⊎ (c ≤ x)

IsFirst-or_none : (s : ℕ) (cs : List ℕ) → ((c : ℕ) × IsFirst cs s c) ⊎ ((x : ℕ) → In x cs → x < s)
IsFirst-or_none s [] = inr (λ x m. absurd m)
IsFirst-or_none s (y ∷ ys) = elim (IsFirst-or_none s ys) [
  | inl (c, h) ↦ elim (Bool-cases (leb s y && ltb y c)) [
    | inl nearer ↦ inl (
      y,
      record { member = inl refl; le = ground arith; first = λ x m. ground (arith, h.first x) },
    )
    | inr farther ↦ inl (
      c,
      record { member = inr h.member; le = h.le; first = λ x m. ground (arith, h.first x, h.le) },
    )
  ]
  | inr none_from ↦ elim (Bool-cases (leb s y)) [
    | inl from ↦ inl (
      y,
      record {
        member = inl refl;
        le = leb→le s y from;
        first = λ x m. ground (arith, none_from x);
      },
    )
    | inr before ↦ inr (λ x m. ground (arith, none_from x, leb→gt s y before))
  ]
]

IsFirst-from : (s target : ℕ) (cs : List ℕ) → In target cs → s ≤ target → (c : ℕ) × IsFirst cs s c
IsFirst-from s target cs m le = elim (IsFirst-or_none s cs) [
  | inl found ↦ found
  | inr none_from ↦ absurd (omega (arith, none_from target m))
]

module _ (lo until slot duration : ℕ) where
  in_range :
      (start before : ℕ)
      → duration ≤ start
      → lo ≤ before
      → before ≤ until
      → (leb duration start && (leb lo before && leb before until)) ≡ true
  in_range start before a b c = ground arith

  -- Each start that ends where a reservation starts, in the range of the search.
  add_befores-befores :
      (spans : List ReservationSpan) (candidates : List ℕ)
      → All
          (λ span.
            duration ≤ span.start
            → lo ≤ floor_to_slot (span.start - duration) slot
            → floor_to_slot (span.start - duration) slot ≤ until
            → In
                (floor_to_slot (span.start - duration) slot)
                (add_befores spans duration lo until slot candidates))
          spans
  unfolding add_befores
  add_befores-befores [] candidates = tt
  add_befores-befores (span ∷ rest) candidates = (
    λ a b c. In-add_befores lo until slot rest duration _ _ (
        rw (in_range _ _ a b c)
          (add-In_self (floor_to_slot (span.start - duration) slot) candidates)),
    add_befores-befores rest _,
  )

module _ (spans : List ReservationSpan) (config : Config) (duration lo target until : ℕ)
    (slotted : 0 < config.slot_minutes) where
  before-In :
      All
        (λ span.
          duration ≤ span.start
          → lo ≤ floor_to_slot (span.start - duration) config.slot_minutes
          → floor_to_slot (span.start - duration) config.slot_minutes ≤ until
          → In
              (floor_to_slot (span.start - duration) config.slot_minutes)
              (nearest_candidates (build spans) config duration lo target until))
        (sorted_spans spans)
  unfolding nearest_candidates build
  before-In = add_befores-befores lo until config.slot_minutes duration (sorted_spans spans) _

  module _ (s c : ℕ) (aligned : IsAligned config.slot_minutes s) (from : lo ≤ s) (upto : c ≤ target)
      (reached : target ≤ until)
      (first : IsFirst (nearest_candidates (build spans) config duration lo target until) s c) where
    first-quiet : All (NoStartBetween s c duration) (sorted_spans spans)
    first-quiet = In-All _ _ λ span m. at_span span (All-In _ _ before-In span m)
      where
        at_span :
            (span : ReservationSpan)
            → (duration ≤ span.start
                → lo ≤ floor_to_slot (span.start - duration) config.slot_minutes
                → floor_to_slot (span.start - duration) config.slot_minutes ≤ until
                → In
                    (floor_to_slot (span.start - duration) config.slot_minutes)
                    (nearest_candidates (build spans) config duration lo target until))
            → NoStartBetween s c duration span
        at_span span f = elim (Bool-cases (ltb span.start (s + duration))) [
          | inl before ↦ inl (ltb→lt _ _ before)
          | inr after ↦
              let before = floor_to_slot (span.start - duration) config.slot_minutes in
              let late : s + duration ≤ span.start = ltb→ge _ _ after in
              let above : s ≤ before =
                floor_greatest (span.start - duration) config.slot_minutes s slotted aligned
                  (omega arith) in
              let below : before ≤ span.start - duration =
                floor-le (span.start - duration) config.slot_minutes in
              inr (elim (Bool-cases (leb before until)) [
                | inr beyond ↦ omega (arith, leb→gt _ _ beyond)
                | inl within ↦
                    elim (first.first before (f (omega arith) (omega arith) (leb→le _ _ within))) [
                      | inl low ↦ absurd (omega arith)
                      | inr high ↦ omega arith
                    ]
              ])
        ]

module _ (spans : List ReservationSpan) (config : Config) (wish : Wish) (now : ℕ)
    (readings : Readings) (lo target until s : ℕ) (gpus : List ℕ) where
  -- A candidate between a start that serves and the target, which serves too.
  pub candidate_before :
      0 < config.slot_minutes
      → 0 < wish.duration
      → 0 < wish.count
      → now ≤ readings.at_start
      → now ≤ readings.at_scan
      → IsAligned config.slot_minutes s
      → lo ≤ s
      → s ≤ target
      → target ≤ until
      → target + wish.duration ≤ now + config.booking_horizon_days * day
      → All (NoBlackoutBegins s target wish.duration) config.booking_blackouts
      → try_start (build spans) config wish (steady now readings) s ≡ ok (some gpus)
      → (c : ℕ) × (found : List ℕ) × (s ≤ c)
        × (c ≤ target)
        × In c (nearest_candidates (build spans) config wish.duration lo target until)
        × (try_start (build spans) config wish (steady now readings) c ≡ ok (some found))
  candidate_before slotted lasting counted started scanned aligned from before reached near calm
        serves =
      let there = target-In (build spans) config wish.duration lo target until in
      let (c, first) = IsFirst-from s target _ there before in
      let upto : c ≤ target = ground (arith, first.first target there) in
      let (found, e) =
        try_start-later spans config wish now readings c s lasting counted gpus serves first.le
          (first-quiet spans config wish.duration lo target until slotted s c aligned from upto
            reached first)
          (All-map (λ window h. begins window.start_at upto h) config.booking_blackouts calm)
          (omega arith) started scanned in
      (c, found, first.le, upto, first.member, e)
    where
      begins :
          {c : ℕ} (x : ℕ)
          → c ≤ target
          → (x < s + wish.duration) ⊎ (target + wish.duration ≤ x)
          → (x < s + wish.duration) ⊎ (c + wish.duration ≤ x)
      begins x upto h = elim h [ inl a ↦ inl a | inr b ↦ inr (omega arith) ]
