-- ===== src/Scheduler/Search/Nearest/Between.antt =====
-- The candidates of `find_nearest_slot` between its target and a start that serves.
use gpubk.Prelude.{
  ℕ, ◌≤◌, ◌<◌, ◌≡◌, ◌⊎◌, inl, inr, sym, subst, Bool, true, false, some, List, [], ◌∷◌, arith,
  All-map, In, if◌then◌else◌, leb, leb→le, leb→gt, Bool-cases,
}
use gpubk.Prelude.Ascending.{add, add-In, add-In_self, In-add}
use gpubk.Models.{Config, Blackout}
use gpubk.Errors.{ok}
use gpubk.Granularity.Slots.{IsAligned, ceil_least}
use gpubk.ScheduleIndex.{ReservationIndex, build}
use gpubk.ScheduleIndex.Spans.{ReservationSpan, sorted_spans}
use gpubk.Scheduler.Placement.{Readings}
use gpubk.Scheduler.Search.{Wish, try_start, add_blackout_ends, queue_candidates}
use gpubk.Scheduler.Search.Elsewhere.{steady}
use gpubk.Scheduler.Search.Earlier.{try_start-earlier}
use gpubk.Scheduler.Search.Candidates.{
  IsLast-upto, first-In, last-quiet, last-calm, In-add_if, In-add_blackout_ends,
}
use gpubk.Scheduler.Search.Nearest.{add_befores, nearest_candidates}

-- What is added to more candidates leaves more.
module _ (lo until slot : ℕ) where
  add-more :
      (b : Bool) (x : ℕ) (fewer more : List ℕ)
      → ((a : ℕ) → In a fewer → In a more)
      → (a : ℕ) → In a (if b then add x fewer else fewer)
      → In a (if b then add x more else more)
  add-more false x fewer more f a m = f a m
  add-more true x fewer more f a m = elim (add-In x fewer a m) [
    | inl e ↦ subst (λ z. In z (add x more)) (sym e) (add-In_self x more)
    | inr n ↦ In-add x more a (f a n)
  ]

  add_blackout_ends-more :
      (windows : List Blackout) (fewer more : List ℕ)
      → ((a : ℕ) → In a fewer → In a more)
      → (a : ℕ) → In a (add_blackout_ends windows lo until slot fewer)
      → In a (add_blackout_ends windows lo until slot more)
  unfolding add_blackout_ends
  add_blackout_ends-more [] fewer more f = f
  add_blackout_ends-more (window ∷ rest) fewer more f =
      add_blackout_ends-more rest _ _ (add-more _ _ fewer more f)

  pub In-add_befores :
      (spans : List ReservationSpan) (duration : ℕ) (candidates : List ℕ) (a : ℕ)
      → In a candidates
      → In a (add_befores spans duration lo until slot candidates)
  unfolding add_befores
  In-add_befores [] duration candidates a m = m
  In-add_befores (span ∷ rest) duration candidates a m =
      In-add_befores rest duration _ a (In-add_if lo until slot _ _ candidates a m)

module _ (index : ReservationIndex) (config : Config) (duration lo target until : ℕ) where
  queue_candidate-In :
      (a : ℕ)
      → In a (queue_candidates index config lo until)
      → In a (nearest_candidates index config duration lo target until)
  unfolding queue_candidates nearest_candidates
  queue_candidate-In a m = In-add_befores lo until config.slot_minutes index.spans duration _ a (
      add_blackout_ends-more lo until config.slot_minutes config.booking_blackouts _ _
        (λ x n. In-add target _ x n) a m)

  pub target-In : In target (nearest_candidates index config duration lo target until)
  unfolding nearest_candidates
  target-In = In-add_befores lo until config.slot_minutes index.spans duration _ target (
      In-add_blackout_ends lo until config.slot_minutes config.booking_blackouts _ target
        (add-In_self target _))

module _ (spans : List ReservationSpan) (config : Config) (wish : Wish) (now : ℕ)
    (readings : Readings) (lo target until s : ℕ) (gpus : List ℕ) where
  -- A candidate between the target and a start that serves, which serves too.
  pub candidate_between :
      0 < config.slot_minutes
      → 0 < wish.duration
      → 0 < wish.count
      → IsAligned config.slot_minutes s
      → lo ≤ target
      → target ≤ s
      → s ≤ until
      → try_start (build spans) config wish (steady now readings) s ≡ ok (some gpus)
      → (c : ℕ) × (found : List ℕ) × (target ≤ c)
        × (c ≤ s)
        × In c (nearest_candidates (build spans) config wish.duration lo target until)
        × (try_start (build spans) config wish (steady now readings) c ≡ ok (some found))
  candidate_between slotted lasting counted aligned low from upto serves =
      let (c, last) =
        IsLast-upto s _ _ (first-In config spans lo until slotted)
          (ceil_least lo config.slot_minutes s slotted aligned (omega arith)) in
      let quiet = last-quiet config spans lo until slotted s c aligned (omega arith) upto last in
      let calm = last-calm config spans lo until slotted s c aligned (omega arith) upto last in
      elim (Bool-cases (leb target c)) [
        | inl late ↦
            let (found, there) =
              try_start-earlier spans config wish now readings c s lasting counted gpus serves
                last.le quiet calm in
            (
              c,
              found,
              leb→le _ _ late,
              last.le,
              queue_candidate-In (build spans) config wish.duration lo target until c last.member,
              there,
            )
        | inr early ↦
            let (found, there) =
              try_start-earlier spans config wish now readings target s lasting counted gpus serves
                from
                (All-map (λ span h. no_end span.end (leb→gt _ _ early) h) (sorted_spans spans)
                  quiet)
                (All-map (λ window h. no_end window.end_at (leb→gt _ _ early) h)
                  config.booking_blackouts calm) in
            (
              target,
              found,
              omega arith,
              from,
              target-In (build spans) config wish.duration lo target until,
              there,
            )
      ]
    where
      no_end : {c : ℕ} (x : ℕ) → c < target → (x ≤ c) ⊎ (s < x) → (x ≤ target) ⊎ (s < x)
      no_end x before h = elim h [ inl e ↦ inl (omega arith) | inr l ↦ inr l ]
