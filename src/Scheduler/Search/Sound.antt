-- ===== src/Scheduler/Search/Sound.antt =====
-- What a found slot promises of its start and its GPUs.
use gpubk.Prelude.{
  ℕ, ◌+◌, ◌≡◌, refl, subst, Bool, true, false, Option, none, some, List, [], ◌∷◌, arith, ltb, ◌==◌,
  if◌then◌else◌, length, All, Bool-cases, Option-cases, inl, inr, All-In, In-All, In, ◌⊎◌, ap, sym,
  All-map, eq_of_some,
}
use gpubk.Models.{Ledger, Config}
use gpubk.Errors.{Result, ok, err, >>=-eq-ok, ok-injective}
use gpubk.ScheduleIndex.{ReservationIndex, from_ledger}
use gpubk.Policy.{validate_ledger_policy}
use gpubk.Scheduler.Reasons.{Reason}
use gpubk.Scheduler.Availability.{availability_detail_indexed}
use gpubk.Scheduler.Gpus.{normalize_excluded_gpus, normalize_gpu_order}
use gpubk.Scheduler.Gpus.Scope.{IsEnabled, normalize_gpu_order-All, select-All}
use gpubk.Scheduler.Horizon.{booking_policy_conflict}
use gpubk.Scheduler.Placement.{
  Ask, demand_of, Readings, scan_gpus, choose_from, within_policy, find_available_gpus_indexed,
  all_free, preferred_at, scanned_at, at_start_within, gpus_at_start,
}
use gpubk.Scheduler.Placement.Chosen.{chosen-All, scan_gpus-All, all_free-All}
use gpubk.Scheduler.Search.{Clock, Wish, try_start, first_start, find_earliest_slot}

-- A GPU that may be reserved over an interval.
abbrev pub Serves : ReservationIndex → Config → ℕ → ℕ → Ask → ℕ → Type 0
Serves index config start end ask gpu =
    (availability_detail_indexed index gpu start end (demand_of config ask) ≡ none)
    × IsEnabled config gpu

All-trivial : (P : ℕ → Type 0) (xs : List ℕ) → xs ≡ [] → All P xs
All-trivial P xs e = rw e tt

module _ (index : ReservationIndex) (config : Config) (count start : ℕ) (ask : Ask) where
  choose_from-Serves :
      (end : ℕ) (scores : List (ℕ × ℕ)) (excluded order : List ℕ)
      → All (IsEnabled config) order
      → All
          (Serves index config start end ask)
          (choose_from index config count start end ask scores excluded order).0
  unfolding choose_from
  choose_from-Serves end scores excluded order h = elim (Bool-cases (ltb (length order) count)) [
    | inl few ↦ rw few tt
    | inr enough ↦ rw enough (
        chosen-All (Serves index config start end ask) count
          (scan_gpus index config start end ask scores 0 order)
          (scan_gpus-All index config start end ask (Serves index config start end ask) scores 0
            order (In-All _ order (λ gpu m free. (free, All-In _ order h gpu m)))))
  ]

  within_policy-Serves :
      (end : ℕ) (order : Option (List ℕ)) (scores : List (ℕ × ℕ)) (excluded : Option (List ℕ))
      (found : List ℕ × List Reason)
      → within_policy index config count start end ask order scores excluded ≡ ok found
      → All (Serves index config start end ask) found.0
  unfolding within_policy
  within_policy-Serves end order scores excluded found h =
      let (banned, _, h1) = >>=-eq-ok (normalize_excluded_gpus excluded config) _ h in
      let (configured, e, h2) = >>=-eq-ok (normalize_gpu_order order config) _ h1 in
      subst (λ (r : List ℕ × List Reason). All (Serves index config start end ask) r.0)
        (ok-injective h2)
        (choose_from-Serves end scores banned _
          (select-All _ _ configured (normalize_gpu_order-All config order configured e)))

  find_available-Serves :
      (end : ℕ) (order : Option (List ℕ)) (scores : List (ℕ × ℕ)) (excluded : Option (List ℕ))
      (now : ℕ) (found : List ℕ × List Reason)
      → find_available_gpus_indexed index config count start end ask order scores excluded now
        ≡ ok found
      → All (Serves index config start end ask) found.0
  unfolding find_available_gpus_indexed
  find_available-Serves end order scores excluded now found h =
      elim (Option-cases (booking_policy_conflict config start end now)) [
        | inl within ↦
            within_policy-Serves end order scores excluded found
              (rw (within, find_available_gpus_indexed) at h)
        | inr (reason, beyond) ↦
            subst (λ (r : List ℕ × List Reason). All (Serves index config start end ask) r.0)
              (ok-injective (rw (beyond, find_available_gpus_indexed) at h)) tt
      ]

  preferred_at-Serves :
      (duration : ℕ) (excluded preferred : List ℕ)
      → All
          (Serves index config start (start + duration) ask)
          (preferred_at index config count start duration ask excluded preferred)
  unfolding preferred_at
  preferred_at-Serves duration excluded preferred =
      elim (Bool-cases (all_free index config start (start + duration) ask excluded preferred)) [
        | inl free ↦ rw free (
            All-map (λ gpu (x, y, z). (x, y)) preferred
              (all_free-All index config start (start + duration) ask excluded preferred free))
        | inr busy ↦ rw busy tt
      ]

  at_start_within-Serves :
      (duration : ℕ) (preferred order : Option (List ℕ)) (scores : List (ℕ × ℕ)) (now : ℕ)
      (excluded gpus : List ℕ)
      → at_start_within index config count start duration ask preferred order scores now excluded
        ≡ ok gpus
      → All (Serves index config start (start + duration) ask) gpus
  unfolding at_start_within scanned_at
  at_start_within-Serves duration (some preferred) order scores now excluded gpus h =
      subst (All (Serves index config start (start + duration) ask)) (ok-injective h)
        (preferred_at-Serves duration excluded preferred)
  at_start_within-Serves duration none order scores now excluded gpus h =
      let (found, e, last) =
        >>=-eq-ok
          (find_available_gpus_indexed index config count start (start + duration) ask order scores
            (some excluded) now)
          _ h in
      subst (All (Serves index config start (start + duration) ask)) (ok-injective last)
        (find_available-Serves (start + duration) order scores (some excluded) now found e)

  gpus_at_start-Serves :
      (duration : ℕ) (preferred order : Option (List ℕ)) (scores : List (ℕ × ℕ))
      (excluded : Option (List ℕ)) (readings : Readings) (gpus : List ℕ)
      → gpus_at_start index config count start duration ask preferred order scores excluded readings
        ≡ ok gpus
      → All (Serves index config start (start + duration) ask) gpus
  unfolding gpus_at_start
  gpus_at_start-Serves duration preferred order scores excluded readings gpus h =
      elim (Option-cases
        (booking_policy_conflict config start (start + duration) readings.at_start)) [
          | inl within ↦
              let (banned, _, rest) =
                >>=-eq-ok (normalize_excluded_gpus excluded config) _
                  (rw (within, gpus_at_start) at h) in
              at_start_within-Serves duration preferred order scores readings.at_scan banned gpus
                rest
          | inr (reason, beyond) ↦
              subst (All (Serves index config start (start + duration) ask))
                (ok-injective (rw (beyond, gpus_at_start) at h)) tt
        ]

-- What a slot that serves a wish has to be.
pub record IsSlot (index : ReservationIndex) (config : Config) (wish : Wish) (now start : ℕ)
    (gpus : List ℕ) : Type 0 where
  pub all_counted : length gpus ≡ wish.count
  pub within_policy : booking_policy_conflict config start (start + wish.duration) now ≡ none
  pub each_serves : All (Serves index config start (start + wish.duration) wish.ask) gpus

module _ (index : ReservationIndex) (config : Config) (wish : Wish) (clock : Clock) where
  pub try_start-IsSlot :
      (start : ℕ) (gpus : List ℕ)
      → try_start index config wish clock start ≡ ok (some gpus)
      → IsSlot index config wish clock.now start gpus
  unfolding try_start
  try_start-IsSlot start gpus h =
      elim (Option-cases (booking_policy_conflict config start (start + wish.duration) clock.now)) [
        | inl within ↦
            let (found, e, last) = >>=-eq-ok _ _ (rw (within, try_start) at h) in
            let same = counted found (ok-injective last) (Bool-cases _) in
            record {
              all_counted = same.0;
              within_policy = within;
              each_serves =
                  subst (All (Serves index config start (start + wish.duration) wish.ask)) same.1 (
                    gpus_at_start-Serves index config wish.count start wish.ask wish.duration _ _ _
                      _ _ found e);
            }
        | inr (reason, beyond) ↦
            let h' : ok none ≡ ok (some gpus) = rw (beyond, try_start) at h in cc
      ]
    where
      counted :
          (found : List ℕ)
          → (if length found == wish.count then some found else none) ≡ some gpus
          → ((length found == wish.count) ≡ true) ⊎ ((length found == wish.count) ≡ false)
          → (length gpus ≡ wish.count) × (found ≡ gpus)
      counted found e c = ground arith

  -- The first start that serves, out of the starts that were tried.
  pub first_start-IsSlot :
      (starts : List ℕ) (start : ℕ) (gpus : List ℕ)
      → first_start index config wish clock starts ≡ ok (some (start, gpus))
      → In start starts × IsSlot index config wish clock.now start gpus
  unfolding first_start
  first_start-IsSlot [] start gpus h = cc
  first_start-IsSlot (candidate ∷ rest) start gpus h =
      step (try_start index config wish clock candidate) refl (first_start-IsSlot rest start gpus)
    where
      step :
          (r : Result (Option (List ℕ)))
          → try_start index config wish clock candidate ≡ r
          → (first_start index config wish clock rest ≡ ok (some (start, gpus))
              → In start rest × IsSlot index config wish clock.now start gpus)
          → ((start ≡ candidate) ⊎ In start rest) × IsSlot index config wish clock.now start gpus
      step (err e) q ih =
          let h' : ◌≡◌ {A = Result (Option (ℕ × List ℕ))} (err e) (ok (some (start, gpus))) =
            rw (q, first_start) at h in
          cc
      step (ok none) q ih = let (m, p) = ih (rw (q, first_start) at h) in (inr m, p)
      step (ok (some found)) q ih =
          let e : ◌≡◌ {A = ℕ × List ℕ} (candidate, found) (start, gpus) =
            eq_of_some (ok-injective (rw (q, first_start) at h)) in
          let slot = try_start-IsSlot candidate found q in
          (
            inl (sym (ap (λ x. x.0) e)),
            subst (λ (x : ℕ × List ℕ). IsSlot index config wish clock.now x.0 x.1) e slot,
          )

-- The slot that the search returns, queued or not.
pub find_earliest_slot-IsSlot :
    (ledger : Ledger) (config : Config) (wish : Wish) (start : ℕ) (allow_queue : Bool)
    (clock : Clock) (found : ℕ) (gpus : List ℕ)
    → find_earliest_slot ledger config wish start allow_queue clock ≡ ok (some (found, gpus))
    → IsSlot (from_ledger ledger clock.now) config wish clock.now found gpus
unfolding find_earliest_slot
find_earliest_slot-IsSlot ledger config wish start allow_queue clock found gpus h =
    let (_, _, k) = >>=-eq-ok (validate_ledger_policy ledger config) _ h in
    (first_start-IsSlot (from_ledger ledger clock.now) config wish clock _ found gpus k).1
