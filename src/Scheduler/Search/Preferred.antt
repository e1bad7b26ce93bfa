-- ===== src/Scheduler/Search/Preferred.antt =====
-- A search at one start, and a search for selected GPUs.
use gpubk.Prelude.{
  ℕ, ◌+◌, ◌≡◌, ◌⊎◌, inl, inr, refl, sym, ap, subst, ◌∙◌, Bool, true, false, Option, none, some,
  List, [], ◌∷◌, arith, length, ◌==◌, if◌then◌else◌, Bool-cases, Option-cases, eq_of_some,
}
use gpubk.Models.{Instant, Ledger, Config}
use gpubk.Errors.{Result, ok, err, >>=-eq-ok, ok-injective}
use gpubk.Policy.{validate_ledger_policy}
use gpubk.ScheduleIndex.{ReservationIndex, from_ledger}
use gpubk.Scheduler.Gpus.{normalize_excluded_gpus}
use gpubk.Scheduler.Horizon.{booking_policy_conflict}
use gpubk.Scheduler.Placement.{
  Ask, Readings, all_free, preferred_at, at_start_within, gpus_at_start,
}
use gpubk.Scheduler.Search.{Clock, Wish, try_start, first_start, find_earliest_slot}
use gpubk.Scheduler.Search.Sound.{IsSlot, try_start-IsSlot}

module _ (index : ReservationIndex) (config : Config) (count start duration : ℕ) (ask : Ask) where
  preferred_at-cases :
      (excluded preferred : List ℕ)
      → (preferred_at index config count start duration ask excluded preferred ≡ preferred)
        ⊎ (preferred_at index config count start duration ask excluded preferred ≡ [])
  unfolding preferred_at
  preferred_at-cases excluded preferred =
      elim (Bool-cases (all_free index config start (start + duration) ask excluded preferred)) [
        | inl free ↦ inl (rw free refl)
        | inr busy ↦ inr (rw busy refl)
      ]

  gpus_at_start_preferred :
      (preferred : List ℕ) (order : Option (List ℕ)) (scores : List (ℕ × ℕ))
      (excluded : Option (List ℕ)) (readings : Readings) (gpus : List ℕ)
      → gpus_at_start index config count start duration ask
          (some preferred)
          order
          scores
          excluded
          readings
        ≡ ok gpus
      → (gpus ≡ preferred) ⊎ (gpus ≡ [])
  unfolding gpus_at_start at_start_within
  gpus_at_start_preferred preferred order scores excluded readings gpus h =
      elim (Option-cases
        (booking_policy_conflict config start (start + duration) readings.at_start)) [
          | inl within ↦
              let (banned, _, rest) =
                >>=-eq-ok (normalize_excluded_gpus excluded config) _
                  (rw (within, gpus_at_start) at h) in
              subst (λ found. (found ≡ preferred) ⊎ (found ≡ [])) (ok-injective rest)
                (preferred_at-cases banned preferred)
          | inr (reason, beyond) ↦ inr (sym (ok-injective (rw (beyond, gpus_at_start) at h)))
        ]

no_items {ℓ} : {A : Type ℓ} (xs : List A) → length xs ≡ 0 → xs ≡ []
no_items [] h = refl
no_items (x ∷ xs) h = absurd (omega (arith, h))

module _ (index : ReservationIndex) (config : Config) (wish : Wish) (clock : Clock)
    (preferred : List ℕ) (selected : wish.preferred_gpus ≡ some preferred)
    (counted : wish.count ≡ length preferred) where
  -- A start that serves a wish for selected GPUs serves it with those.
  try_start_preferred :
      (start : Instant) (gpus : List ℕ)
      → try_start index config wish clock start ≡ ok (some gpus)
      → gpus ≡ preferred
  unfolding try_start
  try_start_preferred start gpus h =
      elim (Option-cases (booking_policy_conflict config start (start + wish.duration) clock.now)) [
        | inr (reason, beyond) ↦
            let h' : ok none ≡ ok (some gpus) = rw (beyond, try_start) at h in cc
        | inl within ↦
            let (found, e, last) =
              >>=-eq-ok
                (gpus_at_start index config wish.count start wish.duration wish.ask
                  wish.preferred_gpus wish.gpu_order wish.gpu_scores wish.excluded_gpus
                  (clock.at start))
                _ (rw (within, try_start) at h) in
            let (full, same) =
              counted_at found (ok-injective last) (Bool-cases (length found == wish.count)) in
            same
            ∙ elim (gpus_at_start_preferred index config wish.count start wish.duration wish.ask
                preferred wish.gpu_order wish.gpu_scores wish.excluded_gpus (clock.at start) found
                (rw selected at e)) [
                  | inl all ↦ all
                  | inr empty ↦
                      empty
                      ∙ sym (no_items preferred (omega (arith, full, counted, ap length empty)))
                ]
      ]
    where
      counted_at :
          (found : List ℕ)
          → (if length found == wish.count then some found else none) ≡ some gpus
          → ((length found == wish.count) ≡ true) ⊎ ((length found == wish.count) ≡ false)
          → (length found ≡ wish.count) × (gpus ≡ found)
      counted_at found e c = ground arith

  -- A search returns the selected GPUs wherever it finds them free.
  first_start_preferred :
      (starts : List Instant) (start : Instant) (gpus : List ℕ)
      → first_start index config wish clock starts ≡ ok (some (start, gpus))
      → gpus ≡ preferred
  unfolding first_start
  first_start_preferred [] start gpus h = cc
  first_start_preferred (x ∷ xs) start gpus h =
      by_attempt (try_start index config wish clock x) refl (first_start_preferred xs start gpus)
    where
      by_attempt :
          (attempt : Result (Option (List ℕ)))
          → try_start index config wish clock x ≡ attempt
          → (first_start index config wish clock xs ≡ ok (some (start, gpus)) → gpus ≡ preferred)
          → gpus ≡ preferred
      by_attempt (err e) q ih =
          let k : ◌≡◌ {A = Result (Option (ℕ × List ℕ))} (err e) (ok (some (start, gpus))) =
            rw (q, first_start) at h in
          cc
      by_attempt (ok none) q ih = ih (rw (q, first_start) at h)
      by_attempt (ok (some served)) q ih =
          let e : ◌≡◌ {A = ℕ × List ℕ} (x, served) (start, gpus) =
            eq_of_some (ok-injective (rw (q, first_start) at h)) in
          sym (ap (λ z. z.1) e) ∙ try_start_preferred x served q

  pub find_preferred :
      (ledger : Ledger) (start found : Instant) (allow_queue : Bool) (gpus : List ℕ)
      → index ≡ from_ledger ledger clock.now
      → find_earliest_slot ledger config wish start allow_queue clock ≡ ok (some (found, gpus))
      → gpus ≡ preferred
  unfolding find_earliest_slot
  find_preferred ledger start found allow_queue gpus built h =
      let (_, _, k) = >>=-eq-ok (validate_ledger_policy ledger config) _ h in
      first_start_preferred _ found gpus (rw (← built) at k)

  -- A search that does not queue tries its start only.
  pub find_exact_preferred :
      (ledger : Ledger) (start found : Instant) (gpus : List ℕ)
      → index ≡ from_ledger ledger clock.now
      → find_earliest_slot ledger config wish start false clock ≡ ok (some (found, gpus))
      → (found ≡ start) × (gpus ≡ preferred) × IsSlot index config wish clock.now start preferred
  unfolding find_earliest_slot first_start
  find_exact_preferred ledger start found gpus built h =
      let (_, _, k) = >>=-eq-ok (validate_ledger_policy ledger config) _ h in
      by_attempt (try_start index config wish clock start) refl (rw (← built) at k)
    where
      by_attempt :
          (attempt : Result (Option (List ℕ)))
          → try_start index config wish clock start ≡ attempt
          → first_start index config wish clock (start ∷ []) ≡ ok (some (found, gpus))
          → (found ≡ start)
            × (gpus ≡ preferred)
            × IsSlot index config wish clock.now start preferred
      by_attempt (err e) q k =
          let k' : ◌≡◌ {A = Result (Option (ℕ × List ℕ))} (err e) (ok (some (found, gpus))) =
            rw (q, first_start) at k in
          cc
      by_attempt (ok none) q k =
          let k' : ◌≡◌ {A = Result (Option (ℕ × List ℕ))} (ok none) (ok (some (found, gpus))) =
            rw (q, first_start) at k in
          cc
      by_attempt (ok (some served)) q k =
          let e : ◌≡◌ {A = ℕ × List ℕ} (start, served) (found, gpus) =
            eq_of_some (ok-injective (rw (q, first_start) at k)) in
          let same = try_start_preferred start served q in
          (
            sym (ap (λ x. x.0) e),
            sym (ap (λ x. x.1) e) ∙ same,
            subst (IsSlot index config wish clock.now start) same
                (try_start-IsSlot index config wish clock start served q),
          )
