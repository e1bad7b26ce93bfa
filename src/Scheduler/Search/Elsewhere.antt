-- ===== src/Scheduler/Search/Elsewhere.antt =====
-- A start that serves a wish makes another serve it, if each GPU that is free at the one is free at
-- the other and the policy that allows the one allows the other.
use gpubk.Prelude.{
  ℕ, suc, ◌+◌, ◌≤◌, ◌<◌, ◌≡◌, refl, ap, ◌∙◌, inl, inr, true, not, Option, none, some, List, [], ◌∷◌,
  arith, ltb, ◌==◌, if◌then◌else◌, elem, select, length, Bool-cases, Option-cases, eq→==,
}
use gpubk.Models.{Config}
use gpubk.Errors.{Result, ok, >>=-eq-ok, ok-injective}
use gpubk.ScheduleIndex.{build}
use gpubk.ScheduleIndex.Spans.{ReservationSpan}
use gpubk.Scheduler.Reasons.{Reason}
use gpubk.Scheduler.Availability.{availability_detail_indexed}
use gpubk.Scheduler.Gpus.{normalize_excluded_gpus, normalize_gpu_order}
use gpubk.Scheduler.Horizon.{booking_policy_conflict}
use gpubk.Scheduler.Placement.Ranking.{Candidate}
use gpubk.Scheduler.Placement.{
  Ask, demand_of, Readings, Scan, noted, scan_gpus, chosen, choose_from, within_policy,
  find_available_gpus_indexed, all_free, preferred_at, scanned_at, at_start_within, gpus_at_start,
}
use gpubk.Scheduler.Placement.Chosen.{length-chosen}
use gpubk.Scheduler.Search.{Clock, Wish, try_start}

length-noted-le :
    (later earlier : Option Reason) (x y : Candidate) (xs ys : Scan)
    → (later ≡ none → earlier ≡ none)
    → length xs.available ≤ length ys.available
    → length (noted later x xs).available ≤ length (noted earlier y ys).available
unfolding noted
length-noted-le none none x y xs ys f h = omega arith
length-noted-le none (some r) x y xs ys f h = cc (f refl)
length-noted-le (some q) none x y xs ys f h = omega arith
length-noted-le (some q) (some r) x y xs ys f h = h

-- A call that returns `count` GPUs.
abbrev Finds : {A : Type 0} → ℕ → (A → List ℕ) → Result A → Type 0
Finds {A} count f r = (a : A) × (r ≡ ok a) × (length (f a) ≡ count)

-- GPUs that are free at `s` and policies that allow it, both also at `c`.
module _ (spans : List ReservationSpan) (config : Config) (count c s duration : ℕ) (ask : Ask)
    (counted : 0 < count)
    (frees : (gpu : ℕ)
      → availability_detail_indexed (build spans) gpu s (s + duration) (demand_of config ask) ≡ none
      → availability_detail_indexed (build spans) gpu c (c + duration) (demand_of config ask)
        ≡ none)
    (earliest : ℕ)
    (allows : (now : ℕ)
      → earliest ≤ now
      → booking_policy_conflict config s (s + duration) now ≡ none
      → booking_policy_conflict config c (c + duration) now ≡ none) where
  length-scan_gpus-le :
      (scores : List (ℕ × ℕ)) (rank : ℕ) (order : List ℕ)
      → length (scan_gpus (build spans) config s (s + duration) ask scores rank order).available
        ≤ length (scan_gpus (build spans) config c (c + duration) ask scores rank order).available
  unfolding scan_gpus
  length-scan_gpus-le scores rank [] = omega arith
  length-scan_gpus-le scores rank (gpu ∷ rest) =
      length-noted-le _ _ _ _ _ _ (frees gpu) (length-scan_gpus-le scores (suc rank) rest)

  length-choose_from :
      (scores : List (ℕ × ℕ)) (excluded order : List ℕ)
      → length (choose_from (build spans) config count s (s + duration) ask scores excluded order).0
        ≡ count
      → length (choose_from (build spans) config count c (c + duration) ask scores excluded order).0
        ≡ count
  unfolding choose_from
  length-choose_from scores excluded order h = elim (Bool-cases (ltb (length order) count)) [
    | inl few ↦ absurd (let z : 0 ≡ count = rw (few, choose_from) at h in omega arith)
    | inr enough ↦
        rw enough
          (enough_chosen _ _ (rw (enough, choose_from) at h) (length-scan_gpus-le scores 0 order))
  ]
    where
      enough_chosen :
          (later earlier : Scan)
          → length (chosen count later).0 ≡ count
          → length later.available ≤ length earlier.available
          → length (chosen count earlier).0 ≡ count
      enough_chosen later earlier e k =
          omega (arith, length-chosen count later, length-chosen count earlier)

  all_free-elsewhere :
      (excluded preferred : List ℕ)
      → all_free (build spans) config s (s + duration) ask excluded preferred ≡ true
      → all_free (build spans) config c (c + duration) ask excluded preferred ≡ true
  unfolding all_free
  all_free-elsewhere excluded [] h = refl
  all_free-elsewhere excluded (gpu ∷ rest) h =
      ground (arith, frees gpu, all_free-elsewhere excluded rest)

  within_policy-elsewhere :
      (order : Option (List ℕ)) (scores : List (ℕ × ℕ)) (excluded : Option (List ℕ))
      → Finds count
          (λ x. x.0)
          (within_policy (build spans) config count s (s + duration) ask order scores excluded)
      → Finds count
          (λ x. x.0)
          (within_policy (build spans) config count c (c + duration) ask order scores excluded)
  unfolding within_policy
  within_policy-elsewhere order scores excluded (found, h, e) =
      let (banned, h1, k) = >>=-eq-ok (normalize_excluded_gpus excluded config) _ h in
      let (configured, h2, last) = >>=-eq-ok (normalize_gpu_order order config) _ k in
      let allowed : List ℕ = select (λ gpu. not (elem gpu banned)) configured in
      (
        choose_from (build spans) config count c (c + duration) ask scores banned allowed,
        rw (h1, h2),
        length-choose_from scores banned allowed
            (ap (λ (x : List ℕ × List Reason). length x.0) (ok-injective last) ∙ e),
      )

  find_available-elsewhere :
      (order : Option (List ℕ)) (scores : List (ℕ × ℕ)) (excluded : Option (List ℕ)) (now : ℕ)
      → earliest ≤ now
      → Finds count
          (λ x. x.0)
          (find_available_gpus_indexed
            (build spans)
            config
            count
            s
            (s + duration)
            ask
            order
            scores
            excluded
            now)
      → Finds count
          (λ x. x.0)
          (find_available_gpus_indexed
            (build spans)
            config
            count
            c
            (c + duration)
            ask
            order
            scores
            excluded
            now)
  unfolding find_available_gpus_indexed
  find_available-elsewhere order scores excluded now recent (found, h, e) =
      elim (Option-cases (booking_policy_conflict config s (s + duration) now)) [
        | inl within ↦
            let (found', h', e') =
              within_policy-elsewhere order scores excluded
                (found, rw (within, find_available_gpus_indexed) at h, e) in
            (found', rw (allows now recent within, find_available_gpus_indexed) h', e')
        | inr (reason, beyond) ↦
            let same = ok-injective (rw (beyond, find_available_gpus_indexed) at h) in
            absurd (nothing found (ap (λ (x : List ℕ × List Reason). length x.0) same) e)
      ]
    where
      nothing : (x : List ℕ × List Reason) → 0 ≡ length x.0 → length x.0 ≡ count → ⊥
      nothing x a b = omega arith

  preferred_at-elsewhere :
      (excluded preferred : List ℕ)
      → length (preferred_at (build spans) config count s duration ask excluded preferred) ≡ count
      → length (preferred_at (build spans) config count c duration ask excluded preferred) ≡ count
  unfolding preferred_at
  preferred_at-elsewhere excluded preferred h =
      ground (arith, all_free-elsewhere excluded preferred)

  at_start_within-elsewhere :
      (preferred order : Option (List ℕ)) (scores : List (ℕ × ℕ)) (now : ℕ) (excluded : List ℕ)
      → earliest ≤ now
      → Finds count
          (λ x. x)
          (at_start_within
            (build spans)
            config
            count
            s
            duration
            ask
            preferred
            order
            scores
            now
            excluded)
      → Finds count
          (λ x. x)
          (at_start_within
            (build spans)
            config
            count
            c
            duration
            ask
            preferred
            order
            scores
            now
            excluded)
  unfolding at_start_within scanned_at
  at_start_within-elsewhere (some preferred) order scores now excluded recent (found, h, e) = (
    preferred_at (build spans) config count c duration ask excluded preferred,
    refl,
    preferred_at-elsewhere excluded preferred (ap length (ok-injective h) ∙ e),
  )
  at_start_within-elsewhere none order scores now excluded recent (found, h, e) =
      let (pair, h1, last) =
        >>=-eq-ok
          (find_available_gpus_indexed (build spans) config count s (s + duration) ask order scores
            (some excluded) now)
          _ h in
      let (pair', h', e') =
        find_available-elsewhere order scores (some excluded) now recent
          (pair, h1, ap length (ok-injective last) ∙ e) in
      (pair'.0, rw h', e')

  gpus_at_start-elsewhere :
      (preferred order : Option (List ℕ)) (scores : List (ℕ × ℕ)) (excluded : Option (List ℕ))
      (readings : Readings)
      → earliest ≤ readings.at_start
      → earliest ≤ readings.at_scan
      → Finds count
          (λ x. x)
          (gpus_at_start
            (build spans)
            config
            count
            s
            duration
            ask
            preferred
            order
            scores
            excluded
            readings)
      → Finds count
          (λ x. x)
          (gpus_at_start
            (build spans)
            config
            count
            c
            duration
            ask
            preferred
            order
            scores
            excluded
            readings)
  unfolding gpus_at_start
  gpus_at_start-elsewhere preferred order scores excluded readings started scanned (found, h, e) =
      elim (Option-cases (booking_policy_conflict config s (s + duration) readings.at_start)) [
        | inl within ↦
            let (banned, h1, last) =
              >>=-eq-ok (normalize_excluded_gpus excluded config) _
                (rw (within, gpus_at_start) at h) in
            let (found', h', e') =
              at_start_within-elsewhere preferred order scores readings.at_scan banned scanned
                (found, last, e) in
            (found', rw (allows readings.at_start started within, gpus_at_start, h1) h', e')
        | inr (reason, beyond) ↦
            let same = ok-injective (rw (beyond, gpus_at_start) at h) in
            absurd (nothing found (ap length same) e)
      ]
    where
      nothing : (x : List ℕ) → 0 ≡ length x → length x ≡ count → ⊥
      nothing x a b = omega arith

-- A clock that shows the same time throughout a search.
abbrev pub steady : ℕ → Readings → Clock
steady now readings = record { now = now; at = λ _. readings }

module _ (spans : List ReservationSpan) (config : Config) (wish : Wish) (now : ℕ)
    (readings : Readings) (c s : ℕ) (counted : 0 < wish.count) (earliest : ℕ)
    (recent : earliest ≤ now) (started : earliest ≤ readings.at_start)
    (scanned : earliest ≤ readings.at_scan) where
  pub try_start-elsewhere :
      ((gpu : ℕ)
        → availability_detail_indexed
            (build spans)
            gpu
            s
            (s + wish.duration)
            (demand_of config wish.ask)
          ≡ none
        → availability_detail_indexed
            (build spans)
            gpu
            c
            (c + wish.duration)
            (demand_of config wish.ask)
          ≡ none)
      → ((n : ℕ)
          → earliest ≤ n
          → booking_policy_conflict config s (s + wish.duration) n ≡ none
          → booking_policy_conflict config c (c + wish.duration) n ≡ none)
      → (gpus : List ℕ)
      → try_start (build spans) config wish (steady now readings) s ≡ ok (some gpus)
      → (found : List ℕ) × (try_start (build spans) config wish (steady now readings) c
          ≡ ok (some found))
  unfolding try_start
  try_start-elsewhere frees allows gpus h =
      elim (Option-cases (booking_policy_conflict config s (s + wish.duration) now)) [
        | inl within ↦
            let (found, h1, last) = >>=-eq-ok _ _ (rw (within, try_start) at h) in
            let (found', h', e') =
              gpus_at_start-elsewhere spans config wish.count c s wish.duration wish.ask counted
                frees earliest allows wish.preferred_gpus wish.gpu_order wish.gpu_scores
                wish.excluded_gpus readings started scanned
                (found, h1, complete found (ok-injective last)) in
            (found', rw (allows now recent within, try_start, h', eq→== _ _ e'))
        | inr (reason, beyond) ↦
            let h' : ◌≡◌ {A = Result (Option (List ℕ))} (ok none) (ok (some gpus)) =
              rw (beyond, try_start) at h in
            cc
      ]
    where
      complete :
          (found : List ℕ)
          → (if length found == wish.count then some found else none) ≡ some gpus
          → length found ≡ wish.count
      complete found e = ground arith
