-- ===== src/Scheduler/Search/Earliest.antt =====
-- `find_earliest_slot` misses no start: what it returns is at or before every aligned start in its
-- range that serves.
use gpubk.Prelude.{
  ℕ, ◌+◌, ◌≤◌, ◌<◌, ◌≡◌, refl, inl, inr, true, Option, none, some, List, [], ◌∷◌, arith, In,
  Option-cases, sym, ◌∙◌, subst, length, ◌==◌, if◌then◌else◌,
}
use gpubk.Prelude.Ascending.{IsAscending, IsFrom, IsFrom-le}
use gpubk.Models.{Config, Ledger, is_active}
use gpubk.Errors.{Result, ok, err, ◌>>=◌}
use gpubk.Granularity.Slots.{IsAligned, ceil_least}
use gpubk.Policy.{validate_ledger_policy}
use gpubk.ScheduleIndex.{collect, build, from_ledger}
use gpubk.ScheduleIndex.Spans.{ReservationSpan}
use gpubk.Scheduler.Gpus.{normalize_excluded_gpus, normalize_gpu_order}
use gpubk.Scheduler.Gpus.Scope.{normalize_excluded_again}
use gpubk.Scheduler.Horizon.{booking_policy_conflict}
use gpubk.Scheduler.Placement.{
  Readings, within_policy, find_available_gpus_indexed, scanned_at, at_start_within, gpus_at_start,
}
use gpubk.Scheduler.Search.{
  Clock, Wish, try_start, first_start, search_start_of, search_until_of, find_earliest_slot,
}
use gpubk.Scheduler.Search.Elsewhere.{steady}
use gpubk.Scheduler.Search.Earlier.{try_start-earlier}
use gpubk.Scheduler.Search.Candidates.{
  IsLast-upto, queue_candidates-IsAscending, first-In, last-quiet, last-calm,
}
use gpubk.Scheduler.Search.Sound.{IsSlot, first_start-IsSlot}

-- The lists of a wish are such that no start raises.
pub record IsPrepared (config : Config) (wish : Wish) : Type 0 where
  pub banned : List ℕ
  pub configured : List ℕ
  pub excluded_ok : normalize_excluded_gpus wish.excluded_gpus config ≡ ok banned
  pub order_ok : normalize_gpu_order wish.gpu_order config ≡ ok configured

abbrev pub Returns : {A : Type 0} → Result A → Type 0
Returns {A} r = (a : A) × (r ≡ ok a)

Returns-bind :
    {A B : Type 0} (m : Result A) (f : A → Result B)
    → Returns m
    → ((a : A) → Returns (f a))
    → Returns (m >>= f)
Returns-bind (ok a) f h k = k a
Returns-bind (err e) f (a, h) k = cc

module _ (spans : List ReservationSpan) (config : Config) (wish : Wish) (clock : Clock)
    (prepared : IsPrepared config wish) where
  within_policy-Returns :
      (x : ℕ) (banned : List ℕ)
      → normalize_excluded_gpus wish.excluded_gpus config ≡ ok banned
      → Returns (
          within_policy
            (build spans)
            config
            wish.count
            x
            (x + wish.duration)
            wish.ask
            wish.gpu_order
            wish.gpu_scores
            (some banned))
  unfolding within_policy
  within_policy-Returns x banned e =
      Returns-bind _ _ (normalize_excluded_again config wish.excluded_gpus banned e) λ excluded.
        Returns-bind _ _ (prepared.configured, prepared.order_ok) λ configured. (_, refl)

  find_available-Returns :
      (x now : ℕ) (banned : List ℕ)
      → normalize_excluded_gpus wish.excluded_gpus config ≡ ok banned
      → Returns (
          find_available_gpus_indexed
            (build spans)
            config
            wish.count
            x
            (x + wish.duration)
            wish.ask
            wish.gpu_order
            wish.gpu_scores
            (some banned)
            now)
  unfolding find_available_gpus_indexed
  find_available-Returns x now banned e =
      elim (Option-cases (booking_policy_conflict config x (x + wish.duration) now)) [
        | inl within ↦
            let (found, h) = within_policy-Returns x banned e in
            (found, rw (within, find_available_gpus_indexed) h)
        | inr (reason, beyond) ↦ (([], reason ∷ []), rw (beyond, find_available_gpus_indexed))
      ]

  at_start_within-Returns :
      (x now : ℕ) (preferred : Option (List ℕ)) (banned : List ℕ)
      → normalize_excluded_gpus wish.excluded_gpus config ≡ ok banned
      → Returns (
          at_start_within
            (build spans)
            config
            wish.count
            x
            wish.duration
            wish.ask
            preferred
            wish.gpu_order
            wish.gpu_scores
            now
            banned)
  unfolding at_start_within scanned_at
  at_start_within-Returns x now (some preferred) banned e = (_, refl)
  at_start_within-Returns x now none banned e =
      Returns-bind _ _ (find_available-Returns x now banned e) λ found. (found.0, refl)

  gpus_at_start-Returns :
      (x : ℕ) (readings : Readings)
      → Returns (
          gpus_at_start
            (build spans)
            config
            wish.count
            x
            wish.duration
            wish.ask
            wish.preferred_gpus
            wish.gpu_order
            wish.gpu_scores
            wish.excluded_gpus
            readings)
  unfolding gpus_at_start
  gpus_at_start-Returns x readings =
      elim (Option-cases (booking_policy_conflict config x (x + wish.duration) readings.at_start)) [
        | inl within ↦
            let (found, h) =
              at_start_within-Returns x readings.at_scan wish.preferred_gpus prepared.banned
                prepared.excluded_ok in
            (found, rw (within, gpus_at_start, prepared.excluded_ok) h)
        | inr (reason, beyond) ↦ ([], rw (beyond, gpus_at_start))
      ]

  pub try_start-Returns : (x : ℕ) → Returns (try_start (build spans) config wish clock x)
  unfolding try_start
  try_start-Returns x =
      elim (Option-cases (booking_policy_conflict config x (x + wish.duration) clock.now)) [
        | inl within ↦
            let (found, h) = gpus_at_start-Returns x (clock.at x) in
            ((if length found == wish.count then some found else none), rw (within, try_start, h))
        | inr (reason, beyond) ↦ (none, rw (beyond, try_start))
      ]

  module _ (c : ℕ) (gpus : List ℕ)
      (serves : try_start (build spans) config wish clock c ≡ ok (some gpus)) where
    first_start-le :
        (cs : List ℕ)
        → IsAscending cs
        → In c cs
        → (start : ℕ) × (found : List ℕ) × (first_start (build spans) config wish clock cs
            ≡ ok (some (start, found)))
          × (start ≤ c)
    unfolding first_start
    first_start-le [] h m = absurd m
    first_start-le (y ∷ ys) h m =
        at_head (try_start (build spans) config wish clock y) refl
          (first_start-le ys (tail_ascends ys h))
      where
        tail_ascends : (zs : List ℕ) → IsFrom y zs → IsAscending zs
        tail_ascends [] k = tt
        tail_ascends (z ∷ zs) k = k.1

        at_head :
            (r : Result (Option (List ℕ)))
            → try_start (build spans) config wish clock y ≡ r
            → (In c ys
                → (start : ℕ) × (found : List ℕ) × (first_start (build spans) config wish clock ys
                    ≡ ok (some (start, found)))
                  × (start ≤ c))
            → (start : ℕ) × (found : List ℕ) × (first_start (build spans) config wish clock (y ∷ ys)
                ≡ ok (some (start, found)))
              × (start ≤ c)
        at_head (err e) q ih = let (r, k) = try_start-Returns y in absurd (cc (q, k))
        at_head (ok (some found)) q ih =
            (y, found, rw (q, first_start), ground (arith, IsFrom-le y ys c h))
        at_head (ok none) q ih =
            let (start, found, k, le) = ih (elsewhere m) in
            (start, found, rw (q, first_start) k, le)
          where
            elsewhere : In c (y ∷ ys) → In c ys
            elsewhere (inl e) =
                let k : ◌≡◌ {A = Result (Option (List ℕ))} (ok none) (ok (some gpus)) =
                  sym q
                  ∙ subst (λ z. try_start (build spans) config wish clock z ≡ ok (some gpus)) e
                      serves in
                absurd (cc)
            elsewhere (inr n) = n

-- With a clock that stands still during the search and lists that normalise, a queued search whose
-- range holds an aligned start at which the wish can be served returns a slot at or before that
-- start, and the slot serves the wish: no earlier opportunity is missed by trying only the ends of
-- reservations and blackouts.
pub find_earliest_slot_earliest :
    (ledger : Ledger) (config : Config) (wish : Wish) (earliest now s : ℕ) (readings : Readings)
    (gpus : List ℕ)
    → validate_ledger_policy ledger config ≡ ok tt
    → IsPrepared config wish
    → 0 < config.slot_minutes
    → 0 < wish.duration
    → 0 < wish.count
    → IsAligned config.slot_minutes s
    → search_start_of config earliest true now ≤ s
    → s ≤ search_until_of config (search_start_of config earliest true now) now
    → try_start (from_ledger ledger now) config wish (steady now readings) s ≡ ok (some gpus)
    → (start : ℕ) × (found : List ℕ) × (find_earliest_slot ledger config wish earliest true
          (steady now readings)
        ≡ ok (some (start, found)))
      × (start ≤ s)
      × IsSlot (from_ledger ledger now) config wish now start found
unfolding find_earliest_slot from_ledger
find_earliest_slot_earliest ledger config wish earliest now s readings gpus valid prepared slotted
      lasting counted aligned from upto serves =
    let spans = collect is_active now ledger.reservations in
    let lo = search_start_of config earliest true now in
    let until = search_until_of config lo now in
    let clock = steady now readings in
    let (c, last) =
      IsLast-upto s _ _ (first-In config spans lo until slotted)
        (ceil_least lo config.slot_minutes s slotted aligned from) in
    let (found, there) =
      try_start-earlier spans config wish now readings c s lasting counted gpus serves last.le
        (last-quiet config spans lo until slotted s c aligned from upto last)
        (last-calm config spans lo until slotted s c aligned from upto last) in
    let (start, chosen, first, before) =
      first_start-le spans config wish clock prepared c found there _
        (queue_candidates-IsAscending config spans lo until slotted) last.member in
    (
      start,
      chosen,
      rw valid first,
      omega (arith, last.le, before),
      (first_start-IsSlot (build spans) config wish clock _ start chosen first).1,
    )
