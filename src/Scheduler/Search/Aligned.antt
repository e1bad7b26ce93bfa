-- ===== src/Scheduler/Search/Aligned.antt =====
-- The starts that the search returns lie on slot boundaries.
use gpubk.Prelude.{
  ℕ, ◌≡◌, sym, subst, Bool, true, false, some, List, [], ◌∷◌, leb, if◌then◌else◌, All, All-In,
  Bool-cases, inl, inr, ◌⊎◌, ==→eq, In, In-All,
}
use gpubk.Prelude.Ascending.{add, add-In}
use gpubk.Models.{Instant, Blackout, Ledger, Config}
use gpubk.Granularity.{floor_to_slot, ceil_to_slot, is_slot_aligned}
use gpubk.Granularity.Slots.{IsAligned, floor-IsAligned, ceil-IsAligned}
use gpubk.Errors.{ok, >>=-eq-ok, ok-injective}
use gpubk.Policy.{validate_ledger_policy}
use gpubk.ScheduleIndex.{ReservationIndex, from_ledger}
use gpubk.ScheduleIndex.Spans.{ReservationSpan}
use gpubk.Scheduler.Search.{
  normalize_queue_start, normalize_start, add_ends, candidate_starts_from_index, add_blackout_ends,
  queue_candidates, Clock, Wish, find_earliest_slot, search_start_of, search_until_of,
}
use gpubk.Scheduler.Search.Sound.{first_start-IsSlot}

aligned_by_test : (t m : ℕ) → is_slot_aligned t m ≡ true → IsAligned m t
unfolding is_slot_aligned
aligned_by_test t m h =
    subst (IsAligned m) (sym (==→eq t (floor_to_slot t m) h)) (floor-IsAligned t m)

normalize_queue_start-IsAligned :
    (start now m : ℕ) → IsAligned m (normalize_queue_start start now m)
unfolding normalize_queue_start
normalize_queue_start-IsAligned start now m = elim (Bool-cases (leb start now)) [
  | inl past ↦ rw past (floor-IsAligned now m)
  | inr future ↦ rw future (ceil-IsAligned start m)
]

pub normalize_start-IsAligned :
    (start : Instant) (allow_queue : Bool) (now : Instant) (m : ℕ) (s : Instant)
    → normalize_start start allow_queue now m ≡ ok s
    → IsAligned m s
unfolding normalize_start
normalize_start-IsAligned start true now m s h =
    subst (IsAligned m) (ok-injective h) (normalize_queue_start-IsAligned start now m)
normalize_start-IsAligned start false now m s h = elim (Bool-cases (is_slot_aligned start m)) [
  | inl fits ↦
      subst (IsAligned m) (ok-injective (rw (fits, normalize_start) at h))
        (aligned_by_test start m fits)
  | inr other ↦ let e = rw (other, normalize_start) at h in cc
]

add-All : (P : ℕ → Type 0) (p : ℕ) (s : List ℕ) → P p → All P s → All P (add p s)
add-All P p s new old = In-All P (add p s) (λ a m. member a (add-In p s a m))
  where
    member : (a : ℕ) → (a ≡ p) ⊎ In a s → P a
    member a (inl e) = subst P (sym e) new
    member a (inr m) = All-In P s old a m

add_if :
    (m p : ℕ) (b : Bool) (s : List ℕ)
    → IsAligned m p
    → All (IsAligned m) s
    → All (IsAligned m) (if b then add p s else s)
add_if m p true s new old = add-All (IsAligned m) p s new old
add_if m p false s new old = old

add_ends-IsAligned :
    (spans : List ReservationSpan) (from until : Instant) (m : ℕ) (candidates : List ℕ)
    → All (IsAligned m) candidates
    → All (IsAligned m) (add_ends spans from until m candidates)
unfolding add_ends
add_ends-IsAligned [] from until m candidates h = h
add_ends-IsAligned (r ∷ rest) from until m candidates h =
    add_ends-IsAligned rest from until m _
      (add_if m (ceil_to_slot r.end m) _ candidates (ceil-IsAligned r.end m) h)

add_blackout_ends-IsAligned :
    (windows : List Blackout) (from until : Instant) (m : ℕ) (candidates : List ℕ)
    → All (IsAligned m) candidates
    → All (IsAligned m) (add_blackout_ends windows from until m candidates)
unfolding add_blackout_ends
add_blackout_ends-IsAligned [] from until m candidates h = h
add_blackout_ends-IsAligned (w ∷ rest) from until m candidates h =
    add_blackout_ends-IsAligned rest from until m _
      (add_if m (ceil_to_slot w.end_at m) _ candidates (ceil-IsAligned w.end_at m) h)

queue_candidates-IsAligned :
    (index : ReservationIndex) (config : Config) (from until : Instant)
    → All (IsAligned config.slot_minutes) (queue_candidates index config from until)
unfolding queue_candidates candidate_starts_from_index
queue_candidates-IsAligned index config from until =
    add_blackout_ends-IsAligned config.booking_blackouts from until config.slot_minutes _ (
      add_ends-IsAligned index.spans from until config.slot_minutes _ (
        add-All (IsAligned config.slot_minutes) (ceil_to_slot from config.slot_minutes) []
          (ceil-IsAligned from config.slot_minutes) tt))

-- A search from an aligned start returns an aligned start.
pub find_earliest_slot-IsAligned :
    (ledger : Ledger) (config : Config) (wish : Wish) (start : Instant) (allow_queue : Bool)
    (clock : Clock) (found : Instant) (gpus : List ℕ)
    → find_earliest_slot ledger config wish start allow_queue clock ≡ ok (some (found, gpus))
    → IsAligned config.slot_minutes start
    → IsAligned config.slot_minutes found
unfolding find_earliest_slot
find_earliest_slot-IsAligned ledger config wish start allow_queue clock found gpus h aligned =
    let (_, _, k) = >>=-eq-ok (validate_ledger_policy ledger config) _ h in
    All-In (IsAligned config.slot_minutes) _ (all_aligned allow_queue) found
      (first_start-IsSlot (from_ledger ledger clock.now) config wish clock _ found gpus k).0
  where
    all_aligned :
        (queue : Bool)
        → All (IsAligned config.slot_minutes) (
            if queue
            then queue_candidates
                (from_ledger ledger clock.now)
                config
                (search_start_of config start allow_queue clock.now)
                (search_until_of config
                  (search_start_of config start allow_queue clock.now)
                  clock.now)
            else start ∷ [])
    all_aligned true = queue_candidates-IsAligned (from_ledger ledger clock.now) config _ _
    all_aligned false = (aligned, tt)
