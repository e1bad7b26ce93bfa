-- ===== src/Scheduler/Violations/Complete.antt =====
-- The audit misses nothing: without a violation the ledger is sound.
use gpubk.Prelude.{
  ℕ, ◌+◌, ◌≤◌, ◌≡◌, inl, inr, refl, ap, true, false, List, [], ◌∷◌, map, arith, ltb, leb, ◌&&◌,
  if◌then◌else◌, elem, elem-In, Bool-cases, In,
}
use gpubk.Prelude.Ascending.{from_list, In-from_list}
use gpubk.Models.{Instant, Reservation, Ledger, is_active}
use gpubk.Scheduler.Occupancy.{held, shared_units, IsSound}
use gpubk.Scheduler.Violations.{
  Violation, list_active, find_invalid_share_unit_violations, find_exclusive_overlap_violations,
  named_gpus, find_shared_capacity_violations, violation_before, insert_violation,
  sorted_violations, find_policy_violations,
}
use gpubk.ScheduleIndex.{from_ledger, records, build, collect, span_of}
use gpubk.ScheduleIndex.Spans.{ReservationSpan, span_before, insert_span, sorted_spans}
use gpubk.Scheduler.Occupancy.{Weight, counts}
use gpubk.Scheduler.Occupancy.Fewer.{IsSoundAt-fewer}
use gpubk.Prelude.{not_elem, append-In_left, append-In_right}
use gpubk.Scheduler.Violations.Segments.{append_none, gpu_within, capacity_none}
use gpubk.Scheduler.Violations.Apart.{overlaps-alone}

insert_violation-kept : (x : Violation) (ys : List Violation) → insert_violation x ys ≡ [] → ⊥
unfolding insert_violation
insert_violation-kept x [] h = cc
insert_violation-kept x (y ∷ ys) h = elim (Bool-cases (violation_before y x)) [
  | inl later ↦ let h' = rw (later, insert_violation) at h in cc
  | inr first ↦ let h' = rw (first, insert_violation) at h in cc
]

sorted_violations_none : (xs : List Violation) → sorted_violations xs ≡ [] → xs ≡ []
unfolding sorted_violations
sorted_violations_none [] h = refl
sorted_violations_none (x ∷ xs) h = absurd (insert_violation-kept x (sorted_violations xs) h)

-- The weight of the reservations of a list of spans.
abbrev spans_held : Weight → ℕ → Instant → List ReservationSpan → ℕ
spans_held weight gpu t spans = held weight gpu t (map (λ span. span.reservation) spans)

insert_span-held :
    (weight : Weight) (gpu : ℕ) (t : Instant) (x : ReservationSpan) (ys : List ReservationSpan)
    → spans_held weight gpu t (insert_span x ys)
      ≡ counts weight gpu t x.reservation + spans_held weight gpu t ys
unfolding insert_span
insert_span-held weight gpu t x [] = refl
insert_span-held weight gpu t x (y ∷ ys) = elim (Bool-cases (span_before y x)) [
  | inl later ↦ rw later (omega (arith, insert_span-held weight gpu t x ys))
  | inr first ↦ rw first refl
]

sorted_spans-held :
    (weight : Weight) (gpu : ℕ) (t : Instant) (xs : List ReservationSpan)
    → spans_held weight gpu t (sorted_spans xs) ≡ spans_held weight gpu t xs
unfolding sorted_spans
sorted_spans-held weight gpu t [] = refl
sorted_spans-held weight gpu t (x ∷ xs) =
    omega
      (arith, insert_span-held weight gpu t x (sorted_spans xs), sorted_spans-held weight gpu t xs)

collect-held :
    (weight : Weight) (gpu : ℕ) (t now : Instant) (rs : List Reservation)
    → now ≤ t
    → held weight gpu t rs ≤ spans_held weight gpu t (collect is_active now rs)
unfolding collect
collect-held weight gpu t now [] h = omega arith
collect-held weight gpu t now (r ∷ rs) h =
    let ih = collect-held weight gpu t now rs h in
    elim (Bool-cases (is_active r.status)) [
      | inr ended ↦ rw ended (omega (arith, ih))
      | inl runs ↦ elim (Bool-cases (leb r.end_at now)) [
        | inr future ↦ omega (arith, ih, ap (spans_held weight gpu t) (kept runs future))
        | inl past ↦ rw (runs, past) (gone past ih)
      ]
    ]
  where
    kept :
        is_active r.status ≡ true
        → leb r.end_at now ≡ false
        → collect is_active now (r ∷ rs) ≡ span_of r ∷ collect is_active now rs
    kept runs future = rw (runs, future) refl

    gone :
        leb r.end_at now ≡ true
        → held weight gpu t rs ≤ spans_held weight gpu t (collect is_active now rs)
        → (if elem gpu r.gpus && (leb r.start_at t && ltb t r.end_at)
              then weight r.mode r.share_units
              else 0)
            + held weight gpu t rs
          ≤ spans_held weight gpu t (collect is_active now rs)
    gone past ih = ground arith

-- From the instant of the listing on, the active list holds all that the ledger holds.
held-list_active :
    (weight : Weight) (gpu : ℕ) (t now : Instant) (ledger : Ledger)
    → now ≤ t
    → held weight gpu t ledger.reservations ≤ held weight gpu t (list_active ledger now)
unfolding list_active from_ledger records build
held-list_active weight gpu t now ledger h = omega (
  arith,
  collect-held weight gpu t now ledger.reservations h,
  sorted_spans-held weight gpu t (collect is_active now ledger.reservations),
)

-- A GPU that no active reservation names holds nothing.
unnamed-held :
    (weight : Weight) (gpu : ℕ) (t : Instant) (active : List Reservation)
    → (In gpu (named_gpus active) → ⊥)
    → held weight gpu t active ≡ 0
unfolding named_gpus
unnamed-held weight gpu t [] h = refl
unnamed-held weight gpu t (r ∷ rest) h =
    let ih =
      unnamed-held weight gpu t rest (λ m. h (append-In_right r.gpus (named_gpus rest) gpu m)) in
    elim (Bool-cases (elem gpu r.gpus)) [
      | inl named ↦
          absurd (h (append-In_left r.gpus (named_gpus rest) gpu (elem-In gpu r.gpus named)))
      | inr unnamed ↦ idle unnamed ih
    ]
  where
    idle : elem gpu r.gpus ≡ false → held weight gpu t rest ≡ 0 → held weight gpu t (r ∷ rest) ≡ 0
    idle unnamed ih = ground arith

active_within :
    (gpu t limit : ℕ) (active : List Reservation)
    → find_shared_capacity_violations active limit ≡ []
    → held (shared_units limit) gpu t active ≤ limit
unfolding find_shared_capacity_violations
active_within gpu t limit active h = elim (Bool-cases (elem gpu (named_gpus active))) [
  | inl named ↦ gpu_within gpu t limit active (
      capacity_none (from_list (named_gpus active)) active limit gpu h
        (In-from_list gpu (named_gpus active) (elem-In gpu (named_gpus active) named)))
  | inr unnamed ↦ omega (
    arith,
    unnamed-held (shared_units limit) gpu t active (not_elem gpu (named_gpus active) unnamed),
  )
]

-- Where the audit at an instant reports no violation, the ledger is sound from that instant on:
-- at each later instant and on every GPU the share units stay within the limit, and an exclusive
-- reservation stands alone.
pub find_policy_violations_complete :
    (ledger : Ledger) (max_shared_users : ℕ) (now : Instant)
    → find_policy_violations ledger max_shared_users now ≡ []
    → IsSound max_shared_users now ledger.reservations
unfolding find_policy_violations
find_policy_violations_complete ledger max_shared_users now h gpu t later =
    let active = list_active ledger now in
    let (_, rest) =
      append_none (find_invalid_share_unit_violations active max_shared_users) _
        (sorted_violations_none _ h) in
    let (overlapping, capacity) = append_none (find_exclusive_overlap_violations active) _ rest in
    IsSoundAt-fewer max_shared_users gpu t ledger.reservations active
      (λ weight. held-list_active weight gpu t now ledger later)
      (record {
        within = active_within gpu t max_shared_users active capacity;
        alone = overlaps-alone gpu t active overlapping;
      })
