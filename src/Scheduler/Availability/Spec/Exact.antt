-- ===== src/Scheduler/Availability/Spec/Exact.antt =====
-- `availability_detail_indexed` accepts exactly the requests that fit at every instant.
use gpubk.Prelude.{
  ℕ, ◌+◌, ◌≤◌, ◌<◌, ◌≡◌, ◌↔◌, ◌⊎◌, inl, inr, refl, true, false, none, some, List, [], ◌∷◌, arith,
  any, In, All, In-All, In-select, Bool-cases,
}
use gpubk.Prelude.Ascending.{adjacent, adjacent-IsGap, adjacent_covers}
use gpubk.Models.{Instant, Mode, shared, exclusive, unsupported, int, pos}
use gpubk.Sharing.{Checked, accepted, refused, normalize_share_units}
use gpubk.Sharing.Units.{normalize-int, normalize-int-accepted}
use gpubk.ScheduleIndex.{build, overlapping}
use gpubk.ScheduleIndex.Spans.{ReservationSpan}
use gpubk.ScheduleIndex.Overlap.{overlaps_span, overlapping_lem}
use gpubk.Scheduler.Loads.{
  shared_in, units_of, memory_of, shared_capacity_units_in_spans, shared_memory_in_spans,
}
use gpubk.Scheduler.Availability.{
  Demand, capacity_of, is_exclusive_span, points_of, segment_check, check_segments, shared_detail,
  exclusive_detail, mode_detail, availability_detail_indexed,
}
use gpubk.Scheduler.Availability.Segments.{
  shared_at, AllOverlap, points_of-IsAscending, ends-In, gap-shared_at, shared_at-shared_in,
  sum_of-select-le,
}
use gpubk.Scheduler.Availability.Spec.{usable_of, requested_of, RoomAt, SharedFits, Fits}

any-false :
    (relevant : List ReservationSpan)
    → any is_exclusive_span relevant ≡ false
    → All (λ item. is_exclusive_span item ≡ false) relevant
any-false [] h = tt
any-false (item ∷ rest) h = ground (arith, any-false rest)

false-any :
    (relevant : List ReservationSpan)
    → All (λ item. is_exclusive_span item ≡ false) relevant
    → any is_exclusive_span relevant ≡ false
false-any [] h = refl
false-any (item ∷ rest) h = ground (arith, false-any rest)

exclusive_detail_iff :
    (relevant : List ReservationSpan) (gpu : ℕ)
    → (exclusive_detail relevant gpu ≡ none) ↔ (relevant ≡ [])
unfolding exclusive_detail
exclusive_detail_iff [] gpu = (λ _. refl, λ _. refl)
exclusive_detail_iff (item ∷ rest) gpu = (λ h. ground arith, λ h. cc)

module _ (relevant : List ReservationSpan) (gpu : ℕ) (d : Demand) where
  -- The room of a segment, as the code adds it up.
  record RoomIn (l r : ℕ) : Type 0 where
    units :
        shared_capacity_units_in_spans relevant l r d.max_shared_users + d.share_units
        ≤ d.max_shared_users
    memory :
        (capacity_of gpu d.gpu_memory_capacity_mb ≡ 0)
        ⊎ (shared_memory_in_spans relevant l r (usable_of gpu d) d.max_shared_users
              + requested_of gpu d
            ≤ usable_of gpu d)

  segment_check-RoomIn :
      (l r : ℕ) → l < r → segment_check relevant gpu d d.share_units l r ≡ none → RoomIn l r
  unfolding segment_check
  segment_check-RoomIn l r lt h = ground arith

  RoomIn-segment_check :
      (l r : ℕ) → RoomIn l r → segment_check relevant gpu d d.share_units l r ≡ none
  unfolding segment_check
  RoomIn-segment_check l r room = ground arith

  check_segments-none :
      (pairs : List (ℕ × ℕ)) (l r : ℕ)
      → check_segments relevant gpu d d.share_units pairs ≡ none
      → In (l, r) pairs
      → segment_check relevant gpu d d.share_units l r ≡ none
  unfolding check_segments
  check_segments-none [] l r h m = absurd m
  check_segments-none ((x, y) ∷ rest) l r h m = ground (arith, check_segments-none rest l r)

  none-check_segments :
      (pairs : List (ℕ × ℕ))
      → ((l r : ℕ) → In (l, r) pairs → segment_check relevant gpu d d.share_units l r ≡ none)
      → check_segments relevant gpu d d.share_units pairs ≡ none
  unfolding check_segments
  none-check_segments [] f = refl
  none-check_segments ((x, y) ∷ rest) f =
      ground (arith, f x y (inl refl), none-check_segments rest (λ l r m. f l r (inr m)))

  RoomIn-RoomAt : (l r t : ℕ) → l ≤ t → t < r → RoomIn l r → RoomAt relevant gpu d t
  unfolding shared_capacity_units_in_spans shared_memory_in_spans
  RoomIn-RoomAt l r t a b room =
      let sub = shared_at-shared_in t l r relevant a b in
      let fewer =
        sum_of-select-le (units_of d.max_shared_users) (shared_at t) (shared_in l r) relevant sub in
      let less =
        sum_of-select-le (memory_of (usable_of gpu d) d.max_shared_users) (shared_at t)
          (shared_in l r) relevant sub in
      record {
        units = omega (arith, fewer);
        memory = elim room.memory [ inl e ↦ inl e | inr fits ↦ inr (omega (arith, less)) ];
      }

  RoomAt-RoomIn :
      (l r : ℕ)
      → All (λ item. shared_in l r item ≡ true → shared_at l item ≡ true) relevant
      → RoomAt relevant gpu d l
      → RoomIn l r
  unfolding shared_capacity_units_in_spans shared_memory_in_spans
  RoomAt-RoomIn l r sub room =
      let fewer =
        sum_of-select-le (units_of d.max_shared_users) (shared_in l r) (shared_at l) relevant sub in
      let less =
        sum_of-select-le (memory_of (usable_of gpu d) d.max_shared_users) (shared_in l r)
          (shared_at l) relevant sub in
      record {
        units = omega (arith, fewer);
        memory = elim room.memory [ inl e ↦ inl e | inr fits ↦ inr (omega (arith, less)) ];
      }

  module _ (start end : Instant) (lt : start < end) (all : AllOverlap start end relevant) where
    -- Every segment passes exactly when there is room at every instant.
    segments-room :
        check_segments relevant gpu d d.share_units (adjacent (points_of start end relevant)) ≡ none
        → (t : Instant) → start ≤ t
        → t < end
        → RoomAt relevant gpu d t
    segments-room h t a b =
        let rising = points_of-IsAscending start end relevant in
        let ends = ends-In start end relevant in
        let (l, r, m, c, e) = adjacent_covers _ start t end rising ends.0 ends.1 a b in
        let gap = adjacent-IsGap _ l r rising m in
        RoomIn-RoomAt l r t c e
          (segment_check-RoomIn l r gap.rising (check_segments-none _ l r h m))

    room-segments :
        ((t : Instant) → start ≤ t → t < end → RoomAt relevant gpu d t)
        → check_segments relevant gpu d d.share_units (adjacent (points_of start end relevant))
          ≡ none
    room-segments room = none-check_segments _ λ l r m.
        let gap = adjacent-IsGap _ l r (points_of-IsAscending start end relevant) m in
        let (a, b, sub) = gap-shared_at start end relevant l r lt all gap in
        RoomIn-segment_check l r (RoomAt-RoomIn l r sub (room l a b))

    shared_detail_iff :
        (normalized : Checked)
        → normalize_share_units (some (int (pos d.share_units))) d.max_shared_users ≡ normalized
        → (shared_detail relevant gpu start end d normalized ≡ none)
          ↔ SharedFits relevant gpu start end d
    unfolding shared_detail
    shared_detail_iff (refused e) h = (
      λ none_left. cc,
      λ fits.
          let room = (fits.room start (omega arith) lt).units in
          cc (h, normalize-int d.share_units d.max_shared_users fits.asked (omega (arith, room))),
    )
    shared_detail_iff (accepted n) h =
        let (e, low, high) = normalize-int-accepted d.share_units d.max_shared_users n h in
        rw (← e) (elim (Bool-cases (any is_exclusive_span relevant)) [
          | inl found ↦ rw found (λ q. cc, λ fits. cc (found, false-any relevant fits.no_exclusive))
          | inr free ↦ rw free (
            λ q. record {
              asked = omega arith;
              no_exclusive = any-false relevant free;
              room = segments-room q;
            },
            λ fits. room-segments fits.room,
          )
        ])

    mode_detail_iff :
        (mode : Mode)
        → (mode_detail relevant gpu start end d mode ≡ none) ↔ Fits relevant gpu start end d mode
    unfolding mode_detail
    mode_detail_iff exclusive = exclusive_detail_iff relevant gpu
    mode_detail_iff shared = shared_detail_iff _ refl
    mode_detail_iff (unsupported name) = (λ h. cc, λ h. absurd h)

overlapping-AllOverlap :
    (spans : List ReservationSpan) (gpu : ℕ) (start end : Instant)
    → AllOverlap start end (overlapping (build spans) gpu start end)
overlapping-AllOverlap spans gpu start end =
    rw (overlapping_lem spans gpu start end)
      (In-All _ _ λ item m. (In-select (overlaps_span start end) _ item m).1)

-- The check accepts a GPU exactly when the request fits there at every instant of its interval:
-- an exclusive one where nothing overlaps, a shared one where nothing exclusive overlaps and the
-- units, and the memory where the capacity is known, stay within the limits at each instant.
pub availability_detail_indexed_iff :
    (spans : List ReservationSpan) (gpu : ℕ) (start end : Instant) (d : Demand)
    → start < end
    → (availability_detail_indexed (build spans) gpu start end d ≡ none)
      ↔ Fits (overlapping (build spans) gpu start end) gpu start end d d.mode
unfolding availability_detail_indexed
availability_detail_indexed_iff spans gpu start end d lt =
    mode_detail_iff (overlapping (build spans) gpu start end) gpu d start end lt
      (overlapping-AllOverlap spans gpu start end) d.mode
