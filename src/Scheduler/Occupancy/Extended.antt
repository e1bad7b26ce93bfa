-- ===== src/Scheduler/Occupancy/Extended.antt =====
-- The edit of a started reservation: what holds of it.
pub mod Room
use gpubk.Prelude.{
  ℕ, ◌+◌, ◌-◌, ◌*◌, ◌%◌, max, ◌≤◌, ◌<◌, ◌≡◌, refl, ap, All, All-map, sym, subst, ◌∙◌, String, true,
  false, not, Option, none, some, List, arith, ltb, leb, lt→ltb, ltb→lt, ==→eq, ◌==◌, ◌||◌,
  if◌then◌else◌, elem-In, In, All-In, Bool-cases, inl, inr, &&-eq-true, ||-eq-false, leb→gt, ltb→ge,
}
use gpubk.Prelude.Ascending.{from_list, In-from_list}
use gpubk.Models.{Instant, Reservation, Ledger, Config, EditRequest, BookingResult, is_shared}
use gpubk.Granularity.{ceil_to_slot, slot_seconds}
use gpubk.Granularity.Slots.{IsAligned, IsAligned-multiple, IsAligned_add, ceil_least}
use gpubk.Sharing.{reservation_share_units}
use gpubk.Errors.{
  Result, ok, ok-injective, err, >>=-eq-ok, raise_if, raise_if-ok, started_immutable,
  duration_not_positive, duration_granularity, started_elapsed, started_unavailable, whole_multiple,
}
use gpubk.ScheduleIndex.{from_ledger}
use gpubk.Scheduler.Gpus.{normalize_gpu_order, normalize_gpu_scores, normalize_expected_memory}
use gpubk.Scheduler.Horizon.{booking_policy_conflict}
use gpubk.Scheduler.Availability.{availability_detail_indexed}
use gpubk.Scheduler.Placement.{Ask, demand_of}
use gpubk.Scheduler.Search.{Clock, find_earliest_slot}
use gpubk.Scheduler.Gpus.Scope.{IsEnabled}
use gpubk.Scheduler.Search.Preferred.{find_exact_preferred}
use gpubk.Scheduler.Metadata.{Runtime}
use gpubk.Scheduler.Outcome.{Outcome}
use gpubk.Scheduler.Booking.{raise_conflict}
use gpubk.Scheduler.Lookup.{find_reservation, shadow_ledger}
use gpubk.Scheduler.Edit.Started.{
  immutable_changes, given_duration, extension_wish, check_extension, edit_started,
}
use gpubk.Scheduler.Occupancy.{Weight, holds, counts}
use gpubk.Scheduler.Occupancy.Added.{HasRoom, available-HasRoom}
use gpubk.Scheduler.Occupancy.Tidy.{IsSlotted}
use gpubk.Scheduler.Occupancy.Replaced.{others}
use gpubk.Scheduler.Occupancy.Thins.{Releases-counts, Releases-holds}
use gpubk.Scheduler.Occupancy.Edits.{Edits, Releases-HasRoom}
use gpubk.Scheduler.Occupancy.Written.{WritesEdit, write_edit-WritesEdit}

-- A memory budget that is accepted stays as it is.
pub normalized_memory :
    (given memory : Option ℕ) → normalize_expected_memory given ≡ ok memory → memory ≡ given
unfolding normalize_expected_memory
normalized_memory none memory h = sym (ok-injective h)
normalized_memory (some n) memory h = elim (Bool-cases (n == 0)) [
  | inl nothing ↦ let e = rw (nothing, normalize_expected_memory) at h in cc
  | inr something ↦ sym (ok-injective (rw (something, normalize_expected_memory) at h))
]

-- The GPUs of a reservation are free of the others from an instant to an end.
pub record Free (config : Config) (clock : Clock) (request : EditRequest) (r : Reservation)
    (begin end : Instant) (ledger : Ledger) : Type 0 where
  pub ask : Ask
  pub same_mode : ask.mode ≡ r.mode
  pub same_memory : ask.expected_memory_mb ≡ r.expected_memory_mb
  pub within_policy : booking_policy_conflict config begin end clock.now ≡ none
  pub enabled : All (IsEnabled config) (from_list r.gpus)
  pub units_kept :
      is_shared r.mode ≡ true
      → reservation_share_units r.share_units config.max_shared_users ≡ ask.share_units
  pub free :
      (gpu : ℕ)
      → In gpu r.gpus
      → availability_detail_indexed
          (from_ledger (shadow_ledger ledger request.reservation_id) clock.now)
          gpu
          begin
          end
          (demand_of config ask)
        ≡ none

-- Where the extension begins: at the old end, or at the next slot.
abbrev pub future_start : Config → Reservation → Instant → Instant
future_start config r now = max (ceil_to_slot now config.slot_minutes) r.end_at

module _ (config : Config) (request : EditRequest) (r : Reservation) (now new_end : Instant)
    (capacities : List (ℕ × ℕ)) (clock : Clock) (ledger : Ledger) where
  abbrev begin : Instant
  begin = future_start config r now

  check_extension-Free :
      check_extension config request r now new_end capacities clock ledger ≡ ok tt
      → Free config clock request r begin (begin + (new_end - begin)) ledger
  unfolding check_extension
  check_extension-Free h =
      let (_, _, h1) =
        >>=-eq-ok (raise_conflict (booking_policy_conflict config begin new_end now) false) _ h in
      let (order, _, h2) = >>=-eq-ok (normalize_gpu_order request.gpu_order config) _ h1 in
      let (scores, _, h3) = >>=-eq-ok (normalize_gpu_scores request.gpu_scores config) _ h2 in
      let (memory, kept, h4) = >>=-eq-ok (normalize_expected_memory r.expected_memory_mb) _ h3 in
      let (slot, q, k) =
        >>=-eq-ok
          (find_earliest_slot (shadow_ledger ledger request.reservation_id) config
            (extension_wish config r (new_end - begin) order scores memory capacities) begin false
            clock)
          _ h4 in
      by_slot order scores memory (normalized_memory r.expected_memory_mb memory kept) slot q k
    where
      by_slot :
          (order : List ℕ) (scores : List (ℕ × ℕ)) (memory : Option ℕ)
          → memory ≡ r.expected_memory_mb
          → (slot : Option (Instant × List ℕ))
          → find_earliest_slot
              (shadow_ledger ledger request.reservation_id)
              config
              (extension_wish config r (new_end - begin) order scores memory capacities)
              begin
              false
              clock
            ≡ ok slot
          → ◌≡◌ {A = Result (Unit {0})}
              (elim slot [ none ↦ err started_unavailable | some _ ↦ ok tt ])
              (ok tt)
          → Free config clock request r begin (begin + (new_end - begin)) ledger
      by_slot order scores memory same none q k = cc
      by_slot order scores memory same (some (start, gpus)) q k =
          let wish = extension_wish config r (new_end - begin) order scores memory capacities in
          let (_, _, slot) =
            find_exact_preferred
              (from_ledger (shadow_ledger ledger request.reservation_id) clock.now) config wish
              clock (from_list r.gpus) refl refl (shadow_ledger ledger request.reservation_id) begin
              start gpus refl q in
          record {
            ask = wish.ask;
            same_mode = refl;
            same_memory = same;
            within_policy = slot.within_policy;
            enabled = All-map (λ gpu serves. serves.1) (from_list r.gpus) slot.each_serves;
            units_kept = λ shares. rw shares refl;
            free = λ gpu m.
                (All-In _ (from_list r.gpus) slot.each_serves gpu (In-from_list gpu r.gpus m)).0;
          }

given : (wished : Option ℕ) (d : ℕ) → given_duration wished ≡ ok d → wished ≡ some d
given none d h = cc
given (some e) d h = ap some (ok-injective h)

-- The reservation with its new end.
abbrev pub extended : Reservation → Instant → Instant → Reservation
extended r now new_end = record r { end_at = new_end; updated_at = some now }

-- What the edit of a started reservation leaves: a new end on a slot boundary that is not elapsed,
-- and, where it is later than the old one, GPUs that are free until then.
pub record Extends (runtime : Runtime) (config : Config) (request : EditRequest) (r : Reservation)
    (now : Instant) (op_id : Option String) (signature : String) (clock : Clock) (ledger : Ledger)
    (o : Outcome BookingResult) : Type 0 where
  pub new_end : Instant
  pub duration : ℕ
  pub asked : request.duration_seconds ≡ some duration
  pub total : new_end ≡ r.start_at + duration
  pub on_slot : IsAligned config.slot_minutes duration
  pub ahead : now < new_end
  pub not_elapsed : ceil_to_slot now config.slot_minutes ≤ new_end
  pub only_end : immutable_changes request ≡ false
  pub writes : WritesEdit runtime request now op_id signature r (extended r now new_end) ledger o
  pub free :
      r.end_at < new_end
      → Free config clock request r
          (future_start config r now)
          (future_start config r now + (new_end - future_start config r now))
          ledger

pub no_minutes : (k m end now : ℕ) → end ≡ k * slot_seconds m → m ≡ 0 → now < end → ⊥
no_minutes k m end now e zero_minutes ahead = omega (arith, rw zero_minutes at e)

module _ (runtime : Runtime) (config : Config) (request : EditRequest) (r : Reservation)
    (now : Instant) (op_id : Option String) (signature : String) (capacities : List (ℕ × ℕ))
    (clock : Clock) (ledger : Ledger) (o : Outcome BookingResult) where
  pub edit_started-Extends :
      edit_started runtime config request r now op_id signature capacities clock ledger ≡ ok o
      → Extends runtime config request r now op_id signature clock ledger o
  unfolding edit_started
  edit_started-Extends h =
      let (_, q0, h1) = >>=-eq-ok (raise_if (immutable_changes request) started_immutable) _ h in
      let (d, asked, h2) = >>=-eq-ok (given_duration request.duration_seconds) _ h1 in
      let (_, _, h3) = >>=-eq-ok (raise_if (d == 0) duration_not_positive) _ h2 in
      let whole = d % slot_seconds config.slot_minutes == 0 in
      let (_, q3, h4) =
        >>=-eq-ok (raise_if (not whole) (duration_granularity config.slot_minutes)) _ h3 in
      let new_end = r.start_at + d in
      let earliest = ceil_to_slot now config.slot_minutes in
      let elapsed = ltb new_end earliest || leb new_end now in
      let (_, q4, h5) = >>=-eq-ok (raise_if elapsed (started_elapsed earliest)) _ h4 in
      let (late, past) =
        ||-eq-false (ltb new_end earliest) (leb new_end now) (raise_if-ok elapsed _ q4) in
      let check = check_extension config request r now new_end capacities clock ledger in
      let (_, q5, h6) = >>=-eq-ok (if ltb r.end_at new_end then check else ok tt) _ h5 in
      record {
        new_end = new_end;
        duration = d;
        asked = given request.duration_seconds d asked;
        total = refl;
        on_slot =
            IsAligned-multiple d config.slot_minutes (whole_multiple d config.slot_minutes _ q3);
        ahead = leb→gt new_end now past;
        not_elapsed = ltb→ge new_end earliest late;
        only_end = raise_if-ok (immutable_changes request) started_immutable q0;
        writes =
            write_edit-WritesEdit runtime request now op_id signature r (extended r now new_end) _
              (record { reservation = r; created = true; message = "updated"; queued = false })
              ledger o h6;
        free = λ longer.
            check_extension-Free config request r now new_end capacities clock ledger
              (rw (lt→ltb r.end_at new_end longer) at q5);
      }
