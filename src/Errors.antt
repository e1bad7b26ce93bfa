-- ===== src/Errors.antt =====
-- `BookingError`: a raised error is the `err` of its message, a constructor with the values that
-- stand in the text.
use gpubk.Prelude.{ℕ, ◌%◌, ◌*◌, ◌==◌, not, arith, ◌≡◌, refl, ap, Option, List, Bool, true, false}
use gpubk.Models.{Instant, Mode, JobStatus}
use gpubk.Sharing.{ShareError}
use gpubk.Scheduler.Reasons.{Reason}

pub data BookingError : Type 0 where
  unsupported_booking_mode : Mode → BookingError
  count_below_one count_mismatch : BookingError
  duration_not_positive : BookingError
  duration_granularity : (slot_minutes : ℕ) → BookingError
  start_granularity : (slot_minutes : ℕ) → BookingError
  start_before_slice : (slice : Instant) → BookingError
  memory_not_positive memory_budget_missing : BookingError
  share_slots_exclusive : BookingError
  share_slots : ShareError → BookingError
  gpu_out_of_range : (gpu : ℕ) → BookingError
  gpu_disabled : (gpu : ℕ) → BookingError
  gpu_selected_and_excluded : (gpu : ℕ) → BookingError
  eligible_count : (count eligible : ℕ) (disabled excluded : List ℕ) → BookingError
  operation_id_length operation_id_characters operation_id_reused : BookingError
  job_incomplete job_aliases_alone job_spec_id_invalid job_digest_invalid : BookingError
  job_aliases_count job_alias_invalid job_summary_length job_summary_characters : BookingError
  policy_malformed policy_mismatch : BookingError
  policy_conflict : Reason → BookingError
  unavailable : List Reason → Option (Instant × List ℕ) → BookingError
  moved_unexpectedly : BookingError
  reservation_not_found reservation_not_active permission_denied : BookingError
  cancellation_history_invalid edit_history_unsafe edit_history_full : BookingError
  edit_in_past edit_moved_unexpectedly : BookingError
  edit_start_in_past : (earliest : Instant) → BookingError
  edit_job_state : JobStatus → BookingError
  started_immutable started_needs_duration started_unavailable : BookingError
  started_elapsed : (earliest : Instant) → BookingError
  admin_required reason_missing reason_length reason_characters : BookingError

-- What a function returns or raises.
pub data Result {ℓ} (A : Type ℓ) : Type ℓ where
  err : BookingError → Result A
  ok : A → Result A

-- `if bad: raise BookingError(e)`
abbrev pub raise_if : Bool → BookingError → Result (Unit {0})
raise_if bad e = elim bad [ true ↦ err e | false ↦ ok tt ]

module _ {ℓ κ} {A : Type ℓ} {B : Type κ} where
  infixl 5 ◌>>=◌
  abbrev pub ◌>>=◌ : Result A → (A → Result B) → Result B
  err raised >>= rest = err raised
  ok value >>= rest = rest value

  -- A sequence that returns has a first part that returned.
  pub >>=-eq-ok :
      (first : Result A) (rest : A → Result B) {b : B}
      → (first >>= rest) ≡ ok b
      → (value : A) × (first ≡ ok value) × (rest value ≡ ok b)
  >>=-eq-ok (err raised) rest returns = cc
  >>=-eq-ok (ok value) rest returns = (value, refl, returns)

infixl 5 ◌>>◌
abbrev pub ◌>>◌ {ℓ} : {B : Type ℓ} → Result (Unit {0}) → Result B → Result B
check >> rest = check >>= λ _. rest

pub raise_if-ok : (b : Bool) (e : BookingError) → raise_if b e ≡ ok tt → b ≡ false
raise_if-ok true e h = cc
raise_if-ok false e h = refl

abbrev value_or {ℓ} : {A : Type ℓ} → A → Result A → A
value_or default (ok a) = a
value_or default (err e) = default

pub ok-injective {ℓ} : {A : Type ℓ} {a b : A} → ok a ≡ ok b → a ≡ b
ok-injective {a = a} h = ap (value_or a) h

-- A length that passes the test of granularity is a multiple of the slot.
pub whole_multiple :
    (d m : ℕ) (e : BookingError) → raise_if (not (d % (m * 60) == 0)) e ≡ ok tt → d % (m * 60) ≡ 0
whole_multiple d m e h = ground arith
