-- ===== src/Scheduler/Cancel/Administrator.antt =====
-- `cancel_booking_as_admin`: the administrator takes a reservation from its owner, who is told.
use gpubk.Prelude.{
  ℕ, zero, suc, ◌+◌, ◌-◌, ◌/◌, ◌%◌, String, true, not, Option, none, some, List, [], ◌∷◌, ◌++◌, ltb,
  leb, ◌==◌, if◌then◌else◌, length,
}
use gpubk.Models.{
  Instant, Status, administrator, Actor, Notification, Reservation, Ledger, Config, is_active,
}
use gpubk.Errors.{
  Result, ok, err, ◌>>=◌, ◌>>◌, raise_if, admin_required, reason_missing, reason_length,
  reason_characters, reservation_not_found, reservation_not_active,
}
use gpubk.Policy.{bind_ledger_policy}
use gpubk.Scheduler.Metadata.{Runtime, strip, char_count, all_codes}
use gpubk.Scheduler.Operations.{Payload, admin_cancel}
use gpubk.Scheduler.Maintenance.{map_job, maintain_ledger}
use gpubk.Scheduler.Outcome.{LogItem, log_item, Outcome}
use gpubk.Scheduler.Lookup.{find_reservation, replace_first}
use gpubk.Scheduler.Cancel.{cancel_job}

-- `_admin_cancellation_reason`, of a text.
unfoldable pub admin_cancellation_reason : String → Result String
unfolding strip
admin_cancellation_reason value = do
  let reason = strip value
  raise_if (char_count reason == 0) reason_missing
  raise_if (ltb 512 (char_count reason)) reason_length
  raise_if (not (all_codes (leb 32) reason)) reason_characters
  ok reason

unfoldable pub concat : String → String → String
concat String.[] t = t
concat (String.◌∷◌ c s) t = String.◌∷◌ c (concat s t)

-- `text[:n]`
unfoldable pub prefix : ℕ → String → String
prefix zero text = ""
prefix (suc n) String.[] = ""
prefix (suc n) (String.◌∷◌ c s) = String.◌∷◌ c (prefix n s)

unfoldable pub cancellation_message : String → String → String → String
unfolding concat prefix
cancellation_message reservation_id username reason = concat "Reservation " (
    concat (prefix 8 reservation_id)
      (concat " was cancelled by administrator " (concat username (concat ": " reason))))

-- `[*items[-127:], item]`
abbrev pub drop {ℓ} : {A : Type ℓ} → ℕ → List A → List A
drop zero xs = xs
drop (suc n) [] = []
drop (suc n) (x ∷ xs) = drop n xs

unfoldable pub notify : Notification → List Notification → List Notification
notify notification notifications =
    drop (length notifications - 127) notifications ++ notification ∷ []

-- The reservation as the administrator leaves it.
unfoldable pub cancelled_by_admin :
    Runtime → Actor → Instant → String → String → Reservation → Reservation
unfolding cancel_job notify cancellation_message
cancelled_by_admin runtime actor now signature reason r = record r {
  status = Status.cancelled;
  updated_at = some now;
  cancel_operation = some (record {
    op_id = runtime.fresh_op_id;
    signature = signature;
    at = now;
    actor_uid = actor.uid;
    actor_username = actor.username;
    kind = administrator;
    reason = reason;
  });
  notifications =
      notify
        (record {
          id = runtime.fresh_id;
          type = "reservation-admin-cancelled";
          created_at = now;
          actor_uid = actor.uid;
          actor_username = actor.username;
          reason = reason;
          message = cancellation_message r.id actor.username reason;
        })
        r.notifications;
  job = map_job (cancel_job now) r.job;
}

abbrev digit : ℕ → String
digit d =
    if d == 0
    then "0"
    else if d == 1
    then "1"
    else if d == 2
    then "2"
    else if d == 3
    then "3"
    else if d == 4
    then "4"
    else if d == 5
    then "5"
    else if d == 6
    then "6"
    else if d == 7
    then "7"
    else if d == 8
    then "8"
    else "9"

-- `str(n)`, the last digits first: `n + 1` rounds reach a quotient below ten.
decimal_from : ℕ → ℕ → String → String
unfolding concat
decimal_from zero n text = text
decimal_from (suc fuel) n text =
    let rest = decimal_from fuel (n / 10) (concat (digit (n % 10)) text) in
    if ltb n 10 then concat (digit n) text else rest

unfoldable pub decimal : ℕ → String
unfolding decimal_from
decimal n = decimal_from (n + 1) n ""

-- `str(reservation.get("username", owner_uid))`
unfoldable pub owner_username : Reservation → String
unfolding decimal
owner_username r = elim r.username [ some username ↦ username | none ↦ decimal r.uid ]

-- The line of the log stands under the owner, with the administrator beside.
unfoldable pub admin_log_item : Runtime → Actor → Reservation → String → LogItem
unfolding log_item owner_username
admin_log_item runtime actor r reason =
    let item =
      log_item actor "admin-cancel" r "ok" reason (some runtime.fresh_op_id) runtime.logged_at in
    record item { uid = r.uid; username = owner_username r; actor = some actor }

-- The write to the reservation that was found.
unfoldable pub admin_cancel_found :
    Runtime
    → Actor
    → Instant
    → String
    → String
    → String
    → Ledger
    → Option Reservation
    → Result (Outcome Reservation)
unfolding cancelled_by_admin admin_log_item replace_first
admin_cancel_found runtime actor now signature reason reservation_id ledger none =
    err reservation_not_found
admin_cancel_found runtime actor now signature reason reservation_id ledger (some r) = do
  raise_if (not (is_active r.status)) reservation_not_active
  let written = cancelled_by_admin runtime actor now signature reason r
  ok (record {
    ledger = record ledger {
      reservations = replace_first reservation_id written ledger.reservations;
    };
    result = written;
    logs = admin_log_item runtime actor written reason ∷ [];
    changed = true;
  })

-- `mutate(ledger)` of `cancel_booking_as_admin`.
unfoldable pub mutate_admin_cancel :
    Runtime
    → Config
    → Actor
    → Instant
    → String
    → String
    → String
    → Ledger
    → Result (Outcome Reservation)
unfolding admin_cancel_found find_reservation
mutate_admin_cancel runtime config actor now signature reason reservation_id ledger = do
  bound ← bind_ledger_policy ledger config
  let (current, maintained) = maintain_ledger bound.0 now config.ledger_retention_days
  admin_cancel_found runtime actor now signature reason reservation_id current
      (find_reservation current.reservations reservation_id)

-- `cancel_booking_as_admin` on a local store.
unfoldable pub cancel_booking_as_admin :
    Runtime
    → (Payload → String)
    → Config
    → String
    → Actor
    → String
    → Instant
    → Ledger
    → Result (Outcome Reservation)
unfolding mutate_admin_cancel admin_cancellation_reason
cancel_booking_as_admin runtime sign config reservation_id actor value now ledger = do
  raise_if (not (actor.uid == 0)) admin_required
  reason ← admin_cancellation_reason value
  mutate_admin_cancel runtime config actor now (sign (admin_cancel reservation_id reason)) reason
      reservation_id ledger
