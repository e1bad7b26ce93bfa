-- ===== src/Scheduler/Lookup.antt =====
-- Reservations looked up and rewritten by their ID: `_find_reservation`, the assignments to what it
-- returns, and the ledger without them.
pub mod Rewritten
use gpubk.Prelude.{
  String, Bool, not, Option, none, some, List, [], ◌∷◌, if◌then◌else◌, select, str_eq,
}
use gpubk.Models.{Reservation, Ledger}

abbrev pub is_named : String → Reservation → Bool
is_named reservation_id r = str_eq r.id reservation_id

unfoldable pub find_reservation : List Reservation → String → Option Reservation
find_reservation [] reservation_id = none
find_reservation (r ∷ rest) reservation_id =
    if is_named reservation_id r then some r else find_reservation rest reservation_id

-- What an assignment to the fields of the found reservation leaves in the list.
unfoldable pub replace_first : String → Reservation → List Reservation → List Reservation
replace_first reservation_id written [] = []
replace_first reservation_id written (r ∷ rest) =
    if is_named reservation_id r
    then written ∷ rest
    else r ∷ replace_first reservation_id written rest

-- `shadow_ledger`: the ledger without the reservations of this ID.
unfoldable pub shadow_ledger : Ledger → String → Ledger
shadow_ledger ledger reservation_id = record ledger {
  reservations = select (λ r. not (is_named reservation_id r)) ledger.reservations;
}
