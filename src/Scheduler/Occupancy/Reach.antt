-- ===== src/Scheduler/Occupancy/Reach.antt =====
-- Any sequence of bookings, edits and cancellations, by any users at any instants, in any order.
use gpubk.Prelude.{◌≤◌, ◌≡◌, inl, refl, sym, subst, String, Option, [], arith}
use gpubk.Models.{
  Instant, Actor, Reservation, Ledger, Config, BookingRequest, EditRequest, BookingResult,
}
use gpubk.Errors.{ok}
use gpubk.Scheduler.Search.{Clock}
use gpubk.Scheduler.Metadata.{Runtime}
use gpubk.Scheduler.Operations.{Payload}
use gpubk.Scheduler.Outcome.{Outcome}
use gpubk.Scheduler.Booking.{add_booking}
use gpubk.Scheduler.Edit.{edit_booking}
use gpubk.Scheduler.Cancel.{cancel_booking}
use gpubk.Scheduler.Cancel.Administrator.{cancel_booking_as_admin}
use gpubk.Scheduler.Occupancy.Tidy.{named, IsTidy}
use gpubk.Scheduler.Occupancy.Booked.{add_booking-IsTidy}
use gpubk.Scheduler.Occupancy.Edited.{edit_booking-IsTidy}
use gpubk.Scheduler.Occupancy.Writes.{cancel_booking-IsTidy}
use gpubk.Scheduler.Occupancy.Administrator.{cancel_booking_as_admin-IsTidy}

-- One write that succeeds. The transactions of the store run one after another, each with its own
-- request, random IDs and readings of the clock; a search's clock shows at most `until`, and the
-- random ID of a new reservation is new to the ledger.
pub data Write (sign : Payload → String) (config : Config) (until : Instant)
    : Ledger → Ledger → Type 0 where
  books :
      (runtime : Runtime) (request : BookingRequest) (now : Instant) (clock hint_clock : Clock)
      (ledger : Ledger) (o : Outcome BookingResult)
      → add_booking runtime sign config request now clock hint_clock ledger ≡ ok o
      → clock.now ≤ until
      → named runtime.fresh_id ledger.reservations ≡ 0
      → Write sign config until ledger o.ledger
  edits :
      (runtime : Runtime) (request : EditRequest) (now : Instant) (clock hint_clock : Clock)
      (ledger : Ledger) (o : Outcome BookingResult)
      → edit_booking runtime sign config request now clock hint_clock ledger ≡ ok o
      → clock.now ≤ until
      → Write sign config until ledger o.ledger
  cancels :
      (runtime : Runtime) (reservation_id : String) (actor : Actor) (operation_id : Option String)
      (now : Instant) (ledger : Ledger) (o : Outcome Reservation)
      → cancel_booking runtime sign reservation_id actor operation_id now ledger ≡ ok o
      → Write sign config until ledger o.ledger
  removes :
      (runtime : Runtime) (reservation_id : String) (actor : Actor) (reason : String)
      (now : Instant) (ledger : Ledger) (o : Outcome Reservation)
      → cancel_booking_as_admin runtime sign config reservation_id actor reason now ledger ≡ ok o
      → Write sign config until ledger o.ledger

pub data Reach (sign : Payload → String) (config : Config) (until : Instant) (first : Ledger)
    : Ledger → Type 0 where
  here : Reach sign config until first first
  next :
      {ledger later : Ledger}
      → Reach sign config until first ledger
      → Write sign config until ledger later
      → Reach sign config until first later

Write-IsTidy :
    {sign : Payload → String} {config : Config} {until : Instant} {ledger later : Ledger}
    → Write sign config until ledger later
    → IsTidy config until ledger.reservations
    → IsTidy config until later.reservations
Write-IsTidy {sign} {config} {until}
      (books runtime request now clock hint_clock ledger o h recent fresh) tidy =
    add_booking-IsTidy runtime sign config request now clock hint_clock ledger o until h recent
      fresh tidy
Write-IsTidy {sign} {config} {until} (edits runtime request now clock hint_clock ledger o h recent)
      tidy =
    edit_booking-IsTidy runtime sign config request now clock hint_clock ledger o until h recent
      tidy
Write-IsTidy {sign} {config} {until}
      (cancels runtime reservation_id actor operation_id now ledger o h) tidy =
    cancel_booking-IsTidy runtime sign config reservation_id actor operation_id now ledger o until h
      tidy
Write-IsTidy {sign} {config} {until} (removes runtime reservation_id actor reason now ledger o h)
      tidy =
    cancel_booking_as_admin-IsTidy runtime sign config reservation_id actor reason now ledger o
      until h tidy

-- A tidy ledger stays tidy through any sequence of bookings under new IDs, edits, and cancellations
-- by owners and administrators whose searches read clocks up to `until`: from that instant on the
-- share units of every GPU stay within the limit and an exclusive reservation stands alone, no two
-- reservations have one ID, and all lie on slot boundaries.
pub Reach-IsTidy :
    (sign : Payload → String) (config : Config) (until : Instant) (first later : Ledger)
    → IsTidy config until first.reservations
    → Reach sign config until first later
    → IsTidy config until later.reservations
Reach-IsTidy sign config until first _ tidy here = tidy
Reach-IsTidy sign config until first _ tidy (next {ledger} {later} reach write) =
    Write-IsTidy write (Reach-IsTidy sign config until first ledger tidy reach)

-- A ledger without reservations is tidy.
pub no_reservations-IsTidy :
    (config : Config) (until : Instant) (ledger : Ledger)
    → ledger.reservations ≡ []
    → IsTidy config until ledger.reservations
no_reservations-IsTidy config until ledger empty = subst (IsTidy config until) (sym empty) (record {
  sound = λ gpu t le. record { within = omega arith; alone = inl refl };
  unique = λ reservation_id. omega arith;
  slotted = tt;
})
