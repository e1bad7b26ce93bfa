-- ===== src/Scheduler/Occupancy/Tidy.antt =====
-- The invariant of a ledger that the writes keep: sound, with one reservation to an ID, and every
-- reservation on slot boundaries.
use gpubk.Prelude.{
  ℕ, ◌+◌, ◌≤◌, ◌≡◌, sym, subst, Bool-cases, inl, inr, eq_iff, String, true, List, [], ◌∷◌, ◌++◌,
  arith, sum_of, if◌then◌else◌, All,
}
use gpubk.Models.{Instant, Reservation, Config}
use gpubk.Granularity.Slots.{IsAligned}
use gpubk.Scheduler.Lookup.{is_named}
use gpubk.Scheduler.Occupancy.{IsSound}
use gpubk.Scheduler.Occupancy.Fewer.{IsSound-fewer}
use gpubk.Scheduler.Occupancy.Thins.{Thins, nothing, rewrites, drops, Thins-HoldsNoMore}

-- How many reservations have the ID.
abbrev pub named : String → List Reservation → ℕ
named reservation_id rs = sum_of (λ r. if is_named reservation_id r then 1 else 0) rs

abbrev pub IsUnique : List Reservation → Type 0
IsUnique rs = (reservation_id : String) → named reservation_id rs ≤ 1

abbrev pub IsSlotted : ℕ → Reservation → Type 0
IsSlotted slot_minutes r = IsAligned slot_minutes r.start_at × IsAligned slot_minutes r.end_at

pub record IsTidy (config : Config) (from : Instant) (rs : List Reservation) : Type 0 where
  pub sound : IsSound config.max_shared_users from rs
  pub unique : IsUnique rs
  pub slotted : All (IsSlotted config.slot_minutes) rs

pub Thins-named :
    (reservation_id : String) (new old : List Reservation)
    → Thins new old
    → named reservation_id new ≤ named reservation_id old
Thins-named reservation_id _ _ nothing = omega arith
Thins-named reservation_id _ _ (rewrites {written} {r} {new} {old} one h) =
    rw one.same_id (omega (arith, Thins-named reservation_id new old h))
Thins-named reservation_id _ _ (drops {r} {new} {old} h) =
    omega (arith, Thins-named reservation_id new old h)

Thins-IsSlotted :
    (slot_minutes : ℕ) (new old : List Reservation)
    → Thins new old
    → All (IsSlotted slot_minutes) old
    → All (IsSlotted slot_minutes) new
Thins-IsSlotted slot_minutes _ _ nothing slotted = tt
Thins-IsSlotted slot_minutes _ _ (rewrites {written} {r} {new} {old} one h) (here, slotted) = (
  (
    subst (IsAligned slot_minutes) (sym one.same_start) here.0,
    subst (IsAligned slot_minutes) (sym one.same_end) here.1,
  ),
  Thins-IsSlotted slot_minutes new old h slotted,
)
Thins-IsSlotted slot_minutes _ _ (drops {r} {new} {old} h) (here, slotted) =
    Thins-IsSlotted slot_minutes new old h slotted

pub Thins-IsTidy :
    (config : Config) (from : Instant) (new old : List Reservation)
    → Thins new old
    → IsTidy config from old
    → IsTidy config from new
Thins-IsTidy config from new old h tidy = record {
  sound =
      IsSound-fewer config.max_shared_users from new old (Thins-HoldsNoMore new old h) tidy.sound;
  unique = λ reservation_id.
      omega (arith, Thins-named reservation_id new old h, tidy.unique reservation_id);
  slotted = Thins-IsSlotted config.slot_minutes new old h tidy.slotted;
}

named-append :
    (reservation_id : String) (xs ys : List Reservation)
    → named reservation_id (xs ++ ys) ≡ named reservation_id xs + named reservation_id ys
named-append reservation_id [] ys = omega arith
named-append reservation_id (x ∷ xs) ys = omega (arith, named-append reservation_id xs ys)

-- A reservation under a new ID.
pub IsUnique-append :
    (r : Reservation) (rs : List Reservation)
    → named r.id rs ≡ 0
    → IsUnique rs
    → IsUnique (rs ++ r ∷ [])
IsUnique-append r rs fresh unique reservation_id = elim (Bool-cases (is_named reservation_id r)) [
  | inr other ↦
      omega (arith, rw other at (named-append reservation_id rs (r ∷ [])), unique reservation_id)
  | inl hit ↦ omega (
    arith,
    rw hit at (named-append reservation_id rs (r ∷ [])),
    subst (λ id. named id rs ≡ 0) (is_named_id hit) fresh,
  )
]
  where
    is_named_id : is_named reservation_id r ≡ true → r.id ≡ reservation_id
    is_named_id hit = (eq_iff r.id reservation_id).0 hit

pub All-append :
    (P : Reservation → Type 0) (xs : List Reservation) (y : Reservation)
    → All P xs
    → P y
    → All P (xs ++ y ∷ [])
All-append P [] y h k = (k, tt)
All-append P (x ∷ xs) y (here, h) k = (here, All-append P xs y h k)
