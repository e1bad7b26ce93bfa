-- ===== src/Scheduler/Occupancy/Fewer.antt =====
-- Lists of reservations that hold no more than another: soundness passes on to them.
use gpubk.Prelude.{
  ℕ, ◌+◌, ◌≤◌, ◌≡◌, ◌⊎◌, inl, inr, Bool, List, [], ◌∷◌, ◌++◌, arith, Bool-cases, select,
}
use gpubk.Models.{Instant, Reservation}
use gpubk.Scheduler.Occupancy.{Weight, held, one, one_exclusive, shared_units, IsSoundAt, IsSound}

-- At every instant, by every weight.
abbrev pub HoldsNoMore : List Reservation → List Reservation → Type 0
HoldsNoMore new old =
    (weight : Weight) (gpu : ℕ) (t : Instant) → held weight gpu t new ≤ held weight gpu t old

pub IsSoundAt-fewer :
    (max_shared_users gpu : ℕ) (t : Instant) (new old : List Reservation)
    → ((weight : Weight) → held weight gpu t new ≤ held weight gpu t old)
    → IsSoundAt max_shared_users gpu t old
    → IsSoundAt max_shared_users gpu t new
IsSoundAt-fewer max_shared_users gpu t new old le sound = record {
  within = omega (arith, le (shared_units max_shared_users), sound.within);
  alone = alone_of sound.alone;
}
  where
    alone_of :
        (held one_exclusive gpu t old ≡ 0) ⊎ (held one gpu t old ≤ 1)
        → (held one_exclusive gpu t new ≡ 0) ⊎ (held one gpu t new ≤ 1)
    alone_of (inl none_exclusive) = inl (omega (arith, le one_exclusive))
    alone_of (inr single) = inr (omega (arith, le one))

pub IsSound-fewer :
    (max_shared_users : ℕ) (from : Instant) (new old : List Reservation)
    → HoldsNoMore new old
    → IsSound max_shared_users from old
    → IsSound max_shared_users from new
IsSound-fewer max_shared_users from new old le sound gpu t later =
    IsSoundAt-fewer max_shared_users gpu t new old (λ weight. le weight gpu t) (sound gpu t later)

pub held-append :
    (weight : Weight) (gpu : ℕ) (t : Instant) (xs ys : List Reservation)
    → held weight gpu t (xs ++ ys) ≡ held weight gpu t xs + held weight gpu t ys
held-append weight gpu t [] ys = omega arith
held-append weight gpu t (x ∷ xs) ys = omega (arith, held-append weight gpu t xs ys)

pub HoldsNoMore-select :
    (p : Reservation → Bool) (rs : List Reservation) → HoldsNoMore (select p rs) rs
HoldsNoMore-select p [] weight gpu t = omega arith
HoldsNoMore-select p (r ∷ rs) weight gpu t = elim (Bool-cases (p r)) [
  | inl kept ↦ rw kept (omega (arith, HoldsNoMore-select p rs weight gpu t))
  | inr dropped ↦ rw dropped (omega (arith, HoldsNoMore-select p rs weight gpu t))
]
