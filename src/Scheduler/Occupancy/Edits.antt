-- ===== src/Scheduler/Occupancy/Edits.antt =====
-- What an edit does to a ledger, and why a tidy ledger stays tidy.
use gpubk.Prelude.{
  ℕ, ◌+◌, ◌≤◌, ◌<◌, ◌≡◌, ap, sym, subst, ◌∙◌, eq_iff, String, true, some, List, arith, ltb, ltb→lt,
  ltb→ge, Bool-cases, inl, inr, not, All,
}
use gpubk.Models.{Instant, Reservation, Config}
use gpubk.Scheduler.Lookup.{is_named, find_reservation, replace_first}
use gpubk.Scheduler.Occupancy.{Weight, holds, counts, held, IsSound}
use gpubk.Scheduler.Occupancy.Fewer.{HoldsNoMore-select, IsSoundAt-fewer}
use gpubk.Scheduler.Occupancy.Added.{HasRoom, IsSoundAt-added}
use gpubk.Scheduler.Occupancy.Thins.{Releases}
use gpubk.Scheduler.Occupancy.Tidy.{IsUnique, IsSlotted, IsTidy}
use gpubk.Scheduler.Occupancy.Replaced.{
  others, find_reservation-named, replace_first-All, named-replace_first, held-replace_first,
  held-found,
}

pub Releases-HasRoom :
    (max_shared_users gpu : ℕ) (t : Instant) (rs : List Reservation) (written r : Reservation)
    → Releases written r
    → HasRoom max_shared_users gpu t rs r.mode r.share_units
    → HasRoom max_shared_users gpu t rs written.mode written.share_units
Releases-HasRoom max_shared_users gpu t rs written r h room = rw (h.same_mode, h.units_kept) room

-- One reservation is rewritten. Before `turn` it holds no more than it did; from then on, where it
-- holds a GPU, there is room beside the others.
pub record Edits (config : Config) (after : Instant) (reservation_id : String)
    (current new : List Reservation) : Type 0 where
  pub target : Reservation
  pub written : Reservation
  pub turn : Instant
  pub found : find_reservation current reservation_id ≡ some target
  pub replaced : new ≡ replace_first reservation_id written current
  pub same_id : written.id ≡ target.id
  pub slotted : IsSlotted config.slot_minutes written
  pub early :
      (weight : Weight) (gpu : ℕ) (t : Instant)
      → t < turn
      → counts weight gpu t written ≤ counts weight gpu t target
  pub room :
      (gpu : ℕ) (t : Instant)
      → after ≤ t
      → turn ≤ t
      → holds gpu t written ≡ true
      → HasRoom config.max_shared_users gpu t
          (others reservation_id current)
          written.mode
          written.share_units

module _ (config : Config) (after from : Instant) (reservation_id : String)
    (current new : List Reservation) (edits : Edits config after reservation_id current new)
    (recent : after ≤ from) (tidy : IsTidy config from current) where
  new-held :
      (weight : Weight) (gpu : ℕ) (t : Instant)
      → held weight gpu t new
        ≡ held weight gpu t (others reservation_id current) + counts weight gpu t edits.written
  new-held weight gpu t =
      ap (held weight gpu t) edits.replaced
      ∙ held-replace_first reservation_id weight gpu t edits.written edits.target current
          edits.found (tidy.unique reservation_id)

  -- Before the turn the edit takes nothing; after it, there is room.
  Edits-IsSound : IsSound config.max_shared_users from new
  Edits-IsSound gpu t later = elim (Bool-cases (ltb t edits.turn)) [
    | inl soon ↦
        IsSoundAt-fewer config.max_shared_users gpu t new current
          (λ weight. omega (
            arith,
            new-held weight gpu t,
            held-found reservation_id weight gpu t edits.target current edits.found
                (tidy.unique reservation_id),
            edits.early weight gpu t (ltb→lt t edits.turn soon),
          ))
          (tidy.sound gpu t later)
    | inr late ↦
        IsSoundAt-added config.max_shared_users gpu t (others reservation_id current) new
          edits.written
          (IsSoundAt-fewer config.max_shared_users gpu t (others reservation_id current) current
            (λ weight.
              HoldsNoMore-select (λ r. not (is_named reservation_id r)) current weight gpu t)
            (tidy.sound gpu t later))
          (edits.room gpu t (omega arith) (ltb→ge t edits.turn late))
          (λ weight. omega (arith, new-held weight gpu t))
  ]

  pub Edits-IsTidy : IsTidy config from new
  Edits-IsTidy = record {
    sound = Edits-IsSound;
    unique = subst IsUnique (sym edits.replaced) (λ id. omega (
      arith,
      named-replace_first reservation_id id edits.written current (
          edits.same_id
          ∙ (eq_iff edits.target.id reservation_id).0
              (find_reservation-named reservation_id current edits.target edits.found)),
      tidy.unique id,
    ));
    slotted = subst (All (IsSlotted config.slot_minutes)) (sym edits.replaced) (
        replace_first-All reservation_id (IsSlotted config.slot_minutes) edits.written current
          edits.slotted tidy.slotted);
  }
