-- ===== src/Scheduler/Lookup/Rewritten.antt =====
-- A write to the reservation that `_find_reservation` returns, as a change of the list.
use gpubk.Prelude.{
  ◌≡◌, refl, ap, eq_of_some, eq_iff, String, false, some, List, [], ◌∷◌, ◌++◌, All, Bool-cases, inl,
  inr, subst,
}
use gpubk.Models.{Reservation}
use gpubk.Scheduler.Lookup.{is_named, find_reservation, replace_first}

-- One reservation is rewritten, the first that has the ID; the others stay as and where they are.
pub record RewritesFirst (reservation_id : String) (old new : List Reservation)
    (target written : Reservation) : Type 0 where
  pub before : List Reservation
  pub after : List Reservation
  pub was : old ≡ before ++ target ∷ after
  pub becomes : new ≡ before ++ written ∷ after
  pub first : All (λ (r : Reservation). ¬ (r.id ≡ reservation_id)) before
  pub named : target.id ≡ reservation_id

pub unnamed :
    (reservation_id : String) (r : Reservation)
    → is_named reservation_id r ≡ false
    → ¬ (r.id ≡ reservation_id)
unnamed reservation_id r miss same = let hit = (eq_iff r.id reservation_id).1 same in cc

pub replace_first-RewritesFirst :
    (reservation_id : String) (written r : Reservation) (rs : List Reservation)
    → find_reservation rs reservation_id ≡ some r
    → RewritesFirst reservation_id rs (replace_first reservation_id written rs) r written
unfolding find_reservation replace_first
replace_first-RewritesFirst reservation_id written r [] q = cc
replace_first-RewritesFirst reservation_id written r (x ∷ rs) q =
    elim (Bool-cases (is_named reservation_id x)) [
      | inl hit ↦
          let same : some x ≡ some r = rw hit at q in
          rw hit (
            subst (λ z. RewritesFirst reservation_id (x ∷ rs) (written ∷ rs) z written)
              (eq_of_some same)
              (record {
                before = [];
                after = rs;
                was = refl;
                becomes = refl;
                first = tt;
                named = (eq_iff x.id reservation_id).0 hit;
              }))
      | inr miss ↦
          let w = replace_first-RewritesFirst reservation_id written r rs (rw miss at q) in
          rw miss (record {
            before = x ∷ w.before;
            after = w.after;
            was = ap (λ xs. x ∷ xs) w.was;
            becomes = ap (λ xs. x ∷ xs) w.becomes;
            first = (unnamed reservation_id x miss, w.first);
            named = w.named;
          })
    ]
