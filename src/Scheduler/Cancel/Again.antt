-- ===== src/Scheduler/Cancel/Again.antt =====
-- A cancellation that is sent again under the ID of the first one.
use gpubk.Prelude.{
  ℕ, ◌≡◌, inl, inr, refl, String, true, false, Option, none, some, List, [], ◌∷◌, ◌++◌, All,
  Bool-cases, Option-cases, ap, ◌∙◌, subst, ◌==◌, ==→eq, ltb, length, str_eq, eq_iff, ==_refl,
}
use gpubk.Models.{Instant, Actor, Reservation}
use gpubk.Errors.{Result, ok, err}
use gpubk.Scheduler.Operations.{
  Applied, cancel_action, is_text, cancel_signature, find_edit, applied_in, find_applied,
  max_edit_operations_per_reservation,
}
use gpubk.Scheduler.Maintenance.{is_due, expire_one, expire_all}
use gpubk.Scheduler.Cancel.{cancelled_by}

-- No operation of the ID on a reservation of the UID.
abbrev pub IsFresh : ℕ → String → Reservation → Type 0
IsFresh uid op_id r = r.uid ≡ uid → applied_in r op_id ≡ ok none

pub str_eq_refl : (text : String) → str_eq text text ≡ true
str_eq_refl text = (eq_iff text text).1 refl

find_applied-head :
    (r : Reservation) (rs : List Reservation) (uid : ℕ) (op_id : String)
    → (r.uid == uid) ≡ true
    → find_applied (r ∷ rs) uid op_id ≡ ok none
    → (applied_in r op_id ≡ ok none) × (find_applied rs uid op_id ≡ ok none)
unfolding find_applied
find_applied-head r rs uid op_id own h = by_result (applied_in r op_id) refl
  where
    by_result :
        (m : Result (Option Applied))
        → applied_in r op_id ≡ m
        → (applied_in r op_id ≡ ok none) × (find_applied rs uid op_id ≡ ok none)
    by_result (err e) q = let k = rw (own, q, find_applied) at h in absurd (cc)
    by_result (ok (some a)) q =
        let k : ◌≡◌ {A = Result (Option Applied)} (ok (some a)) (ok none) =
          rw (own, q, find_applied) at h in
        absurd (cc)
    by_result (ok none) q = (q, rw (own, q, find_applied) at h)

find_applied-All :
    (rs : List Reservation) (uid : ℕ) (op_id : String)
    → find_applied rs uid op_id ≡ ok none
    → All (IsFresh uid op_id) rs
unfolding find_applied
find_applied-All [] uid op_id h = tt
find_applied-All (r ∷ rs) uid op_id h = elim (Bool-cases (r.uid == uid)) [
  | inl own ↦
      let (q, rest) = find_applied-head r rs uid op_id own h in
      (λ _. q, find_applied-All rs uid op_id rest)
  | inr other ↦ (
    λ e. absurd (let t = subst (λ z. (r.uid == z) ≡ true) e (==_refl r.uid) in cc),
    find_applied-All rs uid op_id (rw (other, find_applied) at h),
  )
]

find_applied-here :
    (before after : List Reservation) (r : Reservation) (uid : ℕ) (op_id : String) (a : Applied)
    → All (IsFresh uid op_id) before
    → r.uid ≡ uid
    → applied_in r op_id ≡ ok (some a)
    → find_applied (before ++ r ∷ after) uid op_id ≡ ok (some a)
unfolding find_applied
find_applied-here [] after r uid op_id a h own q =
    let e : (r.uid == uid) ≡ true = subst (λ z. (r.uid == z) ≡ true) own (==_refl r.uid) in
    rw (e, q) refl
find_applied-here (x ∷ xs) after r uid op_id a h own q =
    let rest = find_applied-here xs after r uid op_id a h.1 own q in
    elim (Bool-cases (x.uid == uid)) [
      | inl mine ↦ rw (mine, h.0 (==→eq x.uid uid mine)) rest
      | inr other ↦ rw other rest
    ]

expire_all-++ :
    (before after : List Reservation) (now : Instant)
    → expire_all (before ++ after) now ≡ expire_all before now ++ expire_all after now
unfolding expire_all
expire_all-++ [] after now = refl
expire_all-++ (r ∷ rs) after now = ap (λ z. expire_one r now ∷ z) (expire_all-++ rs after now)

-- An operation that is on no record stays so when the reservation expires.
applied_in-cases :
    (r : Reservation) (op_id : String)
    → applied_in r op_id ≡ ok none
    → (is_text r.op_id op_id ≡ false)
      × (cancel_signature r.cancel_operation op_id ≡ none)
      × (ltb max_edit_operations_per_reservation (length r.edit_operations) ≡ false)
      × (find_edit r.edit_operations op_id ≡ none)
unfolding applied_in
applied_in-cases r op_id h = elim (Bool-cases (is_text r.op_id op_id)) [
  | inl made ↦
      let k : ◌≡◌ {A = Result (Option Applied)} (ok (some _)) (ok none) =
        rw (made, applied_in) at h in
      absurd (cc)
  | inr a ↦ elim (Option-cases (cancel_signature r.cancel_operation op_id)) [
    | inr (s, e) ↦
        let k : ◌≡◌ {A = Result (Option Applied)} (ok (some _)) (ok none) =
          rw (a, e, applied_in) at h in
        absurd (cc)
    | inl b ↦
        elim (Bool-cases (ltb max_edit_operations_per_reservation (length r.edit_operations))) [
          | inl long ↦ let k = rw (a, b, long, applied_in) at h in absurd (cc)
          | inr c ↦ elim (Option-cases (find_edit r.edit_operations op_id)) [
            | inr (s, e) ↦
                let k : ◌≡◌ {A = Result (Option Applied)} (ok (some _)) (ok none) =
                  rw (a, b, c, e, applied_in) at h in
                absurd (cc)
            | inl d ↦ (a, b, c, d)
          ]
        ]
  ]
]

applied_in-none :
    (r : Reservation) (op_id : String)
    → is_text r.op_id op_id ≡ false
    → cancel_signature r.cancel_operation op_id ≡ none
    → ltb max_edit_operations_per_reservation (length r.edit_operations) ≡ false
    → find_edit r.edit_operations op_id ≡ none
    → applied_in r op_id ≡ ok none
unfolding applied_in
applied_in-none r op_id a b c d = rw (a, b, c, d) refl

expire_one-IsFresh :
    (r : Reservation) (uid : ℕ) (op_id : String) (now : Instant)
    → IsFresh uid op_id r
    → IsFresh uid op_id (expire_one r now)
unfolding expire_one
expire_one-IsFresh r uid op_id now h = elim (Bool-cases (is_due r now)) [
  | inl due ↦
      rw due λ own.
        let (a, b, c, d) = applied_in-cases r op_id (h own) in applied_in-none _ op_id a b c d
  | inr late ↦ rw late h
]

expire_all-IsFresh :
    (rs : List Reservation) (uid : ℕ) (op_id : String) (now : Instant)
    → All (IsFresh uid op_id) rs
    → All (IsFresh uid op_id) (expire_all rs now)
unfolding expire_all
expire_all-IsFresh [] uid op_id now h = tt
expire_all-IsFresh (r ∷ rs) uid op_id now h =
    (expire_one-IsFresh r uid op_id now h.0, expire_all-IsFresh rs uid op_id now h.1)

module _ (actor : Actor) (now : Instant) (op_id signature : String) where
  cancelled_by-applied_in :
      (r : Reservation)
      → applied_in r op_id ≡ ok none
      → applied_in (cancelled_by actor now op_id signature r) op_id
        ≡ ok (
            some (record {
              action = cancel_action;
              reservation = cancelled_by actor now op_id signature r;
              signature = some signature;
            }))
  unfolding applied_in cancelled_by
  cancelled_by-applied_in r h = rw ((applied_in-cases r op_id h).0, str_eq_refl op_id) refl

  expire_one-cancelled_by :
      (r : Reservation) (later : Instant)
      → expire_one (cancelled_by actor now op_id signature r) later
        ≡ cancelled_by actor now op_id signature r
  unfolding expire_one cancelled_by
  expire_one-cancelled_by r later = refl

  kept_uid : (r : Reservation) → (cancelled_by actor now op_id signature r).uid ≡ r.uid
  unfolding cancelled_by
  kept_uid r = refl

  pub kept_id : (r : Reservation) → (cancelled_by actor now op_id signature r).id ≡ r.id
  unfolding cancelled_by
  kept_id r = refl

  -- The lookup of the ID in the ledger that the cancellation left, at a later instant.
  pub find_applied-again :
      (old before after : List Reservation) (r : Reservation) (later : Instant)
      → old ≡ before ++ r ∷ after
      → find_applied old actor.uid op_id ≡ ok none
      → r.uid ≡ actor.uid
      → find_applied
          (expire_all (before ++ cancelled_by actor now op_id signature r ∷ after) later)
          actor.uid
          op_id
        ≡ ok (
            some (record {
              action = cancel_action;
              reservation = cancelled_by actor now op_id signature r;
              signature = some signature;
            }))
  unfolding expire_all
  find_applied-again old before after r later e fresh own =
      let all = find_applied-All (before ++ r ∷ after) actor.uid op_id (rw e at fresh) in
      let (ahead, here) = halves before all in
      rw
        (
          expire_all-++ before (cancelled_by actor now op_id signature r ∷ after) later,
          expire_one-cancelled_by r later,
        )
        (find_applied-here (expire_all before later) (expire_all after later)
          (cancelled_by actor now op_id signature r) actor.uid op_id _
          (expire_all-IsFresh before actor.uid op_id later ahead) (kept_uid r ∙ own)
          (cancelled_by-applied_in r (here own)))
    where
      halves :
          (xs : List Reservation)
          → All (IsFresh actor.uid op_id) (xs ++ r ∷ after)
          → All (IsFresh actor.uid op_id) xs × IsFresh actor.uid op_id r
      halves [] h = (tt, h.0)
      halves (x ∷ xs) h = let (a, b) = halves xs h.1 in ((h.0, a), b)
