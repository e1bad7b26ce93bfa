-- ===== src/Scheduler/Search/Nearest/Order.antt =====
-- The order of the candidates of `find_nearest_slot`, by one number for the three parts of the key.
use gpubk.Prelude.{
  ℕ, ◌+◌, ◌*◌, ◌≤◌, ◌<◌, ◌≡◌, ◌⊎◌, inl, inr, sym, subst, true, false, List, [], ◌∷◌, arith, ltb,
  if◌then◌else◌, Bool-cases, All, All-In, In, In-All,
}
use gpubk.Models.{Instant}
use gpubk.Scheduler.Search.Nearest.{distance, nearer, insert_nearest, by_distance}

-- Twice the distance, and one more after the target.
abbrev pub rank : Instant → Instant → ℕ
rank target c = 2 * distance c target + (if ltb target c then 1 else 0)

pub nearer-rank : (target a b : Instant) → nearer target a b ≡ true → rank target a < rank target b
unfolding nearer
nearer-rank target a b h = ground arith

rank-nearer : (target a b : Instant) → nearer target a b ≡ false → rank target b ≤ rank target a
unfolding nearer
rank-nearer target a b h = ground arith

-- Each element is ranked no later than those after it.
abbrev pub IsRanked : Instant → List Instant → Type 0
IsRanked target [] = Unit
IsRanked target (x ∷ xs) = All (λ y. rank target x ≤ rank target y) xs × IsRanked target xs

In-insert_nearest :
    (target x : Instant) (ys : List Instant) (c : Instant)
    → In c (insert_nearest target x ys)
    → (c ≡ x) ⊎ In c ys
unfolding insert_nearest
In-insert_nearest target x [] c m = m
In-insert_nearest target x (y ∷ ys) c m = elim (Bool-cases (nearer target y x)) [
  | inr first ↦ rw (first, insert_nearest) at m
  | inl later ↦ deeper (rw (later, insert_nearest) at m) (λ n. In-insert_nearest target x ys c n)
]
  where
    deeper :
        (c ≡ y) ⊎ In c (insert_nearest target x ys)
        → (In c (insert_nearest target x ys) → (c ≡ x) ⊎ In c ys)
        → (c ≡ x) ⊎ ((c ≡ y) ⊎ In c ys)
    deeper (inl e) ih = inr (inl e)
    deeper (inr n) ih = elim (ih n) [ inl e ↦ inl e | inr k ↦ inr (inr k) ]

insert_nearest-In :
    (target x : Instant) (ys : List Instant) (c : Instant)
    → (c ≡ x) ⊎ In c ys
    → In c (insert_nearest target x ys)
unfolding insert_nearest
insert_nearest-In target x [] c m = m
insert_nearest-In target x (y ∷ ys) c m = elim (Bool-cases (nearer target y x)) [
  | inr first ↦ rw first m
  | inl later ↦ rw later (deeper m (λ n. insert_nearest-In target x ys c n))
]
  where
    deeper :
        (c ≡ x) ⊎ ((c ≡ y) ⊎ In c ys)
        → ((c ≡ x) ⊎ In c ys → In c (insert_nearest target x ys))
        → (c ≡ y) ⊎ In c (insert_nearest target x ys)
    deeper (inl e) ih = inr (ih (inl e))
    deeper (inr (inl e)) ih = inl e
    deeper (inr (inr k)) ih = inr (ih (inr k))

insert_nearest-IsRanked :
    (target x : Instant) (ys : List Instant)
    → IsRanked target ys
    → IsRanked target (insert_nearest target x ys)
unfolding insert_nearest
insert_nearest-IsRanked target x [] h = (tt, tt)
insert_nearest-IsRanked target x (y ∷ ys) (least, h) = elim (Bool-cases (nearer target y x)) [
  | inl later ↦ rw later (
    In-All (λ z. rank target y ≤ rank target z) (insert_nearest target x ys)
        (λ c m. above_y (nearer-rank target y x later) c (In-insert_nearest target x ys c m)),
    insert_nearest-IsRanked target x ys h,
  )
  | inr first ↦ rw first (
    (
      rank-nearer target y x first,
      In-All (λ z. rank target x ≤ rank target z) ys
          (λ c m. omega (
            arith,
            rank-nearer target y x first,
            All-In (λ z. rank target y ≤ rank target z) ys least c m,
          )),
    ),
    (least, h),
  )
]
  where
    above_y :
        rank target y < rank target x
        → (c : Instant) → (c ≡ x) ⊎ In c ys
        → rank target y ≤ rank target c
    above_y lt c (inl e) = subst (λ z. rank target y ≤ rank target z) (sym e) (omega arith)
    above_y lt c (inr m) = All-In (λ z. rank target y ≤ rank target z) ys least c m

pub by_distance-IsRanked :
    (target : Instant) (xs : List Instant) → IsRanked target (by_distance target xs)
unfolding by_distance
by_distance-IsRanked target [] = tt
by_distance-IsRanked target (x ∷ xs) =
    insert_nearest-IsRanked target x (by_distance target xs) (by_distance-IsRanked target xs)

pub by_distance-In :
    (target : Instant) (xs : List Instant) (c : Instant) → In c xs → In c (by_distance target xs)
unfolding by_distance
by_distance-In target [] c m = m
by_distance-In target (x ∷ xs) c (inl e) = insert_nearest-In target x _ c (inl e)
by_distance-In target (x ∷ xs) c (inr m) =
    insert_nearest-In target x _ c (inr (by_distance-In target xs c m))

pub In-by_distance :
    (target : Instant) (xs : List Instant) (c : Instant) → In c (by_distance target xs) → In c xs
unfolding by_distance
In-by_distance target [] c m = m
In-by_distance target (x ∷ xs) c m = elim (In-insert_nearest target x (by_distance target xs) c m) [
  | inl e ↦ inl e
  | inr n ↦ inr (In-by_distance target xs c n)
]
