-- ===== src/Prelude/Ascending.antt =====
-- A Python set of numbers, kept as its strictly ascending list: `sorted(s)` is the list itself.
use Prim.Native.Nat.{ℕ, ◌<◌, ◌≤◌}
use mathlib.Core.Path.{refl, ap, sym, subst, ◌≡◌}
use mathlib.Core.Logic.{◌⊎◌, inl, inr}
use mathlib.Core.List.{List, [], ◌∷◌}
use native.Mathlib.Omega.{arith}
use gpubk.Prelude.Tests.{ltb, ◌==◌, if◌then◌else◌, Bool-cases, ltb→lt, ltb→ge}
use gpubk.Prelude.Lists.{In}

-- `s.add(p)`
unfoldable pub add : ℕ → List ℕ → List ℕ
add p [] = p ∷ []
add p (q ∷ qs) = if ltb p q then p ∷ q ∷ qs else if p == q then q ∷ qs else q ∷ add p qs

-- `set(xs)`
unfoldable pub from_list : List ℕ → List ℕ
unfolding add
from_list [] = []
from_list (x ∷ xs) = add x (from_list xs)

-- Strictly ascending, from above `lo`.
abbrev pub IsFrom : ℕ → List ℕ → Type 0
IsFrom lo [] = Unit
IsFrom lo (x ∷ xs) = (lo < x) × IsFrom x xs

abbrev pub IsAscending : List ℕ → Type 0
IsAscending [] = Unit
IsAscending (x ∷ xs) = IsFrom x xs

-- `zip(ordered, ordered[1:])`
abbrev pub adjacent_from : ℕ → List ℕ → List (ℕ × ℕ)
adjacent_from x [] = []
adjacent_from x (y ∷ ys) = (x, y) ∷ adjacent_from y ys

abbrev pub adjacent : List ℕ → List (ℕ × ℕ)
adjacent [] = []
adjacent (x ∷ xs) = adjacent_from x xs

pub add-In_self : (p : ℕ) (s : List ℕ) → In p (add p s)
unfolding add
add-In_self p [] = inl refl
add-In_self p (q ∷ qs) = ground (arith, add-In_self p qs)

pub In-add : (p : ℕ) (s : List ℕ) (a : ℕ) → In a s → In a (add p s)
unfolding add
In-add p [] a m = absurd m
In-add p (q ∷ qs) a m = ground (arith, In-add p qs a)

pub add-In : (p : ℕ) (s : List ℕ) (a : ℕ) → In a (add p s) → (a ≡ p) ⊎ In a s
unfolding add
add-In p [] a m = ground arith
add-In p (q ∷ qs) a m = ground (arith, add-In p qs a)

pub In-from_list : (a : ℕ) (xs : List ℕ) → In a xs → In a (from_list xs)
unfolding from_list
In-from_list a [] m = absurd m
In-from_list a (x ∷ xs) (inl e) = subst (λ y. In y (add x (from_list xs))) (sym e) (add-In_self x _)
In-from_list a (x ∷ xs) (inr m) = In-add x (from_list xs) a (In-from_list a xs m)

add-IsFrom : (lo p : ℕ) (s : List ℕ) → lo < p → IsFrom lo s → IsFrom lo (add p s)
unfolding add
add-IsFrom lo p [] h k = (h, tt)
add-IsFrom lo p (q ∷ qs) h k = ground (arith, add-IsFrom q p qs)

pub add-IsAscending : (p : ℕ) (s : List ℕ) → IsAscending s → IsAscending (add p s)
unfolding add
add-IsAscending p [] h = tt
add-IsAscending p (q ∷ qs) h = ground (arith, add-IsFrom q p qs)

-- What is known of a pair of neighbours.
pub record IsGap (s : List ℕ) (l r : ℕ) : Type 0 where
  pub rising : l < r
  pub left_in : In l s
  pub right_in : In r s
  pub outside : (p : ℕ) → In p s → (p ≤ l) ⊎ (r ≤ p)

pub IsFrom-le : (lo : ℕ) (s : List ℕ) (p : ℕ) → IsFrom lo s → In p s → lo < p
IsFrom-le lo [] p h m = absurd m
IsFrom-le lo (x ∷ xs) p h m = ground (arith, IsFrom-le x xs p)

adjacent_from-IsGap :
    (x : ℕ) (s : List ℕ) (l r : ℕ) → IsFrom x s → In (l, r) (adjacent_from x s) → IsGap (x ∷ s) l r
adjacent_from-IsGap x [] l r h m = absurd m
adjacent_from-IsGap x (y ∷ ys) l r h (inl e) =
    let el : l ≡ x = ap (λ q. q.0) e in
    let er : r ≡ y = ap (λ q. q.1) e in
    record {
      rising = omega arith;
      left_in = inl el;
      right_in = inr (inl er);
      outside = λ p n. ground (arith, IsFrom-le y ys p);
    }
adjacent_from-IsGap x (y ∷ ys) l r h (inr m) =
    let rest = adjacent_from-IsGap y ys l r h.1 m in
    record {
      rising = rest.rising;
      left_in = inr rest.left_in;
      right_in = inr rest.right_in;
      outside = λ p n. elim n [
        | inl e ↦ inl (omega (arith, IsFrom-le x (y ∷ ys) l h rest.left_in))
        | inr k ↦ rest.outside p k
      ];
    }

pub adjacent-IsGap : (s : List ℕ) (l r : ℕ) → IsAscending s → In (l, r) (adjacent s) → IsGap s l r
adjacent-IsGap [] l r h m = absurd m
adjacent-IsGap (x ∷ xs) l r h m = adjacent_from-IsGap x xs l r h m

adjacent_from_covers :
    (x : ℕ) (s : List ℕ) (t e : ℕ)
    → In e s
    → x ≤ t
    → t < e
    → (l : ℕ) × (r : ℕ) × In (l, r) (adjacent_from x s) × (l ≤ t) × (t < r)
adjacent_from_covers x [] t e m h k = absurd m
adjacent_from_covers x (y ∷ ys) t e m h k = elim (Bool-cases (ltb t y)) [
  | inl before ↦ (x, y, inl refl, h, ltb→lt t y before)
  | inr after ↦
      let (l, r, n, a, b) =
        adjacent_from_covers y ys t e (later m (ltb→ge t y after)) (ltb→ge t y after) k in
      (l, r, inr n, a, b)
]
  where
    later : In e (y ∷ ys) → y ≤ t → In e ys
    later (inl q) ge = absurd (omega arith)
    later (inr n) ge = n

-- Between a member and a later member every instant lies in a gap.
pub adjacent_covers :
    (s : List ℕ) (b t e : ℕ)
    → IsAscending s
    → In b s
    → In e s
    → b ≤ t
    → t < e
    → (l : ℕ) × (r : ℕ) × In (l, r) (adjacent s) × (l ≤ t) × (t < r)
adjacent_covers [] b t e h mb me k j = absurd mb
adjacent_covers (x ∷ xs) b t e h mb me k j =
    adjacent_from_covers x xs t e (later me) (omega (arith, from_head b mb)) j
  where
    from_head : (p : ℕ) → In p (x ∷ xs) → x ≤ p
    from_head p m = ground (arith, IsFrom-le x xs p)

    later : In e (x ∷ xs) → In e xs
    later (inl q) = absurd (omega (arith, from_head b mb))
    later (inr n) = n
