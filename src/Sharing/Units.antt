-- ===== src/Sharing/Units.antt =====
-- Bounds of the units that requests and stored reservations stand for.
use gpubk.Prelude.{ℕ, ◌≤◌, ◌≡◌, Option, none, some, arith}
use gpubk.Models.{ℤ, pos, negsuc, Value, null, int}
use gpubk.Sharing.{
  accepted, bounded, parsed, normalize_share_units, stored_units, reservation_share_units,
  whole_number,
}

bounded-accepted :
    (z : ℤ) (capacity n : ℕ)
    → bounded z capacity ≡ accepted n
    → (z ≡ pos n) × (1 ≤ n) × (n ≤ capacity)
unfolding bounded
bounded-accepted (negsuc k) capacity n h = cc
bounded-accepted (pos k) capacity n h = ground arith

parsed-accepted :
    (z : Option ℤ) (capacity n : ℕ)
    → parsed z capacity ≡ accepted n
    → (z ≡ some (pos n)) × (1 ≤ n) × (n ≤ capacity)
unfolding parsed
parsed-accepted none capacity n h = cc
parsed-accepted (some z) capacity n h = ground (arith, bounded-accepted z capacity n h)

-- A stored whole number from 1 up counts for itself.
pub stored_int :
    (capacity n : ℕ) → 1 ≤ n → reservation_share_units (some (int (pos n))) capacity ≡ n
unfolding reservation_share_units
stored_int capacity n h = ground arith

normalize-accepted :
    (v : Option Value) (capacity n : ℕ)
    → normalize_share_units v capacity ≡ accepted n
    → (1 ≤ n) × (n ≤ capacity)
unfolding normalize_share_units
normalize-accepted none capacity n h = ground (arith, bounded-accepted (pos 1) capacity n)
normalize-accepted (some null) capacity n h = ground (arith, bounded-accepted (pos 1) capacity n)
normalize-accepted (some v) capacity n h =
    ground (arith, parsed-accepted (whole_number v) capacity n)

-- An accepted request asks for 1 to `capacity` units, and the number that is then stored counts
-- for exactly what was accepted.
pub normalize_share_units_lem :
    (v : Option Value) (capacity n : ℕ)
    → normalize_share_units v capacity ≡ accepted n
    → (1 ≤ n) × (n ≤ capacity) × (reservation_share_units (some (int (pos n))) capacity ≡ n)
normalize_share_units_lem v capacity n h =
    let (low, high) = normalize-accepted v capacity n h in (low, high, stored_int capacity n low)

-- Whatever stands under the key, a stored reservation counts for at least one unit.
pub reservation_share_units-pos :
    (v : Option Value) (capacity : ℕ) → 1 ≤ reservation_share_units v capacity
unfolding reservation_share_units stored_units
reservation_share_units-pos none capacity = omega arith
reservation_share_units-pos (some raw) capacity = pos_units (whole_number raw)
  where
    pos_units : (z : Option ℤ) → 1 ≤ stored_units z capacity
    pos_units none = omega arith
    pos_units (some (pos n)) = ground arith
    pos_units (some (negsuc n)) = omega arith

-- A whole number is accepted exactly from 1 to `capacity`, as it is.
pub normalize-int :
    (m capacity : ℕ)
    → 1 ≤ m
    → m ≤ capacity
    → normalize_share_units (some (int (pos m))) capacity ≡ accepted m
unfolding normalize_share_units bounded
normalize-int m capacity a b = ground arith

pub normalize-int-accepted :
    (m capacity n : ℕ)
    → normalize_share_units (some (int (pos m))) capacity ≡ accepted n
    → (m ≡ n) × (1 ≤ n) × (n ≤ capacity)
unfolding normalize_share_units
normalize-int-accepted m capacity n h = ground (arith, bounded-accepted (pos m) capacity n)
