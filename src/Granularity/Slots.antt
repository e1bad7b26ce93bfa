-- ===== src/Granularity/Slots.antt =====
-- Laws of `floor_to_slot` and `ceil_to_slot`.
use gpubk.Prelude.{
  ℕ, ◌+◌, ◌*◌, ◌/◌, ◌%◌, ◌≤◌, ◌<◌, ◌≡◌, ◌∙◌, ◌↔◌, ◌⊎◌, inl, inr, true, arith, sym, subst, ltb,
  ltb→lt, ltb→ge, tests, ==→eq, eq→==, Bool-cases,
}
use native.Mathlib.Nat.{mul-le-mul_right}
use gpubk.Granularity.{floor_to_slot, ceil_to_slot, is_slot_aligned, slot_seconds}

-- A multiple of the slot length.
abbrev pub IsAligned : ℕ → ℕ → Type 0
IsAligned m t = (k : ℕ) × (t ≡ k * slot_seconds m)

pub floor-le : (t m : ℕ) → floor_to_slot t m ≤ t
unfolding floor_to_slot
floor-le t m = omega arith

pub floor-IsAligned : (t m : ℕ) → IsAligned m (floor_to_slot t m)
unfolding floor_to_slot
floor-IsAligned t m = (t / slot_seconds m, grind arith)

floor-gt : (t m : ℕ) → 0 < m → t < floor_to_slot t m + slot_seconds m
unfolding floor_to_slot
floor-gt t m h = grind arith

-- Multiples of `s` in order are at least `s` apart.
multiple_gap : (k l s : ℕ) → k * s < l * s → k * s + s ≤ l * s
multiple_gap k l s h = elim (Bool-cases (ltb k l)) [
  | inl lt ↦ ordered (ltb→lt k l lt)
  | inr ge ↦ absurd (crossed (ltb→ge k l ge))
]
  where
    ordered : k < l → k * s + s ≤ l * s
    ordered lt = omega (arith, mul-le-mul_right s lt)

    crossed : l ≤ k → ⊥
    crossed ge = omega (arith, mul-le-mul_right s ge)

IsAligned-gap : (m a b : ℕ) → IsAligned m a → IsAligned m b → a < b → a + slot_seconds m ≤ b
IsAligned-gap m a b (k, e) (l, f) h =
    omega (arith, multiple_gap k l (slot_seconds m) (rw (← e, ← f) h))

pub floor_greatest : (t m a : ℕ) → 0 < m → IsAligned m a → a ≤ t → a ≤ floor_to_slot t m
floor_greatest t m a h al le = elim (Bool-cases (ltb (floor_to_slot t m) a)) [
  | inl lt ↦ absurd (
      omega (
        tests,
        IsAligned-gap m (floor_to_slot t m) a (floor-IsAligned t m) al (ltb→lt _ _ lt),
        floor-gt t m h,
      ))
  | inr ge ↦ ltb→ge _ _ ge
]

ceil-cases :
    (t m : ℕ)
    → ((ceil_to_slot t m ≡ t) × (t ≡ floor_to_slot t m))
      ⊎ ((ceil_to_slot t m ≡ floor_to_slot t m + slot_seconds m) × (floor_to_slot t m < t))
unfolding ceil_to_slot
ceil-cases t m = ground (arith, floor-le t m)

pub ceil-ge : (t m : ℕ) → 0 < m → t ≤ ceil_to_slot t m
ceil-ge t m h = omega (arith, ceil-cases t m, floor-gt t m h)

pub ceil-IsAligned : (t m : ℕ) → IsAligned m (ceil_to_slot t m)
ceil-IsAligned t m = elim (ceil-cases t m) [
  | inl (e, f) ↦ let (k, g) = floor-IsAligned t m in (k, e ∙ f ∙ g)
  | inr (e, _) ↦ let (k, g) = floor-IsAligned t m in (k + 1, omega arith)
]

pub ceil_least : (t m a : ℕ) → 0 < m → IsAligned m a → t ≤ a → ceil_to_slot t m ≤ a
ceil_least t m a h al le = elim (ceil-cases t m) [
  | inl (e, _) ↦ omega arith
  | inr (e, lt) ↦
      omega (arith, IsAligned-gap m (floor_to_slot t m) a (floor-IsAligned t m) al (omega arith))
]

pub IsAligned-multiple : (d m : ℕ) → d % slot_seconds m ≡ 0 → IsAligned m d
IsAligned-multiple d m h = (d / slot_seconds m, grind arith)

pub IsAligned_add : (m a b : ℕ) → IsAligned m a → IsAligned m b → IsAligned m (a + b)
IsAligned_add m a b (k, e) (l, f) = (k + l, grind arith)

-- The slot test accepts exactly the multiples of the slot length.
pub is_slot_aligned_iff : (t m : ℕ) → 0 < m → (is_slot_aligned t m ≡ true) ↔ IsAligned m t
unfolding is_slot_aligned
is_slot_aligned_iff t m h = (
  λ e. subst (IsAligned m) (sym (==→eq t (floor_to_slot t m) e)) (floor-IsAligned t m),
  λ al.
      eq→== t (floor_to_slot t m)
        (omega (arith, floor-le t m, floor_greatest t m t h al (omega arith))),
)

-- Rounding up gives the least slot boundary that is not before the instant.
pub ceil_to_slot_lem :
    (t m : ℕ)
    → 0 < m
    → (t ≤ ceil_to_slot t m)
      × IsAligned m (ceil_to_slot t m)
      × ((a : ℕ) → IsAligned m a → t ≤ a → ceil_to_slot t m ≤ a)
ceil_to_slot_lem t m h = (ceil-ge t m h, ceil-IsAligned t m, λ a. ceil_least t m a h)

-- Rounding down gives the greatest slot boundary that is not after the instant.
pub floor_to_slot_lem :
    (t m : ℕ)
    → 0 < m
    → (floor_to_slot t m ≤ t)
      × IsAligned m (floor_to_slot t m)
      × ((a : ℕ) → IsAligned m a → a ≤ t → a ≤ floor_to_slot t m)
floor_to_slot_lem t m h = (floor-le t m, floor-IsAligned t m, λ a. floor_greatest t m a h)
