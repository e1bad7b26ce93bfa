-- ===== src/Scheduler/Gpus/Scope.antt =====
-- The order of the GPUs names enabled GPUs only.
use gpubk.Prelude.{
  ℕ, ◌≡◌, refl, subst, ◌⊎◌, Bool, true, false, not, ◌&&◌, Option, none, some, List, [], ◌∷◌, ◌++◌,
  arith, elem, select, All, In, In-All, In-select, if◌then◌else◌, Bool-cases, inl, inr, elem-In,
  All-In,
}
use gpubk.Prelude.{◌<◌}
use gpubk.Prelude.Ascending.{from_list, add-In}
use gpubk.Models.{Config}
use gpubk.Errors.{ok, >>=-eq-ok, ok-injective}
use gpubk.Scheduler.Gpus.{
  enabled_gpus, range_from, validate_gpu_index, validate_gpu_indices, normalize_excluded_gpus,
  order_loop, normalize_gpu_order,
}

abbrev pub IsEnabled : Config → ℕ → Type 0
IsEnabled config gpu = elem gpu config.disabled_gpus ≡ false

not-true : (b : Bool) → not b ≡ true → b ≡ false
not-true b h = ground arith

enabled_gpus-All : (config : Config) → All (IsEnabled config) (enabled_gpus config)
unfolding enabled_gpus
enabled_gpus-All config = In-All _ _ λ gpu m.
    not-true _
      (In-select (λ g. not (elem g config.disabled_gpus)) (range_from 0 config.gpu_count) gpu m).1

All-append : (P : ℕ → Type 0) (xs ys : List ℕ) → All P xs → All P ys → All P (xs ++ ys)
All-append P [] ys h k = k
All-append P (x ∷ xs) ys h k = (h.0, All-append P xs ys h.1 k)

pub select-All : (P : ℕ → Type 0) (p : ℕ → Bool) (xs : List ℕ) → All P xs → All P (select p xs)
select-All P p [] h = tt
select-All P p (x ∷ xs) h = elim (Bool-cases (p x)) [
  | inl keeps ↦ rw keeps (h.0, select-All P p xs h.1)
  | inr drops ↦ rw drops (select-All P p xs h.1)
]

module _ (config : Config) where
  IsEnabled-member : (gpu : ℕ) → elem gpu (enabled_gpus config) ≡ true → IsEnabled config gpu
  IsEnabled-member gpu h = All-In _ _ (enabled_gpus-All config) gpu (elem-In gpu _ h)

  order_loop-All :
      (gpus result order : List ℕ)
      → All (IsEnabled config) result
      → order_loop config gpus result ≡ ok order
      → All (IsEnabled config) order
  unfolding order_loop
  order_loop-All [] result order h e = subst (All (IsEnabled config)) (ok-injective e) h
  order_loop-All (gpu ∷ rest) result order h e =
      let (_, _, loop) = >>=-eq-ok (validate_gpu_index config gpu) _ e in
      order_loop-All rest _ order (next (Bool-cases _)) loop
    where
      kept : Bool
      kept = elem gpu (enabled_gpus config) && not (elem gpu result)

      next :
          (kept ≡ true) ⊎ (kept ≡ false)
          → All (IsEnabled config) (if kept then result ++ gpu ∷ [] else result)
      next (inl t) =
          rw t (All-append _ result (gpu ∷ []) h (IsEnabled-member gpu (ground (arith, t)), tt))
      next (inr f) = rw f h

  pub normalize_gpu_order-All :
      (gpus : Option (List ℕ)) (order : List ℕ)
      → normalize_gpu_order gpus config ≡ ok order
      → All (IsEnabled config) order
  unfolding normalize_gpu_order
  normalize_gpu_order-All none order e =
      subst (All (IsEnabled config)) (ok-injective e) (enabled_gpus-All config)
  normalize_gpu_order-All (some gpus) order e =
      let (result, loop, whole) = >>=-eq-ok (order_loop config gpus []) _ e in
      subst (All (IsEnabled config)) (ok-injective whole) (
        All-append _ result _ (order_loop-All gpus [] result tt loop)
          (select-All _ _ _ (enabled_gpus-All config)))

-- The elements of a set that was read are among those that were given.
from_list-In : (xs : List ℕ) (a : ℕ) → In a (from_list xs) → In a xs
unfolding from_list
from_list-In [] a m = m
from_list-In (x ∷ xs) a m = ground (arith, add-In x (from_list xs) a, from_list-In xs a)

abbrev InRange : Config → ℕ → Type 0
InRange config gpu = gpu < config.gpu_count

validate_gpu_indices-All :
    (config : Config) (xs : List ℕ)
    → validate_gpu_indices config xs ≡ ok tt
    → All (InRange config) xs
unfolding validate_gpu_indices validate_gpu_index
validate_gpu_indices-All config [] h = tt
validate_gpu_indices-All config (x ∷ xs) h = ground (arith, validate_gpu_indices-All config xs)

All-validate_gpu_indices :
    (config : Config) (xs : List ℕ)
    → All (InRange config) xs
    → validate_gpu_indices config xs ≡ ok tt
unfolding validate_gpu_indices validate_gpu_index
All-validate_gpu_indices config [] h = refl
All-validate_gpu_indices config (x ∷ xs) h = ground (arith, All-validate_gpu_indices config xs h.1)

-- A list that was read once is read again.
pub normalize_excluded_again :
    (config : Config) (gpus : Option (List ℕ)) (banned : List ℕ)
    → normalize_excluded_gpus gpus config ≡ ok banned
    → (again : List ℕ) × (normalize_excluded_gpus (some banned) config ≡ ok again)
unfolding normalize_excluded_gpus
normalize_excluded_again config none banned h = (
  [],
  subst (λ b. normalize_excluded_gpus (some b) config ≡ ok []) (ok-injective h)
      (unfold validate_gpu_indices from_list in refl),
)
normalize_excluded_again config (some gpus) banned h =
    let (_, valid, last) = >>=-eq-ok (validate_gpu_indices config (from_list gpus)) _ h in
    let same : from_list gpus ≡ banned = ok-injective last in
    let all : All (InRange config) banned =
      subst (All (InRange config)) same (validate_gpu_indices-All config _ valid) in
    let again =
      In-All (InRange config) (from_list banned)
        (λ a m. All-In (InRange config) banned all a (from_list-In banned a m)) in
    (from_list banned, rw (All-validate_gpu_indices config _ again))
