-- ===== src/Scheduler/Gpus.antt =====
-- Which GPUs a request may use: the normalisations of its lists, and `_validate_gpu_scope`.
-- A GPU index is from 0 up.
pub mod Scope
use gpubk.Prelude.{
  ℕ, zero, suc, ◌+◌, Bool, true, false, not, ◌&&◌, Option, none, some, List, [], ◌∷◌, ◌++◌, ltb,
  leb, ◌==◌, if◌then◌else◌, elem, select, length,
}
use gpubk.Prelude.Ascending.{from_list}
use gpubk.Models.{Config}
use gpubk.Errors.{
  Result, ok, err, ◌>>=◌, ◌>>◌, raise_if, count_below_one, count_mismatch, gpu_out_of_range,
  gpu_disabled, gpu_selected_and_excluded, eligible_count, memory_not_positive,
}

-- `range(first, first + count)`
abbrev pub range_from : ℕ → ℕ → List ℕ
range_from first zero = []
range_from first (suc count) = first ∷ range_from (suc first) count

-- `Config.enabled_gpus`
unfoldable pub enabled_gpus : Config → List ℕ
enabled_gpus config =
    select (λ gpu. not (elem gpu config.disabled_gpus)) (range_from 0 config.gpu_count)

unfoldable pub validate_gpu_index : Config → ℕ → Result (Unit {0})
validate_gpu_index config gpu = raise_if (leb config.gpu_count gpu) (gpu_out_of_range gpu)

-- `for gpu in normalized: _validate_gpu_index(config, gpu)`
unfoldable pub validate_gpu_indices : Config → List ℕ → Result (Unit {0})
validate_gpu_indices config [] = ok tt
validate_gpu_indices config (gpu ∷ rest) = do
  validate_gpu_index config gpu
  validate_gpu_indices config rest

unfoldable pub normalize_preferred_gpus : Option (List ℕ) → Option (List ℕ)
normalize_preferred_gpus none = none
normalize_preferred_gpus (some gpus) = some (from_list gpus)

unfoldable pub normalize_excluded_gpus : Option (List ℕ) → Config → Result (List ℕ)
normalize_excluded_gpus none config = ok []
normalize_excluded_gpus (some gpus) config = do
  let normalized = from_list gpus
  validate_gpu_indices config normalized
  ok normalized

-- The loop of `_normalize_gpu_order`, over the values still to read; `seen` has those of `result`.
unfoldable pub order_loop : Config → List ℕ → List ℕ → Result (List ℕ)
order_loop config [] result = ok result
order_loop config (gpu ∷ rest) result = do
  validate_gpu_index config gpu
  order_loop config rest (
      if elem gpu (enabled_gpus config) && not (elem gpu result)
      then result ++ gpu ∷ []
      else result)

unfoldable pub normalize_gpu_order : Option (List ℕ) → Config → Result (List ℕ)
normalize_gpu_order none config = ok (enabled_gpus config)
normalize_gpu_order (some gpus) config = do
  result ← order_loop config gpus []
  ok (result ++ select (λ gpu. not (elem gpu result)) (enabled_gpus config))

-- `gpu_scores`, with the check of each key. A score is a finite number by its type.
unfoldable pub scores_loop : Config → List (ℕ × ℕ) → Result (List (ℕ × ℕ))
scores_loop config [] = ok []
scores_loop config ((gpu, score) ∷ rest) = do
  validate_gpu_index config gpu
  result ← scores_loop config rest
  ok ((gpu, score) ∷ result)

unfoldable pub normalize_gpu_scores : Option (List (ℕ × ℕ)) → Config → Result (List (ℕ × ℕ))
normalize_gpu_scores none config = ok []
normalize_gpu_scores (some scores) config = scores_loop config scores

-- Capacities that are not positive are dropped.
unfoldable pub capacities_loop : Config → List (ℕ × ℕ) → Result (List (ℕ × ℕ))
capacities_loop config [] = ok []
capacities_loop config ((gpu, capacity) ∷ rest) = do
  validate_gpu_index config gpu
  result ← capacities_loop config rest
  ok (if capacity == 0 then result else (gpu, capacity) ∷ result)

unfoldable pub normalize_memory_capacities : Option (List (ℕ × ℕ)) → Config → Result (List (ℕ × ℕ))
normalize_memory_capacities none config = ok []
normalize_memory_capacities (some capacities) config = capacities_loop config capacities

unfoldable pub normalize_expected_memory : Option ℕ → Result (Option ℕ)
normalize_expected_memory none = ok none
normalize_expected_memory (some parsed) =
    if parsed == 0 then err memory_not_positive else ok (some parsed)

abbrev pub eligible_gpus : Config → List ℕ → List ℕ
eligible_gpus config excluded = select (λ gpu. not (elem gpu excluded)) (enabled_gpus config)

-- The checks of the selected GPUs.
unfoldable pub preferred_scope : Config → List ℕ → List ℕ → Result (Unit {0})
preferred_scope config excluded [] = ok tt
preferred_scope config excluded (gpu ∷ rest) = do
  validate_gpu_index config gpu
  raise_if (elem gpu config.disabled_gpus) (gpu_disabled gpu)
  raise_if (elem gpu excluded) (gpu_selected_and_excluded gpu)
  preferred_scope config excluded rest

unfoldable pub scope_of : Config → ℕ → Option (List ℕ) → List ℕ → Result (Unit {0})
scope_of config count (some preferred) excluded = do
  raise_if (not (length preferred == count)) count_mismatch
  preferred_scope config excluded preferred
scope_of config count none excluded =
    let eligible = eligible_gpus config excluded in
    raise_if (ltb (length eligible) count)
      (eligible_count count (length eligible) config.disabled_gpus excluded)

unfoldable pub validate_gpu_scope : Config → ℕ → Option (List ℕ) → List ℕ → Result (Unit {0})
validate_gpu_scope config count preferred excluded = do
  raise_if (ltb count 1) count_below_one
  scope_of config count preferred excluded
