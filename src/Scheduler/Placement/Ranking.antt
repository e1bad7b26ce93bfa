-- ===== src/Scheduler/Placement/Ranking.antt =====
-- The sort of the free GPUs, and the text of the reasons for the others.
use gpubk.Prelude.{
  ℕ, Bool, true, false, List, [], ◌∷◌, ◌++◌, take, any, ltb, ◌&&◌, str_eq, ◌==◌, if◌then◌else◌,
}
use gpubk.Models.{same_mode}
use gpubk.Sharing.{ShareError, not_whole_number, not_whole_between, outside_capacity}
use gpubk.Scheduler.Reasons.{
  Reason, exclusive_conflict, has_shared, unsupported_mode, invalid_share, shared_capacity_full,
  shared_memory_full, duration_exceeded, beyond_horizon, blackout, not_eligible,
}

-- The tuple `(priority, score, rank, gpu)`.
pub record Candidate : Type 0 where
  pub priority : ℕ
  pub score : ℕ
  pub rank : ℕ
  pub gpu : ℕ

-- `a < b` on tuples
unfoldable pub ranks_before : Candidate → Candidate → Bool
ranks_before a b =
    if ltb a.priority b.priority
    then true
    else if ltb b.priority a.priority
    then false
    else if ltb a.score b.score
    then true
    else if ltb b.score a.score
    then false
    else if ltb a.rank b.rank
    then true
    else if ltb b.rank a.rank
    then false
    else ltb a.gpu b.gpu

unfoldable pub insert_ranked : Candidate → List Candidate → List Candidate
unfolding ranks_before
insert_ranked x [] = x ∷ []
insert_ranked x (y ∷ ys) =
    let rest = insert_ranked x ys in if ranks_before y x then y ∷ rest else x ∷ y ∷ ys

unfoldable pub ranked : List Candidate → List Candidate
unfolding insert_ranked
ranked [] = []
ranked (x ∷ xs) = insert_ranked x (ranked xs)

same_share_error : ShareError → ShareError → Bool
same_share_error not_whole_number not_whole_number = true
same_share_error (not_whole_between a) (not_whole_between b) = a == b
same_share_error (outside_capacity a) (outside_capacity b) = a == b
same_share_error _ _ = false

same_list : List ℕ → List ℕ → Bool
same_list [] [] = true
same_list (x ∷ xs) (y ∷ ys) = x == y && same_list xs ys
same_list _ _ = false

-- Two reasons are the same text.
unfoldable pub same_reason : Reason → Reason → Bool
unfolding same_share_error same_list
same_reason (exclusive_conflict a) (exclusive_conflict b) = a == b
same_reason (has_shared a) (has_shared b) = a == b
same_reason (unsupported_mode a) (unsupported_mode b) = same_mode a b
same_reason (invalid_share a) (invalid_share b) = same_share_error a b
same_reason (shared_capacity_full a b c d) (shared_capacity_full p q r s) =
    a == p && b == q && c == r && d == s
same_reason (shared_memory_full a b c d) (shared_memory_full p q r s) =
    a == p && b == q && c == r && d == s
same_reason (duration_exceeded a) (duration_exceeded b) = a == b
same_reason (beyond_horizon a b) (beyond_horizon p q) = a == p && b == q
same_reason (blackout a b c) (blackout p q r) = a == p && b == q && str_eq c r
same_reason (not_eligible a b c d) (not_eligible p q r s) =
    a == p && b == q && same_list c r && same_list d s
same_reason _ _ = false

-- `for reason in reasons: if reason not in seen: seen.append(reason)`
distinct : List Reason → List Reason → List Reason
unfolding same_reason
distinct [] seen = seen
distinct (reason ∷ rest) seen =
    distinct rest (if any (same_reason reason) seen then seen else seen ++ reason ∷ [])

-- The parts that "; " joins.
unfoldable pub combine_reasons : List Reason → List Reason
unfolding distinct
combine_reasons reasons = take 3 (distinct reasons [])
