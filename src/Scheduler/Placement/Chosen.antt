-- ===== src/Scheduler/Placement/Chosen.antt =====
-- What a successful placement says of the GPUs that it returns.
use gpubk.Prelude.{
  ℕ, zero, suc, ◌≡◌, ◌∙◌, refl, ap, inl, inr, true, false, Option, none, some, List, [], ◌∷◌, arith,
  min, map, ◌==◌, elem, length, take, All, Bool-cases,
}
use gpubk.Models.{Config}
use gpubk.ScheduleIndex.{ReservationIndex}
use gpubk.Scheduler.Reasons.{Reason}
use gpubk.Scheduler.Availability.{availability_detail_indexed}
use gpubk.Scheduler.Placement.Ranking.{Candidate, ranks_before, insert_ranked, ranked}
use gpubk.Scheduler.Placement.{
  Ask, demand_of, Scan, noted, candidate_of, scan_gpus, chosen, all_free,
}

length-insert_ranked :
    (x : Candidate) (xs : List Candidate) → length (insert_ranked x xs) ≡ suc (length xs)
unfolding insert_ranked
length-insert_ranked x [] = refl
length-insert_ranked x (y ∷ ys) = ground (arith, length-insert_ranked x ys)

length-ranked : (xs : List Candidate) → length (ranked xs) ≡ length xs
unfolding ranked
length-ranked [] = refl
length-ranked (x ∷ xs) = length-insert_ranked x (ranked xs) ∙ ap suc (length-ranked xs)

gpus_of : List Candidate → List ℕ
gpus_of candidates = map (λ candidate. candidate.gpu) candidates

length-take-gpus :
    (n : ℕ) (xs : List Candidate)
    → length (take n (map (λ candidate. candidate.gpu) xs)) ≡ min n (length xs)
length-take-gpus zero xs = omega arith
length-take-gpus (suc n) [] = omega arith
length-take-gpus (suc n) (x ∷ xs) = omega (arith, length-take-gpus n xs)

-- `count` GPUs are returned, or all that are free if they are fewer.
pub length-chosen :
    (count : ℕ) (scan : Scan) → length (chosen count scan).0 ≡ min count (length scan.available)
unfolding chosen
length-chosen count scan =
    ground (arith, length-take-gpus count (ranked scan.available), length-ranked scan.available)

-- The place of each returned GPU in what was scanned: `P` of all that is free is `P` of the choice.
module _ (P : ℕ → Type 0) where
  insert_ranked-All :
      (x : Candidate) (xs : List Candidate)
      → P x.gpu
      → All (λ y. P y.gpu) xs
      → All (λ y. P y.gpu) (insert_ranked x xs)
  unfolding insert_ranked
  insert_ranked-All x [] h k = (h, tt)
  insert_ranked-All x (y ∷ ys) h k = elim (Bool-cases (ranks_before y x)) [
    | inl later ↦ rw later (k.0, insert_ranked-All x ys h k.1)
    | inr first ↦ rw first (h, k)
  ]

  ranked-All : (xs : List Candidate) → All (λ y. P y.gpu) xs → All (λ y. P y.gpu) (ranked xs)
  unfolding ranked
  ranked-All [] h = tt
  ranked-All (x ∷ xs) h = insert_ranked-All x (ranked xs) h.0 (ranked-All xs h.1)

  take-gpus-All :
      (n : ℕ) (xs : List Candidate)
      → All (λ y. P y.gpu) xs
      → All P (take n (map (λ candidate. candidate.gpu) xs))
  take-gpus-All zero xs h = tt
  take-gpus-All (suc n) [] h = tt
  take-gpus-All (suc n) (x ∷ xs) h = (h.0, take-gpus-All n xs h.1)

  pub chosen-All :
      (count : ℕ) (scan : Scan) → All (λ y. P y.gpu) scan.available → All P (chosen count scan).0
  unfolding chosen
  chosen-All count scan h =
      let all = take-gpus-All count (ranked scan.available) (ranked-All scan.available h) in
      elim (Bool-cases
        (length (take count (map (λ candidate. candidate.gpu) (ranked scan.available))) == count)) [
          | inl full ↦ rw full all
          | inr few ↦ rw few all
        ]

module _ (index : ReservationIndex) (config : Config) (start end : ℕ) (ask : Ask) where
  abbrev IsFree : ℕ → Type 0
  IsFree gpu = availability_detail_indexed index gpu start end (demand_of config ask) ≡ none

  -- Every key that the scan keeps is of a GPU of the order that is free.
  module _ (P : ℕ → Type 0) where
    noted-All :
        (found : Option Reason) (x : Candidate) (rest : Scan)
        → (found ≡ none → P x.gpu)
        → All (λ y. P y.gpu) rest.available
        → All (λ y. P y.gpu) (noted found x rest).available
    unfolding noted
    noted-All none x rest h k = (h refl, k)
    noted-All (some reason) x rest h k = k

    pub scan_gpus-All :
        (scores : List (ℕ × ℕ)) (rank : ℕ) (order : List ℕ)
        → All (λ gpu. IsFree gpu → P gpu) order
        → All (λ y. P y.gpu) (scan_gpus index config start end ask scores rank order).available
    unfolding scan_gpus candidate_of
    scan_gpus-All scores rank [] h = tt
    scan_gpus-All scores rank (gpu ∷ rest) h =
        noted-All _ _ _ h.0 (scan_gpus-All scores (suc rank) rest h.1)

  pub all_free-All :
      (excluded preferred : List ℕ)
      → all_free index config start end ask excluded preferred ≡ true
      → All
          (λ gpu.
            IsFree gpu × (elem gpu config.disabled_gpus ≡ false) × (elem gpu excluded ≡ false))
          preferred
  unfolding all_free
  all_free-All excluded [] h = tt
  all_free-All excluded (gpu ∷ rest) h = ground (arith, all_free-All excluded rest)
