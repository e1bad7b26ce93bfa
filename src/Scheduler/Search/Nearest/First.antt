-- ===== src/Scheduler/Search/Nearest/First.antt =====
-- The first start that serves in the order by the distance to a target.
use gpubk.Prelude.{
  ℕ, ◌≤◌, ◌<◌, ◌≡◌, ◌⊎◌, inl, inr, refl, ap, sym, ◌∙◌, subst, Option, none, some, List, [], ◌∷◌,
  arith, eq_of_some, All-In, In, ltb, ltb→lt, ltb→ge, Bool-cases,
}
use gpubk.Models.{Instant, Config}
use gpubk.Errors.{Result, ok, err, ok-injective}
use gpubk.ScheduleIndex.{ReservationIndex, build}
use gpubk.ScheduleIndex.Spans.{ReservationSpan}
use gpubk.Scheduler.Search.{Clock, Wish, try_start, first_start}
use gpubk.Scheduler.Search.Earliest.{IsPrepared, try_start-Returns}
use gpubk.Scheduler.Search.Nearest.{by_distance}
use gpubk.Scheduler.Search.Nearest.Order.{rank, IsRanked, by_distance-IsRanked, by_distance-In}

module _ (index : ReservationIndex) (config : Config) (wish : Wish) (clock : Clock) where
  -- In a ranked list, what is ranked before the start that was found does not serve.
  first_start_least :
      (target : Instant) (starts : List Instant) (start : Instant) (gpus : List ℕ)
      → IsRanked target starts
      → first_start index config wish clock starts ≡ ok (some (start, gpus))
      → (c : Instant) → In c starts
      → rank target c < rank target start
      → try_start index config wish clock c ≡ ok none
  unfolding first_start
  first_start_least target [] start gpus ranked h c m lt = absurd m
  first_start_least target (x ∷ xs) start gpus (least, ranked) h c m lt =
      by_attempt (try_start index config wish clock x) refl m
        (λ k n. first_start_least target xs start gpus ranked k c n lt)
    where
      no_earlier : x ≡ start → (c ≡ x) ⊎ In c xs → ⊥
      no_earlier e (inl f) = omega (arith, ap (rank target) f, ap (rank target) e)
      no_earlier e (inr n) =
          omega
            (arith, All-In (λ y. rank target x ≤ rank target y) xs least c n, ap (rank target) e)

      by_attempt :
          (attempt : Result (Option (List ℕ)))
          → try_start index config wish clock x ≡ attempt
          → (c ≡ x) ⊎ In c xs
          → (first_start index config wish clock xs ≡ ok (some (start, gpus))
              → In c xs
              → try_start index config wish clock c ≡ ok none)
          → try_start index config wish clock c ≡ ok none
      by_attempt (err e) q n ih =
          let h' : ◌≡◌ {A = Result (Option (ℕ × List ℕ))} (err e) (ok (some (start, gpus))) =
            rw (q, first_start) at h in
          cc
      by_attempt (ok none) q (inl e) ih =
          subst (λ z. try_start index config wish clock z ≡ ok none) (sym e) q
      by_attempt (ok none) q (inr n) ih = ih (rw (q, first_start) at h) n
      by_attempt (ok (some served)) q n ih =
          let e : ◌≡◌ {A = ℕ × List ℕ} (x, served) (start, gpus) =
            eq_of_some (ok-injective (rw (q, first_start) at h)) in
          absurd (no_earlier (ap (λ z. z.0) e) n)

module _ (spans : List ReservationSpan) (config : Config) (wish : Wish) (clock : Clock)
    (prepared : IsPrepared config wish) (c : ℕ) (gpus : List ℕ)
    (serves : try_start (build spans) config wish clock c ≡ ok (some gpus)) where
  -- Where a candidate serves, the search returns a slot.
  first_start-found :
      (cs : List ℕ)
      → In c cs
      → (start : ℕ) × (found : List ℕ) × (first_start (build spans) config wish clock cs
          ≡ ok (some (start, found)))
  unfolding first_start
  first_start-found [] m = absurd m
  first_start-found (y ∷ ys) m =
      at_head (try_start (build spans) config wish clock y) refl m (first_start-found ys)
    where
      at_head :
          (r : Result (Option (List ℕ)))
          → try_start (build spans) config wish clock y ≡ r
          → (c ≡ y) ⊎ In c ys
          → (In c ys
              → (start : ℕ) × (found : List ℕ) × (first_start (build spans) config wish clock ys
                  ≡ ok (some (start, found))))
          → (start : ℕ) × (found : List ℕ) × (first_start (build spans) config wish clock (y ∷ ys)
              ≡ ok (some (start, found)))
      at_head (err e) q n ih =
          let (r, k) = try_start-Returns spans config wish clock prepared y in absurd (cc (q, k))
      at_head (ok (some found)) q n ih = (y, found, rw (q, first_start))
      at_head (ok none) q (inr n) ih =
          let (start, found, k) = ih n in (start, found, rw (q, first_start) k)
      at_head (ok none) q (inl e) ih =
          let k : ◌≡◌ {A = Result (Option (List ℕ))} (ok none) (ok (some gpus)) =
            sym q
            ∙ subst (λ z. try_start (build spans) config wish clock z ≡ ok (some gpus)) e serves in
          absurd (cc)

  -- What it returns is not ranked after that candidate.
  pub first_start-nearest :
      (target : Instant) (cs : List ℕ)
      → In c cs
      → (start : ℕ) × (found : List ℕ) × (first_start
            (build spans)
            config
            wish
            clock
            (by_distance target cs)
          ≡ ok (some (start, found)))
        × (rank target start ≤ rank target c)
  first_start-nearest target cs m =
      let (start, found, k) =
        first_start-found (by_distance target cs) (by_distance-In target cs c m) in
      (
        start,
        found,
        k,
        elim (Bool-cases (ltb (rank target c) (rank target start))) [
          | inr upto ↦ ltb→ge _ _ upto
          | inl before ↦
              let idle : try_start (build spans) config wish clock c ≡ ok none =
                first_start_least (build spans) config wish clock target (by_distance target cs)
                  start found (by_distance-IsRanked target cs) k c (by_distance-In target cs c m)
                  (ltb→lt _ _ before) in
              let e : ◌≡◌ {A = Result (Option (List ℕ))} (ok none) (ok (some gpus)) =
                sym idle ∙ serves in
              absurd (cc)
        ],
      )
