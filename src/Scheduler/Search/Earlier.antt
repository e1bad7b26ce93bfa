-- ===== src/Scheduler/Search/Earlier.antt =====
-- A start that serves a wish makes every earlier start serve it between whose time and its own no
-- reservation and no blackout ends, and every later start before the horizon, if no reservation and no
-- blackout starts between the ends.
use gpubk.Prelude.{ℕ, ◌+◌, ◌*◌, ◌≤◌, ◌<◌, ◌≡◌, refl, ◌⊎◌, none, some, List, [], ◌∷◌, arith, All}
use gpubk.Models.{Config, Blackout}
use gpubk.Errors.{ok}
use gpubk.ScheduleIndex.{build}
use gpubk.ScheduleIndex.Spans.{ReservationSpan, sorted_spans}
use gpubk.Scheduler.Availability.Earlier.{
  NoEndBetween, NoStartBetween, availability-earlier, availability-later,
}
use gpubk.Scheduler.Horizon.{day, blackout_conflict, booking_policy_conflict}
use gpubk.Scheduler.Placement.{demand_of, Readings}
use gpubk.Scheduler.Search.{Wish, try_start}
use gpubk.Scheduler.Search.Elsewhere.{steady, try_start-elsewhere}

abbrev pub NoBlackoutBetween : ℕ → ℕ → Blackout → Type 0
NoBlackoutBetween c s window = (window.end_at ≤ c) ⊎ (s < window.end_at)

module _ (c s duration : ℕ) (le : c ≤ s) where
  blackout_conflict-earlier :
      (windows : List Blackout)
      → All (NoBlackoutBetween c s) windows
      → blackout_conflict windows s (s + duration) ≡ none
      → blackout_conflict windows c (c + duration) ≡ none
  unfolding blackout_conflict
  blackout_conflict-earlier [] h k = refl
  blackout_conflict-earlier (window ∷ rest) h k =
      ground (arith, h.0, blackout_conflict-earlier rest)

  policy-earlier :
      (config : Config) (now : ℕ)
      → All (NoBlackoutBetween c s) config.booking_blackouts
      → booking_policy_conflict config s (s + duration) now ≡ none
      → booking_policy_conflict config c (c + duration) now ≡ none
  unfolding booking_policy_conflict
  policy-earlier config now h k =
      ground (arith, blackout_conflict-earlier config.booking_blackouts h)

abbrev pub NoBlackoutBegins : ℕ → ℕ → ℕ → Blackout → Type 0
NoBlackoutBegins s c duration window =
    (window.start_at < s + duration) ⊎ (c + duration ≤ window.start_at)

module _ (s c duration : ℕ) (le : s ≤ c) where
  blackout_conflict-later :
      (windows : List Blackout)
      → All (NoBlackoutBegins s c duration) windows
      → blackout_conflict windows s (s + duration) ≡ none
      → blackout_conflict windows c (c + duration) ≡ none
  unfolding blackout_conflict
  blackout_conflict-later [] h k = refl
  blackout_conflict-later (window ∷ rest) h k = ground (arith, h.0, blackout_conflict-later rest)

  policy-later :
      (config : Config) (now : ℕ)
      → All (NoBlackoutBegins s c duration) config.booking_blackouts
      → c + duration ≤ now + config.booking_horizon_days * day
      → booking_policy_conflict config s (s + duration) now ≡ none
      → booking_policy_conflict config c (c + duration) now ≡ none
  unfolding booking_policy_conflict
  policy-later config now h near k =
      ground (arith, blackout_conflict-later config.booking_blackouts h)

module _ (spans : List ReservationSpan) (config : Config) (wish : Wish) (now : ℕ)
    (readings : Readings) (c s : ℕ) (lasting : 0 < wish.duration) (counted : 0 < wish.count)
    (gpus : List ℕ)
    (serves : try_start (build spans) config wish (steady now readings) s ≡ ok (some gpus)) where
  pub try_start-earlier :
      c ≤ s
      → All (NoEndBetween c s) (sorted_spans spans)
      → All (NoBlackoutBetween c s) config.booking_blackouts
      → (found : List ℕ) × (try_start (build spans) config wish (steady now readings) c
          ≡ ok (some found))
  try_start-earlier le quiet calm =
      try_start-elsewhere spans config wish now readings c s counted 0 (omega arith) (omega arith)
        (omega arith)
        (λ gpu free.
          availability-earlier spans gpu c s wish.duration (demand_of config wish.ask) lasting free
            le quiet)
        (λ n _. policy-earlier c s wish.duration le config n calm) gpus serves

  pub try_start-later :
      s ≤ c
      → All (NoStartBetween s c wish.duration) (sorted_spans spans)
      → All (NoBlackoutBegins s c wish.duration) config.booking_blackouts
      → c + wish.duration ≤ now + config.booking_horizon_days * day
      → now ≤ readings.at_start
      → now ≤ readings.at_scan
      → (found : List ℕ) × (try_start (build spans) config wish (steady now readings) c
          ≡ ok (some found))
  try_start-later le quiet calm near started scanned =
      try_start-elsewhere spans config wish now readings c s counted now (omega arith) started
        scanned
        (λ gpu free.
          availability-later spans gpu c s wish.duration (demand_of config wish.ask) lasting free le
            quiet)
        (λ n recent. policy-later s c wish.duration le config n calm (omega arith)) gpus serves
