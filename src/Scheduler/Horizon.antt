-- ===== src/Scheduler/Horizon.antt =====
-- `booking_policy_conflict`: the administrator's limits on a booking's interval.
use gpubk.Prelude.{ℕ, ◌+◌, ◌-◌, ◌*◌, Option, none, some, List, [], ◌∷◌, ltb, if◌then◌else◌, ◌&&◌}
use gpubk.Models.{Instant, Blackout, Config}
use gpubk.Scheduler.Reasons.{Reason, duration_exceeded, beyond_horizon, blackout}

abbrev pub day : ℕ
day = 86400

-- The first blackout window that the interval overlaps.
unfoldable pub blackout_conflict : List Blackout → Instant → Instant → Option Reason
blackout_conflict [] start end = none
blackout_conflict (window ∷ rest) start end =
    if ltb start window.end_at && ltb window.start_at end
    then some (blackout window.start_at window.end_at window.reason)
    else blackout_conflict rest start end

-- `current` is the `now` that is passed, or a reading of the clock. `none` is the empty text.
unfoldable pub booking_policy_conflict : Config → Instant → Instant → Instant → Option Reason
unfolding blackout_conflict
booking_policy_conflict config start end current =
    let horizon = current + config.booking_horizon_days * day in
    if ltb (config.max_booking_duration_hours * 3600) (end - start)
    then some (duration_exceeded config.max_booking_duration_hours)
    else if ltb horizon end
    then some (beyond_horizon config.booking_horizon_days horizon)
    else blackout_conflict config.booking_blackouts start end
