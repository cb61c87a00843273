-- ===== src/Safety/Window.antt =====
-- The two tests of a time against a window that may pass midnight: `is_time_in_escort_range`
-- (app/utils/otp_utils.py) and `_in_dark_window` (app/services/dark_hour_boarding_service.py).
use fleet_manager.Prelude.{
  ℕ, ◌+◌, ◌-◌, ◌%◌, ◌≤◌, ◌<◌, ◌≡◌, ◌↔◌, Bool, true, ◌&&◌, ◌||◌, arith, ltb, leb, if◌then◌else◌,
}

unfoldable pub is_time_in_escort_range : ℕ → ℕ → ℕ → Bool
is_time_in_escort_range check_time start_time end_time =
    if leb start_time end_time
    then leb start_time check_time && leb check_time end_time
    else leb start_time check_time || leb check_time end_time

unfoldable pub in_dark_window : ℕ → ℕ → ℕ → Bool
in_dark_window now start finish =
    if ltb finish start then leb start now || leb now finish else leb start now && leb now finish

-- A day, in microseconds.
abbrev pub day : ℕ
day = 86_400_000_000

-- How long after `a` the clock next shows `b`.
abbrev pub elapsed : ℕ → ℕ → ℕ
elapsed a b = (b + day - a) % day

-- For times of day, `is_time_in_escort_range` holds exactly when the clock, running on from the
-- start and past midnight if need be, reaches the checked time no later than the end.
pub is_time_in_escort_range_cyclic :
    (check start finish : ℕ)
    → check < day
    → start < day
    → finish < day
    → (is_time_in_escort_range check start finish ≡ true)
      ↔ (elapsed start check ≤ elapsed start finish)
unfolding is_time_in_escort_range
is_time_in_escort_range_cyclic check start finish hc hs hf = ground arith

-- Both tests agree at every three times, so boarding is checked in the window in which the tenant
-- requires an escort.
pub in_dark_window-eq-is_time_in_escort_range :
    (now start finish : ℕ)
    → in_dark_window now start finish ≡ is_time_in_escort_range now start finish
unfolding in_dark_window is_time_in_escort_range
in_dark_window-eq-is_time_in_escort_range now start finish = ground arith
