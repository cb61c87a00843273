-- ===== src/Duty.antt =====
-- Driver rest (app/services/driver_duty_hours_service.py): the longest time without duty in the 24
-- hours before a new trip. The answer to an unexpected exception is not modelled.
pub mod Merge
pub mod Gaps
pub mod Rest
use fleet_manager.Prelude.{
  ℕ, ◌+◌, ◌-◌, ◌*◌, ◌/◌, Bool, true, false, not, ◌&&◌, ◌||◌, Option, none, some, List, [], ◌∷◌, map,
  ltb, leb, ◌==◌, if◌then◌else◌, get_or, is_key, filter, max, min,
}
use fleet_manager.Prelude.Int.{ℤ, pos, sub_ℕ, ltb_ℤ}
use fleet_manager.Prelude.Sort.{sort_by}
use fleet_manager.Store.{Db, Route, RouteStatus}
use fleet_manager.Safety.Window.{day}
use fleet_manager.Delay.{minute}

-- From `start` up to `finish`.
pub record Interval : Type 0 where
  pub start : ℕ
  pub finish : ℕ

pub record RestCheck : Type 0 where
  pub is_ok : Bool
  pub rest_gap_minutes : ℕ
  pub required_rest_minutes : ℤ
  pub total_duty_minutes : ℕ
  pub last_trip_end : Option ℕ

abbrev pub was_driven : RouteStatus → Bool
was_driven RouteStatus.planned = false
was_driven RouteStatus.vendor_assigned = false
was_driven RouteStatus.driver_assigned = false
was_driven RouteStatus.ongoing = true
was_driven RouteStatus.completed = true
was_driven RouteStatus.cancelled = false

abbrev pub is_before : Option ℕ → ℕ → Bool
is_before none window_end = false
is_before (some start) window_end = ltb start window_end

abbrev pub is_duty : ℕ → ℕ → Route → Bool
is_duty driver_id window_end r =
    is_key r.assigned_driver_id driver_id
    && is_before r.actual_start_time window_end
    && was_driven r.status

-- The trip of a route; one that goes on ends with the window.
abbrev pub trip_of : ℕ → Route → Interval
trip_of window_end r = record {
  start = get_or r.actual_start_time 0;
  finish = get_or r.actual_end_time window_end;
}

unfoldable pub trips_of : Db → ℕ → ℕ → List Interval
trips_of db driver_id window_end =
    map (trip_of window_end) (filter (is_duty driver_id window_end) db.routes)

-- The latest end of a trip.
unfoldable pub last_end : List Interval → Option ℕ → Option ℕ
last_end [] found = found
last_end (t ∷ ts) none = last_end ts (some t.finish)
last_end (t ∷ ts) (some e) = last_end ts (some (if ltb e t.finish then t.finish else e))

abbrev pub clip : ℕ → ℕ → Interval → Interval
clip window_start window_end t = record {
  start = max t.start window_start;
  finish = min t.finish window_end;
}

abbrev pub is_proper : Interval → Bool
is_proper i = ltb i.start i.finish

unfoldable pub clipped : ℕ → ℕ → List Interval → List Interval
clipped window_start window_end ts = filter is_proper (map (clip window_start window_end) ts)

-- The loop that merges sorted segments; `current` is `merged[-1]`.
unfoldable pub merge_from : Interval → List Interval → List Interval
merge_from current [] = current ∷ []
merge_from current (seg ∷ segs) =
    let extended = merge_from (record current { finish = max current.finish seg.finish }) segs in
    let apart = current ∷ merge_from seg segs in
    if leb seg.start current.finish then extended else apart

unfoldable pub merge : List Interval → List Interval
unfolding merge_from
merge [] = []
merge (i ∷ is) = merge_from i is

-- `int(d.total_seconds() / 60)`
abbrev pub minutes : ℕ → ℕ
minutes d = d / minute

unfoldable pub total_minutes : List Interval → ℕ
total_minutes [] = 0
total_minutes (i ∷ is) = minutes (i.finish - i.start) + total_minutes is

-- The gaps before, between and behind the segments; a negative gap counts as 0.
unfoldable pub gaps_from : ℕ → List Interval → ℕ → List ℕ
gaps_from prev [] window_end = minutes (window_end - prev) ∷ []
gaps_from prev (i ∷ is) window_end = minutes (i.start - prev) ∷ gaps_from i.finish is window_end

unfoldable pub max_of : List ℕ → ℕ
max_of [] = 0
max_of (n ∷ ns) = max n (max_of ns)

abbrev pub required_rest : ℕ → ℤ
required_rest max_duty_minutes = sub_ℕ (24 * 60) max_duty_minutes

abbrev pub rested : ℕ → Option ℕ → RestCheck
rested max_duty_minutes last = record {
  is_ok = true;
  rest_gap_minutes = 24 * 60;
  required_rest_minutes = required_rest max_duty_minutes;
  total_duty_minutes = 0;
  last_trip_end = last;
}

-- The answer from the merged segments on.
unfoldable pub judge : ℕ → ℕ → ℕ → Option ℕ → List Interval → RestCheck
judge window_start window_end max_duty_minutes last merged =
    let gap = max_of (gaps_from window_start merged window_end) in
    record {
      is_ok = not (ltb_ℤ (pos gap) (required_rest max_duty_minutes));
      rest_gap_minutes = gap;
      required_rest_minutes = required_rest max_duty_minutes;
      total_duty_minutes = total_minutes merged;
      last_trip_end = last;
    }

unfoldable pub check_intervals : ℕ → ℕ → ℕ → Option ℕ → List Interval → RestCheck
check_intervals window_start window_end max_duty_minutes last [] = rested max_duty_minutes last
check_intervals window_start window_end max_duty_minutes last (i ∷ is) =
    judge window_start window_end max_duty_minutes last (merge (sort_by (λ i. i.start) (i ∷ is)))

-- `_check_rest_impl`; a proposed start is later than the first day of the calendar.
unfoldable pub check_rest : Db → ℕ → ℕ → ℕ → RestCheck
unfolding check_intervals
check_rest db driver_id proposed_start_dt max_duty_minutes =
    let window_start = proposed_start_dt - day in
    let trips = trips_of db driver_id proposed_start_dt in
    check_intervals window_start proposed_start_dt max_duty_minutes (last_end trips none)
      (clipped window_start proposed_start_dt trips)
