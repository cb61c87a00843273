-- ===== src/Tests/Times.antt =====
-- Delays, rest and the one-trip policy on the night shift.
use fleet_manager.Prelude.{◌+◌, ◌-◌, ◌*◌, ◌/◌, ◌≤◌, ◌≡◌, refl, ◌↔◌, true, some, [], ◌∷◌, arith}
use fleet_manager.Prelude.Int.{pos}
use fleet_manager.Prelude.Sort.{sort_by}
use fleet_manager.Prelude.Result.{ok}
use fleet_manager.Store.{Db, RouteStatus, RouteDelayEvent, DelayType, DelayCategory}
use fleet_manager.Safety.Window.{day}
use fleet_manager.Delay.{
  hhmm, minute_of_day, parse_hhmm_to_minutes, classify_delay_category, tag_trip_delay,
}
use fleet_manager.Delay.RoundTrip.{parse_hhmm_to_minutes-hhmm}
use fleet_manager.Delay.Grace.{Means, tag_trip_delay-Means}
use fleet_manager.Delay.Cause.{Explains, classify_delay_category-Explains}
use fleet_manager.Duty.{
  trips_of, check_rest, clipped, merge, gaps_from, max_of, judge, total_minutes,
}
use fleet_manager.Duty.Rest.{IsLongest, check_rest-IsLongest}
use fleet_manager.Enforcement.{
  enforce_one_trip_per_shift, enforce_each, enforce_booking, existing_links, delete_links,
}
use fleet_manager.Enforcement.Laws.{IsEnforced, enforce_one_trip_per_shift-IsEnforced}
use fleet_manager.Tests.Night.{hour, at, db, db_going, going, first_link, link}

parse_hhmm_to_minutes-hhmm_example :
    parse_hhmm_to_minutes (some (hhmm (at 21))) ≡ some (pos (minute_of_day (at 21)))
parse_hhmm_to_minutes-hhmm_example = parse_hhmm_to_minutes-hhmm (at 21)

tag_trip_delay-Means_example :
    let (db', route') = tag_trip_delay db_going going (at 22 + hour / 4) in
    (e : RouteDelayEvent) × Means e.delay_type (at 21 + hour) (at 22 + hour / 4) 5
    × (db'.delay_events ≡ e ∷ [])
    × (route'.delay_type ≡ some e.delay_type)
    × (route'.delay_minutes ≡ some e.delay_minutes)
    × (route'.status ≡ RouteStatus.ongoing)
tag_trip_delay-Means_example =
    tag_trip_delay-Means db_going going (at 22 + hour / 4) (at 21) hour 5 refl refl refl

classify_delay_category-Explains_example :
    Explains (classify_delay_category db 7 DelayType.late (pos 10) (pos 5)) db 7 (pos 10) (pos 5)
    × (classify_delay_category db 7 DelayType.early (pos 10) (pos 5) ≡ DelayCategory.no_delay)
    × (classify_delay_category db 7 DelayType.on_time (pos 10) (pos 5) ≡ DelayCategory.no_delay)
classify_delay_category-Explains_example = classify_delay_category-Explains db 7 (pos 10) (pos 5)

-- Three hours of duty end four hours before the new trip.
rest_before_night :
    ((check_rest db 5 (at 21) 480).rest_gap_minutes ≡ 1020)
    × ((check_rest db 5 (at 21) 480).is_ok ≡ true)
    × ((check_rest db 5 (at 21) 480).total_duty_minutes ≡ 180)
unfolding check_rest clipped trips_of judge max_of gaps_from merge sort_by total_minutes
rest_before_night = (refl, refl, refl)

check_rest-IsLongest_example :
    IsLongest
      (at 21 - day)
      (at 21)
      (trips_of db 5 (at 21))
      (check_rest db 5 (at 21) 480).rest_gap_minutes
    × (((check_rest db 5 (at 21) 480).is_ok ≡ true)
        ↔ (24 * 60 ≤ (check_rest db 5 (at 21) 480).rest_gap_minutes + 480))
check_rest-IsLongest_example = check_rest-IsLongest db 5 (at 21) 480 (omega arith)

-- The second booking is also on route 6, which is active.
abbrev db_twice : Db
db_twice = record db { links = link 33 6 12 1 ∷ first_link ∷ [] }

abbrev db_moved : Db
db_moved = record db { links = first_link ∷ [] }

moves : enforce_one_trip_per_shift db_twice 7 1 (11 ∷ 12 ∷ []) true true ≡ ok db_moved
unfolding enforce_one_trip_per_shift enforce_each enforce_booking existing_links delete_links
moves = refl

enforce_one_trip_per_shift-IsEnforced_example : IsEnforced 7 1 true db_twice db_moved (11 ∷ 12 ∷ [])
enforce_one_trip_per_shift-IsEnforced_example =
    enforce_one_trip_per_shift-IsEnforced 7 1 true db_twice (11 ∷ 12 ∷ []) {db' = db_moved} moves
