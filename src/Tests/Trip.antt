-- ===== src/Tests/Trip.antt =====
-- The night as the driver app runs it.
use fleet_manager.Prelude.{
  ◌≡◌, refl, sym, subst, false, none, some, List, [], ◌∷◌, map, Elem, here, inr, arith,
}
use fleet_manager.Prelude.Int.{pos, round_div_ℤ}
use fleet_manager.Prelude.Result.{ok, err}
use fleet_manager.Prelude.Text.{codes}
use fleet_manager.Store.{Db, Route, RouteStatus, RouteManagementBooking, Booking, BookingStatus}
use fleet_manager.Safety.Window.{in_dark_window}
use fleet_manager.Safety.DarkHour.{check_dark_hour_boarding}
use fleet_manager.Safety.Escort.{shift_of_key}
use fleet_manager.Delay.{tag_trip_delay, tag_with, delay_type_of}
use fleet_manager.Trip.Types.{
  Task, Reply, LocationType, send_onboard_notification, trip_started, pending_bookings_exist,
  dark_hour_boarding_blocked,
}
use fleet_manager.Trip.Otp.{str, verify_otp}
use fleet_manager.Trip.Checks.{
  validate_route_for_driver, validate_booking_in_route, check_previous_bookings_completed,
  validate_driver_location, get_next_stop,
}
use fleet_manager.Trip.Distance.{compute_and_persist_actual_distance}
use fleet_manager.Trip.Machine.{Request, handle, serve}
use fleet_manager.Trip.Duty
use fleet_manager.Trip.Ride
use fleet_manager.Trip.Ride.{boarded, is_nodal_shift, booking_ready}
use fleet_manager.Trip.Change.{Finds, FindsBooking}
use fleet_manager.Trip.Boarding.{IsBoardable, start_trip-IsBoardable}
use fleet_manager.Trip.Status.{IsTyped, start_trip_reboards, verify_drop_unboarded}
use fleet_manager.Trip.Exclusive.{Later, Stems, serve-Later}
use fleet_manager.Tests.Night.{
  ctx, at, taxi, office, home, db, going, db_going, to_going, to_end, first_link, first_booking,
}

starts : serve taxi db to_going ≡ db_going
unfolding serve handle Duty.start_duty Duty.begin_duty Duty.board_escort Duty.board_with_otp
    validate_route_for_driver str
starts = refl

-- What the night leaves of the routes and the bookings.
abbrev ended : Db
ended = serve taxi db_going to_end

night_ends :
    (map (λ (r : Route). r.status) ended.routes
      ≡ RouteStatus.completed ∷ RouteStatus.completed ∷ [])
    × (map (λ (r : Route). r.delay_minutes) ended.routes ≡ some (pos 15) ∷ none ∷ [])
    × (map (λ (b : Booking). b.status) ended.bookings
        ≡ BookingStatus.completed ∷ BookingStatus.no_show ∷ [])
unfolding serve handle Duty.end_duty Duty.complete_duty Duty.finish_route Ride.start_trip
    Ride.route_ready Ride.booking_ready Ride.boarded Ride.mark_no_show Ride.not_shown
    Ride.verify_drop Ride.dropped_off Ride.is_nodal_shift Ride.dark_hour_check Ride.confirm_boarding
    validate_route_for_driver validate_booking_in_route check_previous_bookings_completed
    validate_driver_location get_next_stop str verify_otp shift_of_key check_dark_hour_boarding
    in_dark_window tag_trip_delay tag_with delay_type_of round_div_ℤ
    compute_and_persist_actual_distance
night_ends = (refl, refl, refl)

going_there : Elem going (serve taxi db to_going).routes
going_there = subst (λ d. Elem going d.routes) (sym starts) here

serve-Later_example : Stems db.routes going Later
serve-Later_example = serve-Later taxi to_going db going going_there

abbrev boards : Request
boards = Request.start_trip 7 11 office (some (codes "17")) (at 21)

abbrev db_boarded : Db
db_boarded = boarded db_going first_link first_booking (at 21)

abbrev boards_reply : Db × List Task × Reply
boards_reply = (
  db_boarded,
  send_onboard_notification 11 7 ∷ [],
  trip_started (get_next_stop db_boarded 7 1 false) [],
)

boards_ok :
    Ride.start_trip taxi db_going ctx 7 11 office (some (codes "17")) (at 21) ≡ ok boards_reply
unfolding Ride.start_trip Ride.route_ready Ride.booking_ready Ride.is_nodal_shift
    Ride.dark_hour_check Ride.confirm_boarding validate_route_for_driver validate_booking_in_route
    check_previous_bookings_completed validate_driver_location str verify_otp shift_of_key
    check_dark_hour_boarding in_dark_window
boards_ok = refl

start_trip-IsBoardable_example :
    (route : Route) × (rb : RouteManagementBooking) × (booking : Booking) × Finds db_going ctx 7
      route
    × FindsBooking db_going ctx 7 11 rb booking
    × IsBoardable taxi db_going ctx route rb booking office (some (codes "17")) (at 21)
    × (db_boarded ≡ boarded db_going rb booking (at 21))
    × Elem (record booking { status = BookingStatus.ongoing }) db_boarded.bookings
start_trip-IsBoardable_example =
    start_trip-IsBoardable taxi db_going ctx 7 11 office (some (codes "17")) (at 21)
      {r = boards_reply} boards_ok

-- With no escort on board, the woman may not board in the dark.
blocked :
    Ride.start_trip taxi
      (record db { routes = record going { assigned_escort_id = none } ∷ [] })
      ctx
      7
      11
      office
      (some (codes "17"))
      (at 21)
    ≡ err dark_hour_boarding_blocked
unfolding Ride.start_trip Ride.route_ready Ride.booking_ready Ride.is_nodal_shift
    Ride.dark_hour_check validate_route_for_driver validate_booking_in_route
    check_previous_bookings_completed validate_driver_location shift_of_key check_dark_hour_boarding
    in_dark_window
blocked = refl

-- Duty does not end while two bookings are open.
refused : Duty.end_duty taxi db_going ctx 7 (at 22) ≡ err (pending_bookings_exist 2)
unfolding Duty.end_duty Duty.complete_duty validate_route_for_driver
refused = refl

-- The first employee had not shown up.
abbrev missed : Booking
missed = record first_booking { status = BookingStatus.no_show }

abbrev db_missed : Db
db_missed = record db_going { bookings = missed ∷ [] }

missed_plain : is_nodal_shift db_missed missed ≡ false
unfolding is_nodal_shift shift_of_key
missed_plain = refl

missed_order : check_previous_bookings_completed db_missed 7 1 ≡ ok tt
unfolding check_previous_bookings_completed
missed_order = refl

missed_near :
    validate_driver_location taxi office missed.pickup_latitude missed.pickup_longitude
      LocationType.pickup
    ≡ ok tt
unfolding validate_driver_location
missed_near = refl

missed_safe : Ride.dark_hour_check db_missed ctx going missed (at 21) ≡ ok []
unfolding Ride.dark_hour_check check_dark_hour_boarding in_dark_window
missed_safe = refl

codes_17 : IsTyped (some 17) (some (codes "17"))
unfolding str
codes_17 = inr (16, refl, refl)

codes_18 : IsTyped (some 18) (some (codes "18"))
unfolding str
codes_18 = inr (17, refl, refl)

start_trip_reboards_example :
    (db' : Db) × (tasks : List Task) × (reply : Reply) × (Ride.start_trip taxi db_missed ctx 7 11
        office
        (some (codes "17"))
        (at 21)
      ≡ ok (db', tasks, reply))
    × Elem (record missed { status = BookingStatus.ongoing }) db'.bookings
start_trip_reboards_example =
    start_trip_reboards taxi db_missed ctx 7 11 office (some (codes "17")) (at 21) going first_link
      missed [] refl refl (inr refl) (refl, refl) missed_plain missed_order missed_near missed_safe
      codes_17

verify_drop_unboarded_example :
    (db' : Db) × (tasks : List Task) × (reply : Reply) × (Ride.verify_drop taxi db_missed ctx 7 11
        home
        (some (codes "18"))
        (at 22)
      ≡ ok (db', tasks, reply))
    × Elem (record missed { status = BookingStatus.completed; updated_at = at 22 }) db'.bookings
verify_drop_unboarded_example =
    verify_drop_unboarded taxi db_missed ctx 7 11 home (some (codes "18")) (at 22) going first_link
      missed refl (refl, refl) (inr (home, refl, omega arith)) codes_18 (λ e. cc)
