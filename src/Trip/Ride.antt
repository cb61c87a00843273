-- ===== src/Trip/Ride.antt =====
-- `start_trip`, `mark_no_show` and `verify_drop_and_complete_route`
-- (app/routes/app_driver_router.py).
use fleet_manager.Prelude.{
  ℕ, ◌%◌, Bool, true, false, not, ◌&&◌, ◌||◌, Option, none, some, List, [], ◌∷◌, if◌then◌else◌,
  is_truthy,
}
use fleet_manager.Prelude.Result.{Result, ok, err, ◌>>=◌, ◌>>◌, raise_if}
use fleet_manager.Prelude.Text.{codes}
use fleet_manager.Store.{
  Text, Db, Route, RouteStatus, RouteManagementBooking, Booking, BookingStatus, Shift, PickupType,
  Employee, Gender, TenantConfig, Point, get_config, get_employee, put_link, put_booking,
}
use fleet_manager.Safety.Window.{day}
use fleet_manager.Safety.DarkHour.{Warning, Verdict, check_dark_hour_boarding}
use fleet_manager.Safety.Escort.{shift_of_key}
use fleet_manager.Delay.{hhmm}
use fleet_manager.Trip.Types
use fleet_manager.Trip.Types.{
  Driver, HttpError, Outcome, OtpType, LocationType, eq_route_status, eq_booking_status,
  route_not_ongoing, escort_not_boarded, dark_hour_boarding_blocked, booking_not_boardable,
  invalid_booking_state,
}
use fleet_manager.Trip.Otp.{verify_otp}
use fleet_manager.Trip.Checks.{
  validate_route_for_driver, validate_booking_in_route, check_previous_bookings_completed,
  validate_driver_location, get_next_stop,
}

abbrev pub is_nodal : Option Shift → Bool
is_nodal none = false
is_nodal (some s) = elim s.pickup_type [
  | none ↦ false
  | some p ↦ elim p [ PickupType.pickup ↦ false | PickupType.nodal ↦ true ]
]

-- Whether the booking's shift picks up at nodal points.
unfoldable pub is_nodal_shift : Db → Booking → Bool
is_nodal_shift db booking = is_nodal (shift_of_key db booking.shift_id)

-- `gender.value`
abbrev pub gender_value : Option Gender → Option Text
gender_value none = none
gender_value (some Gender.male) = some (codes "Male")
gender_value (some Gender.female) = some (codes "Female")
gender_value (some Gender.other) = some (codes "Other")

abbrev pub escort_on_board : Route → Bool
escort_on_board route = is_truthy route.assigned_escort_id && route.escort_boarded

abbrev verdict_result : Verdict → Result HttpError (List Warning)
verdict_result v = if v.is_ok then ok v.warnings else err dark_hour_boarding_blocked

abbrev pub dark_hour_of :
    Option TenantConfig → Option Employee → Bool → ℕ → Result HttpError (List Warning)
dark_hour_of none employee escorted now = ok []
dark_hour_of (some cfg) none escorted now = ok []
dark_hour_of (some cfg) (some e) escorted now =
    verdict_result (check_dark_hour_boarding (gender_value e.gender) escorted cfg (now % day))

-- The dark-hour block, with its warnings.
unfoldable pub dark_hour_check : Db → Driver → Route → Booking → ℕ → Result HttpError (List Warning)
dark_hour_check db ctx route booking now =
    dark_hour_of (get_config db ctx.tenant_id) (get_employee db booking.employee_id)
      (escort_on_board route) now

-- Boarding confirmation: what must hold before the booking becomes ONGOING.
unfoldable pub confirm_boarding : Bool → Booking → Option Text → Result HttpError (Unit {0})
confirm_boarding nodal booking otp =
    if nodal
    then raise_if
        (not (
          eq_booking_status booking.status BookingStatus.scheduled
          || eq_booking_status booking.status BookingStatus.ongoing))
        (booking_not_boardable booking.status)
    else verify_otp booking.boarding_otp otp OtpType.boarding

-- `if not rb.actual_pick_up_time`
abbrev pub time_or : Option Text → ℕ → Option Text
time_or none now = some (hhmm now)
time_or (some []) now = some (hhmm now)
time_or (some (c ∷ t)) now = some (c ∷ t)

abbrev pub boarded_link : RouteManagementBooking → ℕ → RouteManagementBooking
boarded_link rb now = record rb { actual_pick_up_time = time_or rb.actual_pick_up_time now }

abbrev pub boarded_booking : Booking → Booking
boarded_booking booking = record booking { status = BookingStatus.ongoing }

-- The changes that a boarding commits.
unfoldable pub boarded : Db → RouteManagementBooking → Booking → ℕ → Db
boarded db rb booking now =
    put_link (boarded_link rb now) (put_booking (boarded_booking booking) db)

-- The guards of `start_trip` on the route.
unfoldable pub route_ready : Db → Driver → ℕ → Result HttpError Route
route_ready db ctx route_id = do
  route ← validate_route_for_driver db route_id ctx none
  raise_if (not (eq_route_status route.status RouteStatus.ongoing)) (route_not_ongoing route.status)
  raise_if (is_truthy route.assigned_escort_id && not route.escort_boarded) escort_not_boarded
  ok route

-- The guards of `start_trip` on the booking, and the warnings.
unfoldable pub booking_ready :
    (Point → Point → ℕ)
    → Db
    → Driver
    → Route
    → RouteManagementBooking
    → Booking
    → Point
    → Option Text
    → ℕ
    → Result HttpError (List Warning)
booking_ready geodesic db ctx route rb booking here otp now = do
  let nodal = is_nodal_shift db booking
  if nodal then ok tt else check_previous_bookings_completed db route.route_id rb.order_id
  validate_driver_location geodesic here booking.pickup_latitude booking.pickup_longitude
      LocationType.pickup
  warnings ← dark_hour_check db ctx route booking now
  confirm_boarding nodal booking otp
  ok warnings

unfoldable pub start_trip :
    (Point → Point → ℕ) → Db → Driver → ℕ → ℕ → Point → Option Text → ℕ → Outcome
start_trip geodesic db ctx route_id booking_id here otp now = do
  route ← route_ready db ctx route_id
  found ← validate_booking_in_route db route_id booking_id ctx
  let rb = found.0
  let booking = found.1
  warnings ← booking_ready geodesic db ctx route rb booking here otp now
  let db' = boarded db rb booking now
  ok (
    db',
    Types.send_onboard_notification booking_id route_id ∷ [],
    Types.trip_started (get_next_stop db' route_id rb.order_id (is_nodal_shift db booking))
        warnings,
  )

-- `reason or "Employee did not board"`
abbrev pub reason_or_default : Option Text → Text
reason_or_default none = codes "Employee did not board"
reason_or_default (some []) = codes "Employee did not board"
reason_or_default (some (c ∷ t)) = c ∷ t

abbrev pub missed_link : RouteManagementBooking → ℕ → RouteManagementBooking
missed_link rb now = record rb { actual_pick_up_time = some (hhmm now) }

abbrev pub missed_booking : Booking → Text → ℕ → Booking
missed_booking booking reason now = record booking {
  status = BookingStatus.no_show;
  reason = some reason;
  updated_at = now;
}

-- The changes that a no-show commits.
unfoldable pub not_shown : Db → RouteManagementBooking → Booking → Text → ℕ → Db
not_shown db rb booking reason now =
    put_link (missed_link rb now) (put_booking (missed_booking booking reason now) db)

unfoldable pub mark_no_show : Db → Driver → ℕ → ℕ → Option Text → ℕ → Outcome
mark_no_show db ctx route_id booking_id reason now = do
  validate_route_for_driver db route_id ctx none >>= λ _. ok tt
  found ← validate_booking_in_route db route_id booking_id ctx
  let rb = found.0
  let booking = found.1
  raise_if
      (eq_booking_status booking.status BookingStatus.ongoing
        || eq_booking_status booking.status BookingStatus.completed)
      (invalid_booking_state booking.status)
  check_previous_bookings_completed db route_id rb.order_id
  let db' = not_shown db rb booking (reason_or_default reason) now
  ok (
    db',
    Types.send_no_show_notification booking_id (reason_or_default reason) ∷ [],
    Types.no_show_marked (get_next_stop db' route_id rb.order_id false),
  )

abbrev pub dropped_link : RouteManagementBooking → ℕ → RouteManagementBooking
dropped_link rb now = record rb { actual_drop_time = some (hhmm now) }

abbrev pub dropped_booking : Booking → ℕ → Booking
dropped_booking booking now = record booking { status = BookingStatus.completed; updated_at = now }

-- The changes that a drop commits.
unfoldable pub dropped_off : Db → RouteManagementBooking → Booking → ℕ → Db
dropped_off db rb booking now =
    put_link (dropped_link rb now) (put_booking (dropped_booking booking now) db)

unfoldable pub verify_drop :
    (Point → Point → ℕ) → Db → Driver → ℕ → ℕ → Point → Option Text → ℕ → Outcome
verify_drop geodesic db ctx route_id booking_id here otp now = do
  validate_route_for_driver db route_id ctx (some RouteStatus.ongoing) >>= λ _. ok tt
  found ← validate_booking_in_route db route_id booking_id ctx
  let rb = found.0
  let booking = found.1
  validate_driver_location geodesic here booking.drop_latitude booking.drop_longitude
      LocationType.drop
  verify_otp booking.deboarding_otp otp OtpType.deboarding
  if eq_booking_status booking.status BookingStatus.completed
      then ok (db, [], Types.already_dropped)
      else ok (
        dropped_off db rb booking now,
        Types.send_drop_completion_notification booking_id route_id ∷ [],
        Types.dropped,
      )
