-- ===== src/Trip/Change.antt =====
-- The accepted requests of the driver app as a step relation: what each commits, and what its
-- guards (app/routes/app_driver_router.py) have made sure of.
use fleet_manager.Prelude.{
  ℕ, ◌≡◌, ◌≢◌, true, false, not, ◌&&◌, Option, none, some, List, ◌==◌, is_truthy, find?, get_or,
}
use fleet_manager.Prelude.Result.{ok}
use fleet_manager.Store.{
  Text, Db, Route, RouteStatus, RouteManagementBooking, Booking, BookingStatus, Point, put_route,
}
use fleet_manager.Safety.DarkHour.{Warning}
use fleet_manager.Trip.Types.{Driver, OtpType}
use fleet_manager.Trip.Otp.{str, verify_otp}
use fleet_manager.Trip.Checks.{is_driver_route, check_previous_bookings_completed, exists_joined}
use fleet_manager.Trip.Duty.{is_other_ongoing, started, is_final, finish_route, is_of_route}
use fleet_manager.Trip.Ride.{booking_ready, boarded, not_shown, dropped_off}

-- The row that `validate_route_for_driver` finds.
abbrev pub Finds : Db → Driver → ℕ → Route → Type 0
Finds db ctx route_id route = find? (is_driver_route route_id ctx none) db.routes ≡ some route

-- The rows that `validate_booking_in_route` finds.
abbrev pub FindsBooking : Db → Driver → ℕ → ℕ → RouteManagementBooking → Booking → Type 0
FindsBooking db ctx route_id booking_id rb booking =
    (find? (λ l. l.route_id == route_id && l.booking_id == booking_id) db.links ≡ some rb)
    × (find? (λ b. b.booking_id == booking_id && b.tenant_id == ctx.tenant_id) db.bookings
        ≡ some booking)

module _ (geodesic : Point → Point → ℕ) (ctx : Driver) (db db' : Db) where
  pub data Change : Type 0 where
    same : db' ≡ db → Change
    starts :
        (route_id now : ℕ) (route : Route)
        → Finds db ctx route_id route
        → route.status ≡ RouteStatus.driver_assigned
        → find? (is_other_ongoing route_id ctx) db.routes ≡ none
        → db' ≡ put_route (started now route) db
        → Change
    boards_escort :
        (route_id otp : ℕ) (route : Route)
        → Finds db ctx route_id route
        → route.status ≡ RouteStatus.ongoing
        → str (get_or route.escort_otp 0) ≡ str otp
        → db' ≡ put_route (record route { escort_boarded = true }) db
        → Change
    ends :
        (route_id now : ℕ) (route : Route)
        → Finds db ctx route_id route
        → route.status ≡ RouteStatus.ongoing
        → exists_joined (is_of_route route_id) (λ s. not (is_final s)) db ≡ false
        → db' ≡ finish_route geodesic db now route
        → Change
    picks_up :
        (route_id booking_id : ℕ) (here : Point) (otp : Option Text) (now : ℕ) (route : Route)
        (rb : RouteManagementBooking) (booking : Booking) (warnings : List Warning)
        → Finds db ctx route_id route
        → route.status ≡ RouteStatus.ongoing
        → (is_truthy route.assigned_escort_id && not route.escort_boarded) ≡ false
        → FindsBooking db ctx route_id booking_id rb booking
        → booking_ready geodesic db ctx route rb booking here otp now ≡ ok warnings
        → db' ≡ boarded db rb booking now
        → Change
    misses :
        (route_id booking_id : ℕ) (reason : Text) (now : ℕ) (route : Route)
        (rb : RouteManagementBooking) (booking : Booking)
        → Finds db ctx route_id route
        → FindsBooking db ctx route_id booking_id rb booking
        → booking.status ≢ BookingStatus.ongoing
        → booking.status ≢ BookingStatus.completed
        → check_previous_bookings_completed db route_id rb.order_id ≡ ok tt
        → db' ≡ not_shown db rb booking reason now
        → Change
    drops :
        (route_id booking_id : ℕ) (otp : Option Text) (now : ℕ) (route : Route)
        (rb : RouteManagementBooking) (booking : Booking)
        → find? (is_driver_route route_id ctx (some RouteStatus.ongoing)) db.routes ≡ some route
        → FindsBooking db ctx route_id booking_id rb booking
        → verify_otp booking.deboarding_otp otp OtpType.deboarding ≡ ok tt
        → db' ≡ dropped_off db rb booking now
        → Change
