-- ===== src/Trip/Status.antt =====
-- What boarding and dropping (`start_trip`, `verify_drop_and_complete_route` in
-- app/routes/app_driver_router.py) ask of a booking's status.
use fleet_manager.Prelude.{
  ℕ, suc, ◌≤◌, ◌≡◌, refl, ◌≢◌, ◌⊎◌, inl, inr, true, false, not, ◌&&◌, some, none, Option, List, [],
  ◌∷◌, arith, ◌==◌, is_truthy, find?, find?-true, Elem, Elem-replace_new,
}
use fleet_manager.Prelude.Result.{ok}
use fleet_manager.Store.{
  Text, Db, Route, RouteStatus, RouteManagementBooking, Booking, BookingStatus, Point,
}
use fleet_manager.Safety.DarkHour.{Warning}
use fleet_manager.Trip.Types.{
  eq_route_status, Driver, Task, Reply, OtpType, LocationType, send_drop_completion_notification,
  dropped, send_onboard_notification, trip_started,
}
use fleet_manager.Trip.Otp.{str, str_of_text, verify_otp, verify_otp-ok}
use fleet_manager.Trip.Checks.{
  is_driver_route, validate_route_for_driver, validate_booking_in_route, validate_driver_location,
  check_previous_bookings_completed, target_of, max_distance, get_next_stop,
}
use fleet_manager.Trip.Ride.{
  is_nodal_shift, dark_hour_check, confirm_boarding, booking_ready, route_ready, boarded,
  dropped_off, start_trip, verify_drop,
}
use fleet_manager.Trip.Change.{FindsBooking}

-- Nothing has to be typed, or the digits of the code are.
abbrev pub IsTyped : Option ℕ → Option Text → Type 0
IsTyped stored otp =
    (stored ≡ none) ⊎ ((n : ℕ) × (stored ≡ some (suc n)) × (str (suc n) ≡ str_of_text otp))

IsTyped-ok :
    (stored : Option ℕ) (otp : Option Text) (t : OtpType)
    → IsTyped stored otp
    → verify_otp stored otp t ≡ ok tt
unfolding verify_otp
IsTyped-ok stored otp t (inl e) = rw e refl
IsTyped-ok stored otp t (inr (n, e, same)) = rw e ((verify_otp-ok n otp t).1 same)

-- There is no point to be near to, or the driver is within 500 m of it.
abbrev pub IsNear : (Point → Point → ℕ) → Point → Option Point → Type 0
IsNear geodesic here target =
    (target ≡ none) ⊎ ((p : Point) × (target ≡ some p) × (geodesic here p ≤ max_distance))

module _ (geodesic : Point → Point → ℕ) (db : Db) (ctx : Driver) where
  IsNear-ok :
      (here : Point) (booking : Booking)
      → IsNear geodesic here (target_of booking.drop_latitude booking.drop_longitude)
      → validate_driver_location geodesic here booking.drop_latitude booking.drop_longitude
          LocationType.drop
        ≡ ok tt
  unfolding validate_driver_location
  IsNear-ok here booking (inl e) = rw e refl
  IsNear-ok here booking (inr (p, e, near)) = rw e (ground arith)

  -- A booking that was never boarded, or was cancelled or a no-show, is completed by a drop: whatever
  -- its status was but completed, where the driver's route is under way and holds the booking, the
  -- driver is within 500 m of the drop point or there is none, and the digits of the deboarding OTP
  -- are typed or there is none, the drop is accepted and the booking's row then says completed.
  pub verify_drop_unboarded :
      (route_id booking_id : ℕ) (here : Point) (otp : Option Text) (now : ℕ) (route : Route)
      (rb : RouteManagementBooking) (booking : Booking)
      → find? (is_driver_route route_id ctx (some RouteStatus.ongoing)) db.routes ≡ some route
      → FindsBooking db ctx route_id booking_id rb booking
      → IsNear geodesic here (target_of booking.drop_latitude booking.drop_longitude)
      → IsTyped booking.deboarding_otp otp
      → booking.status ≢ BookingStatus.completed
      → (db' : Db) × (tasks : List Task) × (reply : Reply) × (verify_drop geodesic db ctx route_id
            booking_id here otp now
          ≡ ok (db', tasks, reply))
        × Elem (record booking { status = BookingStatus.completed; updated_at = now }) db'.bookings
  unfolding verify_drop validate_route_for_driver validate_booking_in_route dropped_off
  verify_drop_unboarded route_id booking_id here otp now route rb booking found (linked, booked)
        near typed open_status =
      let placed = IsNear-ok here booking near in
      let right = IsTyped-ok booking.deboarding_otp otp OtpType.deboarding typed in
      let (_, m) =
        find?-true (λ (b : Booking). b.booking_id == booking_id && b.tenant_id == ctx.tenant_id)
          db.bookings booked in
      let done : Booking = record booking { status = BookingStatus.completed; updated_at = now } in
      (
        dropped_off db rb booking now,
        send_drop_completion_notification booking_id route_id ∷ [],
        dropped,
        ground arith,
        Elem-replace_new (λ b. b.booking_id) done db.bookings m refl,
      )

  route_ready-ok :
      (route_id : ℕ) (route : Route)
      → find? (is_driver_route route_id ctx none) db.routes ≡ some route
      → route.status ≡ RouteStatus.ongoing
      → (is_truthy route.assigned_escort_id ≡ false) ⊎ (route.escort_boarded ≡ true)
      → route_ready db ctx route_id ≡ ok route
  unfolding route_ready validate_route_for_driver
  route_ready-ok route_id route found going escorted =
      let under_way : eq_route_status route.status RouteStatus.ongoing ≡ true = rw going refl in
      let with_escort : (is_truthy route.assigned_escort_id && not route.escort_boarded) ≡ false =
        elim escorted [ inl e ↦ rw e refl | inr e ↦ ground arith ] in
      rw found (rw under_way (rw with_escort refl))

  FindsBooking-ok :
      (route_id booking_id : ℕ) (rb : RouteManagementBooking) (booking : Booking)
      → FindsBooking db ctx route_id booking_id rb booking
      → validate_booking_in_route db route_id booking_id ctx ≡ ok (rb, booking)
  unfolding validate_booking_in_route
  FindsBooking-ok route_id booking_id rb booking (linked, booked) = rw linked (rw booked refl)

  booking_ready-ok :
      (route : Route) (rb : RouteManagementBooking) (booking : Booking) (here : Point)
      (otp : Option Text) (now : ℕ) (warnings : List Warning)
      → is_nodal_shift db booking ≡ false
      → check_previous_bookings_completed db route.route_id rb.order_id ≡ ok tt
      → validate_driver_location geodesic here booking.pickup_latitude booking.pickup_longitude
          LocationType.pickup
        ≡ ok tt
      → dark_hour_check db ctx route booking now ≡ ok warnings
      → IsTyped booking.boarding_otp otp
      → booking_ready geodesic db ctx route rb booking here otp now ≡ ok warnings
  unfolding booking_ready confirm_boarding
  booking_ready-ok route rb booking here otp now warnings plain order near dark typed =
      let right = IsTyped-ok booking.boarding_otp otp OtpType.boarding typed in
      rw plain (rw order (rw near (rw dark (rw right refl))))

  -- But for nodal shifts, a booking that is completed, cancelled or a no-show boards again: on a
  -- route under way whose escort, if any is assigned, is on board, where the earlier stops, the
  -- location and the dark hours raise nothing and the digits of the boarding OTP are typed or there
  -- is none, the boarding is accepted whatever the booking's status, and its row then says ongoing.
  pub start_trip_reboards :
      (route_id booking_id : ℕ) (here : Point) (otp : Option Text) (now : ℕ) (route : Route)
      (rb : RouteManagementBooking) (booking : Booking) (warnings : List Warning)
      → find? (is_driver_route route_id ctx none) db.routes ≡ some route
      → route.status ≡ RouteStatus.ongoing
      → (is_truthy route.assigned_escort_id ≡ false) ⊎ (route.escort_boarded ≡ true)
      → FindsBooking db ctx route_id booking_id rb booking
      → is_nodal_shift db booking ≡ false
      → check_previous_bookings_completed db route.route_id rb.order_id ≡ ok tt
      → validate_driver_location geodesic here booking.pickup_latitude booking.pickup_longitude
          LocationType.pickup
        ≡ ok tt
      → dark_hour_check db ctx route booking now ≡ ok warnings
      → IsTyped booking.boarding_otp otp
      → (db' : Db) × (tasks : List Task) × (reply : Reply) × (start_trip geodesic db ctx route_id
            booking_id here otp now
          ≡ ok (db', tasks, reply))
        × Elem (record booking { status = BookingStatus.ongoing }) db'.bookings
  unfolding start_trip boarded
  start_trip_reboards route_id booking_id here otp now route rb booking warnings found going
        escorted booked plain order near dark typed =
      let ready = route_ready-ok route_id route found going escorted in
      let listed = FindsBooking-ok route_id booking_id rb booking booked in
      let passed =
        booking_ready-ok route rb booking here otp now warnings plain order near dark typed in
      let (_, m) =
        find?-true (λ (b : Booking). b.booking_id == booking_id && b.tenant_id == ctx.tenant_id)
          db.bookings booked.1 in
      let done : Booking = record booking { status = BookingStatus.ongoing } in
      (
        boarded db rb booking now,
        send_onboard_notification booking_id route_id ∷ [],
        trip_started
            (get_next_stop (boarded db rb booking now) route_id rb.order_id
              (is_nodal_shift db booking))
            warnings,
        rw ready (rw listed (rw passed refl)),
        Elem-replace_new (λ b. b.booking_id) done db.bookings m refl,
      )
