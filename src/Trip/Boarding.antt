-- ===== src/Trip/Boarding.antt =====
-- What an accepted `start_trip` (app/routes/app_driver_router.py) has made sure of.
use fleet_manager.Prelude.{
  suc, refl, Bool, ◌⊎◌, inl, inr, subst, ◌==◌, find?-true, Elem-replace_new, ℕ, ◌≤◌, ◌<◌, ◌%◌, ◌≡◌,
  sym, ◌∙◌, true, false, not, ◌&&◌, Option, some, List, arith, is_truthy, any, Elem, any-false, ap,
}
use fleet_manager.Prelude.Result.{ok}
use fleet_manager.Store.{
  Text, Db, Route, RouteStatus, RouteManagementBooking, Booking, BookingStatus, TenantConfig,
  Employee, DarkHourMode, Point, get_config, get_employee,
}
use fleet_manager.Safety.Window.{day}
use fleet_manager.Safety.DarkHour.{Warning, IsAtRisk, check_dark_hour_boarding-refuses}
use fleet_manager.Trip.Otp.{str, str_of_text, verify_otp, verify_otp-ok}
use fleet_manager.Trip.Types.{OtpType, Driver, Task, Reply, LocationType}
use fleet_manager.Trip.Checks.{
  is_processed, joins, exists_joined, is_before, check_previous_bookings_completed, target_of,
  max_distance, is_far, validate_driver_location,
}
use fleet_manager.Trip.Ride.{
  is_nodal_shift, gender_value, escort_on_board, dark_hour_check, dark_hour_of, confirm_boarding,
  boarded, booking_ready, start_trip,
}
use fleet_manager.Trip.Change.{Finds, FindsBooking}
use fleet_manager.Trip.Accepts.{start_trip-accepts}
use fleet_manager.Trip.Effect.{Finds-facts}

-- Every booking at an earlier stop of the route has boarded, finished or not shown up.
abbrev pub IsInOrder : Db → ℕ → ℕ → Type 0
IsInOrder db route_id order_id =
    (l : RouteManagementBooking) (b : Booking)
    → Elem l db.links
    → Elem b db.bookings
    → l.route_id ≡ route_id
    → l.order_id < order_id
    → b.booking_id ≡ l.booking_id
    → (b.status ≡ BookingStatus.ongoing)
      ⊎ (b.status ≡ BookingStatus.completed)
      ⊎ (b.status ≡ BookingStatus.no_show)

processed_of :
    (s : BookingStatus)
    → is_processed s ≡ true
    → (s ≡ BookingStatus.ongoing) ⊎ (s ≡ BookingStatus.completed) ⊎ (s ≡ BookingStatus.no_show)
processed_of BookingStatus.request h = absurd (cc)
processed_of BookingStatus.scheduled h = absurd (cc)
processed_of BookingStatus.ongoing h = inl refl
processed_of BookingStatus.completed h = inr (inl refl)
processed_of BookingStatus.cancelled h = absurd (cc)
processed_of BookingStatus.no_show h = inr (inr refl)
processed_of BookingStatus.expired h = absurd (cc)

-- Where the check passes, every booking linked to the route at an earlier stop is ongoing,
-- completed or a no-show.
pub check_previous_bookings_completed-IsInOrder :
    (db : Db) (route_id order_id : ℕ)
    → check_previous_bookings_completed db route_id order_id ≡ ok tt
    → IsInOrder db route_id order_id
unfolding check_previous_bookings_completed
check_previous_bookings_completed-IsInOrder db route_id order_id passed l b ml mb er eo eb =
    let waiting = joins (λ s. not (is_processed s)) l in
    let none_open : exists_joined (is_before route_id order_id) (λ s. not (is_processed s)) db
        ≡ false =
      ground arith in
    let link_ok =
      any-false
        (λ l.
          is_before route_id order_id l && any (joins (λ s. not (is_processed s)) l) db.bookings)
        db.links none_open ml in
    let quiet : any waiting db.bookings ≡ false = ground arith in
    let row_ok = any-false waiting db.bookings quiet mb in processed_of b.status (ground arith)

-- The route, the link and the booking that a boarding is about, and what holds of them.
pub record IsBoardable (geodesic : Point → Point → ℕ) (db : Db) (ctx : Driver) (route : Route)
    (rb : RouteManagementBooking) (booking : Booking) (here : Point) (otp : Option Text) (now : ℕ)
    : Type 0 where
  pub of_driver : route.assigned_driver_id ≡ some ctx.driver_id
  pub of_tenant : route.tenant_id ≡ ctx.tenant_id
  pub going : route.status ≡ RouteStatus.ongoing
  pub escorted : is_truthy route.assigned_escort_id ≡ true → route.escort_boarded ≡ true
  pub in_order : is_nodal_shift db booking ≡ false → IsInOrder db route.route_id rb.order_id
  pub near :
      (p : Point)
      → target_of booking.pickup_latitude booking.pickup_longitude ≡ some p
      → geodesic here p ≤ max_distance
  pub safe :
      (cfg : TenantConfig) (e : Employee)
      → get_config db ctx.tenant_id ≡ some cfg
      → get_employee db booking.employee_id ≡ some e
      → cfg.dark_hour_boarding_mode ≡ some DarkHourMode.block
      → ¬ IsAtRisk (gender_value e.gender) (escort_on_board route) cfg (now % day)
  pub confirmed : confirm_boarding (is_nodal_shift db booking) booking otp ≡ ok tt
  pub typed :
      (n : ℕ)
      → is_nodal_shift db booking ≡ false
      → booking.boarding_otp ≡ some (suc n)
      → str (suc n) ≡ str_of_text otp
  pub waits :
      is_nodal_shift db booking ≡ true
      → (booking.status ≡ BookingStatus.scheduled) ⊎ (booking.status ≡ BookingStatus.ongoing)

confirmed-typed :
    (nodal : Bool) (booking : Booking) (otp : Option Text) (n : ℕ)
    → confirm_boarding nodal booking otp ≡ ok tt
    → nodal ≡ false
    → booking.boarding_otp ≡ some (suc n)
    → str (suc n) ≡ str_of_text otp
unfolding confirm_boarding
confirmed-typed nodal booking otp n h plain stored =
    let h' : verify_otp booking.boarding_otp otp OtpType.boarding ≡ ok tt = rw plain at h in
    (verify_otp-ok n otp OtpType.boarding).0
      (subst (λ o. verify_otp o otp OtpType.boarding ≡ ok tt) stored h')

confirmed-waits :
    (nodal : Bool) (booking : Booking) (otp : Option Text)
    → confirm_boarding nodal booking otp ≡ ok tt
    → nodal ≡ true
    → (booking.status ≡ BookingStatus.scheduled) ⊎ (booking.status ≡ BookingStatus.ongoing)
unfolding confirm_boarding
confirmed-waits nodal booking otp h e = ground arith

module _ (geodesic : Point → Point → ℕ) (db : Db) (ctx : Driver) where
  booking_ready-facts :
      (route : Route) (rb : RouteManagementBooking) (booking : Booking) (here : Point)
      (otp : Option Text) (now : ℕ) (w : List Warning)
      → booking_ready geodesic db ctx route rb booking here otp now ≡ ok w
      → (is_nodal_shift db booking ≡ false
          → check_previous_bookings_completed db route.route_id rb.order_id ≡ ok tt)
        × (validate_driver_location geodesic here booking.pickup_latitude booking.pickup_longitude
              LocationType.pickup
            ≡ ok tt)
        × (dark_hour_check db ctx route booking now ≡ ok w)
        × (confirm_boarding (is_nodal_shift db booking) booking otp ≡ ok tt)
  unfolding booking_ready
  booking_ready-facts route rb booking here otp now w h = ground arith

  near_of :
      (here p : Point) (o : Option Point)
      → is_far geodesic here o ≡ false
      → o ≡ some p
      → geodesic here p ≤ max_distance
  near_of here p o near e = ground arith

  near_ok :
      (route : Route) (booking : Booking) (here : Point)
      → validate_driver_location geodesic here booking.pickup_latitude booking.pickup_longitude
          LocationType.pickup
        ≡ ok tt
      → is_far geodesic here (target_of booking.pickup_latitude booking.pickup_longitude) ≡ false
  unfolding validate_driver_location
  near_ok route booking here h = ground arith

  safe_of :
      (route : Route) (booking : Booking) (now : ℕ) (w : List Warning) (cfg : TenantConfig)
      (e : Employee)
      → dark_hour_check db ctx route booking now ≡ ok w
      → get_config db ctx.tenant_id ≡ some cfg
      → get_employee db booking.employee_id ≡ some e
      → cfg.dark_hour_boarding_mode ≡ some DarkHourMode.block
      → ¬ IsAtRisk (gender_value e.gender) (escort_on_board route) cfg (now % day)
  unfolding dark_hour_check
  safe_of route booking now w cfg e passed ec ee mode risk =
      let refused =
        (check_dark_hour_boarding-refuses (gender_value e.gender) (escort_on_board route) cfg
            (now % day)).1
          (mode, risk) in
      let passed' : dark_hour_of (some cfg) (some e) (escort_on_board route) now ≡ ok w =
        ap (λ o. dark_hour_of o (some e) (escort_on_board route) now) (sym ec)
        ∙ ap (λ o. dark_hour_of (get_config db ctx.tenant_id) o (escort_on_board route) now)
            (sym ee)
        ∙ passed in
      ground arith

  -- An accepted boarding is of a route of this driver and tenant that is under way, with any
  -- assigned escort on board; at a stop before which, but for nodal shifts, every booking of the
  -- route has been dealt with; within 500 m of the pickup point, where that is known; of no
  -- employee at risk in dark hours, where the tenant's mode is `block`; and confirmed by the typed
  -- digits of the OTP, if there is one, or on a nodal shift by a booking that is scheduled or
  -- ongoing. It makes the booking ongoing and notes the time.
  pub start_trip-IsBoardable :
      (route_id booking_id : ℕ) (here : Point) (otp : Option Text) (now : ℕ)
      {r : Db × List Task × Reply}
      → start_trip geodesic db ctx route_id booking_id here otp now ≡ ok r
      → (route : Route) × (rb : RouteManagementBooking) × (booking : Booking) × Finds db ctx
          route_id route
        × FindsBooking db ctx route_id booking_id rb booking
        × IsBoardable geodesic db ctx route rb booking here otp now
        × (r.0 ≡ boarded db rb booking now)
        × Elem (record booking { status = BookingStatus.ongoing }) r.0.bookings
  unfolding boarded
  start_trip-IsBoardable route_id booking_id here otp now {r} h =
      let (route, rb, booking, w, found, going, escorted, fb, ready, e) =
        start_trip-accepts geodesic ctx db route_id booking_id here otp now {r = r} h in
      let (order, location, dark, confirmed) =
        booking_ready-facts route rb booking here otp now w ready in
      let (_, _, tenant, driver) = Finds-facts geodesic ctx db route_id route found in
      let (tb, mb) =
        find?-true (λ (b : Booking). b.booking_id == booking_id && b.tenant_id == ctx.tenant_id)
          db.bookings fb.1 in
      let done : Booking = record booking { status = BookingStatus.ongoing } in
      (
        route,
        rb,
        booking,
        found,
        fb,
        record {
          of_driver = driver;
          of_tenant = tenant;
          going = going;
          escorted = λ t. ground arith;
          in_order = λ plain.
              check_previous_bookings_completed-IsInOrder db route.route_id rb.order_id
                (order plain);
          near = λ p. near_of here p _ (near_ok route booking here location);
          safe = λ cfg e. safe_of route booking now w cfg e dark;
          confirmed = confirmed;
          typed = λ n. confirmed-typed (is_nodal_shift db booking) booking otp n confirmed;
          waits = confirmed-waits (is_nodal_shift db booking) booking otp confirmed;
        },
        e,
        subst (λ (x : Db). Elem done x.bookings) (sym e)
            (Elem-replace_new (λ b. b.booking_id) done db.bookings mb refl),
      )
