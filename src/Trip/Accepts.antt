-- ===== src/Trip/Accepts.antt =====
-- The requests of the driver app (app/routes/app_driver_router.py) against the step relation of
-- Trip/Change.antt.
use fleet_manager.Prelude.{
  ℕ, ◌≡◌, refl, false, not, ◌&&◌, Option, none, some, List, arith, ◌==◌, is_truthy, find?,
  Bool-cases, inl, inr, Option-cases, get_or,
}
use fleet_manager.Prelude.Result.{ok, err, Result-cases}
use fleet_manager.Prelude.Text.{eq_text_iff}
use fleet_manager.Store.{
  Text, Db, Route, RouteStatus, RouteManagementBooking, Booking, BookingStatus, Point,
}
use fleet_manager.Safety.DarkHour.{Warning}
use fleet_manager.Trip.Types.{
  Driver, Outcome, Task, Reply, OtpType, eq_route_status, eq_booking_status,
}
use fleet_manager.Trip.Otp.{str, verify_otp}
use fleet_manager.Trip.Checks.{
  is_driver_route, validate_route_for_driver, validate_booking_in_route,
  check_previous_bookings_completed, exists_joined,
}
use fleet_manager.Trip.Duty.{
  is_other_ongoing, begin_duty, start_duty, board_escort, is_final, is_of_route, complete_duty,
  end_duty,
}
use fleet_manager.Trip.Ride.{
  route_ready, booking_ready, boarded, start_trip, reason_or_default, mark_no_show, verify_drop,
}
use fleet_manager.Trip.Machine.{Request, committed, handle}
use fleet_manager.Trip.Change.{
  Finds, FindsBooking, Change, same, starts, boards_escort, ends, picks_up, misses, drops,
}

module _ (geodesic : Point → Point → ℕ) (ctx : Driver) (db : Db) where
  -- What is proved of an outcome.
  abbrev IsChange : Db × List Task × Reply → Type 0
  IsChange r = Change geodesic ctx db r.0

  begin_duty-Change :
      (route_id now : ℕ) (route : Route) {r : Db × List Task × Reply}
      → Finds db ctx route_id route
      → begin_duty db route_id ctx now route ≡ ok r
      → IsChange r
  unfolding begin_duty
  begin_duty-Change route_id now route {r} found h =
      elim (Option-cases (find? (is_other_ongoing route_id ctx) db.routes)) [
        | inl free ↦ starts route_id now route found (ground arith) free (ground arith)
        | inr (other, busy) ↦ absurd (ground arith)
      ]

  start_duty-Change :
      (route_id now : ℕ) {r : Db × List Task × Reply}
      → start_duty db ctx route_id now ≡ ok r
      → IsChange r
  unfolding start_duty
  start_duty-Change route_id now {r} h =
      elim (Option-cases (find? (is_driver_route route_id ctx none) db.routes)) [
        | inl missing ↦ absurd (ground arith)
        | inr (route, found) ↦
            elim (Bool-cases (eq_route_status route.status RouteStatus.ongoing)) [
              | inl e ↦ same (ground arith)
              | inr e ↦ begin_duty-Change route_id now route {r = r} found (ground arith)
            ]
      ]

  board_escort-Change :
      (route_id otp : ℕ) {r : Db × List Task × Reply}
      → board_escort db ctx route_id otp ≡ ok r
      → IsChange r
  unfolding board_escort
  board_escort-Change route_id otp {r} h =
      elim (Option-cases (find? (is_driver_route route_id ctx none) db.routes)) [
        | inl missing ↦ absurd (ground arith)
        | inr (route, found) ↦ elim (Bool-cases route.escort_boarded) [
          | inl e ↦ same (ground arith)
          | inr e ↦
              boards_escort route_id otp route found (ground arith)
                (ground (arith, eq_text_iff (str (get_or route.escort_otp 0)) (str otp)))
                (ground arith)
        ]
      ]

  complete_duty-Change :
      (route_id now : ℕ) (route : Route) {r : Db × List Task × Reply}
      → Finds db ctx route_id route
      → route.status ≡ RouteStatus.ongoing
      → complete_duty geodesic db route_id now route ≡ ok r
      → IsChange r
  unfolding complete_duty
  complete_duty-Change route_id now route {r} found going h =
      elim (Bool-cases (exists_joined (is_of_route route_id) (λ s. not (is_final s)) db)) [
        | inl pending ↦ absurd (ground arith)
        | inr final ↦ ends route_id now route found going final (ground arith)
      ]

  end_duty-Change :
      (route_id now : ℕ) {r : Db × List Task × Reply}
      → end_duty geodesic db ctx route_id now ≡ ok r
      → IsChange r
  unfolding end_duty
  end_duty-Change route_id now {r} h =
      elim (Option-cases (find? (is_driver_route route_id ctx none) db.routes)) [
        | inl missing ↦ absurd (ground arith)
        | inr (route, found) ↦
            elim (Bool-cases (eq_route_status route.status RouteStatus.ongoing)) [
              | inl e ↦
                  complete_duty-Change route_id now route {r = r} found (ground arith)
                    (ground arith)
              | inr e ↦ same (ground arith)
            ]
      ]

  module _ (route_id booking_id : ℕ) where
    abbrev link_found : Option RouteManagementBooking
    link_found = find? (λ l. l.route_id == route_id && l.booking_id == booking_id) db.links

    abbrev booking_found : Option Booking
    booking_found =
        find? (λ b. b.booking_id == booking_id && b.tenant_id == ctx.tenant_id) db.bookings

    -- The rows that an accepted boarding has found, and what it commits.
    pub start_trip-accepts :
        (here : Point) (otp : Option Text) (now : ℕ) {r : Db × List Task × Reply}
        → start_trip geodesic db ctx route_id booking_id here otp now ≡ ok r
        → (route : Route) × (rb : RouteManagementBooking) × (booking : Booking) × (warnings : List
            Warning)
          × Finds db ctx route_id route
          × (route.status ≡ RouteStatus.ongoing)
          × ((is_truthy route.assigned_escort_id && not route.escort_boarded) ≡ false)
          × FindsBooking db ctx route_id booking_id rb booking
          × (booking_ready geodesic db ctx route rb booking here otp now ≡ ok warnings)
          × (r.0 ≡ boarded db rb booking now)
    unfolding start_trip route_ready validate_route_for_driver validate_booking_in_route
    start_trip-accepts here otp now {r} h =
        elim (Option-cases (find? (is_driver_route route_id ctx none) db.routes)) [
          | inl missing ↦ absurd (ground arith)
          | inr (route, found) ↦ elim (Option-cases link_found) [
            | inl missing ↦ absurd (ground arith)
            | inr (rb, linked) ↦ elim (Option-cases booking_found) [
              | inl missing ↦ absurd (ground arith)
              | inr (booking, booked) ↦
                  elim (Result-cases
                    (booking_ready geodesic db ctx route rb booking here otp now)) [
                      | inr (e, refused) ↦ absurd (ground arith)
                      | inl (warnings, ready) ↦ (
                        route,
                        rb,
                        booking,
                        warnings,
                        found,
                        ground arith,
                        ground arith,
                        (linked, booked),
                        ready,
                        ground arith,
                      )
                    ]
            ]
          ]
        ]

    start_trip-Change :
        (here : Point) (otp : Option Text) (now : ℕ) {r : Db × List Task × Reply}
        → start_trip geodesic db ctx route_id booking_id here otp now ≡ ok r
        → IsChange r
    start_trip-Change here otp now {r} h =
        let (route, rb, booking, w, found, going, escorted, fb, ready, e) =
          start_trip-accepts here otp now {r = r} h in
        picks_up route_id booking_id here otp now route rb booking w found going escorted fb ready e

    mark_no_show-Change :
        (reason : Option Text) (now : ℕ) {r : Db × List Task × Reply}
        → mark_no_show db ctx route_id booking_id reason now ≡ ok r
        → IsChange r
    unfolding mark_no_show validate_route_for_driver validate_booking_in_route
    mark_no_show-Change reason now {r} h =
        elim (Option-cases (find? (is_driver_route route_id ctx none) db.routes)) [
          | inl missing ↦ absurd (ground arith)
          | inr (route, found) ↦ elim (Option-cases link_found) [
            | inl missing ↦ absurd (ground arith)
            | inr (rb, linked) ↦ elim (Option-cases booking_found) [
              | inl missing ↦ absurd (ground arith)
              | inr (booking, booked) ↦
                  elim (Result-cases (check_previous_bookings_completed db route_id rb.order_id)) [
                    | inr (e, refused) ↦ absurd (ground arith)
                    | inl (u, passed) ↦
                        misses route_id booking_id (reason_or_default reason) now route rb booking
                          found (linked, booked) (ground arith) (ground arith) passed (ground arith)
                  ]
            ]
          ]
        ]

    verify_drop-Change :
        (here : Point) (otp : Option Text) (now : ℕ) {r : Db × List Task × Reply}
        → verify_drop geodesic db ctx route_id booking_id here otp now ≡ ok r
        → IsChange r
    unfolding verify_drop validate_route_for_driver validate_booking_in_route
    verify_drop-Change here otp now {r} h =
        elim (Option-cases
          (find? (is_driver_route route_id ctx (some RouteStatus.ongoing)) db.routes)) [
            | inl missing ↦ absurd (ground arith)
            | inr (route, found) ↦ elim (Option-cases link_found) [
              | inl missing ↦ absurd (ground arith)
              | inr (rb, linked) ↦ elim (Option-cases booking_found) [
                | inl missing ↦ absurd (ground arith)
                | inr (booking, booked) ↦
                    elim (Result-cases (verify_otp booking.deboarding_otp otp OtpType.deboarding)) [
                      | inr (e, refused) ↦ absurd (ground arith)
                      | inl (u, typed) ↦
                          elim (Bool-cases
                            (eq_booking_status booking.status BookingStatus.completed)) [
                              | inl e ↦ same (ground arith)
                              | inr e ↦
                                  drops route_id booking_id otp now route rb booking found
                                    (linked, booked) typed (ground arith)
                            ]
                    ]
              ]
            ]
          ]

  committed-Change :
      (o : Outcome)
      → ((r : Db × List Task × Reply) → o ≡ ok r → IsChange r)
      → Change geodesic ctx db (committed db o)
  committed-Change (ok r) f = f r refl
  committed-Change (err e) f = same refl

  -- Every request, accepted or refused, leaves the database as it was or takes one step of the
  -- relation `Change`.
  pub handle-Change :
      (req : Request) → Change geodesic ctx db (committed db (handle geodesic db ctx req))
  unfolding handle
  handle-Change (Request.start_duty i now) =
      committed-Change _ (λ r h. start_duty-Change i now {r = r} h)
  handle-Change (Request.board_escort i otp) =
      committed-Change _ (λ r h. board_escort-Change i otp {r = r} h)
  handle-Change (Request.end_duty i now) =
      committed-Change _ (λ r h. end_duty-Change i now {r = r} h)
  handle-Change (Request.start_trip i j here otp now) =
      committed-Change _ (λ r h. start_trip-Change i j here otp now {r = r} h)
  handle-Change (Request.mark_no_show i j reason now) =
      committed-Change _ (λ r h. mark_no_show-Change i j reason now {r = r} h)
  handle-Change (Request.verify_drop i j here otp now) =
      committed-Change _ (λ r h. verify_drop-Change i j here otp now {r = r} h)
