-- ===== src/Trip/Duty.antt =====
-- `start_duty`, `board_escort` and `end_duty` (app/routes/app_driver_router.py). Failures of the
-- database and other unexpected exceptions are not modelled.
use fleet_manager.Prelude.{
  ℕ, Bool, true, not, ◌&&◌, ◌||◌, Option, none, some, [], ◌∷◌, ◌==◌, if◌then◌else◌, is_key,
  is_truthy, find?, get_or,
}
use fleet_manager.Prelude.Result.{Result, ok, err, ◌>>=◌, ◌>>◌, raise_if}
use fleet_manager.Prelude.Text.{eq_text}
use fleet_manager.Store.{
  Db, Route, RouteManagementBooking, RouteStatus, BookingStatus, Point, put_route,
}
use fleet_manager.Delay.{tag_trip_delay}
use fleet_manager.Trip.Types
use fleet_manager.Trip.Types.{
  Driver, HttpError, Outcome, eq_route_status, eq_booking_status, invalid_route_state,
  driver_has_ongoing_route, route_not_ongoing, no_escort_assigned, escort_otp_not_generated,
  invalid_escort_otp, pending_bookings_exist,
}
use fleet_manager.Trip.Otp.{str}
use fleet_manager.Trip.Checks.{validate_route_for_driver, exists_joined, count_joined}
use fleet_manager.Trip.Distance.{compute_and_persist_actual_distance}

-- Another route of the driver that is under way.
abbrev pub is_other_ongoing : ℕ → Driver → Route → Bool
is_other_ongoing route_id ctx r =
    r.tenant_id == ctx.tenant_id
    && is_key r.assigned_driver_id ctx.driver_id
    && eq_route_status r.status RouteStatus.ongoing
    && not (r.route_id == route_id)

abbrev pub no_other_ongoing : Option Route → Result HttpError (Unit {0})
no_other_ongoing none = ok tt
no_other_ongoing (some r) = err (driver_has_ongoing_route r.route_id)

-- The route's change when duty starts.
abbrev pub started : ℕ → Route → Route
started now route = record route {
  status = RouteStatus.ongoing;
  actual_start_time = some now;
  updated_at = now;
}

-- From the check of the status on; an ongoing route has been answered before.
unfoldable pub begin_duty : Db → ℕ → Driver → ℕ → Route → Outcome
begin_duty db route_id ctx now route = do
  raise_if (not (eq_route_status route.status RouteStatus.driver_assigned))
      (invalid_route_state route.status)
  no_other_ongoing (find? (is_other_ongoing route_id ctx) db.routes)
  ok (
    put_route (started now route) db,
    Types.initialize_firebase_node route.route_id
        ∷ Types.send_duty_start_notifications route_id
        ∷ [],
    Types.duty_started,
  )

unfoldable pub start_duty : Db → Driver → ℕ → ℕ → Outcome
unfolding begin_duty validate_route_for_driver
start_duty db ctx route_id now = do
  route ← validate_route_for_driver db route_id ctx none
  if eq_route_status route.status RouteStatus.ongoing
      then ok (db, [], Types.duty_already_started)
      else begin_duty db route_id ctx now route

-- From the check of the stored OTP on. Digits have no blanks to strip.
unfoldable pub board_with_otp : Db → ℕ → Route → Outcome
board_with_otp db otp route = do
  raise_if (not (is_truthy route.escort_otp)) escort_otp_not_generated
  raise_if (not (eq_text (str (get_or route.escort_otp 0)) (str otp))) invalid_escort_otp
  ok (put_route (record route { escort_boarded = true }) db, [], Types.escort_boarded)

unfoldable pub board_escort : Db → Driver → ℕ → ℕ → Outcome
unfolding board_with_otp validate_route_for_driver
board_escort db ctx route_id otp = do
  route ← validate_route_for_driver db route_id ctx none
  raise_if (not (eq_route_status route.status RouteStatus.ongoing)) (route_not_ongoing route.status)
  raise_if (not (is_truthy route.assigned_escort_id)) no_escort_assigned
  if route.escort_boarded
      then ok (db, [], Types.escort_already_boarded)
      else board_with_otp db otp route

-- `[COMPLETED, NO_SHOW, CANCELLED]`
abbrev pub is_final : BookingStatus → Bool
is_final s =
    eq_booking_status s BookingStatus.completed
    || eq_booking_status s BookingStatus.no_show
    || eq_booking_status s BookingStatus.cancelled

-- The route's change when duty ends: it is completed, then tagged, then measured.
unfoldable pub finish_route : (Point → Point → ℕ) → Db → ℕ → Route → Db
finish_route geodesic db now route =
    let closed = record route {
      status = RouteStatus.completed;
      actual_end_time = some now;
      updated_at = now;
    } in
    let (db', tagged) = tag_trip_delay db closed now in
    put_route (compute_and_persist_actual_distance geodesic db' tagged) db'

-- The answer to a route that is not under way.
abbrev pub refuse_end : Db → Route → Outcome
refuse_end db route =
    if eq_route_status route.status RouteStatus.completed
    then ok (db, [], Types.route_already_completed)
    else err (invalid_route_state route.status)

abbrev pub is_of_route : ℕ → RouteManagementBooking → Bool
is_of_route route_id l = l.route_id == route_id

unfoldable pub complete_duty : (Point → Point → ℕ) → Db → ℕ → ℕ → Route → Outcome
complete_duty geodesic db route_id now route = do
  let pending = λ (s : BookingStatus). not (is_final s)
  raise_if (exists_joined (is_of_route route_id) pending db)
      (pending_bookings_exist (count_joined (is_of_route route_id) pending db.links db.bookings))
  ok (finish_route geodesic db now route, Types.clear_firebase_location ∷ [], Types.duty_ended)

unfoldable pub end_duty : (Point → Point → ℕ) → Db → Driver → ℕ → ℕ → Outcome
unfolding complete_duty validate_route_for_driver
end_duty geodesic db ctx route_id now = do
  route ← validate_route_for_driver db route_id ctx none
  if eq_route_status route.status RouteStatus.ongoing
      then complete_duty geodesic db route_id now route
      else refuse_end db route
