-- ===== src/Trip/Checks.antt =====
-- The lookups and guards of the driver app (app/routes/app_driver_router.py). `geodesic` is
-- geopy's distance, in millimetres.
use fleet_manager.Prelude.{
  ℕ, ◌+◌, Bool, true, false, not, ◌&&◌, ◌||◌, Option, none, some, List, [], ◌∷◌, ltb, ◌==◌,
  if◌then◌else◌, is_key, any, count, filter, find?,
}
use fleet_manager.Prelude.Int.{ℤ, pos, negsuc}
use fleet_manager.Prelude.Result.{Result, ok, ◌>>=◌, raise_if, or_raise}
use fleet_manager.Prelude.Sort.{sort_by}
use fleet_manager.Store.{
  Db, Route, RouteStatus, RouteManagementBooking, Booking, BookingStatus, Point,
}
use fleet_manager.Trip.Types.{
  Driver, HttpError, LocationType, NextStop, eq_route_status, eq_booking_status, route_not_found,
  booking_not_in_route, booking_not_found, previous_bookings_pending, driver_too_far_from,
}

abbrev pub has_required_status : Option RouteStatus → RouteStatus → Bool
has_required_status none status = true
has_required_status (some required) status = eq_route_status status required

abbrev pub is_driver_route : ℕ → Driver → Option RouteStatus → Route → Bool
is_driver_route route_id ctx required r =
    r.route_id == route_id
    && r.tenant_id == ctx.tenant_id
    && is_key r.assigned_driver_id ctx.driver_id
    && has_required_status required r.status

unfoldable pub validate_route_for_driver :
    Db → ℕ → Driver → Option RouteStatus → Result HttpError Route
validate_route_for_driver db route_id ctx required =
    or_raise (find? (is_driver_route route_id ctx required) db.routes) route_not_found

unfoldable pub validate_booking_in_route :
    Db → ℕ → ℕ → Driver → Result HttpError (RouteManagementBooking × Booking)
validate_booking_in_route db route_id booking_id ctx = do
  rb ←
      or_raise (find? (λ l. l.route_id == route_id && l.booking_id == booking_id) db.links)
        booking_not_in_route
  booking ←
      or_raise (find? (λ b. b.booking_id == booking_id && b.tenant_id == ctx.tenant_id) db.bookings)
        booking_not_found
  ok (rb, booking)

-- `[NO_SHOW, ONGOING, COMPLETED]`
abbrev pub is_processed : BookingStatus → Bool
is_processed s =
    eq_booking_status s BookingStatus.no_show
    || eq_booking_status s BookingStatus.ongoing
    || eq_booking_status s BookingStatus.completed

-- The link joined with a booking that passes the test.
abbrev pub joins : (BookingStatus → Bool) → RouteManagementBooking → Booking → Bool
joins test l b = b.booking_id == l.booking_id && test b.status

-- The rows of the join, counted.
abbrev pub count_joined :
    (RouteManagementBooking → Bool)
    → (BookingStatus → Bool)
    → List RouteManagementBooking
    → List Booking
    → ℕ
count_joined p test [] bookings = 0
count_joined p test (l ∷ ls) bookings =
    (if p l then count (joins test l) bookings else 0) + count_joined p test ls bookings

abbrev pub exists_joined : (RouteManagementBooking → Bool) → (BookingStatus → Bool) → Db → Bool
exists_joined p test db = any (λ l. p l && any (joins test l) db.bookings) db.links

abbrev pub is_before : ℕ → ℕ → RouteManagementBooking → Bool
is_before route_id order_id l = l.route_id == route_id && ltb l.order_id order_id

unfoldable pub check_previous_bookings_completed : Db → ℕ → ℕ → Result HttpError (Unit {0})
check_previous_bookings_completed db route_id current_order_id =
    let earlier = is_before route_id current_order_id in
    let pending = λ (s : BookingStatus). not (is_processed s) in
    raise_if (exists_joined earlier pending db)
      (previous_bookings_pending (count_joined earlier pending db.links db.bookings))

-- `not x` of an optional coordinate
abbrev pub is_zero : ℤ → Bool
is_zero (pos n) = n == 0
is_zero (negsuc n) = false

abbrev pub target_of : Option ℤ → Option ℤ → Option Point
target_of none longitude = none
target_of (some lat) none = none
target_of (some lat) (some lng) =
    if is_zero lat || is_zero lng then none else some (record { latitude = lat; longitude = lng })

abbrev pub max_distance : ℕ
max_distance = 500_000

abbrev pub is_far : (Point → Point → ℕ) → Point → Option Point → Bool
is_far geodesic here none = false
is_far geodesic here (some target) = ltb max_distance (geodesic here target)

unfoldable pub validate_driver_location :
    (Point → Point → ℕ) → Point → Option ℤ → Option ℤ → LocationType → Result HttpError (Unit {0})
validate_driver_location geodesic here latitude longitude location_type =
    raise_if (is_far geodesic here (target_of latitude longitude))
      (driver_too_far_from location_type)

-- Statuses that `get_next_stop` passes over.
abbrev pub is_excluded : Bool → BookingStatus → Bool
is_excluded skip_ongoing s =
    eq_booking_status s BookingStatus.no_show
    || eq_booking_status s BookingStatus.completed
    || (skip_ongoing && eq_booking_status s BookingStatus.ongoing)

-- The first link in order that joins with a booking still to be visited.
abbrev pub first_joined : Bool → List Booking → List RouteManagementBooking → NextStop
first_joined skip_ongoing bookings [] = none
first_joined skip_ongoing bookings (l ∷ ls) =
    let rest = first_joined skip_ongoing bookings ls in
    elim (find? (joins (λ s. not (is_excluded skip_ongoing s)) l) bookings) [
      | none ↦ rest
      | some b ↦ some (l, b)
    ]

unfoldable pub get_next_stop : Db → ℕ → ℕ → Bool → NextStop
get_next_stop db route_id current_order_id skip_ongoing = first_joined skip_ongoing db.bookings (
    sort_by (λ l. l.order_id)
      (filter (λ l. l.route_id == route_id && ltb current_order_id l.order_id) db.links))
