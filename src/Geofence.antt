-- ===== src/Geofence.antt =====
-- Arrivals at a stop (app/services/geofence_service.py), checked at each position that a driver
-- reports. `geodesic` is geopy's distance, in millimetres. The failures that the entry point
-- swallows are not modelled.
pub mod Once
pub mod Blocked
use fleet_manager.Prelude.{
  ℕ, ◌*◌, Bool, true, false, ◌||◌, Option, none, some, List, [], ◌∷◌, ltb, ◌==◌, if◌then◌else◌,
  is_some, get_or, filter, find?,
}
use fleet_manager.Prelude.Sort.{sort_by}
use fleet_manager.Store.{
  Db, RouteManagementBooking, Booking, BookingStatus, TenantConfig, Point, get_config, put_link,
}
use fleet_manager.Trip.Types.{NextStop, eq_booking_status}
use fleet_manager.Trip.Checks.{joins, target_of}

-- The push "Your driver is arriving", and the link that it is about.
pub record Arrival : Type 0 where
  pub link_id : ℕ
  pub employee_id : ℕ
  pub booking_id : ℕ
  pub route_id : ℕ
  pub distance : ℕ

-- `_PENDING_STATUSES`
abbrev pub is_pending : BookingStatus → Bool
is_pending s =
    eq_booking_status s BookingStatus.scheduled || eq_booking_status s BookingStatus.request

abbrev pub radius_of : Option TenantConfig → ℕ
radius_of none = 300
radius_of (some config) = get_or config.geofence_arrival_radius_meters 300

-- The first link without a notification that joins with a pending booking.
unfoldable pub first_waiting : List Booking → List RouteManagementBooking → NextStop
first_waiting bookings [] = none
first_waiting bookings (l ∷ ls) =
    let rest = first_waiting bookings ls in
    let here : NextStop = elim (find? (joins is_pending l) bookings) [
      | none ↦ rest
      | some b ↦ some (l, b)
    ] in
    if is_some l.geofence_notified_at then rest else here

abbrev pub stops_of_route : Db → ℕ → List RouteManagementBooking
stops_of_route db route_id =
    sort_by (λ l. l.order_id) (filter (λ l. l.route_id == route_id) db.links)

abbrev pub notified : RouteManagementBooking → ℕ → RouteManagementBooking
notified l now = record l { geofence_notified_at = some now }

abbrev pub arrival_of : RouteManagementBooking → Booking → ℕ → ℕ → Arrival
arrival_of l b route_id distance = record {
  link_id = l.id;
  employee_id = b.employee_id;
  booking_id = b.booking_id;
  route_id = route_id;
  distance = distance;
}

module _ (geodesic : Point → Point → ℕ) where
  -- From the check of the coordinates on.
  abbrev pub fire :
      Db → ℕ → ℕ → Point → ℕ → RouteManagementBooking → Booking → Option Point → Db × Option Arrival
  fire db radius route_id here now l b none = (db, none)
  fire db radius route_id here now l b (some stop) =
      let distance = geodesic here stop in
      if ltb (radius * 1000) distance
      then (db, none)
      else (put_link (notified l now) db, some (arrival_of l b route_id distance))

  abbrev pub fire_at : Db → ℕ → ℕ → Point → ℕ → NextStop → Db × Option Arrival
  fire_at db radius route_id here now none = (db, none)
  fire_at db radius route_id here now (some (l, b)) =
      fire db radius route_id here now l b (target_of b.pickup_latitude b.pickup_longitude)

  unfoldable pub run_geofence_check : Db → ℕ → ℕ → Point → ℕ → Db × Option Arrival
  unfolding first_waiting
  run_geofence_check db tenant_id route_id here now =
      fire_at db (radius_of (get_config db tenant_id)) route_id here now
        (first_waiting db.bookings (stops_of_route db route_id))

-- A reported position: of a tenant's route, at a time.
pub record Report : Type 0 where
  pub tenant_id : ℕ
  pub route_id : ℕ
  pub here : Point
  pub now : ℕ

abbrev pub push : Option Arrival → List Arrival → List Arrival
push none arrivals = arrivals
push (some a) arrivals = a ∷ arrivals

module _ (geodesic : Point → Point → ℕ) where
  -- The pushes of a series of reports.
  unfoldable pub track : Db → List Report → Db × List Arrival
  track db [] = (db, [])
  track db (r ∷ rs) =
      let step = run_geofence_check geodesic db r.tenant_id r.route_id r.here r.now in
      let rest = track step.0 rs in (rest.0, push step.1 rest.1)
