-- ===== src/Trip/Finish.antt =====
-- What the end of duty writes (`end_duty` in app/routes/app_driver_router.py).
use fleet_manager.Prelude.{ℕ, ◌≡◌, ap, arith, some, replace}
use fleet_manager.Store.{Db, Route, RouteStatus, Point}
use fleet_manager.Delay.{tag_trip_delay}
use fleet_manager.Trip.Distance.{compute_and_persist_actual_distance}
use fleet_manager.Trip.Duty.{finish_route}

module _ (db : Db) (route : Route) (now : ℕ) where
  -- Tagging adds an audit event and changes the delay columns.
  pub tag_trip_delay_keeps :
      let (db', route') = tag_trip_delay db route now in
      (db'.routes ≡ db.routes)
      × (db'.links ≡ db.links)
      × (db'.bookings ≡ db.bookings)
      × (route'.route_id ≡ route.route_id)
      × (route'.status ≡ route.status)
      × (route'.tenant_id ≡ route.tenant_id)
      × (route'.assigned_driver_id ≡ route.assigned_driver_id)
      × (route'.actual_end_time ≡ route.actual_end_time)
  unfolding tag_trip_delay
  tag_trip_delay_keeps = ground arith

module _ (geodesic : Point → Point → ℕ) (db : Db) (now : ℕ) (route : Route) where
  -- The row that the end of duty writes is completed, and the other tables but the audit are kept.
  pub finish_route_lem :
      (row : Route) × ((finish_route geodesic db now route).routes
        ≡ replace (λ r. r.route_id) row db.routes)
      × (row.route_id ≡ route.route_id)
      × (row.status ≡ RouteStatus.completed)
      × (row.tenant_id ≡ route.tenant_id)
      × (row.assigned_driver_id ≡ route.assigned_driver_id)
      × (row.actual_end_time ≡ some now)
      × ((finish_route geodesic db now route).links ≡ db.links)
      × ((finish_route geodesic db now route).bookings ≡ db.bookings)
  unfolding finish_route compute_and_persist_actual_distance
  finish_route_lem =
      let closed = record route {
        status = RouteStatus.completed;
        actual_end_time = some now;
        updated_at = now;
      } in
      let k = tag_trip_delay_keeps db closed now in
      let tagged = (tag_trip_delay db closed now).1 in
      (
        compute_and_persist_actual_distance geodesic (tag_trip_delay db closed now).0 tagged,
        ap (replace (λ r. r.route_id) _) k.0,
        k.3,
        k.4,
        k.5,
        k.6,
        k.7,
        k.1,
        k.2,
      )
