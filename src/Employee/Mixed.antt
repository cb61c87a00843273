-- ===== src/Employee/Mixed.antt =====
-- Requests of drivers (app/routes/app_driver_router.py) and scans of employees
-- (app/routes/app_employee_router.py) in one series, in the order in which the server takes them.
use fleet_manager.Prelude.{ℕ, ◌≡◌, refl, sym, ap, subst, ◌≢◌, List, [], ◌∷◌, arith, inr}
use fleet_manager.Prelude.Result.{Result, ok, err}
use fleet_manager.Store.{Db, RouteStatus, Point}
use fleet_manager.Trip.Types.{Driver}
use fleet_manager.Trip.Machine.{Request, committed, handle}
use fleet_manager.Trip.Accepts.{handle-Change}
use fleet_manager.Trip.Completion.{IsKeyed, IsSettled, Good, Ride, ride-IsKeyed, ride-IsSettled}
use fleet_manager.Trip.Settled.{Change-Good}
use fleet_manager.Trip.Effect.{Change-RouteEffect}
use fleet_manager.Trip.Exclusive.{IsExclusive, RouteEffect-IsExclusive}
use fleet_manager.Employee.{
  EmployeeUser, ScanError, Garage, scanned_link, scanned_booking, scanned, nodal_qr_scan,
}
use fleet_manager.Employee.Scan.{nodal_qr_scan_lem}

pub data Event : Type 0 where
  driver : Driver → Request → Event
  scan : EmployeeUser → ℕ → ℕ → ℕ → Event

-- The database after a scan.
abbrev pub scan_committed : Db → Result ScanError (Db × ℕ) → Db
scan_committed db (ok (db', reply)) = db'
scan_committed db (err e) = db

module _ (geodesic : Point → Point → ℕ) (garage : Garage) where
  abbrev pub take_event : Db → Event → Db
  take_event db (driver ctx req) = committed db (handle geodesic db ctx req)
  take_event db (scan ctx vehicle_number today now) =
      scan_committed db (nodal_qr_scan garage db ctx vehicle_number today now)

  unfoldable pub take_events : Db → List Event → Db
  take_events db [] = db
  take_events db (event ∷ events) = take_events (take_event db event) events

  -- What a scan leaves of routes, keys and completed routes.
  scan_lem :
      (db : Db) (ctx : EmployeeUser) (vehicle_number today now : ℕ) (o : Result ScanError (Db × ℕ))
      → nodal_qr_scan garage db ctx vehicle_number today now ≡ o
      → ((scan_committed db o).routes ≡ db.routes) × (Good db → Good (scan_committed db o))
  unfolding scanned
  scan_lem db ctx vehicle_number today now (err e) h = (refl, λ g. g)
  scan_lem db ctx vehicle_number today now (ok (db', reply)) h =
      let (route, rb, booking, s, e, _) =
        nodal_qr_scan_lem garage db ctx vehicle_number today now db' reply h in
      let active = s.active in
      let open_route : route.status ≢ RouteStatus.completed = ground arith in
      let ride : Ride db (scanned_link rb now) (scanned_booking booking) = record {
        old = rb;
        was_there = s.link_there;
        same_route = refl;
        same_booking = refl;
        of_link = s.of_link;
        final_or_going = inr (route, s.route_there, sym s.of_route, open_route);
      } in
      (
        ap (λ (d : Db). d.routes) e,
        λ good. rw e (ride-IsKeyed good _ _ ride, ride-IsSettled good _ _ ride),
      )

  pub take_event-Good : (db : Db) (event : Event) → Good db → Good (take_event db event)
  take_event-Good db (driver ctx req) good =
      Change-Good geodesic ctx db (handle-Change geodesic ctx db req) good
  take_event-Good db (scan ctx vehicle_number today now) good =
      (scan_lem db ctx vehicle_number today now _ refl).1 good

  take_event-IsExclusive :
      (db : Db) (event : Event) → IsExclusive db.routes → IsExclusive (take_event db event).routes
  take_event-IsExclusive db (driver ctx req) ex =
      RouteEffect-IsExclusive
        (Change-RouteEffect geodesic ctx db (handle-Change geodesic ctx db req)) ex
  take_event-IsExclusive db (scan ctx vehicle_number today now) ex =
      subst (λ rs. IsExclusive rs) (sym (scan_lem db ctx vehicle_number today now _ refl).0) ex

  -- Where route ids are keys, each booking is linked to one route only, and every booking of a
  -- completed route is completed, no-show or cancelled, all this still holds after any series of
  -- requests of drivers and scans of employees in any order: no completed route has an open
  -- booking.
  pub take_events-IsSettled :
      (events : List Event) (db : Db)
      → IsKeyed db
      → IsSettled db
      → IsKeyed (take_events db events) × IsSettled (take_events db events)
  unfolding take_events
  take_events-IsSettled [] db keyed settled = (keyed, settled)
  take_events-IsSettled (event ∷ events) db keyed settled =
      let (k, s) = take_event-Good db event (keyed, settled) in
      take_events-IsSettled events (take_event db event) k s

  -- If no driver has two routes under way, then so it is after any series of requests of drivers
  -- and scans of employees, accepted or refused.
  pub take_events-IsExclusive :
      (events : List Event) (db : Db)
      → IsExclusive db.routes
      → IsExclusive (take_events db events).routes
  unfolding take_events
  take_events-IsExclusive [] db ex = ex
  take_events-IsExclusive (event ∷ events) db ex =
      take_events-IsExclusive events (take_event db event) (take_event-IsExclusive db event ex)
