-- ===== src/Bookings/Day.antt =====
-- The requests for bookings (app/routes/booking_router.py) among those of drivers and the scans of
-- employees, in the order in which the server takes them.
use fleet_manager.Prelude.{
  ℕ, ◌≡◌, refl, sym, subst, ◌&&◌, List, [], ◌∷◌, ◌==◌, find?-true, replace, Elem,
}
use fleet_manager.Store.{Db, Booking, Point}
use fleet_manager.Trip.Types.{Driver}
use fleet_manager.Trip.Change.{Change}
use fleet_manager.Trip.Accepts.{handle-Change}
use fleet_manager.Trip.Ride.{boarded, not_shown, dropped_off}
use fleet_manager.Trip.Finish.{finish_route_lem}
use fleet_manager.Prelude.Result.{Result, ok, err}
use fleet_manager.Employee.{EmployeeUser, Garage, ScanError, scanned, nodal_qr_scan}
use fleet_manager.Employee.Scan.{nodal_qr_scan_lem}
use fleet_manager.Employee.Mixed.{Event, scan_committed, take_event}
use fleet_manager.Bookings.{User, Registry}
use fleet_manager.Bookings.Slots.{IsUnique, Stays, Stays-refl, replace-IsUnique, Stays-Fits}
use fleet_manager.Bookings.Series.{BookingRequest, take_booking, take_booking-IsUnique}

-- A booking that a driver or a scan changes keeps its slot.
kept :
    (db : Db) (c b : Booking)
    → Elem b db.bookings
    → Stays c b
    → IsUnique db.bookings
    → IsUnique (replace (λ b. b.booking_id) c db.bookings)
kept db c b m s unique =
    replace-IsUnique c db.bookings unique (Stays-Fits c b db.bookings s m unique)

module _ (geodesic : Point → Point → ℕ) where
  Change-IsUnique :
      (ctx : Driver) (db db' : Db)
      → Change geodesic ctx db db'
      → IsUnique db.bookings
      → IsUnique db'.bookings
  unfolding boarded not_shown dropped_off
  Change-IsUnique ctx db db' (Change.same e) u = subst (λ (d : Db). IsUnique d.bookings) (sym e) u
  Change-IsUnique ctx db db' (Change.starts i now r f s n e) u =
      subst (λ (d : Db). IsUnique d.bookings) (sym e) u
  Change-IsUnique ctx db db' (Change.boards_escort i o r f s t e) u =
      subst (λ (d : Db). IsUnique d.bookings) (sym e) u
  Change-IsUnique ctx db db' (Change.ends i now r f s n e) u =
      subst (λ (d : Db). IsUnique d.bookings) (sym e)
        (subst IsUnique (sym (finish_route_lem geodesic db now r).8) u)
  Change-IsUnique ctx db db' (Change.picks_up i j p o now r rb b w f s n found ready e) u =
      subst (λ (d : Db). IsUnique d.bookings) (sym e)
        (kept db _ b
          (find?-true (λ b. b.booking_id == j && b.tenant_id == ctx.tenant_id) db.bookings
            found.1).1
          (Stays-refl b) u)
  Change-IsUnique ctx db db' (Change.misses i j reason now r rb b f found n m p e) u =
      subst (λ (d : Db). IsUnique d.bookings) (sym e)
        (kept db _ b
          (find?-true (λ b. b.booking_id == j && b.tenant_id == ctx.tenant_id) db.bookings
            found.1).1
          (Stays-refl b) u)
  Change-IsUnique ctx db db' (Change.drops i j o now r rb b f found v e) u =
      subst (λ (d : Db). IsUnique d.bookings) (sym e)
        (kept db _ b
          (find?-true (λ b. b.booking_id == j && b.tenant_id == ctx.tenant_id) db.bookings
            found.1).1
          (Stays-refl b) u)

-- A request for bookings at a time, or an event of the road.
pub data DayEvent : Type 0 where
  booking : User → BookingRequest → ℕ → ℕ → DayEvent
  road : Event → DayEvent

module _ (geodesic : Point → Point → ℕ) (garage : Garage) (reg : Registry) where
  scan-IsUnique :
      (db : Db) (ctx : EmployeeUser) (vehicle_number today now : ℕ) (o : Result ScanError (Db × ℕ))
      → nodal_qr_scan garage db ctx vehicle_number today now ≡ o
      → IsUnique db.bookings
      → IsUnique (scan_committed db o).bookings
  unfolding scanned
  scan-IsUnique db ctx vehicle_number today now (err e) h u = u
  scan-IsUnique db ctx vehicle_number today now (ok (db', reply)) h u =
      let (route, rb, b, s, e, _) =
        nodal_qr_scan_lem garage db ctx vehicle_number today now db' reply h in
      subst (λ (d : Db). IsUnique d.bookings) (sym e) (kept db _ b s.booking_there (Stays-refl b) u)

  take_event-IsUnique :
      (db : Db) (event : Event)
      → IsUnique db.bookings
      → IsUnique (take_event geodesic garage db event).bookings
  take_event-IsUnique db (Event.driver ctx req) u =
      Change-IsUnique geodesic ctx db _ (handle-Change geodesic ctx db req) u
  take_event-IsUnique db (Event.scan ctx vehicle_number today now) u =
      scan-IsUnique db ctx vehicle_number today now _ refl u

  abbrev pub take_day_event : Db → DayEvent → Db
  take_day_event db (DayEvent.booking user request today now) =
      take_booking reg db user request today now
  take_day_event db (DayEvent.road event) = take_event geodesic garage db event

  unfoldable pub take_day : Db → List DayEvent → Db
  take_day db [] = db
  take_day db (event ∷ events) = take_day (take_day_event db event) events

  -- If no employee has two bookings of a tenant for one date and shift, then so it is after any
  -- series of creations of single bookings, updates and cancellations, requests of drivers and
  -- scans, in any order, accepted or refused.
  pub take_day-IsUnique :
      (events : List DayEvent) (db : Db)
      → IsUnique db.bookings
      → IsUnique (take_day db events).bookings
  unfolding take_day
  take_day-IsUnique [] db u = u
  take_day-IsUnique (DayEvent.booking user request today now ∷ events) db u =
      take_day-IsUnique events _ (take_booking-IsUnique reg db user request today now u)
  take_day-IsUnique (DayEvent.road event ∷ events) db u =
      take_day-IsUnique events _ (take_event-IsUnique db event u)
