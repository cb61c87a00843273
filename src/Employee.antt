-- ===== src/Employee.antt =====
-- Boarding at a nodal point: an employee scans the code in the vehicle (`nodal_qr_scan` in
-- app/routes/app_employee_router.py).
pub mod Scan
pub mod Mixed
use fleet_manager.Prelude.{
  ℕ, Bool, true, false, not, ◌&&◌, ◌||◌, Option, none, some, List, [], ◌∷◌, ◌==◌, if◌then◌else◌,
  is_key, any, filter, find?,
}
use fleet_manager.Prelude.Result.{Result, ok, err, ◌>>=◌, ◌>>◌, raise_if, or_raise}
use fleet_manager.Store.{
  Text, Db, Route, RouteStatus, RouteManagementBooking, Booking, BookingStatus, Shift, Vehicle,
  Vendor, get_booking, put_link, put_booking,
}
use fleet_manager.Safety.Escort.{shift_of_key}
use fleet_manager.Delay.{hhmm}
use fleet_manager.Trip.Types.{eq_route_status, eq_booking_status}
use fleet_manager.Trip.Ride.{is_nodal}

-- What `EmployeeAuth` returns.
pub record EmployeeUser : Type 0 where
  pub tenant_id : ℕ
  pub employee_id : ℕ

-- The raised errors, by their codes.
pub data ScanError : Type 0 where
  vehicle_not_found : ScanError
  route_not_found : ScanError
  booking_not_found : ScanError
  not_nodal_shift : ScanError

-- The tables that only this request reads.
pub record Garage : Type 0 where
  pub vehicles : List Vehicle
  pub vendors : List Vendor

abbrev pub is_vehicle_of : Garage → ℕ → ℕ → Vehicle → Bool
is_vehicle_of garage vehicle_number tenant_id v =
    v.rc_number == vehicle_number
    && v.is_active
    && any (λ (w : Vendor). w.vendor_id == v.vendor_id && w.tenant_id == tenant_id) garage.vendors

abbrev pub is_active_route : ℕ → ℕ → Route → Bool
is_active_route vehicle_id tenant_id r =
    is_key r.assigned_vehicle_id vehicle_id
    && r.tenant_id == tenant_id
    && (eq_route_status r.status RouteStatus.driver_assigned
        || eq_route_status r.status RouteStatus.ongoing)

-- The employee's booking of today that is still to board.
abbrev pub is_scheduled_today : ℕ → ℕ → Booking → Bool
is_scheduled_today employee_id today b =
    b.employee_id == employee_id
    && b.booking_date == today
    && eq_booking_status b.status BookingStatus.scheduled

abbrev pub is_link_of : Db → ℕ → ℕ → ℕ → RouteManagementBooking → Bool
is_link_of db route_id employee_id today l =
    l.route_id == route_id
    && any (λ b. b.booking_id == l.booking_id && is_scheduled_today employee_id today b) db.bookings

-- The shift is there, and is not a nodal one.
abbrev pub is_door_shift : Option Shift → Bool
is_door_shift none = false
is_door_shift (some s) = not (is_nodal (some s))

abbrev pub scanned_link : RouteManagementBooking → ℕ → RouteManagementBooking
scanned_link rb now = record rb { actual_pick_up_time = some (hhmm now) }

abbrev pub scanned_booking : Booking → Booking
scanned_booking booking = record booking { status = BookingStatus.ongoing }

-- The changes that a scan commits.
unfoldable pub scanned : Db → RouteManagementBooking → Booking → ℕ → Db
scanned db rb booking now =
    put_link (scanned_link rb now) (put_booking (scanned_booking booking) db)

-- The link was joined with a booking of its key, so the last lookup finds one. The reply is the
-- booking's key. `today` is the server's date.
unfoldable pub nodal_qr_scan : Garage → Db → EmployeeUser → ℕ → ℕ → ℕ → Result ScanError (Db × ℕ)
nodal_qr_scan garage db ctx vehicle_number today now = do
  vehicle ←
      or_raise (find? (is_vehicle_of garage vehicle_number ctx.tenant_id) garage.vehicles)
        ScanError.vehicle_not_found
  route ←
      or_raise (find? (is_active_route vehicle.vehicle_id ctx.tenant_id) db.routes)
        ScanError.route_not_found
  rb ←
      or_raise (find? (is_link_of db route.route_id ctx.employee_id today) db.links)
        ScanError.booking_not_found
  booking ← or_raise (get_booking db rb.booking_id) ScanError.booking_not_found
  raise_if (is_door_shift (shift_of_key db booking.shift_id)) ScanError.not_nodal_shift
  ok (scanned db rb booking now, booking.booking_id)
