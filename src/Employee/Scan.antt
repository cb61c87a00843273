-- ===== src/Employee/Scan.antt =====
-- What an accepted `nodal_qr_scan` (app/routes/app_employee_router.py) has made sure of.
use fleet_manager.Prelude.{
  is_key-some, is_key, refl, none, ap, ℕ, suc, ◌≡◌, ◌≢◌, sym, ◌∙◌, subst, true, false, Option, some,
  Elem-replace_new, Elem-replace_other, ◌&&◌, arith, ◌==◌, ==_iff, find?, find?-true, Elem,
  any-true, Option-cases, inl, inr, ◌⊎◌,
}
use fleet_manager.Prelude.Result.{ok}
use fleet_manager.Delay.{hhmm}
use fleet_manager.Store.{
  Db, Route, RouteStatus, RouteManagementBooking, Booking, BookingStatus, Shift, PickupType,
  Vehicle, Vendor, get_booking,
}
use fleet_manager.Safety.Escort.{shift_of_key}
use fleet_manager.Employee.{
  EmployeeUser, Garage, is_vehicle_of, is_active_route, is_link_of, is_scheduled_today,
  is_door_shift, scanned, nodal_qr_scan,
}

-- Two rows of bookings with one id are one row.
abbrev pub HasBookingKeys : Db → Type 0
HasBookingKeys db =
    (a b : Booking) → Elem a db.bookings → Elem b db.bookings → a.booking_id ≡ b.booking_id → a ≡ b

-- The vehicle has that number and is in service for a vendor of the tenant, and drives the route.
abbrev pub Drives : Garage → ℕ → ℕ → Route → Type 0
Drives garage vehicle_number tenant_id route =
    (vehicle : Vehicle) × Elem vehicle garage.vehicles
    × (vehicle.rc_number ≡ vehicle_number)
    × (vehicle.is_active ≡ true)
    × (route.assigned_vehicle_id ≡ some vehicle.vehicle_id)
    × (vendor : Vendor) × Elem vendor garage.vendors
    × (vendor.vendor_id ≡ vehicle.vendor_id)
    × (vendor.tenant_id ≡ tenant_id)

-- The route, the link and the booking that a scan is about, and what holds of them.
pub record IsScannable (garage : Garage) (db : Db) (ctx : EmployeeUser) (vehicle_number today : ℕ)
    (route : Route) (rb : RouteManagementBooking) (booking : Booking) : Type 0 where
  pub route_there : Elem route db.routes
  pub of_tenant : route.tenant_id ≡ ctx.tenant_id
  pub active : (route.status ≡ RouteStatus.driver_assigned) ⊎ (route.status ≡ RouteStatus.ongoing)
  pub driven : Drives garage vehicle_number ctx.tenant_id route
  pub link_there : Elem rb db.links
  pub of_route : rb.route_id ≡ route.route_id
  pub booking_there : Elem booking db.bookings
  pub of_link : booking.booking_id ≡ rb.booking_id
  pub joined :
      (b : Booking) × Elem b db.bookings
      × (b.booking_id ≡ rb.booking_id)
      × (b.employee_id ≡ ctx.employee_id)
      × (b.booking_date ≡ today)
      × (b.status ≡ BookingStatus.scheduled)
  pub nodal :
      (k : ℕ) (shift : Shift)
      → booking.shift_id ≡ some (suc k)
      → find? (λ (s : Shift). s.shift_id == suc k) db.shifts ≡ some shift
      → shift.pickup_type ≡ some PickupType.nodal

Drives-of_found :
    (garage : Garage) (vehicle_number tenant_id : ℕ) (vehicle : Vehicle) (route : Route)
    → find? (is_vehicle_of garage vehicle_number tenant_id) garage.vehicles ≡ some vehicle
    → is_key route.assigned_vehicle_id vehicle.vehicle_id ≡ true
    → Drives garage vehicle_number tenant_id route
Drives-of_found garage vehicle_number tenant_id vehicle route fv k =
    let (t, m) = find?-true (is_vehicle_of garage vehicle_number tenant_id) garage.vehicles fv in
    let (vendor, mv, tv) =
      any-true (λ (w : Vendor). w.vendor_id == vehicle.vendor_id && w.tenant_id == tenant_id)
        garage.vendors (ground arith) in
    (
      vehicle,
      m,
      ground arith,
      ground arith,
      is_key-some route.assigned_vehicle_id _ k,
      vendor,
      mv,
      ground arith,
      ground arith,
    )

is_link_of-joined :
    (db : Db) (route_id employee_id today : ℕ) (rb : RouteManagementBooking)
    → is_link_of db route_id employee_id today rb ≡ true
    → (b : Booking) × Elem b db.bookings
      × (b.booking_id ≡ rb.booking_id)
      × (b.employee_id ≡ employee_id)
      × (b.booking_date ≡ today)
      × (b.status ≡ BookingStatus.scheduled)
is_link_of-joined db route_id employee_id today rb h =
    let (b, m, t) =
      any-true (λ b. b.booking_id == rb.booking_id && is_scheduled_today employee_id today b)
        db.bookings (ground arith) in
    (b, m, ground arith, ground arith, ground arith, ground arith)

not_door-pickup :
    (shift : Shift) → is_door_shift (some shift) ≡ false → shift.pickup_type ≡ some PickupType.nodal
not_door-pickup shift h = elim (Option-cases shift.pickup_type) [
  | inl missing ↦ absurd (ground arith)
  | inr (PickupType.pickup, e) ↦ absurd (ground arith)
  | inr (PickupType.nodal, e) ↦ e
]

not_door-nodal :
    (db : Db) (o : Option ℕ) (k : ℕ) (shift : Shift)
    → is_door_shift (shift_of_key db o) ≡ false
    → o ≡ some (suc k)
    → find? (λ (s : Shift). s.shift_id == suc k) db.shifts ≡ some shift
    → shift.pickup_type ≡ some PickupType.nodal
unfolding shift_of_key
not_door-nodal db none k shift h e f = absurd (cc)
not_door-nodal db (some j) k shift h e f =
    let here : shift_of_key db (some (suc k)) ≡ some shift = f in
    let same : some j ≡ some (suc k) = e in
    let plain : is_door_shift (some shift) ≡ false =
      subst (λ o. is_door_shift o ≡ false) (ap (shift_of_key db) same ∙ here) h in
    not_door-pickup shift plain

pub nodal_qr_scan_lem :
    (garage : Garage) (db : Db) (ctx : EmployeeUser) (vehicle_number today now : ℕ) (db' : Db)
    (reply : ℕ)
    → nodal_qr_scan garage db ctx vehicle_number today now ≡ ok (db', reply)
    → (route : Route) × (rb : RouteManagementBooking) × (booking : Booking) × IsScannable garage db
        ctx vehicle_number today route rb booking
      × (db' ≡ scanned db rb booking now)
      × (reply ≡ booking.booking_id)
unfolding nodal_qr_scan
nodal_qr_scan_lem garage db ctx vehicle_number today now db' reply h =
    elim (Option-cases
      (find? (is_vehicle_of garage vehicle_number ctx.tenant_id) garage.vehicles)) [
        | inl missing ↦ absurd (ground arith)
        | inr (vehicle, fv) ↦
            elim (Option-cases
              (find? (is_active_route vehicle.vehicle_id ctx.tenant_id) db.routes)) [
                | inl missing ↦ absurd (ground arith)
                | inr (route, fr) ↦
                    elim (Option-cases
                      (find? (is_link_of db route.route_id ctx.employee_id today) db.links)) [
                        | inl missing ↦ absurd (ground arith)
                        | inr (rb, fl) ↦ elim (Option-cases (get_booking db rb.booking_id)) [
                          | inl missing ↦ absurd (ground arith)
                          | inr (booking, fb) ↦
                              let (tr, mr) =
                                find?-true (is_active_route vehicle.vehicle_id ctx.tenant_id)
                                  db.routes fr in
                              let (tl, ml) =
                                find?-true (is_link_of db route.route_id ctx.employee_id today)
                                  db.links fl in
                              let (tb, mb) =
                                find?-true (λ b. b.booking_id == rb.booking_id) db.bookings fb in
                              (
                                route,
                                rb,
                                booking,
                                record {
                                  route_there = mr;
                                  of_tenant = ground arith;
                                  active = ground arith;
                                  driven =
                                      Drives-of_found garage vehicle_number ctx.tenant_id vehicle
                                        route fv (ground arith);
                                  link_there = ml;
                                  of_route = ground arith;
                                  booking_there = mb;
                                  of_link = (==_iff booking.booking_id rb.booking_id).0 tb;
                                  joined =
                                      is_link_of-joined db route.route_id ctx.employee_id today rb
                                        tl;
                                  nodal = λ k shift.
                                      not_door-nodal db booking.shift_id k shift (ground arith);
                                },
                                ground arith,
                                ground arith,
                              )
                        ]
                      ]
              ]
      ]

-- Where booking ids are keys, an accepted scan makes one booking ongoing, which was scheduled for
-- the employee and the day and whose shift, where it has one, is nodal, and notes the time on its
-- link; the link is to a route of the employee's tenant that has its driver or is under way, with an
-- active vehicle of the scanned number. It replies with the booking's key, and the routes, and all
-- other bookings and links, stay.
pub nodal_qr_scan-IsScannable :
    (garage : Garage) (db : Db) (ctx : EmployeeUser) (vehicle_number today now : ℕ) (db' : Db)
    (reply : ℕ)
    → HasBookingKeys db
    → nodal_qr_scan garage db ctx vehicle_number today now ≡ ok (db', reply)
    → (route : Route) × (rb : RouteManagementBooking) × (booking : Booking) × IsScannable garage db
        ctx vehicle_number today route rb booking
      × (booking.employee_id ≡ ctx.employee_id)
      × (booking.booking_date ≡ today)
      × (booking.status ≡ BookingStatus.scheduled)
      × (reply ≡ booking.booking_id)
      × Elem (record booking { status = BookingStatus.ongoing }) db'.bookings
      × Elem (record rb { actual_pick_up_time = some (hhmm now) }) db'.links
      × ((b : Booking) → Elem b db.bookings → b.booking_id ≢ reply → Elem b db'.bookings)
      × ((l : RouteManagementBooking) → Elem l db.links → l.id ≢ rb.id → Elem l db'.links)
      × (db'.routes ≡ db.routes)
unfolding scanned
nodal_qr_scan-IsScannable garage db ctx vehicle_number today now db' reply keys h =
    let (route, rb, booking, s, e, r) =
      nodal_qr_scan_lem garage db ctx vehicle_number today now db' reply h in
    let (b, mb, ib, eb, today_b, sb) = s.joined in
    let same : b ≡ booking = keys b booking mb s.booking_there (ib ∙ sym s.of_link) in
    let kept : scanned db rb booking now ≡ db' = sym e in
    let done : Booking = record booking { status = BookingStatus.ongoing } in
    let noted : RouteManagementBooking = record rb { actual_pick_up_time = some (hhmm now) } in
    (
      route,
      rb,
      booking,
      s,
      subst (λ (x : Booking). x.employee_id ≡ ctx.employee_id) same eb,
      subst (λ (x : Booking). x.booking_date ≡ today) same today_b,
      subst (λ (x : Booking). x.status ≡ BookingStatus.scheduled) same sb,
      r,
      subst (λ (x : Db). Elem done x.bookings) kept
          (Elem-replace_new (λ b. b.booking_id) done db.bookings s.booking_there refl),
      subst (λ (x : Db). Elem noted x.links) kept
          (Elem-replace_new (λ l. l.id) noted db.links s.link_there refl),
      (λ b' m other.
          subst (λ (x : Db). Elem b' x.bookings) kept
            (Elem-replace_other (λ b. b.booking_id) done db.bookings m (λ i. other (i ∙ sym r)))),
      (λ l m other.
          subst (λ (x : Db). Elem l x.links) kept
            (Elem-replace_other (λ l. l.id) noted db.links m other)),
      ap (λ (x : Db). x.routes) e,
    )
