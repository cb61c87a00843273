-- ===== src/Tests/Mixed.antt =====
-- A nodal shift: the second employee scans the code while the driver boards the first.
use fleet_manager.Delay.{hhmm}
use fleet_manager.Prelude.{◌≢◌, ◌≡◌, refl, sym, ◌∙◌, some, List, [], ◌∷◌, arith, Elem, here, there}
use fleet_manager.Prelude.Result.{ok, err}
use fleet_manager.Prelude.Text.{codes}
use fleet_manager.Store.{
  Db, Route, RouteStatus, RouteManagementBooking, Booking, BookingStatus, PickupType,
}
use fleet_manager.Safety.Escort.{shift_of_key}
use fleet_manager.Trip.Machine.{Request}
use fleet_manager.Trip.Exclusive.{IsExclusive}
use fleet_manager.Employee.{EmployeeUser, Garage, ScanError, scanned, nodal_qr_scan}
use fleet_manager.Employee.Scan.{HasBookingKeys, IsScannable, nodal_qr_scan-IsScannable}
use fleet_manager.Employee.Mixed.{Event, driver, scan, take_events, take_events-IsExclusive}
use fleet_manager.Tests.Night.{
  ctx, at, taxi, office, home, vehicle, vendor, shift, db, db_going, second_link, second_booking,
}

abbrev pub garage : Garage
garage = record { vehicles = vehicle ∷ []; vendors = vendor ∷ [] }

abbrev db_nodal : Db
db_nodal = record db { shifts = record shift { pickup_type = some PickupType.nodal } ∷ [] }

abbrev second : EmployeeUser
second = record { tenant_id = 1; employee_id = 22 }

abbrev db_scanned : Db
db_scanned = scanned db_nodal second_link second_booking (at 21)

scans : nodal_qr_scan garage db_nodal second 77 10 (at 21) ≡ ok (db_scanned, 12)
unfolding nodal_qr_scan shift_of_key
scans = refl

-- On a shift from door to door the scan is refused.
scan_refused : nodal_qr_scan garage db second 77 10 (at 21) ≡ err ScanError.not_nodal_shift
unfolding nodal_qr_scan shift_of_key
scan_refused = refl

same_booking : HasBookingKeys db_nodal
same_booking a b here here e = refl
same_booking a b here (there here) e = absurd (omega arith)
same_booking a b (there here) here e = absurd (omega arith)
same_booking a b (there here) (there here) e = refl
same_booking a b here (there (there m)) e = elim m [ ]
same_booking a b (there here) (there (there m)) e = elim m [ ]
same_booking a b (there (there m)) mb e = elim m [ ]

nodal_qr_scan-IsScannable_example :
    (route : Route) × (rb : RouteManagementBooking) × (booking : Booking) × IsScannable garage
      db_nodal second 77 10 route rb booking
    × (booking.employee_id ≡ 22)
    × (booking.booking_date ≡ 10)
    × (booking.status ≡ BookingStatus.scheduled)
    × (12 ≡ booking.booking_id)
    × Elem (record booking { status = BookingStatus.ongoing }) db_scanned.bookings
    × Elem (record rb { actual_pick_up_time = some (hhmm (at 21)) }) db_scanned.links
    × ((b : Booking) → Elem b db_nodal.bookings → b.booking_id ≢ 12 → Elem b db_scanned.bookings)
    × ((l : RouteManagementBooking)
        → Elem l db_nodal.links
        → l.id ≢ rb.id
        → Elem l db_scanned.links)
    × (db_scanned.routes ≡ db_nodal.routes)
nodal_qr_scan-IsScannable_example =
    nodal_qr_scan-IsScannable garage db_nodal second 77 10 (at 21) db_scanned 12 same_booking scans

abbrev events : List Event
events =
    driver ctx (Request.start_duty 7 (at 20))
    ∷ scan second 77 10 (at 20)
    ∷ driver ctx (Request.board_escort 7 43)
    ∷ driver ctx (Request.start_trip 7 11 office (some (codes "17")) (at 21))
    ∷ driver ctx (Request.end_duty 7 (at 21))
    ∷ driver ctx (Request.verify_drop 7 11 home (some (codes "18")) (at 22))
    ∷ driver ctx (Request.verify_drop 7 12 home (some (codes "18")) (at 22))
    ∷ driver ctx (Request.end_duty 7 (at 22))
    ∷ []

going_only : (r : Route) → Elem r db_going.routes → r.status ≡ RouteStatus.ongoing → r.route_id ≡ 7
going_only r here e = refl
going_only r (there here) e = absurd (cc)
going_only r (there (there m)) e = elim m [ ]

going-IsExclusive : IsExclusive db_going.routes
going-IsExclusive a b ma mb c = going_only a ma c.0 ∙ sym (going_only b mb c.1)

take_events-IsExclusive_example : IsExclusive (take_events taxi garage db_going events).routes
take_events-IsExclusive_example =
    take_events-IsExclusive taxi garage events db_going going-IsExclusive
