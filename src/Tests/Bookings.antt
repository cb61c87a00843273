-- ===== src/Tests/Bookings.antt =====
-- The employees of the night shift book, cancel and book again.
use fleet_manager.Prelude.{
  ℕ, ◌≡◌, ◌≤◌, ◌↔◌, refl, ◌+◌, ◌*◌, true, false, none, some, List, [], ◌∷◌, ◌++◌, arith, All, Elem,
  here, there, map,
}
use fleet_manager.Prelude.Result.{ok, err}
use fleet_manager.Store.{
  Db, Booking, BookingStatus, BookingType, Tenant, Cutoff, WeekoffConfig, UserType, LogType,
  Employee,
}
use fleet_manager.Safety.Window.{day}
use fleet_manager.Bookings.{BookingError, User, Registry, Trip, home_trip}
use fleet_manager.Bookings.Create.{
  BookingCreate, Booker, booker_of, check_date, check_dates, create_booking, row_of,
}
use fleet_manager.Bookings.Dates.{IsAscending}
use fleet_manager.Bookings.Granted.{IsBooker, IsGranted, create_booking-IsGranted}
use fleet_manager.Bookings.Update.{update_booking, cancelled}
use fleet_manager.Bookings.Slots.{SameSlot, IsUnique}
use fleet_manager.Bookings.Series.{BookingRequest}
use fleet_manager.Bookings.Day.{DayEvent, take_day, take_day-IsUnique}
use fleet_manager.Bookings.Bulk.{BulkCreate, Summary}
use fleet_manager.Bookings.Reopened.{update_booking_reopens}
use fleet_manager.Employee.Mixed.{Event}
use fleet_manager.Trip.Machine.{Request}
use fleet_manager.Tests.Night.{
  ctx, hour, at, taxi, office, db, woman, man, first_booking, second_booking,
}
use fleet_manager.Tests.Mixed.{garage}

abbrev tenant : Tenant
tenant = record {
  tenant_id = 1;
  latitude = some office.latitude;
  longitude = some office.longitude;
  address = some 91;
}

-- Four hours before the shift; nobody works on Sundays.
abbrev cutoff : Cutoff
cutoff = record {
  tenant_id = 1;
  booking_login_cutoff = 12 * hour;
  cancel_login_cutoff = 4 * hour;
  booking_logout_cutoff = 4 * hour;
  cancel_logout_cutoff = 2 * hour;
  medical_emergency_booking_cutoff = 0;
  adhoc_booking_cutoff = hour;
  allow_adhoc_booking = false;
  allow_medical_emergency_booking = true;
}

abbrev weekoff : WeekoffConfig
weekoff = record {
  employee_id = 21;
  monday = false;
  tuesday = false;
  wednesday = false;
  thursday = false;
  friday = false;
  saturday = false;
  sunday = true;
}

abbrev pub reg : Registry
reg = record {
  tenants = tenant ∷ [];
  cutoffs = cutoff ∷ [];
  weekoff_configs = weekoff ∷ [];
  nodal_points = [];
  employee_nodal_points = [];
}

abbrev employee : User
employee = record {
  user_type = UserType.employee;
  tenant_id = 1;
  user_id = 21;
  booking_update = false;
}

-- The tenth day is a Sunday; two requests for the days after, one of them twice.
abbrev request : BookingCreate
request = record {
  tenant_id = none;
  employee_id = 21;
  booking_dates = 12 ∷ 11 ∷ 12 ∷ [];
  shift_id = 3;
  booking_type = BookingType.regular;
}

abbrev trip : Trip
trip = home_trip LogType.logout tenant woman

abbrev rows : List Booking
rows =
    row_of 1 woman 3 BookingType.regular (at 12) 11 trip 13
    ∷ row_of 1 woman 3 BookingType.regular (at 12) 12 trip 14
    ∷ []

abbrev db_booked : Db
db_booked = record db { bookings = db.bookings ++ rows }

creates : create_booking reg db employee request 10 (at 12) ≡ ok (db_booked, rows)
unfolding create_booking booker_of check_dates check_date
creates = refl

on_sunday :
    create_booking reg db employee (record request { booking_dates = 17 ∷ [] }) 10 (at 12)
    ≡ err BookingError.weekoff_day
unfolding create_booking booker_of check_dates check_date
on_sunday = refl

too_late :
    create_booking reg db employee request 10 (11 * day + 18 * hour)
    ≡ err BookingError.booking_cutoff
unfolding create_booking booker_of check_dates check_date
too_late = refl

create_booking-IsGranted_example :
    (b : Booker) × IsBooker db reg employee request b
    × IsAscending (map (λ r. r.booking_date) rows)
    × ((d : ℕ) → Elem d (map (λ r. r.booking_date) rows) ↔ Elem d request.booking_dates)
    × All (λ d. 10 ≤ d) request.booking_dates
    × All (IsGranted db b request 10 (at 12)) rows
    × (db_booked ≡ record db { bookings = db.bookings ++ rows })
create_booking-IsGranted_example =
    create_booking-IsGranted reg db employee request 10 (at 12) db_booked rows creates

abbrev events : List DayEvent
events =
    DayEvent.booking employee (BookingRequest.create request) 10 (at 12)
    ∷ DayEvent.booking employee (BookingRequest.cancel 13) 10 (at 13)
    ∷ DayEvent.road (Event.driver ctx (Request.start_duty 7 (at 20)))
    ∷ DayEvent.booking employee (BookingRequest.create request) 10 (at 20)
    ∷ DayEvent.booking employee (BookingRequest.update 13 (some 3)) 10 (at 20)
    ∷ []

two_of_night : IsUnique db.bookings
two_of_night a b here here s = refl
two_of_night a b here (there here) (t, e, d, k) = absurd (omega arith)
two_of_night a b (there here) here (t, e, d, k) = absurd (omega arith)
two_of_night a b (there here) (there here) s = refl
two_of_night a b here (there (there m)) s = elim m [ ]
two_of_night a b (there here) (there (there m)) s = elim m [ ]
two_of_night a b (there (there m)) mb s = elim m [ ]

take_day-IsUnique_example : IsUnique (take_day taxi garage reg db events).bookings
take_day-IsUnique_example = take_day-IsUnique taxi garage reg events db two_of_night

-- The second employee has cancelled.
abbrev db_cancelled : Db
db_cancelled = record db { bookings = first_booking ∷ cancelled second_booking (at 12) ∷ [] }

abbrev payload : BulkCreate
payload = record {
  tenant_id = none;
  employee_ids = [];
  shift_id = 3;
  booking_date = 10;
  booking_type = BookingType.regular;
}

abbrev again : Booking
again = row_of 1 man 3 BookingType.regular (at 12) 10 trip 13

abbrev summary : Summary
summary = record { booked = again ∷ []; skipped = 1; failed_employees = [] }

abbrev db_filled : Db
db_filled = record db_cancelled { bookings = db_cancelled.bookings ++ summary.booked }

abbrev second : User
second = record employee { user_id = 22 }

-- He reopens the booking that he had cancelled, and has two.
update_booking_reopens_example :
    (db' : Db) × (c : Booking) × (update_booking reg db_filled second 12 none 10 (at 13)
      ≡ ok (db', c))
    × (c.status ≡ BookingStatus.request)
    × (c.booking_id ≡ 12)
    × Elem c db'.bookings
    × Elem again db'.bookings
    × SameSlot c again
update_booking_reopens_example =
    update_booking_reopens reg db_filled second 10 (at 13) (cancelled second_booking (at 12)) again
      refl refl refl (there (there here)) (λ e. absurd (omega arith))
      (refl, refl, refl, (3, refl, refl))
