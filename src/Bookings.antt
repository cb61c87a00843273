-- ===== src/Bookings.antt =====
-- Bookings (app/routes/booking_router.py): who asks, the guards that the handlers share, and the
-- row that a booking makes. Caches answer as the tables do; `now` is one reading of the clock and
-- `today` the server's date. A day is a number of days from 1 January 1970, a Thursday. A booking
-- type that is missing is left out.
pub mod Create
pub mod Bulk
pub mod Update
pub mod Slots
pub mod Dates
pub mod Granted
pub mod Series
pub mod Day
pub mod Dealt
pub mod Filled
pub mod Reopened
use fleet_manager.Prelude.{
  ℕ, zero, suc, ◌+◌, ◌*◌, ◌%◌, Bool, true, false, ◌&&◌, Option, none, some, List, [], ◌∷◌, ltb, leb,
  ◌==◌, if◌then◌else◌, is_truthy, get_or, find?, is_key, not, max,
}
use fleet_manager.Prelude.Int.{ℤ}
use fleet_manager.Trip.Checks.{is_zero}
use fleet_manager.Prelude.Result.{Result, ok, err, ◌>>=◌, ◌>>◌, raise_if, or_raise}
use fleet_manager.Safety.Window.{day}
use fleet_manager.Store.{
  Db, Booking, BookingStatus, BookingType, Shift, LogType, PickupType, Employee, Tenant, Cutoff,
  WeekoffConfig, NodalPoint, EmployeeNodalPoint, UserType,
}

pub data BookingError : Type 0 where
  tenant_id_required forbidden employee_not_found shift_not_found tenant_not_found : BookingError
  invalid_date weekoff_day adhoc_booking_disabled medical_emergency_booking_disabled : BookingError
  booking_cutoff past_shift_time already_booked no_nodal_assignment : BookingError
  nodal_point_inactive booking_not_found duplicate_booking tenant_mismatch : BookingError
  past_booking booking_already_scheduled cancel_cutoff : BookingError
  cancelled_booking_exists : ℕ → BookingError
  invalid_booking_status : BookingStatus → BookingError

-- The claims of the bearer's token; `booking_update` is the permission "booking.update".
pub record User : Type 0 where
  pub user_type : UserType
  pub tenant_id : ℕ
  pub user_id : ℕ
  pub booking_update : Bool

-- The tables that bookings only read.
pub record Registry : Type 0 where
  pub tenants : List Tenant
  pub cutoffs : List Cutoff
  pub weekoff_configs : List WeekoffConfig
  pub nodal_points : List NodalPoint
  pub employee_nodal_points : List EmployeeNodalPoint

abbrev pub get_tenant : Registry → ℕ → Option Tenant
get_tenant reg k = find? (λ t. t.tenant_id == k) reg.tenants

abbrev pub get_cutoff : Registry → ℕ → Option Cutoff
get_cutoff reg k = find? (λ c. c.tenant_id == k) reg.cutoffs

abbrev pub get_weekoff : Registry → ℕ → Option WeekoffConfig
get_weekoff reg k = find? (λ w. w.employee_id == k) reg.weekoff_configs

abbrev pub get_shift_of : Db → ℕ → ℕ → Option Shift
get_shift_of db tenant_id k = find? (λ s. s.shift_id == k && s.tenant_id == tenant_id) db.shifts

-- The tenant for which an administrator or an employee books.
abbrev pub booking_tenant : User → Option ℕ → Result BookingError ℕ
booking_tenant user asked = elim user.user_type [
  | UserType.admin ↦ (do
    raise_if (not (is_truthy asked)) BookingError.tenant_id_required
    ok (get_or asked 0))
  | UserType.employee ↦ ok user.tenant_id
  | UserType.vendor ↦ err BookingError.forbidden
  | UserType.driver ↦ err BookingError.forbidden
]

-- `date.weekday()`: 0 is a Monday.
abbrev pub weekday : ℕ → ℕ
weekday date = (date + 3) % 7

abbrev pub flag_of : WeekoffConfig → ℕ → Bool
flag_of w d =
    if d == 0
    then w.monday
    else if d == 1
    then w.tuesday
    else if d == 2
    then w.wednesday
    else if d == 3
    then w.thursday
    else if d == 4
    then w.friday
    else if d == 5
    then w.saturday
    else w.sunday

abbrev pub is_weekoff : Option WeekoffConfig → ℕ → Bool
is_weekoff none date = false
is_weekoff (some w) date = flag_of w (weekday date)

abbrev pub login_cutoff : LogType → Cutoff → ℕ
login_cutoff LogType.login c = c.booking_login_cutoff
login_cutoff LogType.logout c = c.booking_logout_cutoff

-- The cutoff of a new booking; `none` where there is no configuration.
abbrev pub cutoff_interval : BookingType → LogType → Option Cutoff → Result BookingError (Option ℕ)
cutoff_interval BookingType.regular log none = ok none
cutoff_interval BookingType.regular log (some c) = ok (some (login_cutoff log c))
cutoff_interval BookingType.adhoc log none = err BookingError.adhoc_booking_disabled
cutoff_interval BookingType.adhoc log (some c) = do
  raise_if (not c.allow_adhoc_booking) BookingError.adhoc_booking_disabled
  ok (some c.adhoc_booking_cutoff)
cutoff_interval BookingType.medical_emergency log none =
    err BookingError.medical_emergency_booking_disabled
cutoff_interval BookingType.medical_emergency log (some c) = do
  raise_if (not c.allow_medical_emergency_booking) BookingError.medical_emergency_booking_disabled
  ok (some c.medical_emergency_booking_cutoff)

abbrev pub shift_datetime : ℕ → Shift → ℕ
shift_datetime date shift = date * day + shift.shift_time

-- An interval of length 0 is false in Python; `shift_datetime - now < interval`.
abbrev pub is_cut_off : ℕ → ℕ → Option ℕ → Bool
is_cut_off now start none = false
is_cut_off now start (some interval) = ltb 0 interval && ltb start (now + interval)

abbrev pub has_started : ℕ → ℕ → ℕ → ℕ → Bool
has_started today now date start = (date == today) && leb start now

-- A place, by its coordinates and address.
pub record Place : Type 0 where
  pub latitude : Option ℤ
  pub longitude : Option ℤ
  pub address : Option ℕ

-- Where a ride starts and ends.
pub record Trip : Type 0 where
  pub pickup : Place
  pub drop : Place
  pub nodal_point_id : Option ℕ

-- To the office, or back on a shift that ends.
abbrev pub between : LogType → Option ℕ → Place → Place → Trip
between LogType.login point place office = record {
  pickup = place;
  drop = office;
  nodal_point_id = point;
}
between LogType.logout point place office = record {
  pickup = office;
  drop = place;
  nodal_point_id = point;
}

-- `float(x) if x else None`
abbrev pub nonzero : Option ℤ → Option ℤ
nonzero none = none
nonzero (some x) = if is_zero x then none else some x

-- `address or name`
abbrev pub address_or : Option ℕ → ℕ → ℕ
address_or none name = name
address_or (some a) name = if a == 0 then name else a

abbrev pub nodal_trip : LogType → Tenant → NodalPoint → Trip
nodal_trip log tenant p =
    between log (some p.nodal_point_id)
      (record {
        latitude = some p.latitude;
        longitude = some p.longitude;
        address = some (address_or p.address p.name);
      })
      (record {
        latitude = nonzero tenant.latitude;
        longitude = nonzero tenant.longitude;
        address = tenant.address;
      })

abbrev pub nodal_point_of : Registry → ℕ → Result BookingError NodalPoint
nodal_point_of reg employee_id = do
  assignment ←
      or_raise (find? (λ a. a.employee_id == employee_id) reg.employee_nodal_points)
        BookingError.no_nodal_assignment
  point ←
      or_raise (find? (λ p. p.nodal_point_id == assignment.nodal_point_id) reg.nodal_points)
        BookingError.nodal_point_inactive
  raise_if (not point.is_active) BookingError.nodal_point_inactive
  ok point

abbrev pub home_trip : LogType → Tenant → Employee → Trip
home_trip log tenant e =
    between log none
      (record { latitude = e.latitude; longitude = e.longitude; address = e.address })
      (record {
        latitude = tenant.latitude;
        longitude = tenant.longitude;
        address = tenant.address;
      })

abbrev pub trip_for : Registry → Shift → Tenant → Employee → Result BookingError Trip
trip_for reg shift tenant e = elim shift.pickup_type [
  | some PickupType.nodal ↦ (do
    point ← nodal_point_of reg e.employee_id
    ok (nodal_trip shift.log_type tenant point))
  | some PickupType.pickup ↦ ok (home_trip shift.log_type tenant e)
  | none ↦ ok (home_trip shift.log_type tenant e)
]

-- The next value of the key's sequence.
abbrev pub next_booking_id : List Booking → ℕ
next_booking_id [] = 1
next_booking_id (b ∷ bs) = max (suc b.booking_id) (next_booking_id bs)

abbrev pub is_for : ℕ → ℕ → ℕ → Booking → Bool
is_for employee_id date shift_id b =
    (b.employee_id == employee_id) && (b.booking_date == date) && is_key b.shift_id shift_id
