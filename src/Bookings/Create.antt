-- ===== src/Bookings/Create.antt =====
-- `create_booking` (app/routes/booking_router.py).
use fleet_manager.Prelude.{
  ℕ, suc, ◌+◌, ◌&&◌, Option, none, some, List, [], ◌∷◌, ◌++◌, ltb, leb, ◌==◌, if◌then◌else◌, find?,
  any,
}
use fleet_manager.Prelude.Result.{Result, ok, err, ◌>>=◌, ◌>>◌, raise_if, or_raise}
use fleet_manager.Store.{
  Db, Booking, BookingStatus, BookingType, Shift, Employee, Tenant, Cutoff, WeekoffConfig,
}
use fleet_manager.Trip.Types.{eq_booking_status}
use fleet_manager.Bookings.{
  BookingError, User, Registry, Trip, booking_tenant, get_shift_of, get_tenant, get_cutoff,
  get_weekoff, is_weekoff, cutoff_interval, shift_datetime, is_cut_off, has_started, trip_for,
  next_booking_id, is_for,
}

-- The body of the request.
pub record BookingCreate : Type 0 where
  pub tenant_id : Option ℕ
  pub employee_id : ℕ
  pub booking_dates : List ℕ
  pub shift_id : ℕ
  pub booking_type : BookingType

-- `sorted(set(dates))`
abbrev pub insert_date : ℕ → List ℕ → List ℕ
insert_date d [] = d ∷ []
insert_date d (x ∷ xs) =
    let rest = insert_date d xs in
    if ltb d x then d ∷ x ∷ xs else if d == x then x ∷ xs else x ∷ rest

abbrev pub sorted_dates : List ℕ → List ℕ
sorted_dates [] = []
sorted_dates (d ∷ ds) = insert_date d (sorted_dates ds)

abbrev pub booking_validate_future_dates : ℕ → List ℕ → Result BookingError (Unit {0})
booking_validate_future_dates today dates =
    raise_if (any (λ d. leb (d + 1) today) dates) BookingError.invalid_date

abbrev pub refuse_existing : Option Booking → Result BookingError (Unit {0})
refuse_existing none = ok tt
refuse_existing (some b) = err (
    if eq_booking_status b.status BookingStatus.cancelled
    then BookingError.cancelled_booking_exists b.booking_id
    else BookingError.already_booked)

-- The row that is inserted, with the key that it gets.
abbrev pub row_of : ℕ → Employee → ℕ → BookingType → ℕ → ℕ → Trip → ℕ → Booking
row_of tenant_id e shift_id booking_type now date trip id = record {
  booking_id = id;
  tenant_id = tenant_id;
  employee_id = e.employee_id;
  shift_id = some shift_id;
  booking_date = date;
  boarding_otp = none;
  deboarding_otp = none;
  pickup_latitude = trip.pickup.latitude;
  pickup_longitude = trip.pickup.longitude;
  pickup_location = trip.pickup.address;
  drop_latitude = trip.drop.latitude;
  drop_longitude = trip.drop.longitude;
  drop_location = trip.drop.address;
  nodal_point_id = trip.nodal_point_id;
  status = BookingStatus.request;
  booking_type = booking_type;
  reason = none;
  updated_at = now;
}

-- What the loop over the dates reads.
pub record Booker : Type 0 where
  pub tenant_id : ℕ
  pub person : Employee
  pub shift : Shift
  pub tenant : Tenant
  pub weekoff_config : Option WeekoffConfig
  pub cutoff : Option Cutoff

-- One round of the loop.
unfoldable pub check_date :
    Db → Registry → Booker → BookingCreate → ℕ → ℕ → ℕ → ℕ → Result BookingError Booking
check_date db reg b request today now date id = do
  raise_if (is_weekoff b.weekoff_config date) BookingError.weekoff_day
  interval ← cutoff_interval request.booking_type b.shift.log_type b.cutoff
  let start = shift_datetime date b.shift
  raise_if (is_cut_off now start interval) BookingError.booking_cutoff
  raise_if (has_started today now date start) BookingError.past_shift_time
  refuse_existing (find? (is_for b.person.employee_id date request.shift_id) db.bookings)
  trip ← trip_for reg b.shift b.tenant b.person
  ok (row_of b.tenant_id b.person request.shift_id request.booking_type now date trip id)

-- The bookings to create, one for each date.
unfoldable pub check_dates :
    Db → Registry → Booker → BookingCreate → ℕ → ℕ → List ℕ → ℕ → Result BookingError (List Booking)
check_dates db reg b request today now [] id = ok []
check_dates db reg b request today now (d ∷ ds) id =
    check_date db reg b request today now d id >>= λ row.
    check_dates db reg b request today now ds (suc id) >>= λ rows. ok (row ∷ rows)

unfoldable pub booker_of : Db → Registry → User → BookingCreate → Result BookingError Booker
booker_of db reg user request = do
  tenant_id ← booking_tenant user request.tenant_id
  person ←
      or_raise
        (find?
          (λ e. e.employee_id == request.employee_id && e.tenant_id == tenant_id && e.is_active)
          db.employees)
        BookingError.employee_not_found
  shift ← or_raise (get_shift_of db tenant_id request.shift_id) BookingError.shift_not_found
  tenant ← or_raise (get_tenant reg tenant_id) BookingError.tenant_not_found
  ok (record {
    tenant_id = tenant_id;
    person = person;
    shift = shift;
    tenant = tenant;
    weekoff_config = get_weekoff reg person.employee_id;
    cutoff = get_cutoff reg tenant_id;
  })

abbrev pub insert_bookings : Db → List Booking → Db
insert_bookings db rows = record db { bookings = db.bookings ++ rows }

-- The new database and the created rows.
unfoldable pub create_booking :
    Registry → Db → User → BookingCreate → ℕ → ℕ → Result BookingError (Db × List Booking)
create_booking reg db user request today now = do
  b ← booker_of db reg user request
  booking_validate_future_dates today request.booking_dates
  rows ←
      check_dates db reg b request today now (sorted_dates request.booking_dates)
        (next_booking_id db.bookings)
  ok (insert_bookings db rows, rows)
