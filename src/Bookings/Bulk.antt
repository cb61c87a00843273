-- ===== src/Bookings/Bulk.antt =====
-- `bulk_book_all_employees` (app/routes/booking_router.py). That the preparation of a booking
-- fails for another reason is not modelled.
use fleet_manager.Prelude.{
  ℕ, suc, Bool, true, false, ◌&&◌, ◌||◌, Option, List, [], ◌∷◌, ltb, ◌==◌, if◌then◌else◌, filter,
  any, not,
}
use fleet_manager.Prelude.Result.{Result, ok, err, ◌>>=◌, ◌>>◌, raise_if, or_raise}
use fleet_manager.Store.{Db, Booking, BookingStatus, BookingType, Shift, Employee, Tenant}
use fleet_manager.Trip.Types.{eq_booking_status}
use fleet_manager.Bookings.{
  BookingError, User, Registry, booking_tenant, get_shift_of, get_tenant, get_cutoff, get_weekoff,
  is_weekoff, cutoff_interval, shift_datetime, is_cut_off, has_started, trip_for, next_booking_id,
  is_for,
}
use fleet_manager.Bookings.Create.{row_of, insert_bookings}

pub record BulkCreate : Type 0 where
  pub tenant_id : Option ℕ
  pub employee_ids : List ℕ
  pub shift_id : ℕ
  pub booking_date : ℕ
  pub booking_type : BookingType

-- What becomes of each of the employees.
pub record Summary : Type 0 where
  pub booked : List Booking
  pub skipped : ℕ
  pub failed_employees : List (ℕ × BookingError)

abbrev pub is_empty : List ℕ → Bool
is_empty [] = true
is_empty (x ∷ xs) = false

abbrev pub target_employees : Db → ℕ → List ℕ → List Employee
target_employees db tenant_id ids =
    filter
      (λ e.
        (e.tenant_id == tenant_id)
        && e.is_active
        && (is_empty ids || any (λ i. i == e.employee_id) ids))
      db.employees

-- Whether the employee is in `existing_bookings_set`.
abbrev pub is_booked : Db → BulkCreate → ℕ → Bool
is_booked db payload employee_id =
    any
      (λ b.
        is_for employee_id payload.booking_date payload.shift_id b
        && not (eq_booking_status b.status BookingStatus.cancelled))
      db.bookings

-- One round of the loop, after the test for a booking.
abbrev pub prepare :
    Registry → ℕ → Shift → Tenant → BulkCreate → ℕ → Employee → ℕ → Result BookingError Booking
prepare reg tenant_id shift tenant payload now e id = do
  raise_if (is_weekoff (get_weekoff reg e.employee_id) payload.booking_date)
      BookingError.weekoff_day
  trip ← trip_for reg shift tenant e
  ok (row_of tenant_id e payload.shift_id payload.booking_type now payload.booking_date trip id)

abbrev pub summed : Result BookingError Booking → ℕ → Summary → Summary
summed (ok row) employee_id s = record s { booked = row ∷ s.booked }
summed (err reason) employee_id s = record s {
  failed_employees = (employee_id, reason) ∷ s.failed_employees;
}

abbrev pub next_after : Result BookingError Booking → ℕ → ℕ
next_after (ok row) id = suc id
next_after (err reason) id = id

unfoldable pub book_each :
    Db → Registry → ℕ → Shift → Tenant → BulkCreate → ℕ → List Employee → ℕ → Summary
book_each db reg tenant_id shift tenant payload now [] id = record {
  booked = [];
  skipped = 0;
  failed_employees = [];
}
book_each db reg tenant_id shift tenant payload now (e ∷ es) id =
    let row = prepare reg tenant_id shift tenant payload now e id in
    let skip : Summary = book_each db reg tenant_id shift tenant payload now es id in
    let rest : Summary =
      book_each db reg tenant_id shift tenant payload now es (next_after row id) in
    if is_booked db payload e.employee_id
    then record skip { skipped = suc skip.skipped }
    else summed row e.employee_id rest

-- From the choice of the employees on; nobody to book is a success too.
unfoldable pub bulk_book_employees :
    Registry
    → Db
    → ℕ
    → Shift
    → Tenant
    → BulkCreate
    → ℕ
    → List Employee
    → Result BookingError (Db × Summary)
bulk_book_employees reg db tenant_id shift tenant payload now [] =
    ok (db, record { booked = []; skipped = 0; failed_employees = [] })
bulk_book_employees reg db tenant_id shift tenant payload now (e ∷ es) = do
  interval ← cutoff_interval payload.booking_type shift.log_type (get_cutoff reg tenant_id)
  raise_if (is_cut_off now (shift_datetime payload.booking_date shift) interval)
      BookingError.booking_cutoff
  let summary =
      book_each db reg tenant_id shift tenant payload now (e ∷ es) (next_booking_id db.bookings)
  ok (insert_bookings db summary.booked, summary)

unfoldable pub bulk_book_all_employees :
    Registry → Db → User → BulkCreate → ℕ → ℕ → Result BookingError (Db × Summary)
bulk_book_all_employees reg db user payload today now = do
  tenant_id ← booking_tenant user payload.tenant_id
  raise_if (ltb payload.booking_date today) BookingError.invalid_date
  shift ← or_raise (get_shift_of db tenant_id payload.shift_id) BookingError.shift_not_found
  let start = shift_datetime payload.booking_date shift
  raise_if (has_started today now payload.booking_date start) BookingError.past_shift_time
  tenant ← or_raise (get_tenant reg tenant_id) BookingError.tenant_not_found
  bulk_book_employees reg db tenant_id shift tenant payload now
      (target_employees db tenant_id payload.employee_ids)
