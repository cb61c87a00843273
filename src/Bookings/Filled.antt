-- ===== src/Bookings/Filled.antt =====
-- What a booking for all employees does (`bulk_book_all_employees` in
-- app/routes/booking_router.py).
use fleet_manager.Prelude.{ℕ, ◌+◌, ◌≡◌, true, false, some, List, length, Elem}
use fleet_manager.Store.{Db, Booking, BookingStatus, Employee}
use fleet_manager.Bookings.{Registry, get_weekoff, is_weekoff, is_for}
use fleet_manager.Bookings.Bulk.{BulkCreate, Summary}

-- A new request for the date and shift, of one of the employees, who works then and had no booking
-- for them but cancelled ones.
pub record IsBooked (db : Db) (reg : Registry) (tenant_id : ℕ) (payload : BulkCreate)
    (es : List Employee) (row : Booking) : Type 0 where
  pub person : Employee
  pub among : Elem person es
  pub of_person : row.employee_id ≡ person.employee_id
  pub is_request : row.status ≡ BookingStatus.request
  pub of_tenant : row.tenant_id ≡ tenant_id
  pub of_date : row.booking_date ≡ payload.booking_date
  pub of_shift : row.shift_id ≡ some payload.shift_id
  pub works : is_weekoff (get_weekoff reg person.employee_id) payload.booking_date ≡ false
  pub free :
      (o : Booking)
      → Elem o db.bookings
      → is_for person.employee_id payload.booking_date payload.shift_id o ≡ true
      → o.status ≡ BookingStatus.cancelled

-- The summary counts each of the employees once.
abbrev pub IsAccount : ℕ → Summary → Type 0
IsAccount n s = length s.booked + s.skipped + length s.failed_employees ≡ n
