-- ===== src/Store.antt =====
-- The rows that the services read and write (app/models/*.py) and the database that holds them.
-- Keys and the texts that are only compared are numbers, the empty text being 0. A datetime is a
-- number of microseconds, a date a number of days, a time of day the microseconds since midnight, a coordinate an integer
-- number of 10^-7 degrees. Columns that no modelled code reads are left
-- out, and so is what `onupdate` writes.
pub mod Rows
pub use Rows.*
use fleet_manager.Prelude.{ℕ, Bool, ◌&&◌, Option, List, [], ◌∷◌, find?, replace, ◌==◌}

pub record Db : Type 0 where
  pub routes : List Route
  pub links : List RouteManagementBooking
  pub bookings : List Booking
  pub shifts : List Shift
  pub employees : List Employee
  pub configs : List TenantConfig
  pub delay_events : List RouteDelayEvent
  pub pings : List Ping
  pub user_sessions : List UserSession

abbrev pub empty_db : Db
empty_db = record {
  routes = [];
  links = [];
  bookings = [];
  shifts = [];
  employees = [];
  configs = [];
  delay_events = [];
  pings = [];
  user_sessions = [];
}

-- `db.query(T).filter(T.key == k).first()`
abbrev pub get_booking : Db → ℕ → Option Booking
get_booking db k = find? (λ b. b.booking_id == k) db.bookings

abbrev pub get_shift : Db → ℕ → Option Shift
get_shift db k = find? (λ s. s.shift_id == k) db.shifts

abbrev pub get_employee : Db → ℕ → Option Employee
get_employee db k = find? (λ e. e.employee_id == k) db.employees

abbrev pub get_config : Db → ℕ → Option TenantConfig
get_config db k = find? (λ c. c.tenant_id == k) db.configs

-- The flush of a changed object: its row is found by its primary key.
abbrev pub put_route : Route → Db → Db
put_route r db = record db { routes = replace (λ r. r.route_id) r db.routes }

abbrev pub put_link : RouteManagementBooking → Db → Db
put_link l db = record db { links = replace (λ l. l.id) l db.links }

abbrev pub put_booking : Booking → Db → Db
put_booking b db = record db { bookings = replace (λ b. b.booking_id) b db.bookings }
