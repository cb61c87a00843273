-- ===== src/Tests/Night.antt =====
-- The rows of a night shift: driver 5 of tenant 1 takes two employees home on route 7, with an
-- escort, and has been on route 6 before.
use fleet_manager.Prelude.{ℕ, ◌+◌, ◌-◌, ◌*◌, ◌/◌, true, false, none, some, List, [], ◌∷◌}
use fleet_manager.Prelude.Int.{ℤ, pos, pos_part, neg_part}
use fleet_manager.Prelude.Text.{codes}
use fleet_manager.Store.{
  RestEnforcement, BookingType, LogType, Vehicle, Vendor, Db, Route, RouteStatus,
  RouteManagementBooking, Booking, BookingStatus, Shift, PickupType, Employee, Gender,
  FemaleConstraint, TenantConfig, DarkHourMode, Point,
}
use fleet_manager.Safety.Window.{day}
use fleet_manager.Trip.Types.{Driver}
use fleet_manager.Trip.Machine.{Request}

abbrev pub hour : ℕ
hour = 3_600_000_000

-- An hour of the tenth day.
abbrev pub at : ℕ → ℕ
at h = 10 * day + h * hour

abbrev gap : ℤ → ℤ → ℕ
gap a b =
    (pos_part a + neg_part b - (pos_part b + neg_part a))
    + (pos_part b + neg_part a - (pos_part a + neg_part b))

-- Along the streets of a grid, 11 mm to 10^-7 degrees.
abbrev pub taxi : Point → Point → ℕ
taxi a b = 11 * (gap a.latitude b.latitude + gap a.longitude b.longitude)

abbrev pub ctx : Driver
ctx = record { tenant_id = 1; driver_id = 5 }

abbrev pub office : Point
office = record { latitude = pos 129_716_000; longitude = pos 775_946_000 }

abbrev pub home : Point
home = record { latitude = pos 129_800_000; longitude = pos 776_000_000 }

abbrev pub route : Route
route = record {
  route_id = 7;
  tenant_id = 1;
  shift_id = some 3;
  assigned_vendor_id = some 2;
  assigned_vehicle_id = some 4;
  assigned_driver_id = some 5;
  assigned_escort_id = some 9;
  escort_required = true;
  escort_otp = some 43;
  escort_boarded = false;
  status = RouteStatus.driver_assigned;
  estimated_total_time = some hour;
  actual_total_distance = none;
  actual_start_time = none;
  actual_end_time = none;
  delay_type = none;
  delay_minutes = none;
  delay_tagged_at = none;
  ota_grace_minutes = none;
  is_active = true;
  updated_at = at 12;
}

-- The afternoon's trip, from two to five.
abbrev pub earlier : Route
earlier = record route {
  route_id = 6;
  shift_id = some 2;
  assigned_escort_id = none;
  status = RouteStatus.completed;
  actual_start_time = some (at 14);
  actual_end_time = some (at 17);
}

abbrev pub link : ℕ → ℕ → ℕ → ℕ → RouteManagementBooking
link id route_id booking_id order_id = record {
  id = id;
  route_id = route_id;
  booking_id = booking_id;
  order_id = order_id;
  estimated_pick_up_time = some (codes "21:00");
  actual_pick_up_time = none;
  actual_drop_time = none;
  geofence_notified_at = none;
}

abbrev pub first_link : RouteManagementBooking
first_link = link 31 7 11 1

abbrev pub second_link : RouteManagementBooking
second_link = link 32 7 12 2

abbrev pub first_booking : Booking
first_booking = record {
  booking_id = 11;
  tenant_id = 1;
  employee_id = 21;
  shift_id = some 3;
  booking_date = 10;
  boarding_otp = some 17;
  deboarding_otp = some 18;
  pickup_latitude = some office.latitude;
  pickup_longitude = some office.longitude;
  pickup_location = some 91;
  drop_latitude = some home.latitude;
  drop_longitude = some home.longitude;
  drop_location = some 92;
  nodal_point_id = none;
  status = BookingStatus.scheduled;
  booking_type = BookingType.regular;
  reason = none;
  updated_at = at 12;
}

abbrev pub second_booking : Booking
second_booking = record first_booking { booking_id = 12; employee_id = 22 }

abbrev pub shift : Shift
shift = record {
  shift_id = 3;
  tenant_id = 1;
  log_type = LogType.logout;
  shift_time = 21 * hour;
  pickup_type = some PickupType.pickup;
  female_constraint = some FemaleConstraint.any_female;
}

abbrev pub woman : Employee
woman = record {
  employee_id = 21;
  tenant_id = 1;
  gender = some Gender.female;
  latitude = some home.latitude;
  longitude = some home.longitude;
  address = some 92;
  is_active = true;
}

abbrev pub man : Employee
man = record {
  employee_id = 22;
  tenant_id = 1;
  gender = some Gender.male;
  latitude = some home.latitude;
  longitude = some home.longitude;
  address = some 92;
  is_active = true;
}

abbrev pub config : TenantConfig
config = record {
  tenant_id = 1;
  escort_required_start_time = some (20 * hour);
  escort_required_end_time = some (6 * hour);
  escort_required_for_women = true;
  login_boarding_otp = true;
  login_deboarding_otp = false;
  logout_boarding_otp = true;
  logout_deboarding_otp = true;
  one_trip_per_shift_enabled = true;
  auto_move_on_conflict = true;
  delay_driver_grace_minutes = none;
  delay_employee_grace_minutes = none;
  dark_hour_boarding_mode = some DarkHourMode.block;
  geofence_arrival_radius_meters = none;
  stale_driver_threshold_minutes = 5;
  driver_max_duty_minutes = 600;
  driver_rest_enforcement = RestEnforcement.block;
}

abbrev pub db : Db
db = record {
  routes = route ∷ earlier ∷ [];
  links = second_link ∷ first_link ∷ [];
  bookings = first_booking ∷ second_booking ∷ [];
  shifts = shift ∷ [];
  employees = woman ∷ man ∷ [];
  configs = config ∷ [];
  delay_events = [];
  pings = [];
  user_sessions = [];
}

abbrev pub vehicle : Vehicle
vehicle = record {
  vehicle_id = 4;
  vendor_id = 2;
  vehicle_type_id = 1;
  contract_id = some 8;
  driver_id = some 5;
  rc_number = 77;
  is_active = true;
}

abbrev pub vendor : Vendor
vendor = record { vendor_id = 2; tenant_id = 1 }

-- The route under way, with the escort on board.
abbrev pub going : Route
going = record route {
  escort_boarded = true;
  status = RouteStatus.ongoing;
  actual_start_time = some (at 21);
  updated_at = at 21;
}

abbrev pub db_going : Db
db_going = record db { routes = going ∷ earlier ∷ [] }

abbrev pub to_going : List (Driver × Request)
to_going = (ctx, Request.start_duty 7 (at 21)) ∷ (ctx, Request.board_escort 7 43) ∷ []

-- The rest of the night; the second employee does not come, and the route ends at a quarter past
-- ten, after 75 minutes.
abbrev pub to_end : List (Driver × Request)
to_end =
    (ctx, Request.start_trip 7 11 office (some (codes "17")) (at 21))
    ∷ (ctx, Request.mark_no_show 7 12 none (at 21))
    ∷ (ctx, Request.end_duty 7 (at 22))
    ∷ (ctx, Request.verify_drop 7 11 home (some (codes "18")) (at 22))
    ∷ (ctx, Request.end_duty 7 (at 22 + hour / 4))
    ∷ []
