-- ===== src/Routes.antt =====
-- The planning of routes (app/routes/route_management.py): who plans, the errors by their codes, and
-- what the handlers share. Audit logs and the estimated distances and drop times, which only screens
-- show, are left out.
pub mod Optimal
pub mod Ordered
pub mod Complete
pub mod Build
pub mod Rework
pub mod Update
pub mod Assign
pub mod Rebuilt
pub mod Planned
pub mod Handlers
pub mod Targets
pub mod Restopped
pub mod Updated
pub mod Foreign
pub mod Moved
pub mod Kept
pub mod Reworked
pub mod Dropped
pub mod Served
pub mod Doubled
pub mod Day
use fleet_manager.Prelude.{
  ℕ, suc, ◌+◌, Bool, true, false, not, ◌&&◌, ◌||◌, Option, none, some, List, [], ◌∷◌, ◌++◌, map,
  max, ◌==◌, if◌then◌else◌, any, find?, filter, is_truthy, get_or,
}
use fleet_manager.Prelude.Int.{pos}
use fleet_manager.Prelude.Result.{Result, ok, err, ◌>>=◌, ◌>>◌, raise_if, or_raise}
use fleet_manager.Store.{
  Text, Db, Route, RouteStatus, RouteManagementBooking, Booking, BookingStatus, Shift, UserType,
  Vehicle, Vendor,
}
use fleet_manager.Trip.Types.{eq_booking_status}

pub data RouteError : Type 0 where
  tenant_id_required tenant_id_missing tenant_not_found route_not_found : RouteError
  vendor_not_found vendor_not_assigned vendor_route_mismatch vehicle_not_found : RouteError
  route_vehicle_vendor_mismatch vehicle_inactive vehicle_no_driver : RouteError
  driver_not_linked_to_vehicle driver_vendor_mismatch driver_inactive : RouteError
  vehicle_driver_mismatch driver_insufficient_rest escort_not_found : RouteError
  escort_not_available no_bookings_provided bookings_not_found mixed_shifts mixed_dates : RouteError
  shift_not_found optimization_failed no_route_ids shift_mismatch empty_route_list : RouteError
  office_location_mismatch route_merge_error create_route_error opt_fail booking_not_found :
      RouteError
  booking_already_active booking_already_assigned route_optimization_failed : RouteError
  route_update_error invalid_bookings manual_times_required invalid_time_format : RouteError
  update_bookings_error : RouteError

-- The claims of the bearer's token; a missing tenant is 0.
pub record Planner : Type 0 where
  pub user_type : UserType
  pub tenant_id : ℕ
  pub vendor_id : Option ℕ

abbrev pub present : ℕ → RouteError → Result RouteError ℕ
present id e = do raise_if (id == 0) e; ok id

-- `tenant_id or token_tenant_id`
abbrev pub asked_or_own : Planner → Option ℕ → ℕ
asked_or_own user asked = if is_truthy asked then get_or asked 0 else user.tenant_id

-- The tenant for which routes are made, merged and deleted.
abbrev pub planning_tenant : Planner → Option ℕ → Result RouteError ℕ
planning_tenant user asked = elim user.user_type [
  | UserType.admin ↦ present (asked_or_own user asked) RouteError.tenant_id_required
  | UserType.employee ↦ present user.tenant_id RouteError.tenant_id_missing
  | UserType.vendor ↦ present (asked_or_own user asked) RouteError.tenant_id_missing
  | UserType.driver ↦ present (asked_or_own user asked) RouteError.tenant_id_missing
]

abbrev pub is_one_of : List ℕ → ℕ → Bool
is_one_of ids id = any (λ k. k == id) ids

abbrev pub route_of_tenant : Db → ℕ → ℕ → Option Route
route_of_tenant db tenant_id route_id =
    find? (λ r. r.route_id == route_id && r.tenant_id == tenant_id) db.routes

-- A stop that the optimisation orders, with its estimated time; the first is served first.
pub record Plan : Type 0 where
  pub estimated_time : ℕ
  pub stops : List (ℕ × Option Text)

-- The next values of the keys' sequences.
abbrev pub next_route_id : List Route → ℕ
next_route_id [] = 1
next_route_id (r ∷ rs) = max (suc r.route_id) (next_route_id rs)

abbrev pub next_link_id : List RouteManagementBooking → ℕ
next_link_id [] = 1
next_link_id (l ∷ ls) = max (suc l.id) (next_link_id ls)

-- `RouteManagement(...)` with the defaults of its columns.
abbrev pub new_route : ℕ → ℕ → Option ℕ → ℕ → ℕ → Route
new_route route_id tenant_id shift_id estimated_total_time now = record {
  route_id = route_id;
  tenant_id = tenant_id;
  shift_id = shift_id;
  assigned_vendor_id = none;
  assigned_vehicle_id = none;
  assigned_driver_id = none;
  assigned_escort_id = none;
  escort_required = false;
  escort_otp = none;
  escort_boarded = false;
  status = RouteStatus.planned;
  estimated_total_time = some estimated_total_time;
  actual_total_distance = none;
  actual_start_time = none;
  actual_end_time = none;
  delay_type = none;
  delay_minutes = none;
  delay_tagged_at = none;
  ota_grace_minutes = some (pos 5);
  is_active = true;
  updated_at = now;
}

-- The links of the stops, numbered from 1 on.
abbrev pub links_for : ℕ → ℕ → ℕ → List (ℕ × Option Text) → List RouteManagementBooking
links_for route_id id order_id [] = []
links_for route_id id order_id ((booking_id, time) ∷ stops) =
    record {
      id = id;
      route_id = route_id;
      booking_id = booking_id;
      order_id = order_id;
      estimated_pick_up_time = time;
      actual_pick_up_time = none;
      actual_drop_time = none;
      geofence_notified_at = none;
    }
    ∷ links_for route_id (suc id) (suc order_id) stops

-- The bookings that are still requests become scheduled.
abbrev pub scheduled : List ℕ → ℕ → Booking → Booking
scheduled ids now b =
    if is_one_of ids b.booking_id && eq_booking_status b.status BookingStatus.request
    then record b { status = BookingStatus.scheduled; updated_at = now }
    else b

-- A new route with these stops; `ids` are the bookings to schedule.
unfoldable pub with_route : Db → ℕ → Option ℕ → Plan → List ℕ → ℕ → Db
with_route db tenant_id shift_id plan ids now =
    let route_id = next_route_id db.routes in
    record db {
      routes = db.routes ++ new_route route_id tenant_id shift_id plan.estimated_time now ∷ [];
      links = db.links ++ links_for route_id (next_link_id db.links) 1 plan.stops;
      bookings = map (scheduled ids now) db.bookings;
    }
