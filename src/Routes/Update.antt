-- ===== src/Routes/Update.antt =====
-- `update_route` (app/routes/route_management.py): bookings are added to a route or taken off it. The
-- order in which Python goes through a set of numbers is the parameter `iterate`.
use fleet_manager.Prelude.{
  ℕ, Bool, true, not, ◌&&◌, Option, none, some, List, [], ◌∷◌, ◌++◌, map, if◌then◌else◌, filter,
  get_or,
}
use fleet_manager.Prelude.Result.{Result, ok, err, ◌>>=◌, ◌>>◌, raise_if, or_raise}
use fleet_manager.Store.{
  Db, Route, Booking, BookingStatus, Shift, LogType, Point, UserType, TenantConfig, get_config,
  put_route,
}
use fleet_manager.Trip.Types.{eq_booking_status}
use fleet_manager.Enforcement.{
  Conflict, booking_already_active, booking_already_assigned, enforce_one_trip_per_shift,
}
use fleet_manager.Bookings.{Registry, get_tenant}
use fleet_manager.Routes.Optimal.{
  Query, Directions, Failure, pickup_spot, drop_spot, generate_optimal_route, generate_drop_route,
}
use fleet_manager.Routes.{
  RouteError, Planner, present, asked_or_own, is_one_of, route_of_tenant, Plan, links_for,
  scheduled,
}
use fleet_manager.Routes.Build.{is_empty, shift_of, last_of, plan_or}
use fleet_manager.Routes.Rework.{links_of, get_each, relinked, free_link_id, with_time}

pub data Operation : Type 0 where
  add remove : Operation

-- The tenant whose routes are updated: a vendor has to name it.
abbrev pub updating_tenant : Planner → Option ℕ → Result RouteError ℕ
updating_tenant user asked = elim user.user_type [
  | UserType.admin ↦ present (asked_or_own user asked) RouteError.tenant_id_required
  | UserType.employee ↦ present user.tenant_id RouteError.tenant_id_missing
  | UserType.vendor ↦ present (get_or asked 0) RouteError.tenant_id_required
  | UserType.driver ↦ present (get_or asked 0) RouteError.tenant_id_missing
]

-- `getattr(config, ..., True)`
abbrev pub one_trip_enabled : Option TenantConfig → Bool
one_trip_enabled none = true
one_trip_enabled (some config) = config.one_trip_per_shift_enabled

abbrev pub auto_move_enabled : Option TenantConfig → Bool
auto_move_enabled none = true
auto_move_enabled (some config) = config.auto_move_on_conflict

abbrev pub conflict_error : Conflict → RouteError
conflict_error (booking_already_active k s) = RouteError.booking_already_active
conflict_error (booking_already_assigned k rs) = RouteError.booking_already_assigned

abbrev pub raise_conflict : Result Conflict Db → Result RouteError Db
raise_conflict (ok db) = ok db
raise_conflict (err c) = err (conflict_error c)

-- Only what is added is checked.
unfoldable pub enforced : Operation → Db → ℕ → ℕ → List ℕ → Result RouteError Db
enforced Operation.add db route_id tenant_id requested = raise_conflict (
    enforce_one_trip_per_shift db route_id tenant_id requested
      (one_trip_enabled (get_config db tenant_id)) (auto_move_enabled (get_config db tenant_id)))
enforced Operation.remove db route_id tenant_id requested = ok db

-- The union or the difference.
abbrev pub changed_ids : Operation → List ℕ → List ℕ → List ℕ
changed_ids Operation.add current requested = current ++ requested
changed_ids Operation.remove current requested = filter (λ k. not (is_one_of requested k)) current

-- A scheduled booking that leaves the route is a request again.
abbrev pub released : List ℕ → ℕ → Booking → Booking
released ids now b =
    if is_one_of ids b.booking_id && eq_booking_status b.status BookingStatus.scheduled
    then record b { status = BookingStatus.request; updated_at = now }
    else b

-- All bookings leave.
abbrev pub emptied : Db → Route → List ℕ → ℕ → Db
emptied db route requested now =
    let left = relinked db route.route_id [] in
    put_route (record route { estimated_total_time = some 0 })
      (record left { bookings = map (released requested now) db.bookings })

-- The new stops; `gone` leave and `new` come.
abbrev pub restopped : Db → Route → Plan → List ℕ → List ℕ → ℕ → Db
restopped db route plan gone new now =
    let made = links_for route.route_id (free_link_id db route.route_id) 1 plan.stops in
    let linked = relinked db route.route_id made in
    put_route (with_time route plan)
      (record linked { bookings = map (scheduled new now) (map (released gone now) db.bookings) })

abbrev pub without : List ℕ → List ℕ → List ℕ
without ids gone = filter (λ k. not (is_one_of gone k)) ids

module _ (directions : Query → Option Directions) (haversine : Point → Point → ℕ) where
  abbrev pub updated_for : LogType → ℕ → Booking → List Booking → Result Failure Plan
  updated_for LogType.login shift_time b bs =
      generate_optimal_route directions haversine (b ∷ bs) (drop_spot (last_of b bs)) shift_time
        true
  updated_for LogType.logout shift_time b bs =
      generate_drop_route directions haversine (b ∷ bs) (pickup_spot b) shift_time true

  -- Without a shift there is no time to plan for.
  abbrev pub updated_plan : Option Shift → List Booking → Result Failure Plan
  updated_plan shift [] = err Failure.raised
  updated_plan none (b ∷ bs) = err Failure.raised
  updated_plan (some shift) (b ∷ bs) = updated_for shift.log_type shift.shift_time b bs

  abbrev pub update_stops : Db → Route → List ℕ → List ℕ → List ℕ → ℕ → Result RouteError Db
  update_stops db route current requested ids now = do
    rows ← get_each db ids
    plan ←
        plan_or RouteError.route_optimization_failed RouteError.route_update_error
          (updated_plan (shift_of db route.tenant_id route.shift_id) rows)
    ok (restopped db route plan (without current ids) (without ids current) now)

  abbrev pub updated_route : Db → Route → List ℕ → List ℕ → List ℕ → ℕ → Result RouteError Db
  updated_route db route current requested [] now = ok (emptied db route requested now)
  updated_route db route current requested (k ∷ ks) now =
      update_stops db route current requested (k ∷ ks) now

  module _ (iterate : List ℕ → List ℕ) where
    unfoldable pub update_route :
        Registry → Db → Planner → Option ℕ → ℕ → Operation → List ℕ → ℕ → Result RouteError Db
    update_route reg db user asked route_id operation booking_ids now = do
      tenant_id ← updating_tenant user asked
      or_raise (get_tenant reg tenant_id) RouteError.tenant_not_found >>= λ tenant. ok tt
      raise_if (is_empty booking_ids) RouteError.no_bookings_provided
      route ← or_raise (route_of_tenant db tenant_id route_id) RouteError.route_not_found
      let current = map (λ l. l.booking_id) (links_of db route_id)
      let requested = iterate booking_ids
      rows ← get_each db requested
      db' ← enforced operation db route_id tenant_id requested
      updated_route db' route current requested (iterate (changed_ids operation current requested))
          now
