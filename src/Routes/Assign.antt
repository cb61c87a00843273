-- ===== src/Routes/Assign.antt =====
-- Who serves a route: `assign_vendor_to_route`, `assign_vendor_to_routes_bulk`,
-- `assign_vehicle_to_route` and `assign_escort_to_route` (app/routes/route_management.py).
use fleet_manager.Prelude.{
  ℕ, Bool, true, false, not, ◌&&◌, Option, none, some, List, [], ◌∷◌, ◌==◌, if◌then◌else◌, any,
  find?, is_key, is_truthy, get_or,
}
use fleet_manager.Prelude.Result.{Result, ok, ◌>>=◌, ◌>>◌, raise_if, or_raise}
use fleet_manager.Store.{
  Db, Route, RouteStatus, UserType, Vehicle, Vendor, TenantConfig, RestEnforcement, get_config,
  put_route,
}
use fleet_manager.Trip.Types.{eq_route_status}
use fleet_manager.Duty.{RestCheck, check_rest}
use fleet_manager.Routes.{RouteError, Planner, present, asked_or_own, route_of_tenant}
use fleet_manager.Routes.Build.{unique_ids, same_option}

-- A row of `drivers`.
pub record DriverRow : Type 0 where
  pub driver_id : ℕ
  pub vendor_id : ℕ
  pub is_active : Bool

pub record Escort : Type 0 where
  pub escort_id : ℕ
  pub vendor_id : ℕ
  pub is_available : Bool

-- The tables that assignments only read.
pub record Fleet : Type 0 where
  pub vendors : List Vendor
  pub vehicles : List Vehicle
  pub drivers : List DriverRow
  pub escorts : List Escort

-- The join with the vendors of the tenant.
abbrev pub is_vendor_of : Fleet → ℕ → ℕ → Bool
is_vendor_of fleet tenant_id vendor_id =
    any (λ v. v.vendor_id == vendor_id && v.tenant_id == tenant_id) fleet.vendors

-- The tenant for which vendors are assigned.
abbrev pub assigning_tenant : Planner → Option ℕ → Result RouteError ℕ
assigning_tenant user asked = elim user.user_type [
  | UserType.admin ↦ present (asked_or_own user asked) RouteError.tenant_id_required
  | UserType.employee ↦ present user.tenant_id RouteError.tenant_id_required
  | UserType.vendor ↦ present user.tenant_id RouteError.tenant_id_required
  | UserType.driver ↦ present user.tenant_id RouteError.tenant_id_required
]

abbrev pub find_vendor : Fleet → ℕ → ℕ → Option Vendor
find_vendor fleet tenant_id vendor_id =
    find? (λ v. v.vendor_id == vendor_id && v.tenant_id == tenant_id) fleet.vendors

-- The route, when it moves on from a status.
abbrev pub advanced : RouteStatus → RouteStatus → RouteStatus → RouteStatus
advanced from to status = if eq_route_status status from then to else status

abbrev pub with_vendor : Route → ℕ → Route
with_vendor route vendor_id = record route {
  assigned_vendor_id = some vendor_id;
  status = advanced RouteStatus.planned RouteStatus.vendor_assigned route.status;
}

unfoldable pub assign_vendor_to_route :
    Fleet → Db → Planner → Option ℕ → ℕ → ℕ → Result RouteError Db
assign_vendor_to_route fleet db user asked route_id vendor_id = do
  tenant_id ← assigning_tenant user asked
  route ← or_raise (route_of_tenant db tenant_id route_id) RouteError.route_not_found
  vendor ← or_raise (find_vendor fleet tenant_id vendor_id) RouteError.vendor_not_found
  ok (put_route (with_vendor route vendor_id) db)

-- What the bulk assignment tells of a route.
pub data Assigned : Type 0 where
  assigned no_such_route same_vendor : Assigned
  other_vendor : ℕ → Assigned

-- A vendor of key 0 is false in Python.
abbrev pub assign_free : Db → ℕ → Option Route → Db × Assigned
assign_free db vendor_id none = (db, Assigned.no_such_route)
assign_free db vendor_id (some route) =
    if is_truthy route.assigned_vendor_id
    then (
      db,
      (if get_or route.assigned_vendor_id 0 == vendor_id
          then Assigned.same_vendor
          else Assigned.other_vendor (get_or route.assigned_vendor_id 0)),
    )
    else (put_route (with_vendor route vendor_id) db, Assigned.assigned)

abbrev pub assign_all : Db → ℕ → ℕ → List ℕ → Db × List (ℕ × Assigned)
assign_all db tenant_id vendor_id [] = (db, [])
assign_all db tenant_id vendor_id (i ∷ is) =
    let step = assign_free db vendor_id (route_of_tenant db tenant_id i) in
    let rest = assign_all step.0 tenant_id vendor_id is in (rest.0, (i, step.1) ∷ rest.1)

unfoldable pub assign_vendor_to_routes_bulk :
    Fleet → Db → Planner → Option ℕ → List ℕ → ℕ → Result RouteError (Db × List (ℕ × Assigned))
assign_vendor_to_routes_bulk fleet db user asked route_ids vendor_id = do
  tenant_id ← assigning_tenant user asked
  vendor ← or_raise (find_vendor fleet tenant_id vendor_id) RouteError.vendor_not_found
  ok (assign_all db tenant_id vendor_id (unique_ids route_ids))

abbrev pub is_foreign_vendor : Option ℕ → Option ℕ → Bool
is_foreign_vendor mine owner = is_truthy mine && not (same_option owner mine)

-- The vehicle of the vendor, and the driver that is mapped to it.
unfoldable pub ready_pair : Fleet → ℕ → Option ℕ → ℕ → Result RouteError (Vehicle × DriverRow)
ready_pair fleet tenant_id owner vehicle_id = do
  vehicle ←
      or_raise
        (find? (λ v. v.vehicle_id == vehicle_id && is_vendor_of fleet tenant_id v.vendor_id)
          fleet.vehicles)
        RouteError.vehicle_not_found
  raise_if (not (is_key owner vehicle.vendor_id)) RouteError.route_vehicle_vendor_mismatch
  raise_if (not vehicle.is_active) RouteError.vehicle_inactive
  raise_if (not (is_truthy vehicle.driver_id)) RouteError.vehicle_no_driver
  driver ←
      or_raise
        (find?
          (λ d.
            is_key vehicle.driver_id d.driver_id
            && d.vendor_id == vehicle.vendor_id
            && is_vendor_of fleet tenant_id d.vendor_id)
          fleet.drivers)
        RouteError.driver_not_linked_to_vehicle
  raise_if (not (is_key owner driver.vendor_id)) RouteError.driver_vendor_mismatch
  raise_if (not driver.is_active) RouteError.driver_inactive
  raise_if (not (is_key vehicle.driver_id driver.driver_id)) RouteError.vehicle_driver_mismatch
  ok (vehicle, driver)

abbrev pub max_duty_of : Option TenantConfig → ℕ
max_duty_of none = 600
max_duty_of (some config) = config.driver_max_duty_minutes

abbrev pub is_blocking : Option TenantConfig → Bool
is_blocking none = false
is_blocking (some config) = elim config.driver_rest_enforcement [
  | RestEnforcement.block ↦ true
  | RestEnforcement.warn ↦ false
]

abbrev pub with_vehicle : Route → ℕ → ℕ → Route
with_vehicle route vehicle_id driver_id = record route {
  assigned_vehicle_id = some vehicle_id;
  assigned_driver_id = some driver_id;
  status = advanced RouteStatus.vendor_assigned RouteStatus.driver_assigned route.status;
}

-- The reply says whether there is a warning about the driver's rest.
abbrev pub assign_rested : Db → Route → ℕ → ℕ → Bool → RestCheck → Result RouteError (Db × Bool)
assign_rested db route vehicle_id driver_id blocking rest = do
  raise_if (not rest.is_ok && blocking) RouteError.driver_insufficient_rest
  ok (put_route (with_vehicle route vehicle_id driver_id) db, not rest.is_ok)

-- `now` is the time in UTC, at which the rest is checked.
unfoldable pub assign_vehicle_to_route :
    Fleet → Db → Planner → ℕ → ℕ → ℕ → Result RouteError (Db × Bool)
assign_vehicle_to_route fleet db user route_id vehicle_id now = do
  route ← or_raise (route_of_tenant db user.tenant_id route_id) RouteError.route_not_found
  raise_if (not (is_truthy route.assigned_vendor_id)) RouteError.vendor_not_assigned
  raise_if (is_foreign_vendor user.vendor_id route.assigned_vendor_id)
      RouteError.vendor_route_mismatch
  pair ← ready_pair fleet user.tenant_id route.assigned_vendor_id vehicle_id
  let vehicle = pair.0
  let driver = pair.1
  if is_key route.assigned_vehicle_id vehicle.vehicle_id
        && is_key route.assigned_driver_id driver.driver_id
      then ok (db, false)
      else assign_rested db route vehicle.vehicle_id driver.driver_id
          (is_blocking (get_config db user.tenant_id))
          (check_rest db driver.driver_id now (max_duty_of (get_config db user.tenant_id)))

-- The tenant for which escorts are assigned: an administrator has to name it.
abbrev pub escorting_tenant : Planner → Option ℕ → Result RouteError ℕ
escorting_tenant user asked = elim user.user_type [
  | UserType.admin ↦ present (get_or asked 0) RouteError.tenant_id_required
  | UserType.employee ↦ present user.tenant_id RouteError.tenant_id_required
  | UserType.vendor ↦ present (asked_or_own user asked) RouteError.tenant_id_required
  | UserType.driver ↦ present (asked_or_own user asked) RouteError.tenant_id_required
]

unfoldable pub assign_escort_to_route :
    Fleet → Db → Planner → Option ℕ → ℕ → ℕ → ℕ → Result RouteError Db
assign_escort_to_route fleet db user asked route_id escort_id now = do
  tenant_id ← escorting_tenant user asked
  route ← or_raise (route_of_tenant db tenant_id route_id) RouteError.route_not_found
  escort ←
      or_raise
        (find? (λ e. e.escort_id == escort_id && is_vendor_of fleet tenant_id e.vendor_id)
          fleet.escorts)
        RouteError.escort_not_found
  raise_if (not escort.is_available) RouteError.escort_not_available
  ok (put_route (record route { assigned_escort_id = some escort_id; updated_at = now }) db)
