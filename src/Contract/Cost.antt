-- ===== src/Contract/Cost.antt =====
-- The cost of a completed route (app/services/contract_service.py).
use fleet_manager.Prelude.{
  ℕ, ◌+◌, ◌-◌, ◌*◌, Bool, true, false, not, ◌&&◌, ◌||◌, Option, none, some, List, [], ◌∷◌, ltb, leb,
  ◌==◌, if◌then◌else◌, get_or, is_truthy, find?, min,
}
use fleet_manager.Prelude.Int.{round_div}
use fleet_manager.Prelude.Result.{Result, ok, ◌>>=◌, ◌>>◌, raise_if, or_raise}
use fleet_manager.Store.{Vehicle, Db, Route, RouteStatus}
use fleet_manager.Trip.Types.{eq_route_status}
use fleet_manager.Contract

-- One entry of the breakdown, before distance and rate are rounded for display.
pub record CostLine : Type 0 where
  pub min_km : ℕ
  pub max_km : Option ℕ
  pub km_used : ℕ
  pub rate : ℕ
  pub cost : ℕ

-- `min(remaining_distance, slab_capacity)`; the table keeps `max_km` above `min_km`.
abbrev pub used_km : ℕ → Contract.ContractSlab → ℕ
used_km remaining slab = elim slab.max_km [
  | none ↦ remaining
  | some end ↦ min remaining (end - slab.min_km)
]

-- `round(km_used * slab.rate, 2)`
abbrev pub slab_cost : ℕ → ℕ → ℕ
slab_cost km rate = round_div (km * rate) 10_000_000_000

abbrev pub line_of : ℕ → Contract.ContractSlab → CostLine
line_of km slab = record {
  min_km = slab.min_km;
  max_km = slab.max_km;
  km_used = km;
  rate = slab.rate;
  cost = slab_cost km slab.rate;
}

abbrev pub add_line : ℕ → Contract.ContractSlab → List CostLine → List CostLine
add_line km slab lines = if ltb Contract.tolerance km then line_of km slab ∷ lines else lines

-- The loop; it gives the distance left, and the breakdown.
unfoldable pub cost_from :
    ℕ → ℕ → ℕ → List Contract.ContractSlab → Result Contract.ContractError (ℕ × List CostLine)
cost_from total remaining covered [] = ok (remaining, [])
cost_from total remaining covered (slab ∷ slabs) = do
  raise_if (ltb Contract.tolerance (Contract.abs_diff slab.min_km covered))
      Contract.invalid_slab_chain
  let used = used_km remaining slab
  let left = remaining - used
  let rest = cost_from total left (get_or slab.max_km total) slabs
  found ← if leb left Contract.tolerance then ok (left, []) else rest
  ok (found.0, add_line used slab found.1)

unfoldable pub sum_costs : List CostLine → ℕ
sum_costs [] = 0
sum_costs (line ∷ lines) = line.cost + sum_costs lines

-- `_calculate_progressive_cost`
unfoldable pub calculate_progressive_cost :
    ℕ → List Contract.ContractSlab → Result Contract.ContractError (ℕ × List CostLine)
unfolding cost_from
calculate_progressive_cost total slabs = do
  found ← cost_from total total 0 slabs
  raise_if (ltb Contract.tolerance found.0) (Contract.distance_not_covered found.0)
  ok (sum_costs found.1, found.1)

pub data UserType : Type 0 where
  admin superadmin vendor employee other : UserType

-- The token of the user.
pub record User : Type 0 where
  pub user_type : UserType
  pub tenant_id : Option ℕ
  pub vendor_id : Option ℕ

-- Both are there, and differ.
abbrev pub is_foreign : Option ℕ → Option ℕ → Bool
is_foreign token row = is_truthy token && is_truthy row && not (get_or token 0 == get_or row 0)

abbrev pub may_not_cost : Route → User → Bool
may_not_cost route user = elim user.user_type [
  | admin ↦ false
  | superadmin ↦ false
  | vendor ↦ is_foreign user.vendor_id route.assigned_vendor_id
  | employee ↦ is_truthy user.tenant_id && not (get_or user.tenant_id 0 == route.tenant_id)
  | other ↦ true
]

unfoldable pub validate_route_access :
    Route → Option User → Result Contract.ContractError (Unit {0})
validate_route_access route none = ok tt
validate_route_access route (some user) = raise_if (may_not_cost route user) Contract.forbidden

abbrev pub is_foreign_vehicle : Vehicle → User → Bool
is_foreign_vehicle vehicle user = elim user.user_type [
  | admin ↦ false
  | superadmin ↦ false
  | vendor ↦ is_truthy user.vendor_id && not (get_or user.vendor_id 0 == vehicle.vendor_id)
  | employee ↦ false
  | other ↦ false
]

unfoldable pub validate_vehicle_access :
    Vehicle → Option User → Result Contract.ContractError (Unit {0})
validate_vehicle_access vehicle none = ok tt
validate_vehicle_access vehicle (some user) =
    raise_if (is_foreign_vehicle vehicle user) Contract.forbidden

-- The tables of the vendors.
pub record VendorTables : Type 0 where
  pub vehicles : List Vehicle
  pub contracts : List Contract.Contract
  pub slabs : List Contract.ContractSlab

pub record RouteCost : Type 0 where
  pub contract_id : ℕ
  pub vehicle_id : ℕ
  pub vendor_id : ℕ
  pub total_distance : ℕ
  pub total_cost : ℕ
  pub effective_rate : ℕ
  pub slab_breakdown : List CostLine

-- The route, its vehicle's id and its distance, from metres.
unfoldable pub route_to_bill : Db → ℕ → Option User → Result Contract.ContractError (Route × ℕ × ℕ)
route_to_bill db route_id user_data = do
  route ← or_raise (find? (λ r. r.route_id == route_id) db.routes) Contract.route_not_found
  validate_route_access route user_data
  raise_if (not (eq_route_status route.status RouteStatus.completed)) Contract.route_not_completed
  raise_if (not (is_truthy route.assigned_vehicle_id)) Contract.route_vehicle_required
  let total = get_or route.actual_total_distance 0 * 1000
  raise_if (total == 0) Contract.route_distance_required
  ok (route, get_or route.assigned_vehicle_id 0, total)

unfoldable pub vehicle_contract :
    VendorTables → ℕ → Option User → Result Contract.ContractError (Vehicle × Contract.Contract)
vehicle_contract tables vehicle_id user_data = do
  vehicle ←
      or_raise (find? (λ v. v.vehicle_id == vehicle_id) tables.vehicles) Contract.vehicle_not_found
  validate_vehicle_access vehicle user_data
  raise_if (not (is_truthy vehicle.contract_id)) Contract.vehicle_contract_required
  contract ←
      or_raise (find? (λ c. c.contract_id == get_or vehicle.contract_id 0) tables.contracts)
        Contract.contract_not_found
  raise_if (not contract.is_active) Contract.contract_inactive
  raise_if
      (not (contract.vendor_id == vehicle.vendor_id)
        || not (contract.vehicle_type_id == vehicle.vehicle_type_id))
      Contract.contract_vehicle_mismatch
  ok (vehicle, contract)

abbrev pub is_nil : List Contract.ContractSlab → Bool
is_nil [] = true
is_nil (s ∷ ss) = false

unfoldable pub calculate_route_cost :
    Db → VendorTables → ℕ → Option User → Result Contract.ContractError RouteCost
unfolding route_to_bill vehicle_contract
calculate_route_cost db tables route_id user_data = do
  bill ← route_to_bill db route_id user_data
  let (route, vehicle_id, total) = bill
  found ← vehicle_contract tables vehicle_id user_data
  let (vehicle, contract) = found
  let slabs = Contract.active_slabs contract.contract_id tables.slabs
  raise_if (is_nil slabs) Contract.contract_slabs_required
  cost ← calculate_progressive_cost total slabs
  ok (record {
    contract_id = contract.contract_id;
    vehicle_id = vehicle.vehicle_id;
    vendor_id = contract.vendor_id;
    total_distance = total;
    total_cost = cost.0;
    effective_rate = round_div (cost.0 * 1_000_000) total;
    slab_breakdown = cost.1;
  })
