-- ===== src/Tests/Bills.antt =====
-- A vendor's contract, and the bill of the afternoon's route.
use fleet_manager.Prelude.{
  ℕ, ◌+◌, ◌*◌, ◌≤◌, ◌<◌, ◌≡◌, refl, ◌≢◌, ◌⊎◌, ◌==◌, true, false, none, some, List, [], ◌∷◌, arith,
  any, length, find?, get_or, All, Elem, Bool-cases, inl, inr,
}
use fleet_manager.Prelude.Int.{round_div}
use fleet_manager.Prelude.Sort.{sort_by}
use fleet_manager.Prelude.Result.{ok, err}
use fleet_manager.Store.{Db, Route, RouteStatus, Vehicle}
use fleet_manager.Contract
use fleet_manager.Contract.{
  ContractSlab, ContractError, tolerance, distance_not_covered, invalid_slab_chain,
  contract_inactive, active_slabs,
}
use fleet_manager.Contract.Slabs.{
  SlabTable, SlabCreate, SlabUpdate, SlabRequest, post_slab, put_slab, delete_slab, check_chain,
  check_rest_of_chain, validate_active_slab_chain, serve_slabs, handle_slab,
}
use fleet_manager.Contract.Slabs
use fleet_manager.Contract.Cost.{
  CostLine, User, UserType, VendorTables, RouteCost, cost_from, sum_costs, slab_cost,
  calculate_progressive_cost, calculate_route_cost, route_to_bill, vehicle_contract,
  validate_route_access, validate_vehicle_access,
}
use fleet_manager.Contract.Contiguous.{IsChain}
use fleet_manager.Contract.Chain.{IsSound, IsChained, serve_slabs-IsSound}
use fleet_manager.Contract.Bill.{
  sum_km, is_open, calculate_progressive_cost-accounts, calculate_progressive_cost-covers,
}
use fleet_manager.Contract.Monotone.{calculate_progressive_cost_mono}
use fleet_manager.Contract.Access.{calculate_route_cost_own, calculate_route_cost-IsChained}
use fleet_manager.Tests.Night.{vehicle, db, earlier}

abbrev km : ℕ
km = 1_000_000

-- A price of whole units to the kilometre.
abbrev price : ℕ
price = 1_000_000

abbrev near : ContractSlab
near = record {
  slab_id = 1;
  contract_id = 8;
  min_km = 0;
  max_km = some (10 * km);
  rate = 20 * price;
  is_active = true;
}

abbrev far : ContractSlab
far = record near { slab_id = 2; min_km = 10 * km; max_km = none; rate = 15 * price }

abbrev empty_table : SlabTable
empty_table = record { rows = []; next_id = 1 }

abbrev near_in : SlabCreate
near_in = record { min_km = 0; max_km = some (10 * km); rate = 20 * price; is_active = true }

abbrev far_in : SlabCreate
far_in = record { min_km = 10 * km; max_km = none; rate = 15 * price; is_active = true }

-- The second slab comes too soon at first, and the first may not be deleted.
abbrev requests : List SlabRequest
requests = post_slab 8 far_in ∷ post_slab 8 near_in ∷ post_slab 8 far_in ∷ delete_slab 1 ∷ []

both_slabs : serve_slabs empty_table requests ≡ record { rows = near ∷ far ∷ []; next_id = 3 }
unfolding serve_slabs handle_slab Slabs.create Slabs.remove validate_active_slab_chain check_chain
    check_rest_of_chain sort_by
both_slabs = refl

empty_table-IsSound : IsSound empty_table
unfolding sort_by
empty_table-IsSound = ((λ a b ma mb e. elim ma [ ], λ a ma. elim ma [ ]), λ c. tt)

serve_slabs-IsSound_example : IsSound (serve_slabs empty_table requests)
serve_slabs-IsSound_example = serve_slabs-IsSound requests empty_table empty_table-IsSound

abbrev slabs : List ContractSlab
slabs = near ∷ far ∷ []

abbrev lines : List CostLine
lines =
    record {
      min_km = 0;
      max_km = some (10 * km);
      km_used = 10 * km;
      rate = 20 * price;
      cost = 20_000;
    }
    ∷ record { min_km = 10 * km; max_km = none; km_used = 2 * km; rate = 15 * price; cost = 3_000 }
    ∷ []

twelve_km : calculate_progressive_cost (12 * km) slabs ≡ ok (23_000, lines)
unfolding calculate_progressive_cost cost_from sum_costs round_div
twelve_km = refl

calculate_progressive_cost-accounts_example :
    (sum_km lines ≤ 12 * km)
    × (12 * km ≤ sum_km lines + length slabs + 1)
    × (23_000 ≡ sum_costs lines)
    × All (λ l. l.cost ≡ slab_cost l.km_used l.rate) lines
calculate_progressive_cost-accounts_example =
    calculate_progressive_cost-accounts (12 * km) slabs 23_000 lines twelve_km

slabs-IsChain : IsChain (some 0) slabs
slabs-IsChain = (omega arith, omega arith, (omega arith, tt, tt))

calculate_progressive_cost-covers_example :
    ((r : ℕ × List CostLine) × (calculate_progressive_cost (400 * km) slabs ≡ ok r))
    ⊎ ((any is_open slabs ≡ false)
        × (left : ℕ) × (tolerance < left)
        × (calculate_progressive_cost (400 * km) slabs ≡ err (distance_not_covered left)))
calculate_progressive_cost-covers_example =
    calculate_progressive_cost-covers (400 * km) slabs slabs-IsChain

abbrev short_lines : List CostLine
short_lines =
    record {
      min_km = 0;
      max_km = some (10 * km);
      km_used = 7 * km;
      rate = 20 * price;
      cost = 14_000;
    }
    ∷ []

seven_km : calculate_progressive_cost (7 * km) slabs ≡ ok (14_000, short_lines)
unfolding calculate_progressive_cost cost_from sum_costs round_div
seven_km = refl

calculate_progressive_cost_mono_example : 14_000 ≤ 23_000
calculate_progressive_cost_mono_example =
    calculate_progressive_cost_mono (7 * km) (12 * km) slabs 14_000 23_000 short_lines lines
      (omega arith) seven_km twelve_km

abbrev contract : Contract.Contract
contract = record { contract_id = 8; vendor_id = 2; vehicle_type_id = 1; is_active = true }

abbrev tables : VendorTables
tables = record { vehicles = vehicle ∷ []; contracts = contract ∷ []; slabs = far ∷ near ∷ [] }

abbrev expired : VendorTables
expired = record tables { contracts = record contract { is_active = false } ∷ [] }

-- The afternoon's route of 12 km.
abbrev driven : Route
driven = record earlier { actual_total_distance = some 12_000 }

abbrev db_driven : Db
db_driven = record db { routes = driven ∷ [] }

abbrev manager : User
manager = record { user_type = UserType.vendor; tenant_id = none; vendor_id = some 2 }

abbrev bill : RouteCost
bill = record {
  contract_id = 8;
  vehicle_id = 4;
  vendor_id = 2;
  total_distance = 12 * km;
  total_cost = 23_000;
  effective_rate = 1_917;
  slab_breakdown = lines;
}

billed : calculate_route_cost db_driven tables 6 (some manager) ≡ ok bill
unfolding calculate_route_cost route_to_bill vehicle_contract validate_route_access
    validate_vehicle_access calculate_progressive_cost cost_from sum_costs round_div sort_by
billed = refl

calculate_route_cost_own_example :
    (route : Route) × (v : Vehicle) × (find? (λ (x : Route). x.route_id == 6) db_driven.routes
      ≡ some route)
    × (route.status ≡ RouteStatus.completed)
    × (bill.total_distance ≡ get_or route.actual_total_distance 0 * 1000)
    × Elem v tables.vehicles
    × (bill.vehicle_id ≡ v.vehicle_id)
    × (route.assigned_vehicle_id ≡ some v.vehicle_id)
    × (v.vendor_id ≡ 2)
    × (bill.vendor_id ≡ 2)
calculate_route_cost_own_example =
    calculate_route_cost_own db_driven tables 6 1 manager bill refl refl billed

tables-IsChained : IsChained expired.slabs
unfolding sort_by
tables-IsChained c = elim (Bool-cases (8 == c)) [ inl e ↦ rw e slabs-IsChain | inr e ↦ rw e tt ]

inactive : calculate_route_cost db_driven expired 6 (some manager) ≡ err contract_inactive
unfolding calculate_route_cost route_to_bill vehicle_contract validate_route_access
    validate_vehicle_access
inactive = refl

calculate_route_cost-IsChained_example : contract_inactive ≢ invalid_slab_chain
calculate_route_cost-IsChained_example =
    calculate_route_cost-IsChained db_driven expired 6 (some manager) contract_inactive
      tables-IsChained inactive
