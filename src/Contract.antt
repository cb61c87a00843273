-- ===== src/Contract.antt =====
-- Vendor contracts (app/models/contract.py): what a kilometre costs, by slabs of distance. A
-- distance is a number of millimetres, a rate a number of 10^-6 units of currency to the
-- kilometre, an amount a number of hundredths.
pub mod Slabs
pub mod Cost
mod Keys
pub mod Contiguous
pub mod Chain
pub mod Bill
pub mod Monotone
pub mod Access
use fleet_manager.Prelude.{ℕ, ◌+◌, ◌-◌, Bool, ◌&&◌, Option, List, ◌==◌, filter}
use fleet_manager.Prelude.Sort.{sort_by}

pub record ContractSlab : Type 0 where
  pub slab_id : ℕ
  pub contract_id : ℕ
  pub min_km : ℕ
  pub max_km : Option ℕ
  pub rate : ℕ
  pub is_active : Bool

pub record Contract : Type 0 where
  pub contract_id : ℕ
  pub vendor_id : ℕ
  pub vehicle_type_id : ℕ
  pub is_active : Bool

-- The raised errors, by their codes; the first two are those of the schema and of the constraint
-- `uq_contract_slab_min_km`.
pub data ContractError : Type 0 where
  invalid_request : ContractError
  integrity_error : ContractError
  contract_slab_not_found : ContractError
  contract_slab_required : ContractError
  invalid_slab_range : ContractError
  invalid_slab_chain : ContractError
  route_not_found : ContractError
  forbidden : ContractError
  route_not_completed : ContractError
  route_vehicle_required : ContractError
  route_distance_required : ContractError
  vehicle_not_found : ContractError
  vehicle_contract_required : ContractError
  contract_not_found : ContractError
  contract_inactive : ContractError
  contract_vehicle_mismatch : ContractError
  contract_slabs_required : ContractError
  distance_not_covered : ℕ → ContractError

-- `abs(a - b)`
abbrev pub abs_diff : ℕ → ℕ → ℕ
abs_diff a b = (a - b) + (b - a)

-- 0.000001 km
abbrev pub tolerance : ℕ
tolerance = 1

-- The active slabs of the contract, by `min_km`.
abbrev pub active_slabs : ℕ → List ContractSlab → List ContractSlab
active_slabs contract_id rows =
    sort_by (λ s. s.min_km) (filter (λ s. s.contract_id == contract_id && s.is_active) rows)
