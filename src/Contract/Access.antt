-- ===== src/Contract/Access.antt =====
-- Whose costs a user sees, and which errors a bill meets (`calculate_route_cost` in
-- app/services/contract_service.py).
use fleet_manager.Prelude.{
  ℕ, suc, ◌*◌, ◌≡◌, ◌≢◌, sym, ◌∙◌, Option, none, some, arith, ◌==◌, true, is_truthy, get_or, find?,
  find?-true, Elem, Option-cases, inl, inr, ap, subst,
}
use fleet_manager.Prelude.Result.{ok, err, Result-cases}
use fleet_manager.Store.{Vehicle, Db, Route, RouteStatus}
use fleet_manager.Contract
use fleet_manager.Contract.{
  ContractSlab, ContractError, active_slabs, invalid_slab_chain, distance_not_covered,
}
use fleet_manager.Contract.Cost.{
  User, UserType, VendorTables, RouteCost, calculate_progressive_cost, calculate_route_cost,
  route_to_bill, vehicle_contract, validate_route_access, validate_vehicle_access,
}
use fleet_manager.Contract.Chain.{IsChained}
use fleet_manager.Contract.Bill.{calculate_progressive_cost-covers}

key_of : (o : Option ℕ) (k : ℕ) → is_truthy o ≡ true → get_or o 0 ≡ k → o ≡ some k
key_of none k h e = absurd (cc)
key_of (some j) k h e = ap some e

-- What the checks of the route have made sure of.
route_to_bill_lem :
    (db : Db) (route_id : ℕ) (user : Option User) (route : Route) (vehicle_id total : ℕ)
    → route_to_bill db route_id user ≡ ok (route, vehicle_id, total)
    → (find? (λ r. r.route_id == route_id) db.routes ≡ some route)
      × (route.status ≡ RouteStatus.completed)
      × (total ≡ get_or route.actual_total_distance 0 * 1000)
      × (route.assigned_vehicle_id ≡ some vehicle_id)
unfolding route_to_bill
route_to_bill_lem db route_id user route vehicle_id total h =
    elim (Option-cases (find? (λ (r : Route). r.route_id == route_id) db.routes)) [
      | inl missing ↦ absurd (ground arith)
      | inr (r, found) ↦ elim (Result-cases (validate_route_access r user)) [
        | inr (e, refused) ↦ absurd (ground arith)
        | inl (u, granted) ↦
            let same : r ≡ route = ground arith in
            (
              found ∙ ap some same,
              subst (λ (x : Route). x.status ≡ RouteStatus.completed) same (ground arith),
              subst (λ (x : Route). total ≡ get_or x.actual_total_distance 0 * 1000) same
                  (ground arith),
              subst (λ (x : Route). x.assigned_vehicle_id ≡ some vehicle_id) same
                  (key_of r.assigned_vehicle_id vehicle_id (ground arith) (ground arith)),
            )
      ]
    ]

vehicle_contract_lem :
    (tables : VendorTables) (vehicle_id : ℕ) (user : Option User) (vehicle : Vehicle)
    (contract : Contract.Contract)
    → vehicle_contract tables vehicle_id user ≡ ok (vehicle, contract)
    → (contract.vendor_id ≡ vehicle.vendor_id)
      × (validate_vehicle_access vehicle user ≡ ok tt)
      × Elem vehicle tables.vehicles
      × (vehicle.vehicle_id ≡ vehicle_id)
unfolding vehicle_contract
vehicle_contract_lem tables vehicle_id user vehicle contract h =
    elim (Option-cases (find? (λ (v : Vehicle). v.vehicle_id == vehicle_id) tables.vehicles)) [
      | inl missing ↦ absurd (ground arith)
      | inr (v, found) ↦ elim (Result-cases (validate_vehicle_access v user)) [
        | inr (e, refused) ↦ absurd (ground arith)
        | inl (u, granted) ↦
            elim (Option-cases (
              find? (λ (c : Contract.Contract). c.contract_id == get_or v.contract_id 0)
                tables.contracts)) [
                  | inl missing ↦ absurd (ground arith)
                  | inr (c, signed) ↦
                      let (tv, mv) =
                        find?-true (λ (v : Vehicle). v.vehicle_id == vehicle_id) tables.vehicles
                          found in
                      let same : v ≡ vehicle = ground arith in
                      let same' : c ≡ contract = ground arith in
                      (
                        ap (λ (x : Contract.Contract). x.vendor_id) (sym same')
                            ∙ ground arith
                            ∙ ap (λ (x : Vehicle). x.vendor_id) same,
                        subst (λ x. validate_vehicle_access x user ≡ ok tt) same (ground arith),
                        subst (λ x. Elem x tables.vehicles) same mv,
                        subst (λ (x : Vehicle). x.vehicle_id ≡ vehicle_id) same (ground arith),
                      )
                ]
      ]
    ]

-- A bill stems from a completed route, with its distance, and a vehicle and contract of one vendor.
abbrev pub Stems : Db → VendorTables → ℕ → Option User → RouteCost → Type 0
Stems db tables route_id user r =
    (route : Route) × (vehicle : Vehicle) × (find? (λ (x : Route). x.route_id == route_id) db.routes
      ≡ some route)
    × (route.status ≡ RouteStatus.completed)
    × (r.total_distance ≡ get_or route.actual_total_distance 0 * 1000)
    × (r.vendor_id ≡ vehicle.vendor_id)
    × (r.vehicle_id ≡ vehicle.vehicle_id)
    × Elem vehicle tables.vehicles
    × (route.assigned_vehicle_id ≡ some vehicle.vehicle_id)
    × (validate_vehicle_access vehicle user ≡ ok tt)

calculate_route_cost-Stems :
    (db : Db) (tables : VendorTables) (route_id : ℕ) (user : Option User) (r : RouteCost)
    → calculate_route_cost db tables route_id user ≡ ok r
    → Stems db tables route_id user r
unfolding calculate_route_cost
calculate_route_cost-Stems db tables route_id user r h =
    elim (Result-cases (route_to_bill db route_id user)) [
      | inr (e, refused) ↦ absurd (ground arith)
      | inl ((route, vehicle_id, total), billed) ↦
          elim (Result-cases (vehicle_contract tables vehicle_id user)) [
            | inr (e, refused) ↦ absurd (ground arith)
            | inl ((vehicle, contract), signed) ↦
                let slabs = active_slabs contract.contract_id tables.slabs in
                let (found, done, distance, driven) =
                  route_to_bill_lem db route_id user route vehicle_id total billed in
                let (one_vendor, own, listed, of_key) =
                  vehicle_contract_lem tables vehicle_id user vehicle contract signed in
                elim (Result-cases (calculate_progressive_cost total slabs)) [
                  | inr (e, refused) ↦ absurd (ground arith)
                  | inl (cost, summed) ↦
                      let of_total : r.total_distance ≡ total = ground arith in
                      let of_vehicle : r.vehicle_id ≡ vehicle.vehicle_id = ground arith in
                      let of_vendor : r.vendor_id ≡ contract.vendor_id = ground arith in
                      (
                        route,
                        vehicle,
                        found,
                        done,
                        of_total ∙ distance,
                        of_vendor ∙ one_vendor,
                        of_vehicle,
                        listed,
                        driven ∙ ap some (sym of_key),
                        own,
                      )
                ]
          ]
    ]

-- A vendor's user is billed only for a vehicle of that vendor, the one that the route was assigned,
-- by a contract of that vendor; the route is completed, and the distance is its own.
pub calculate_route_cost_own :
    (db : Db) (tables : VendorTables) (route_id v : ℕ) (user : User) (r : RouteCost)
    → user.user_type ≡ UserType.vendor
    → user.vendor_id ≡ some (suc v)
    → calculate_route_cost db tables route_id (some user) ≡ ok r
    → (route : Route) × (vehicle : Vehicle) × (find?
          (λ (x : Route). x.route_id == route_id)
          db.routes
        ≡ some route)
      × (route.status ≡ RouteStatus.completed)
      × (r.total_distance ≡ get_or route.actual_total_distance 0 * 1000)
      × Elem vehicle tables.vehicles
      × (r.vehicle_id ≡ vehicle.vehicle_id)
      × (route.assigned_vehicle_id ≡ some vehicle.vehicle_id)
      × (vehicle.vendor_id ≡ suc v)
      × (r.vendor_id ≡ suc v)
unfolding validate_vehicle_access
calculate_route_cost_own db tables route_id v user r is_vendor of_vendor h =
    let (route, vehicle, found, done, distance, one_vendor, billed, listed, driven, own) =
      calculate_route_cost-Stems db tables route_id (some user) r h in
    let owned : vehicle.vendor_id ≡ suc v = ground arith in
    (route, vehicle, found, done, distance, listed, billed, driven, owned, one_vendor ∙ owned)

route_access_error :
    (route : Route) (user : Option User) (e : ContractError)
    → validate_route_access route user ≡ err e
    → e ≢ invalid_slab_chain
unfolding validate_route_access
route_access_error route none e h = absurd (ground arith)
route_access_error route (some u) e h = ground arith

route_to_bill_error :
    (db : Db) (route_id : ℕ) (user : Option User) (e : ContractError)
    → route_to_bill db route_id user ≡ err e
    → e ≢ invalid_slab_chain
unfolding route_to_bill
route_to_bill_error db route_id user e h =
    elim (Option-cases (find? (λ (r : Route). r.route_id == route_id) db.routes)) [
      | inl missing ↦ ground arith
      | inr (r, found) ↦ elim (Result-cases (validate_route_access r user)) [
        | inr (e', refused) ↦ ground (arith, route_access_error r user e' refused)
        | inl (u, granted) ↦ ground arith
      ]
    ]

vehicle_access_error :
    (vehicle : Vehicle) (user : Option User) (e : ContractError)
    → validate_vehicle_access vehicle user ≡ err e
    → e ≢ invalid_slab_chain
unfolding validate_vehicle_access
vehicle_access_error vehicle none e h = absurd (ground arith)
vehicle_access_error vehicle (some u) e h = ground arith

vehicle_contract_error :
    (tables : VendorTables) (vehicle_id : ℕ) (user : Option User) (e : ContractError)
    → vehicle_contract tables vehicle_id user ≡ err e
    → e ≢ invalid_slab_chain
unfolding vehicle_contract
vehicle_contract_error tables vehicle_id user e h =
    elim (Option-cases (find? (λ (v : Vehicle). v.vehicle_id == vehicle_id) tables.vehicles)) [
      | inl missing ↦ ground arith
      | inr (v, found) ↦ elim (Result-cases (validate_vehicle_access v user)) [
        | inr (e', refused) ↦ ground (arith, vehicle_access_error v user e' refused)
        | inl (u, granted) ↦
            elim (Option-cases (
              find? (λ (c : Contract.Contract). c.contract_id == get_or v.contract_id 0)
                tables.contracts)) [ inl missing ↦ ground arith | inr (c, signed) ↦ ground arith ]
      ]
    ]

-- Where the active slabs of every contract are none, or a chain from 0 km, no bill is refused for a
-- gap or an overlap of slabs.
pub calculate_route_cost-IsChained :
    (db : Db) (tables : VendorTables) (route_id : ℕ) (user : Option User) (e : ContractError)
    → IsChained tables.slabs
    → calculate_route_cost db tables route_id user ≡ err e
    → e ≢ invalid_slab_chain
unfolding calculate_route_cost
calculate_route_cost-IsChained db tables route_id user e chained h =
    elim (Result-cases (route_to_bill db route_id user)) [
      | inr (e', refused) ↦ ground (arith, route_to_bill_error db route_id user e' refused)
      | inl ((route, vehicle_id, total), billed) ↦
          elim (Result-cases (vehicle_contract tables vehicle_id user)) [
            | inr (e', refused) ↦
                ground (arith, vehicle_contract_error tables vehicle_id user e' refused)
            | inl ((vehicle, contract), signed) ↦
                let slabs = active_slabs contract.contract_id tables.slabs in
                elim (calculate_progressive_cost-covers total slabs
                  (chained contract.contract_id)) [
                    | inl (cost, summed) ↦ ground arith
                    | inr (bounded, left, more, refused) ↦ ground arith
                  ]
          ]
    ]
