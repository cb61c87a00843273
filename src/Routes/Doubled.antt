-- ===== src/Routes/Doubled.antt =====
-- A second route under way for one driver (`assign_vehicle_to_route` in
-- app/routes/route_management.py, which does not read the status of the route).
use fleet_manager.Prelude.{
  is_key-some, not, ◌&&◌, Option, none, is_truthy, is_key, Bool-cases, ◌⊎◌, inl, inr, ℕ, ◌≡◌, refl,
  sym, ◌∙◌, ◌≢◌, Bool, true, false, some, arith, Elem-replace_new, Elem-replace_other, Elem,
}
use fleet_manager.Prelude.Result.{ok}
use fleet_manager.Store.{Db, Route, RouteStatus, Vehicle, get_config, put_route}
use fleet_manager.Trip.Exclusive.{IsExclusive}
use fleet_manager.Duty.{check_rest}
use fleet_manager.Routes.{Planner, route_of_tenant}
use fleet_manager.Routes.Kept.{route_of_tenant_lem}
use fleet_manager.Routes.Assign.{
  DriverRow, Fleet, is_foreign_vendor, ready_pair, max_duty_of, is_blocking, assign_rested,
  with_vehicle, assign_vehicle_to_route,
}
use fleet_manager.Routes.Served.{Serves, unchanged, changed, assign_rested-Serves}

module _ {db : Db} {user : Planner} {now : ℕ} {route : Route} {vehicle : Vehicle}
    {driver : DriverRow} (m : Elem route db.routes) (going : route.status ≡ RouteStatus.ongoing)
    (other : Route) (mo : Elem other db.routes) (apart : other.route_id ≢ route.route_id)
    (tenant : other.tenant_id ≡ route.tenant_id) (busy : other.status ≡ RouteStatus.ongoing)
    (his : other.assigned_driver_id ≡ some driver.driver_id) where
  Serves-doubled :
      (db' : Db) (warned : Bool)
      → Serves db user now route vehicle driver db' warned
      → ¬ IsExclusive db'.routes
  Serves-doubled db' warned (unchanged ev ed) ex =
      apart (ex other route mo m (busy, going, tenant, driver.driver_id, his, ed))
  Serves-doubled db' warned (changed w ew allowed) ex =
      let new = with_vehicle route vehicle.vehicle_id driver.driver_id in
      let still : new.status ≡ RouteStatus.ongoing = rw going refl in
      apart (
        ex other new (Elem-replace_other (λ r. r.route_id) new db.routes mo apart)
          (Elem-replace_new (λ r. r.route_id) new db.routes m refl)
          (busy, still, tenant, driver.driver_id, his, refl))

not_foreign :
    (mine owner : Option ℕ)
    → (is_truthy mine ≡ false) ⊎ (mine ≡ owner)
    → is_foreign_vendor mine owner ≡ false
not_foreign mine owner (inl f) = rw f refl
not_foreign none none (inr e) = refl
not_foreign none (some j) (inr e) = refl
not_foreign (some k) none (inr e) = absurd (cc)
not_foreign (some k) (some j) (inr e) = ground arith

-- What the tenant asks of the driver's rest.
abbrev pub MayServe : Db → Planner → ℕ → ℕ → Type 0
MayServe db user driver_id now =
    ((check_rest db driver_id now (max_duty_of (get_config db user.tenant_id))).is_ok ≡ true)
    ⊎ (is_blocking (get_config db user.tenant_id) ≡ false)

MayServe-test :
    (db : Db) (user : Planner) (driver_id now : ℕ)
    → MayServe db user driver_id now
    → (not (check_rest db driver_id now (max_duty_of (get_config db user.tenant_id))).is_ok
        && is_blocking (get_config db user.tenant_id))
      ≡ false
MayServe-test db user driver_id now (inl e) = rw e refl
MayServe-test db user driver_id now (inr e) = ground arith

-- The checks of the route, the vehicle, the driver and the rest are all: where they pass, the
-- assignment is accepted.
assign_vehicle_to_route-accepts :
    (fleet : Fleet) (db : Db) (user : Planner) (route_id vehicle_id now : ℕ) (going : Route)
    (vehicle : Vehicle) (driver : DriverRow)
    → route_of_tenant db user.tenant_id route_id ≡ some going
    → is_truthy going.assigned_vendor_id ≡ true
    → is_foreign_vendor user.vendor_id going.assigned_vendor_id ≡ false
    → ready_pair fleet user.tenant_id going.assigned_vendor_id vehicle_id ≡ ok (vehicle, driver)
    → MayServe db user driver.driver_id now
    → (db' : Db) × (warned : Bool) × (assign_vehicle_to_route fleet db user route_id vehicle_id now
        ≡ ok (db', warned))
      × Serves db user now going vehicle driver db' warned
unfolding assign_vehicle_to_route
assign_vehicle_to_route-accepts fleet db user route_id vehicle_id now going vehicle driver found
      owned mine paired may =
    let rest = check_rest db driver.driver_id now (max_duty_of (get_config db user.tenant_id)) in
    let blocking = is_blocking (get_config db user.tenant_id) in
    let passed = MayServe-test db user driver.driver_id now may in
    let has_vehicle = is_key going.assigned_vehicle_id vehicle.vehicle_id in
    let has_driver = is_key going.assigned_driver_id driver.driver_id in
    let rested : assign_rested db going vehicle.vehicle_id driver.driver_id blocking rest
        ≡ ok (
          put_route (with_vehicle going vehicle.vehicle_id driver.driver_id) db,
          not rest.is_ok,
        ) =
      rw passed refl in
    elim (Bool-cases (has_vehicle && has_driver)) [
      | inl s ↦ (
        db,
        false,
        rw found (rw owned (rw mine (rw paired (rw s refl)))),
        unchanged (is_key-some going.assigned_vehicle_id vehicle.vehicle_id (ground arith))
            (is_key-some going.assigned_driver_id driver.driver_id (ground arith)),
      )
      | inr n ↦ (
        put_route (with_vehicle going vehicle.vehicle_id driver.driver_id) db,
        not rest.is_ok,
        rw found (rw owned (rw mine (rw paired (rw n rested)))),
        assign_rested-Serves db user now going vehicle driver _ (not rest.is_ok) rested,
      )
    ]

-- A vehicle is assigned to a route under way, though its driver has another route of the tenant
-- under way: where the route has a vendor, the planner's own if the planner acts for one, the
-- vehicle and the driver pass their checks, and the driver has rested or the tenant only wants a
-- warning, the assignment is accepted, and then the driver has two routes under way.
pub assign_vehicle_to_route_doubles :
    (fleet : Fleet) (db : Db) (user : Planner) (route_id vehicle_id now : ℕ) (going other : Route)
    (vehicle : Vehicle) (driver : DriverRow)
    → route_of_tenant db user.tenant_id route_id ≡ some going
    → going.status ≡ RouteStatus.ongoing
    → is_truthy going.assigned_vendor_id ≡ true
    → (is_truthy user.vendor_id ≡ false) ⊎ (user.vendor_id ≡ going.assigned_vendor_id)
    → ready_pair fleet user.tenant_id going.assigned_vendor_id vehicle_id ≡ ok (vehicle, driver)
    → MayServe db user driver.driver_id now
    → Elem other db.routes
    → other.route_id ≢ route_id
    → other.tenant_id ≡ user.tenant_id
    → other.status ≡ RouteStatus.ongoing
    → other.assigned_driver_id ≡ some driver.driver_id
    → (db' : Db) × (warned : Bool) × (assign_vehicle_to_route fleet db user route_id vehicle_id now
        ≡ ok (db', warned))
      × ¬ IsExclusive db'.routes
assign_vehicle_to_route_doubles fleet db user route_id vehicle_id now going other vehicle driver
      found sg owned mine paired may mo eo to so od =
    let (m, i, t) = route_of_tenant_lem db user.tenant_id route_id going found in
    let (db', warned, accepted, serves) =
      assign_vehicle_to_route-accepts fleet db user route_id vehicle_id now going vehicle driver
        found owned (not_foreign user.vendor_id going.assigned_vendor_id mine) paired may in
    (
      db',
      warned,
      accepted,
      Serves-doubled m sg other mo (λ e. eo (e ∙ i)) (to ∙ sym t) so od db' warned serves,
    )
