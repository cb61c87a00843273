-- ===== src/Routes/Served.antt =====
-- Which vehicle and driver serve a route (`assign_vehicle_to_route` in
-- app/routes/route_management.py).
use fleet_manager.Prelude.{
  is_key-some, ℕ, ◌≡◌, refl, ap, subst, Bool, true, false, not, ◌&&◌, Option, none, some, arith,
  ◌==◌, find?, find?-true, is_key, is_truthy, Elem, Bool-cases, inl, inr, ◌⊎◌,
}
use fleet_manager.Prelude.Result.{ok, bind-eq-ok, raise_if-eq-ok, or_raise-eq-ok, ok_injective}
use fleet_manager.Store.{Db, Route, RouteStatus, Vehicle, get_config, put_route}
use fleet_manager.Trip.Completion.{Good}
use fleet_manager.Duty.{check_rest}
use fleet_manager.Routes.{RouteError, Planner, route_of_tenant}
use fleet_manager.Routes.Assign.{
  DriverRow, Fleet, is_vendor_of, is_foreign_vendor, ready_pair, max_duty_of, is_blocking,
  with_vehicle, assign_rested, assign_vehicle_to_route,
}
use fleet_manager.Routes.Kept.{put_route-Good, advanced_lem, route_of_tenant_lem}

-- A vehicle of the vendor of a route, and the driver that is mapped to it.
pub record IsReady (fleet : Fleet) (tenant_id : ℕ) (owner : Option ℕ) (vehicle_id : ℕ)
    (vehicle : Vehicle) (driver : DriverRow) : Type 0 where
  pub vehicle_there : Elem vehicle fleet.vehicles
  pub driver_there : Elem driver fleet.drivers
  pub asked_for : vehicle.vehicle_id ≡ vehicle_id
  pub vendor_of_tenant : is_vendor_of fleet tenant_id vehicle.vendor_id ≡ true
  pub vehicle_of_vendor : owner ≡ some vehicle.vendor_id
  pub driver_of_vendor : owner ≡ some driver.vendor_id
  pub mapped : vehicle.driver_id ≡ some driver.driver_id
  pub vehicle_active : vehicle.is_active ≡ true
  pub driver_active : driver.is_active ≡ true

not-false : (b : Bool) → not b ≡ false → b ≡ true
not-false true h = refl
not-false false h = cc

ready_pair-IsReady :
    (fleet : Fleet) (tenant_id : ℕ) (owner : Option ℕ) (vehicle_id : ℕ) (p : Vehicle × DriverRow)
    → ready_pair fleet tenant_id owner vehicle_id ≡ ok p
    → IsReady fleet tenant_id owner vehicle_id p.0 p.1
unfolding ready_pair
ready_pair-IsReady fleet tenant_id owner vehicle_id p h =
    let is_asked =
      λ (v : Vehicle). v.vehicle_id == vehicle_id && is_vendor_of fleet tenant_id v.vendor_id in
    let (v, fv, h1) =
      or_raise-eq-ok (find? is_asked fleet.vehicles) RouteError.vehicle_not_found _ h in
    let (tv, mv) = find?-true is_asked fleet.vehicles fv in
    let (ov, h2) =
      raise_if-eq-ok (not (is_key owner v.vendor_id)) RouteError.route_vehicle_vendor_mismatch _
        h1 in
    let (av, h3) = raise_if-eq-ok (not v.is_active) RouteError.vehicle_inactive _ h2 in
    let (kv, h4) = raise_if-eq-ok (not (is_truthy v.driver_id)) RouteError.vehicle_no_driver _ h3 in
    let is_mapped = λ (d : DriverRow).
      is_key v.driver_id d.driver_id
      && d.vendor_id == v.vendor_id
      && is_vendor_of fleet tenant_id d.vendor_id in
    let (d, fd, h5) =
      or_raise-eq-ok (find? is_mapped fleet.drivers) RouteError.driver_not_linked_to_vehicle _ h4 in
    let (td, md) = find?-true is_mapped fleet.drivers fd in
    let (od, h6) =
      raise_if-eq-ok (not (is_key owner d.vendor_id)) RouteError.driver_vendor_mismatch _ h5 in
    let (ad, h7) = raise_if-eq-ok (not d.is_active) RouteError.driver_inactive _ h6 in
    let (kd, h8) =
      raise_if-eq-ok (not (is_key v.driver_id d.driver_id)) RouteError.vehicle_driver_mismatch _
        h7 in
    let e : (v, d) ≡ p = ok_injective _ _ h8 in
    subst (λ (p : Vehicle × DriverRow). IsReady fleet tenant_id owner vehicle_id p.0 p.1) e
      (record {
        vehicle_there = mv;
        driver_there = md;
        asked_for = ground arith;
        vendor_of_tenant = ground arith;
        vehicle_of_vendor = is_key-some owner v.vendor_id (not-false _ ov);
        driver_of_vendor = is_key-some owner d.vendor_id (not-false _ od);
        mapped = is_key-some v.driver_id d.driver_id (not-false _ kd);
        vehicle_active = not-false _ av;
        driver_active = not-false _ ad;
      })

-- What is committed: nothing where the route has both already, else both, by a driver who has
-- rested unless the tenant only wants a warning.
pub data Serves (db : Db) (user : Planner) (now : ℕ) (route : Route) (vehicle : Vehicle)
    (driver : DriverRow) : Db → Bool → Type 0 where
  unchanged :
      route.assigned_vehicle_id ≡ some vehicle.vehicle_id
      → route.assigned_driver_id ≡ some driver.driver_id
      → Serves db user now route vehicle driver db false
  changed :
      (warned : Bool)
      → not (check_rest db driver.driver_id now (max_duty_of (get_config db user.tenant_id))).is_ok
        ≡ warned
      → (warned ≡ true → is_blocking (get_config db user.tenant_id) ≡ false)
      → Serves db user now route vehicle driver
          (put_route (with_vehicle route vehicle.vehicle_id driver.driver_id) db)
          warned

pub assign_rested-Serves :
    (db : Db) (user : Planner) (now : ℕ) (route : Route) (vehicle : Vehicle) (driver : DriverRow)
    (db' : Db) (warned : Bool)
    → assign_rested db route vehicle.vehicle_id driver.driver_id
        (is_blocking (get_config db user.tenant_id))
        (check_rest db driver.driver_id now (max_duty_of (get_config db user.tenant_id)))
      ≡ ok (db', warned)
    → Serves db user now route vehicle driver db' warned
assign_rested-Serves db user now route vehicle driver db' warned h =
    let rest = check_rest db driver.driver_id now (max_duty_of (get_config db user.tenant_id)) in
    let blocking = is_blocking (get_config db user.tenant_id) in
    let (unblocked, h1) =
      raise_if-eq-ok (not rest.is_ok && blocking) RouteError.driver_insufficient_rest _ h in
    let e =
      ok_injective
        (put_route (with_vehicle route vehicle.vehicle_id driver.driver_id) db, not rest.is_ok)
        (db', warned) h1 in
    subst (λ (p : Db × Bool). Serves db user now route vehicle driver p.0 p.1) e
      (changed (not rest.is_ok) refl (λ t. rw t at unblocked))

-- Nobody acts for another vendor than the route's.
own_vendor :
    (mine owner : Option ℕ)
    → is_foreign_vendor mine owner ≡ false
    → is_truthy mine ≡ false ⊎ (mine ≡ owner)
own_vendor none owner h = inl refl
own_vendor (some k) none h = inl (ground arith)
own_vendor (some k) (some j) h = elim (Bool-cases (is_truthy (some k))) [
  | inl t ↦ inr (ap some (ground arith))
  | inr f ↦ inl f
]

-- An accepted assignment is for a route of the planner's tenant, which has a vendor, the planner's
-- own if the planner acts for one; the vehicle and the driver who is mapped to it are active and of
-- that vendor, a vendor of the tenant. Nothing changes if the route has both already. Else the
-- route gets both, and the reply warns exactly if the driver's rest is too short, which it may be
-- only where the tenant does not block such assignments.
pub assign_vehicle_to_route-Serves :
    (fleet : Fleet) (db : Db) (user : Planner) (route_id vehicle_id now : ℕ) (db' : Db)
    (warned : Bool)
    → assign_vehicle_to_route fleet db user route_id vehicle_id now ≡ ok (db', warned)
    → (route : Route) × (vehicle : Vehicle) × (driver : DriverRow) × Elem route db.routes
      × (route.route_id ≡ route_id)
      × (route.tenant_id ≡ user.tenant_id)
      × (is_truthy user.vendor_id ≡ false ⊎ (user.vendor_id ≡ route.assigned_vendor_id))
      × IsReady fleet user.tenant_id route.assigned_vendor_id vehicle_id vehicle driver
      × Serves db user now route vehicle driver db' warned
unfolding assign_vehicle_to_route
assign_vehicle_to_route-Serves fleet db user route_id vehicle_id now db' warned h =
    let (route, fr, h1) =
      or_raise-eq-ok (route_of_tenant db user.tenant_id route_id) RouteError.route_not_found _ h in
    let (owned, h2) =
      raise_if-eq-ok (not (is_truthy route.assigned_vendor_id)) RouteError.vendor_not_assigned _
        h1 in
    let (mine, h3) =
      raise_if-eq-ok (is_foreign_vendor user.vendor_id route.assigned_vendor_id)
        RouteError.vendor_route_mismatch _ h2 in
    let (p, fp, h4) =
      bind-eq-ok (ready_pair fleet user.tenant_id route.assigned_vendor_id vehicle_id) _ h3 in
    let ready = ready_pair-IsReady fleet user.tenant_id route.assigned_vendor_id vehicle_id p fp in
    let (m, i, t) = route_of_tenant_lem db user.tenant_id route_id route fr in
    let same =
      is_key route.assigned_vehicle_id p.0.vehicle_id
      && is_key route.assigned_driver_id p.1.driver_id in
    let serves : Serves db user now route p.0 p.1 db' warned = elim (Bool-cases same) [
      | inl s ↦
          let e = ok_injective (db, false) (db', warned) (rw s at h4) in
          subst (λ (q : Db × Bool). Serves db user now route p.0 p.1 q.0 q.1) e
            (unchanged (is_key-some route.assigned_vehicle_id p.0.vehicle_id (ground arith))
              (is_key-some route.assigned_driver_id p.1.driver_id (ground arith)))
      | inr n ↦ assign_rested-Serves db user now route p.0 p.1 db' warned (rw n at h4)
    ] in
    (
      route,
      p.0,
      p.1,
      m,
      i,
      t,
      own_vendor user.vendor_id route.assigned_vendor_id mine,
      ready,
      serves,
    )

Serves-Good :
    (db : Db) (user : Planner) (now : ℕ) (route : Route) (vehicle : Vehicle) (driver : DriverRow)
    (db' : Db) (warned : Bool)
    → Elem route db.routes
    → Serves db user now route vehicle driver db' warned
    → Good db
    → Good db'
Serves-Good db user now route vehicle driver db' warned m (unchanged ev ed) good = good
Serves-Good db user now route vehicle driver db' warned m (changed w ew allowed) good =
    put_route-Good db route (with_vehicle route vehicle.vehicle_id driver.driver_id) m refl
      (advanced_lem RouteStatus.vendor_assigned RouteStatus.driver_assigned route.status
        (λ e. absurd (cc)))
      good

pub assign_vehicle_to_route-Good :
    (fleet : Fleet) (db : Db) (user : Planner) (route_id vehicle_id now : ℕ) (db' : Db)
    (warned : Bool)
    → assign_vehicle_to_route fleet db user route_id vehicle_id now ≡ ok (db', warned)
    → Good db
    → Good db'
assign_vehicle_to_route-Good fleet db user route_id vehicle_id now db' warned h good =
    let (route, vehicle, driver, m, _, _, _, _, serves) =
      assign_vehicle_to_route-Serves fleet db user route_id vehicle_id now db' warned h in
    Serves-Good db user now route vehicle driver db' warned m serves good
