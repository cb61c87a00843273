-- ===== src/Routes/Kept.antt =====
-- What the assignments of vendors and escorts keep (app/routes/route_management.py).
use fleet_manager.Prelude.{
  ℕ, ◌≡◌, refl, ◌∙◌, ap, subst, ◌≢◌, not, ◌&&◌, Option, none, some, List, [], ◌∷◌, arith, ◌==◌,
  find?, find?-true, is_truthy, Elem, Bool-cases, inl, inr,
}
use fleet_manager.Prelude.Result.{ok, bind-eq-ok, raise_if-eq-ok, or_raise-eq-ok, ok_injective}
use fleet_manager.Store.{Db, Route, RouteStatus, put_route}
use fleet_manager.Trip.Types.{eq_route_status}
use fleet_manager.Trip.Completion.{Good, route_write-IsKeyed, route_write-IsSettled}
use fleet_manager.Routes.{RouteError, Planner, route_of_tenant}
use fleet_manager.Routes.Build.{unique_ids}
use fleet_manager.Routes.Assign.{
  Fleet, is_vendor_of, assigning_tenant, find_vendor, advanced, with_vendor, assign_vendor_to_route,
  Assigned, assign_free, assign_all, assign_vendor_to_routes_bulk, escorting_tenant,
  assign_escort_to_route,
}

-- A write of a route's row that does not complete the route.
pub put_route-Good :
    (db : Db) (old new : Route)
    → Elem old db.routes
    → new.route_id ≡ old.route_id
    → (new.status ≡ RouteStatus.completed → old.status ≡ RouteStatus.completed)
    → Good db
    → Good (put_route new db)
put_route-Good db old new m e done good = (
  route_write-IsKeyed good new (put_route new db) refl refl,
  route_write-IsSettled good new (put_route new db) refl refl refl
      (λ d l b ml mb el eb. good.1 old l b m ml mb (done d) (el ∙ e) eb),
)

pub advanced_lem :
    (from to s : RouteStatus)
    → to ≢ RouteStatus.completed
    → advanced from to s ≡ RouteStatus.completed
    → s ≡ RouteStatus.completed
advanced_lem from to s unfinished e = elim (Bool-cases (eq_route_status s from)) [
  | inl t ↦ absurd (unfinished (rw t at e))
  | inr f ↦ rw f at e
]

pub route_of_tenant_lem :
    (db : Db) (tenant_id route_id : ℕ) (r : Route)
    → route_of_tenant db tenant_id route_id ≡ some r
    → Elem r db.routes × (r.route_id ≡ route_id) × (r.tenant_id ≡ tenant_id)
route_of_tenant_lem db tenant_id route_id r h =
    let (t, m) = find?-true (λ r. r.route_id == route_id && r.tenant_id == tenant_id) db.routes h in
    (m, ground arith, ground arith)

with_vendor-Good :
    (db : Db) (route : Route) (vendor_id : ℕ)
    → Elem route db.routes
    → Good db
    → Good (put_route (with_vendor route vendor_id) db)
with_vendor-Good db route vendor_id m good =
    put_route-Good db route (with_vendor route vendor_id) m refl
      (advanced_lem RouteStatus.planned RouteStatus.vendor_assigned route.status (λ e. absurd (cc)))
      good

pub assign_vendor_to_route-Good :
    (fleet : Fleet) (db : Db) (user : Planner) (asked : Option ℕ) (route_id vendor_id : ℕ)
    (db' : Db)
    → assign_vendor_to_route fleet db user asked route_id vendor_id ≡ ok db'
    → Good db
    → Good db'
unfolding assign_vendor_to_route
assign_vendor_to_route-Good fleet db user asked route_id vendor_id db' h good =
    let (tenant_id, ft, h1) = bind-eq-ok (assigning_tenant user asked) _ h in
    let (route, fr, h2) =
      or_raise-eq-ok (route_of_tenant db tenant_id route_id) RouteError.route_not_found _ h1 in
    let (vendor, fv, h3) =
      or_raise-eq-ok (find_vendor fleet tenant_id vendor_id) RouteError.vendor_not_found _ h2 in
    let (m, _, _) = route_of_tenant_lem db tenant_id route_id route fr in
    subst Good (ok_injective _ _ h3) (with_vendor-Good db route vendor_id m good)

assign_free-Good :
    (db : Db) (vendor_id : ℕ) (o : Option Route)
    → ((r : Route) → o ≡ some r → Elem r db.routes)
    → Good db
    → Good (assign_free db vendor_id o).0
assign_free-Good db vendor_id none there_is good = good
assign_free-Good db vendor_id (some route) there_is good =
    elim (Bool-cases (is_truthy route.assigned_vendor_id)) [
      | inl t ↦ rw t good
      | inr f ↦ rw f (with_vendor-Good db route vendor_id (there_is route refl) good)
    ]

pub assign_all-Good :
    (ids : List ℕ) (db : Db) (tenant_id vendor_id : ℕ)
    → Good db
    → Good (assign_all db tenant_id vendor_id ids).0
assign_all-Good [] db tenant_id vendor_id good = good
assign_all-Good (i ∷ ids) db tenant_id vendor_id good =
    assign_all-Good ids (assign_free db vendor_id (route_of_tenant db tenant_id i)).0 tenant_id
      vendor_id
      (assign_free-Good db vendor_id (route_of_tenant db tenant_id i)
        (λ r e. (route_of_tenant_lem db tenant_id i r e).0) good)

pub assign_vendor_to_routes_bulk-Good :
    (fleet : Fleet) (db : Db) (user : Planner) (asked : Option ℕ) (ids : List ℕ) (vendor_id : ℕ)
    (db' : Db) (reply : List (ℕ × Assigned))
    → assign_vendor_to_routes_bulk fleet db user asked ids vendor_id ≡ ok (db', reply)
    → Good db
    → Good db'
unfolding assign_vendor_to_routes_bulk
assign_vendor_to_routes_bulk-Good fleet db user asked ids vendor_id db' reply h good =
    let (tenant_id, ft, h1) = bind-eq-ok (assigning_tenant user asked) _ h in
    let (vendor, fv, h2) =
      or_raise-eq-ok (find_vendor fleet tenant_id vendor_id) RouteError.vendor_not_found _ h1 in
    subst Good (ap (λ (p : Db × List (ℕ × Assigned)). p.0) (ok_injective _ _ h2))
      (assign_all-Good (unique_ids ids) db tenant_id vendor_id good)

pub assign_escort_to_route-Good :
    (fleet : Fleet) (db : Db) (user : Planner) (asked : Option ℕ) (route_id escort_id now : ℕ)
    (db' : Db)
    → assign_escort_to_route fleet db user asked route_id escort_id now ≡ ok db'
    → Good db
    → Good db'
unfolding assign_escort_to_route
assign_escort_to_route-Good fleet db user asked route_id escort_id now db' h good =
    let (tenant_id, ft, h1) = bind-eq-ok (escorting_tenant user asked) _ h in
    let (route, fr, h2) =
      or_raise-eq-ok (route_of_tenant db tenant_id route_id) RouteError.route_not_found _ h1 in
    let (escort, fe, h3) =
      or_raise-eq-ok
        (find? (λ e. e.escort_id == escort_id && is_vendor_of fleet tenant_id e.vendor_id)
          fleet.escorts)
        RouteError.escort_not_found _ h2 in
    let (available, h4) =
      raise_if-eq-ok (not escort.is_available) RouteError.escort_not_available _ h3 in
    let (m, _, _) = route_of_tenant_lem db tenant_id route_id route fr in
    subst Good (ok_injective _ _ h4) (
      put_route-Good db route
        (record route { assigned_escort_id = some escort_id; updated_at = now }) m refl (λ d. d)
        good)
