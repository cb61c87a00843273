-- ===== src/Routes/Updated.antt =====
-- The stops of a route after an update (`update_route` in app/routes/route_management.py).
use fleet_manager.Prelude.{
  ℕ, ◌≡◌, ◌≢◌, sym, ap, subst, Bool, true, false, ◌&&◌, Option, List, arith, ◌==◌, map, any,
  any-false, Elem,
}
use fleet_manager.Prelude.Result.{
  Result, ok, err, ◌>>=◌, or_raise, bind-eq-ok, raise_if-eq-ok, or_raise-eq-ok, ok_injective,
}
use fleet_manager.Store.{Db, Route, RouteManagementBooking, Point, get_config}
use fleet_manager.Enforcement.{Conflict, conflicts_in, enforce_one_trip_per_shift}
use fleet_manager.Enforcement.Laws.{enforce_one_trip_per_shift-IsEnforced}
use fleet_manager.Bookings.{Registry, get_tenant}
use fleet_manager.Routes.{RouteError, Planner, route_of_tenant}
use fleet_manager.Routes.Optimal.{Query, Directions}
use fleet_manager.Routes.Complete.{OrdersWaypoints}
use fleet_manager.Routes.Build.{is_empty}
use fleet_manager.Routes.Kept.{route_of_tenant_lem}
use fleet_manager.Routes.Rework.{links_of, get_each}
use fleet_manager.Routes.Restopped.{Restops, updated_route-Restops}
use fleet_manager.Routes.Targets.{IsIteration, IsOneTrip, IsUpdated, changed_ids-Target}
use fleet_manager.Routes.Update.{
  Operation, updating_tenant, one_trip_enabled, auto_move_enabled, raise_conflict, enforced,
  changed_ids, update_route,
}

-- What is left of the links of other routes before the stops are written.
record Enforced (operation : Operation) (db db₁ : Db) (tenant_id route_id : ℕ) (requested : List ℕ)
    : Type 0 where
  links_old : (l : RouteManagementBooking) → Elem l db₁.links → Elem l db.links
  clear :
      IsOneTrip operation (get_config db tenant_id)
      → (k : ℕ) → Elem k requested
      → any (conflicts_in route_id tenant_id db.routes k) db₁.links ≡ false

raise_conflict-eq-ok : (r : Result Conflict Db) (db : Db) → raise_conflict r ≡ ok db → r ≡ ok db
raise_conflict-eq-ok (ok d) db h = ap ok (ok_injective d db h)
raise_conflict-eq-ok (err c) db h = absurd (cc)

policy_lem :
    (enabled auto_move : Bool) (db : Db) (route_id tenant_id : ℕ) (requested : List ℕ) (db₁ : Db)
    → enforce_one_trip_per_shift db route_id tenant_id requested enabled auto_move ≡ ok db₁
    → ((l : RouteManagementBooking) → Elem l db₁.links → Elem l db.links)
      × (enabled ≡ true
          → (k : ℕ) → Elem k requested
          → any (conflicts_in route_id tenant_id db.routes k) db₁.links ≡ false)
unfolding enforce_one_trip_per_shift
policy_lem true auto_move db route_id tenant_id requested db₁ h =
    let is = enforce_one_trip_per_shift-IsEnforced route_id tenant_id auto_move db requested h in
    (
      is.shrinks.links_old,
      λ t k m.
          subst (λ rs. any (conflicts_in route_id tenant_id rs k) db₁.links ≡ false)
            is.shrinks.routes_kept (is.clear k m),
    )
policy_lem false auto_move db route_id tenant_id requested db₁ h =
    let e = ok_injective db db₁ h in
    ((λ l m. subst (λ (d : Db). Elem l d.links) (sym e) m), (λ t. absurd (cc)))

enforced-Enforced :
    (operation : Operation) (db : Db) (route_id tenant_id : ℕ) (requested : List ℕ) (db₁ : Db)
    → enforced operation db route_id tenant_id requested ≡ ok db₁
    → Enforced operation db db₁ tenant_id route_id requested
unfolding enforced
enforced-Enforced Operation.add db route_id tenant_id requested db₁ h =
    let config = get_config db tenant_id in
    let enabled = one_trip_enabled config in
    let auto_move = auto_move_enabled config in
    let (old, clear) = policy_lem enabled auto_move db route_id tenant_id requested db₁ (
      raise_conflict-eq-ok
        (enforce_one_trip_per_shift db route_id tenant_id requested enabled auto_move) db₁ h) in
    record { links_old = old; clear = λ one k m. clear one.1 k m }
enforced-Enforced Operation.remove db route_id tenant_id requested db₁ h =
    let e = ok_injective db db₁ h in
    record {
      links_old = λ l m. subst (λ (d : Db). Elem l d.links) (sym e) m;
      clear = λ one k m. let adding = one.0 in absurd (cc);
    }

-- A link that does not clash is on a route that is not active.
no_clash :
    (route_id tenant_id : ℕ) (routes : List Route) (l : RouteManagementBooking) (r : Route)
    → conflicts_in route_id tenant_id routes l.booking_id l ≡ false
    → l.route_id ≢ route_id
    → Elem r routes
    → r.route_id ≡ l.route_id
    → r.tenant_id ≡ tenant_id
    → r.is_active ≡ false
no_clash route_id tenant_id routes l r free other m same tenant =
    let is_on =
      λ (r : Route). r.route_id == l.route_id && r.tenant_id == tenant_id && r.is_active in
    let nowhere : any is_on routes ≡ false = ground arith in
    let off = any-false is_on routes nowhere m in ground arith

module _ (directions : Query → Option Directions) (haversine : Point → Point → ℕ)
    (all : OrdersWaypoints directions) where
  -- An accepted update is for a route of the planner's tenant, and leaves this route with stops for
  -- exactly its former bookings and those asked for, or exactly its former bookings without those
  -- asked for; links of other routes are at most dropped. If the tenant wants one trip per shift, no
  -- added booking stays on another active route of the tenant. The road service orders all the
  -- waypoints it is given, and a pass through a set meets its members and no other number.
  pub update_route-IsUpdated :
      (iterate : List ℕ → List ℕ) (reg : Registry) (db : Db) (user : Planner) (asked : Option ℕ)
      (route_id : ℕ) (operation : Operation) (ids : List ℕ) (now : ℕ) (db' : Db)
      → IsIteration iterate
      → update_route directions haversine iterate reg db user asked route_id operation ids now
        ≡ ok db'
      → (tenant_id : ℕ) × (route : Route) × (updating_tenant user asked ≡ ok tenant_id)
        × Elem route db.routes
        × (route.route_id ≡ route_id)
        × (route.tenant_id ≡ tenant_id)
        × IsUpdated operation db db' tenant_id route_id ids
  unfolding update_route
  update_route-IsUpdated iterate reg db user asked route_id operation ids now db' pass h =
      let (tenant_id, ft, h1) = bind-eq-ok (updating_tenant user asked) _ h in
      let (tenant, fn, h2) =
        bind-eq-ok
          (or_raise (get_tenant reg tenant_id) RouteError.tenant_not_found >>= λ tenant. ok tt) _
          h1 in
      let (some_ids, h3) = raise_if-eq-ok (is_empty ids) RouteError.no_bookings_provided _ h2 in
      let (route, fr, h4) =
        or_raise-eq-ok (route_of_tenant db tenant_id route_id) RouteError.route_not_found _ h3 in
      let cur = map (λ (l : RouteManagementBooking). l.booking_id) (links_of db route_id) in
      let requested = iterate ids in
      let (rows, fw, h5) = bind-eq-ok (get_each db requested) _ h4 in
      let (db₁, fe, h6) = bind-eq-ok (enforced operation db route_id tenant_id requested) _ h5 in
      let changed = changed_ids operation cur requested in
      let (m, key, own) = route_of_tenant_lem db tenant_id route_id route fr in
      let policy = enforced-Enforced operation db route_id tenant_id requested db₁ fe in
      let restops : Restops db₁ db' route_id (iterate changed) =
        subst (λ k. Restops db₁ db' k (iterate changed)) key
          (updated_route-Restops directions haversine all db₁ route cur requested (iterate changed)
            now db' h6) in
      let target = changed_ids-Target db route_id operation ids requested (λ k. pass k ids) in
      let updated : IsUpdated operation db db' tenant_id route_id ids = record {
        stops = λ k. (
          (λ linked. (target k).0 ((pass k changed).0 ((restops.stops k).0 linked))),
          (λ t. (restops.stops k).1 ((pass k changed).1 ((target k).1 t))),
        );
        other_links = λ l ml other. policy.links_old l (restops.other_links l ml other);
        no_other_trip = λ one l ml asked_for other r mr same tenant.
            no_clash route_id tenant_id db.routes l r
              (any-false (conflicts_in route_id tenant_id db.routes l.booking_id) db₁.links
                (policy.clear one l.booking_id ((pass l.booking_id ids).1 asked_for))
                (restops.other_links l ml other))
              other mr same tenant;
      } in
      (tenant_id, route, ft, m, key, own, updated)
