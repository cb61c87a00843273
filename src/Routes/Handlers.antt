-- ===== src/Routes/Handlers.antt =====
-- The handlers that make, merge and delete routes, one by one (app/routes/route_management.py).
use fleet_manager.Prelude.{
  ℕ, ◌≡◌, sym, ap, subst, Bool, true, false, not, ◌&&◌, Option, none, List, [], ◌∷◌, arith, ◌==◌,
  filter, map, Elem, Elem-filter,
}
use fleet_manager.Prelude.Result.{
  Result, ok, err, ◌>>=◌, or_raise, bind-eq-ok, raise_if-eq-ok, or_raise-eq-ok, ok_injective,
}
use fleet_manager.Store.{Db, Route, RouteManagementBooking, Booking, Shift, LogType, Point}
use fleet_manager.Trip.Completion.{Good}
use fleet_manager.Bookings.{Registry, get_tenant}
use fleet_manager.Routes.{
  RouteError, Planner, planning_tenant, is_one_of, route_of_tenant, Plan, with_route,
}
use fleet_manager.Routes.Build.{
  is_empty, own_bookings, all_found, common_shift, shift_of, unoptimized, last_of, plan_or,
  optimized_for, optimized_plan, merged_for, merged_plan, unlinked, plan_for,
  create_route_from_bookings, unique_ids, booking_ids_of, merged_shift, office_keys, check_office,
  no_route, without_routes, merge_routes, reverted, delete_route,
}
use fleet_manager.Routes.Rework.{routes_on, linked_ids, bulk_delete_routes}
use fleet_manager.Routes.Optimal.{Query, Directions, Failure, pickup_spot, drop_spot}
use fleet_manager.Routes.Ordered.{Orders, generate_optimal_route-Orders, generate_drop_route-Orders}
use fleet_manager.Routes.Planned.{
  unoptimized-Orders, with_route-Good, merged-Good, deleted-Good, is_one_of-Elem, unique_ids-Elem,
  linked_to,
}

pub plan_or-eq-ok :
    (e e' : RouteError) (r : Result Failure Plan) (plan : Plan)
    → plan_or e e' r ≡ ok plan
    → r ≡ ok plan
plan_or-eq-ok e e' (ok p) plan h = ap ok (ok_injective p plan h)
plan_or-eq-ok e e' (err Failure.no_candidate) plan h = absurd (cc)
plan_or-eq-ok e e' (err Failure.raised) plan h = absurd (cc)

module _ (directions : Query → Option Directions) (haversine : Point → Point → ℕ) where
  optimized_for-Orders :
      (log : LogType) (shift_time : ℕ) (b : Booking) (bs : List Booking) (plan : Plan)
      → optimized_for directions haversine log shift_time b bs ≡ ok plan
      → Orders plan (b ∷ bs)
  optimized_for-Orders LogType.login shift_time b bs plan h =
      generate_optimal_route-Orders directions haversine (b ∷ bs) (drop_spot (last_of b bs))
        shift_time false plan h
  optimized_for-Orders LogType.logout shift_time b bs plan h =
      generate_drop_route-Orders directions haversine (b ∷ bs) (pickup_spot b) shift_time true plan
        h

  merged_for-Orders :
      (log : LogType) (shift_time : ℕ) (b : Booking) (bs : List Booking) (plan : Plan)
      → merged_for directions haversine log shift_time b bs ≡ ok plan
      → Orders plan (b ∷ bs)
  merged_for-Orders LogType.login shift_time b bs plan h =
      generate_optimal_route-Orders directions haversine (b ∷ bs) (drop_spot b) shift_time true plan
        h
  merged_for-Orders LogType.logout shift_time b bs plan h =
      generate_drop_route-Orders directions haversine (b ∷ bs) (pickup_spot b) shift_time true plan
        h

  optimized_plan-Orders :
      (shift : Shift) (bs : List Booking) (plan : Plan)
      → optimized_plan directions haversine shift bs ≡ ok plan
      → Orders plan bs
  optimized_plan-Orders shift [] plan h = absurd (cc)
  optimized_plan-Orders shift (b ∷ bs) plan h =
      optimized_for-Orders shift.log_type shift.shift_time b bs plan h

  pub merged_plan-Orders :
      (shift : Shift) (bs : List Booking) (plan : Plan)
      → merged_plan directions haversine shift bs ≡ ok plan
      → Orders plan bs
  merged_plan-Orders shift [] plan h = absurd (cc)
  merged_plan-Orders shift (b ∷ bs) plan h =
      merged_for-Orders shift.log_type shift.shift_time b bs plan h

  pub plan_for-Orders :
      (optimized : Bool) (shift : Shift) (bs : List Booking) (plan : Plan)
      → plan_for directions haversine optimized shift bs ≡ ok plan
      → Orders plan bs
  plan_for-Orders true shift bs plan h = optimized_plan-Orders shift bs plan (
      plan_or-eq-ok RouteError.optimization_failed RouteError.create_route_error
        (optimized_plan directions haversine shift bs) plan h)
  plan_for-Orders false shift bs plan h =
      let same : unoptimized bs ≡ plan = cc in subst (λ p. Orders p bs) same (unoptimized-Orders bs)

  -- What an accepted creation has found, and what it commits.
  pub create_route_from_bookings_lem :
      (db : Db) (user : Planner) (asked : Option ℕ) (ids : List ℕ) (optimized : Bool) (now : ℕ)
      (db' : Db)
      → create_route_from_bookings directions haversine db user asked ids optimized now ≡ ok db'
      → (tenant_id : ℕ) × (shift_id : Option ℕ) × (shift : Shift) × (plan : Plan) × (planning_tenant
            user asked
          ≡ ok tenant_id)
        × (all_found ids (own_bookings db tenant_id ids) ≡ true)
        × (common_shift (own_bookings db tenant_id ids) ≡ ok shift_id)
        × (plan_for directions haversine optimized shift (own_bookings db tenant_id ids) ≡ ok plan)
        × (db' ≡ with_route (unlinked ids db) tenant_id shift_id plan ids now)
  unfolding create_route_from_bookings
  create_route_from_bookings_lem db user asked ids optimized now db' h =
      let (tenant_id, ft, h1) = bind-eq-ok (planning_tenant user asked) _ h in
      let (some_ids, h2) = raise_if-eq-ok (is_empty ids) RouteError.no_bookings_provided _ h1 in
      let rows = own_bookings db tenant_id ids in
      let (all, h3) =
        raise_if-eq-ok (not (all_found ids rows)) RouteError.bookings_not_found _ h2 in
      let (shift_id, fs, h4) = bind-eq-ok (common_shift rows) _ h3 in
      let (shift, fh, h5) =
        or_raise-eq-ok (shift_of db tenant_id shift_id) RouteError.shift_not_found _ h4 in
      let (plan, fp, h6) = bind-eq-ok (plan_for directions haversine optimized shift rows) _ h5 in
      (tenant_id, shift_id, shift, plan, ft, ground arith, fs, fp, sym (ok_injective _ _ h6))

  pub create_route_from_bookings-Good :
      (db : Db) (user : Planner) (asked : Option ℕ) (ids : List ℕ) (optimized : Bool) (now : ℕ)
      (db' : Db)
      → create_route_from_bookings directions haversine db user asked ids optimized now ≡ ok db'
      → Good db
      → Good db'
  create_route_from_bookings-Good db user asked ids optimized now db' h good =
      let (tenant_id, shift_id, shift, plan, _, _, _, fp, e) =
        create_route_from_bookings_lem db user asked ids optimized now db' h in
      let rows = own_bookings db tenant_id ids in
      subst Good (sym e) (
        with_route-Good db tenant_id shift_id plan ids now rows
          (plan_for-Orders optimized shift rows plan fp)
          (λ b m.
            let (mb, own) =
              Elem-filter (λ b. is_one_of ids b.booking_id && b.tenant_id == tenant_id) db.bookings
                m in
            ground arith)
          good)

-- The routes of the tenant among those to merge, their bookings' keys, and the rows of these.
abbrev pub own_routes : Db → ℕ → List ℕ → List Route
own_routes db tenant_id route_ids =
    filter (λ r. is_one_of route_ids r.route_id && r.tenant_id == tenant_id) db.routes

abbrev pub merged_ids : Db → ℕ → List ℕ → List ℕ
merged_ids db tenant_id route_ids =
    unique_ids (booking_ids_of db (own_routes db tenant_id route_ids))

abbrev pub merged_rows : Db → ℕ → List ℕ → List Booking
merged_rows db tenant_id route_ids =
    filter (λ b. is_one_of (merged_ids db tenant_id route_ids) b.booking_id) db.bookings

-- A booking to merge is linked to one of the tenant's routes that are merged.
pub merged_row-linked :
    (db : Db) (tenant_id : ℕ) (route_ids : List ℕ) (b : Booking)
    → Elem b (merged_rows db tenant_id route_ids)
    → (l : RouteManagementBooking) × (r : Route) × Elem l db.links
      × (l.booking_id ≡ b.booking_id)
      × Elem r db.routes
      × (l.route_id ≡ r.route_id)
      × (r.tenant_id ≡ tenant_id)
      × (is_one_of route_ids r.route_id ≡ true)
merged_row-linked db tenant_id route_ids b m =
    let is_own = λ (r : Route). is_one_of route_ids r.route_id && r.tenant_id == tenant_id in
    let ids = merged_ids db tenant_id route_ids in
    let routes = own_routes db tenant_id route_ids in
    let (mb, of_ids) = Elem-filter (λ (b : Booking). is_one_of ids b.booking_id) db.bookings m in
    let (l, r, ml, el, mr, er) = linked_to db routes b.booking_id (
      unique_ids-Elem b.booking_id (booking_ids_of db routes)
        (is_one_of-Elem b.booking_id ids of_ids)) in
    let (mr', own) = Elem-filter is_own db.routes mr in
    (l, r, ml, el, mr', er, ground arith, ground arith)

module _ (directions : Query → Option Directions) (haversine : Point → Point → ℕ) where
  -- What an accepted merge has found, and what it commits.
  pub merge_routes_lem :
      (db : Db) (user : Planner) (asked : Option ℕ) (route_ids : List ℕ) (now : ℕ) (db' : Db)
      → merge_routes directions haversine db user asked route_ids now ≡ ok db'
      → (tenant_id : ℕ) × (shift_id : Option ℕ) × (shift : Shift) × (plan : Plan) × (planning_tenant
            user asked
          ≡ ok tenant_id)
        × (merged_plan directions haversine shift (merged_rows db tenant_id route_ids) ≡ ok plan)
        × (db'
            ≡ without_routes route_ids
                (with_route db tenant_id shift_id plan (merged_ids db tenant_id route_ids) now))
  unfolding merge_routes
  merge_routes_lem db user asked route_ids now db' h =
      let (tenant_id, ft, h1) = bind-eq-ok (planning_tenant user asked) _ h in
      let (some_ids, h2) = raise_if-eq-ok (is_empty route_ids) RouteError.no_route_ids _ h1 in
      let routes = own_routes db tenant_id route_ids in
      let (some_routes, h3) = raise_if-eq-ok (no_route routes) RouteError.route_not_found _ h2 in
      let (shift_id, fs, h4) = bind-eq-ok (merged_shift none routes) _ h3 in
      let ids = merged_ids db tenant_id route_ids in
      let (some_bookings, h5) = raise_if-eq-ok (is_empty ids) RouteError.empty_route_list _ h4 in
      let rows = merged_rows db tenant_id route_ids in
      let (shift, fh, h6) =
        or_raise-eq-ok (shift_of db tenant_id shift_id) RouteError.shift_not_found _ h5 in
      let (keys, fk, h7) = bind-eq-ok (office_keys shift.log_type rows) _ h6 in
      let (u, fo, h8) = bind-eq-ok (check_office keys) _ h7 in
      let planned = merged_plan directions haversine shift rows in
      let (plan, fp, h9) =
        bind-eq-ok (plan_or RouteError.opt_fail RouteError.opt_fail planned) _ h8 in
      (
        tenant_id,
        shift_id,
        shift,
        plan,
        ft,
        plan_or-eq-ok RouteError.opt_fail RouteError.opt_fail planned plan fp,
        sym (ok_injective _ _ h9),
      )

  pub merge_routes-Good :
      (db : Db) (user : Planner) (asked : Option ℕ) (route_ids : List ℕ) (now : ℕ) (db' : Db)
      → merge_routes directions haversine db user asked route_ids now ≡ ok db'
      → Good db
      → Good db'
  merge_routes-Good db user asked route_ids now db' h good =
      let (tenant_id, shift_id, shift, plan, ft, fp, e) =
        merge_routes_lem db user asked route_ids now db' h in
      let rows = merged_rows db tenant_id route_ids in
      subst Good (sym e) (
        merged-Good db tenant_id shift_id plan route_ids (merged_ids db tenant_id route_ids) now
          rows (merged_plan-Orders directions haversine shift rows plan fp)
          (λ b m.
            let (l, r, ml, el, mr, er, _, among) = merged_row-linked db tenant_id route_ids b m in
            (l, ml, el, subst (λ k. is_one_of route_ids k ≡ true) (sym er) among))
          good)

pub delete_route-Good :
    (reg : Registry) (db : Db) (user : Planner) (asked : Option ℕ) (route_id now : ℕ) (db' : Db)
    → delete_route reg db user asked route_id now ≡ ok db'
    → Good db
    → Good db'
unfolding delete_route
delete_route-Good reg db user asked route_id now db' h good =
    let (tenant_id, ft, h1) = bind-eq-ok (planning_tenant user asked) _ h in
    let (tenant, fn, h2) =
      bind-eq-ok
        (or_raise (get_tenant reg tenant_id) RouteError.tenant_not_found >>= λ tenant. ok tt) _
        h1 in
    let (route, fr, h3) =
      or_raise-eq-ok (route_of_tenant db tenant_id route_id) RouteError.route_not_found _ h2 in
    let ids =
      map (λ (l : RouteManagementBooking). l.booking_id)
        (filter (λ l. l.route_id == route_id) db.links) in
    let e : without_routes (route.route_id ∷ [])
          (record db { bookings = map (reverted ids now) db.bookings })
        ≡ db' =
      ok_injective _ _ h3 in
    subst Good e (deleted-Good db (route.route_id ∷ []) ids now good)

pub bulk_delete_routes-Good :
    (reg : Registry) (db : Db) (user : Planner) (asked : Option ℕ) (shift_id date now : ℕ)
    (db' : Db) (reply : List ℕ)
    → bulk_delete_routes reg db user asked shift_id date now ≡ ok (db', reply)
    → Good db
    → Good db'
unfolding bulk_delete_routes
bulk_delete_routes-Good reg db user asked shift_id date now db' reply h good =
    let (tenant_id, ft, h1) = bind-eq-ok (planning_tenant user asked) _ h in
    let (tenant, fn, h2) =
      bind-eq-ok
        (or_raise (get_tenant reg tenant_id) RouteError.tenant_not_found >>= λ tenant. ok tt) _
        h1 in
    let route_ids = map (λ (r : Route). r.route_id) (routes_on db tenant_id shift_id date) in
    subst Good (ap (λ (p : Db × List ℕ). p.0) (ok_injective _ _ h2))
      (deleted-Good db route_ids (linked_ids db route_ids) now good)
