-- ===== src/Routes/Moved.antt =====
-- What a new route promises its bookings (`create_route_from_bookings` in
-- app/routes/route_management.py).
use fleet_manager.Prelude.{
  ℕ, suc, ◌≡◌, refl, sym, ◌∙◌, ap, subst, ◌≢◌, Bool, true, false, not, ◌&&◌, Option, none, List, [],
  ◌∷◌, arith, ◌==◌, filter, Elem, here, there, Elem-append, Elem-append_right, Elem-filter,
  Elem-filter_of, Bool-cases, inl, inr,
}
use fleet_manager.Prelude.Result.{ok}
use fleet_manager.Store.{
  Text, Db, RouteManagementBooking, Booking, BookingStatus, Shift, LogType, Point,
}
use fleet_manager.Trip.Types.{eq_booking_status}
use fleet_manager.Routes.{
  RouteError, Planner, planning_tenant, is_one_of, Plan, next_route_id, next_link_id, links_for,
  scheduled, with_route,
}
use fleet_manager.Routes.Optimal.{Query, Directions, pickup_spot, drop_spot}
use fleet_manager.Routes.Complete.{
  IsComplete, OrdersWaypoints, generate_optimal_route-IsComplete, generate_drop_route-IsComplete,
}
use fleet_manager.Routes.Build.{
  own_bookings, unoptimized, unlinked, last_of, optimized_for, optimized_plan, plan_for,
  create_route_from_bookings,
}
use fleet_manager.Routes.Rebuilt.{links_for-Elem, Elem-map, scheduled_lem}
use fleet_manager.Routes.Handlers.{plan_or-eq-ok, create_route_from_bookings_lem}

unoptimized-IsComplete : (bs : List Booking) → IsComplete (unoptimized bs) bs
unoptimized-IsComplete (x ∷ xs) b here = (none, here)
unoptimized-IsComplete (x ∷ xs) b (there m) =
    let (t, s) = unoptimized-IsComplete xs b m in (t, there s)
unoptimized-IsComplete [] b m = elim m [ ]

-- Each stop has a link.
pub links_for_complete :
    (route_id id order_id : ℕ) (stops : List (ℕ × Option Text)) (k : ℕ) (time : Option Text)
    → Elem (k, time) stops
    → (l : RouteManagementBooking) × Elem l (links_for route_id id order_id stops)
      × (l.booking_id ≡ k)
      × (l.route_id ≡ route_id)
links_for_complete route_id id order_id ((j, t) ∷ stops) k time here = (_, here, refl, refl)
links_for_complete route_id id order_id ((j, t) ∷ stops) k time (there m) =
    let (l, ml, e, r) = links_for_complete route_id (suc id) (suc order_id) stops k time m in
    (l, there ml, e, r)
links_for_complete route_id id order_id [] k time m = elim m [ ]

request-scheduled :
    (ids : List ℕ) (now : ℕ) (a : Booking)
    → is_one_of ids a.booking_id ≡ true
    → (scheduled ids now a).status ≢ BookingStatus.request
request-scheduled ids now a asked =
    elim (Bool-cases (eq_booking_status a.status BookingStatus.request)) [
      | inl due ↦ rw (asked, due) (λ e. absurd (cc))
      | inr other ↦ rw (asked, other) (λ e. let f = rw e at other in absurd (cc))
    ]

-- The bookings are all on the new route, and on no other, and none of them is a request any more.
pub record IsMoved (db db' : Db) (tenant_id : ℕ) (ids : List ℕ) : Type 0 where
  pub on_new :
      (b : Booking)
      → Elem b db.bookings
      → b.tenant_id ≡ tenant_id
      → is_one_of ids b.booking_id ≡ true
      → (l : RouteManagementBooking) × Elem l db'.links
        × (l.booking_id ≡ b.booking_id)
        × (l.route_id ≡ next_route_id db.routes)
  pub on_no_other :
      (l : RouteManagementBooking)
      → Elem l db'.links
      → is_one_of ids l.booking_id ≡ true
      → l.route_id ≡ next_route_id db.routes
  pub no_request :
      (b : Booking)
      → Elem b db'.bookings
      → is_one_of ids b.booking_id ≡ true
      → b.status ≢ BookingStatus.request

module _ (directions : Query → Option Directions) (haversine : Point → Point → ℕ)
    (all : OrdersWaypoints directions) where
  optimized_for-IsComplete :
      (log : LogType) (shift_time : ℕ) (b : Booking) (bs : List Booking) (plan : Plan)
      → optimized_for directions haversine log shift_time b bs ≡ ok plan
      → IsComplete plan (b ∷ bs)
  optimized_for-IsComplete LogType.login shift_time b bs plan h =
      generate_optimal_route-IsComplete directions haversine all (b ∷ bs) (drop_spot (last_of b bs))
        shift_time false plan h
  optimized_for-IsComplete LogType.logout shift_time b bs plan h =
      generate_drop_route-IsComplete directions haversine all (b ∷ bs) (pickup_spot b) shift_time
        true plan h

  optimized_plan-IsComplete :
      (shift : Shift) (bs : List Booking) (plan : Plan)
      → optimized_plan directions haversine shift bs ≡ ok plan
      → IsComplete plan bs
  optimized_plan-IsComplete shift [] plan h b m = elim m [ ]
  optimized_plan-IsComplete shift (x ∷ bs) plan h b m =
      optimized_for-IsComplete shift.log_type shift.shift_time x bs plan h b m

  plan_for-IsComplete :
      (optimized : Bool) (shift : Shift) (bs : List Booking) (plan : Plan)
      → plan_for directions haversine optimized shift bs ≡ ok plan
      → IsComplete plan bs
  plan_for-IsComplete true shift bs plan h = optimized_plan-IsComplete shift bs plan (
      plan_or-eq-ok RouteError.optimization_failed RouteError.create_route_error
        (optimized_plan directions haversine shift bs) plan h)
  plan_for-IsComplete false shift bs plan h =
      let same : unoptimized bs ≡ plan = cc in
      subst (λ p. IsComplete p bs) same (unoptimized-IsComplete bs)

  -- An accepted creation, with or without optimisation, puts every one of the tenant's bookings that
  -- are asked for on the new route and takes them off all other routes, and none of them is a
  -- request any more, where the road service orders all the waypoints it is given.
  pub create_route_from_bookings-IsMoved :
      (db : Db) (user : Planner) (asked : Option ℕ) (ids : List ℕ) (optimized : Bool) (now : ℕ)
      (db' : Db)
      → create_route_from_bookings directions haversine db user asked ids optimized now ≡ ok db'
      → (tenant_id : ℕ) × (planning_tenant user asked ≡ ok tenant_id) × IsMoved db db' tenant_id ids
  unfolding with_route
  create_route_from_bookings-IsMoved db user asked ids optimized now db' h =
      let (tenant_id, shift_id, shift, plan, ft, _, _, fp, e) =
        create_route_from_bookings_lem directions haversine db user asked ids optimized now db' h in
      let rows = own_bookings db tenant_id ids in
      let is_own = λ (b : Booking). is_one_of ids b.booking_id && b.tenant_id == tenant_id in
      let left =
        filter (λ (l : RouteManagementBooking). not (is_one_of ids l.booking_id)) db.links in
      let route_id = next_route_id db.routes in
      let made = links_for route_id (next_link_id left) 1 plan.stops in
      let moved : IsMoved db (with_route (unlinked ids db) tenant_id shift_id plan ids now)
          tenant_id ids =
        record {
          on_new = λ b m t i.
              let (time, stop) =
                plan_for-IsComplete optimized shift rows plan fp b
                  (Elem-filter_of is_own db.bookings m (ground arith)) in
              let (l, ml, el, er) =
                links_for_complete route_id (next_link_id left) 1 plan.stops b.booking_id time
                  stop in
              (l, Elem-append_right left made ml, el, er);
          on_no_other = λ l m i. elim (Elem-append left made m) [
            | inl old ↦
                let (_, other) =
                  Elem-filter (λ (l : RouteManagementBooking). not (is_one_of ids l.booking_id))
                    db.links old in
                absurd (ground arith)
            | inr fresh ↦ (links_for-Elem route_id (next_link_id left) 1 plan.stops l fresh).0
          ];
          no_request = λ b m i.
              let (a, _, ea) = Elem-map (scheduled ids now) db.bookings b m in
              let key = ap (λ (y : Booking). y.booking_id) ea ∙ (scheduled_lem ids now a).0 in
              subst (λ (y : Booking). y.status ≢ BookingStatus.request) (sym ea)
                (request-scheduled ids now a (subst (λ k. is_one_of ids k ≡ true) key i));
        } in
      (tenant_id, ft, subst (λ (d : Db). IsMoved db d tenant_id ids) (sym e) moved)
