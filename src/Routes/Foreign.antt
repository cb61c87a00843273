-- ===== src/Routes/Foreign.antt =====
-- A merge that names a route of another tenant (`merge_routes` in app/routes/route_management.py).
use fleet_manager.Prelude.{
  ℕ, ◌≡◌, sym, ◌∙◌, ap, subst, ◌≢◌, true, not, Option, List, [], ◌∷◌, ◌++◌, arith, Elem,
  Elem-append, Elem-filter, inl, inr,
}
use fleet_manager.Prelude.Result.{ok, ok_injective}
use fleet_manager.Store.{Db, Route, RouteManagementBooking, Point}
use fleet_manager.Trip.Completion.{IsKeyed}
use fleet_manager.Routes.{
  Planner, planning_tenant, is_one_of, next_route_id, next_link_id, new_route, links_for,
  with_route,
}
use fleet_manager.Routes.Build.{merge_routes}
use fleet_manager.Routes.Rebuilt.{links_for-Elem}
use fleet_manager.Routes.Optimal.{Query, Directions}
use fleet_manager.Routes.Handlers.{
  merged_rows, merged_row-linked, merged_plan-Orders, merge_routes_lem,
}

module _ (directions : Query → Option Directions) (haversine : Point → Point → ℕ) where
  -- An accepted merge that also names a route of another tenant deletes that route, and leaves each
  -- of its bookings on no route at all, where route ids are keys and bookings are linked to one
  -- route.
  pub merge_routes_foreign :
      (db : Db) (user : Planner) (asked : Option ℕ) (route_ids : List ℕ) (now : ℕ) (db' : Db)
      (tenant_id : ℕ) (r : Route) (l : RouteManagementBooking)
      → IsKeyed db
      → merge_routes directions haversine db user asked route_ids now ≡ ok db'
      → planning_tenant user asked ≡ ok tenant_id
      → Elem r db.routes
      → r.tenant_id ≢ tenant_id
      → is_one_of route_ids r.route_id ≡ true
      → Elem l db.links
      → l.route_id ≡ r.route_id
      → ((q : Route) → Elem q db'.routes → q.route_id ≢ r.route_id)
        × ((m : RouteManagementBooking) → Elem m db'.links → m.booking_id ≢ l.booking_id)
  unfolding with_route
  merge_routes_foreign db user asked route_ids now db' tenant_id r l keyed h ft mr foreign named ml
        el =
      let (t, shift_id, shift, plan, ft', fp, e) =
        merge_routes_lem directions haversine db user asked route_ids now db' h in
      let same : t ≡ tenant_id = ok_injective _ _ (sym ft' ∙ ft) in
      let new = new_route (next_route_id db.routes) t shift_id plan.estimated_time now in
      let made = links_for (next_route_id db.routes) (next_link_id db.links) 1 plan.stops in
      (
        (λ q mq eq.
            let (_, kept) =
              Elem-filter (λ (r : Route). not (is_one_of route_ids r.route_id))
                (db.routes ++ new ∷ []) (subst (λ (d : Db). Elem q d.routes) e mq) in
            absurd
              (let n = subst (λ k. is_one_of route_ids k ≡ true) (sym eq) named in ground arith)),
        (λ m mm em.
            let (mm', kept) =
              Elem-filter (λ (l : RouteManagementBooking). not (is_one_of route_ids l.route_id))
                (db.links ++ made) (subst (λ (d : Db). Elem m d.links) e mm) in
            elim (Elem-append db.links made mm') [
              | inl old ↦
                  let same_route : m.route_id ≡ r.route_id =
                    keyed.links_single m l old ml em ∙ el in
                  absurd (
                    let n = subst (λ k. is_one_of route_ids k ≡ true) (sym same_route) named in
                    ground arith)
              | inr fresh ↦
                  let (_, (time, stop)) =
                    links_for-Elem (next_route_id db.routes) (next_link_id db.links) 1 plan.stops m
                      fresh in
                  let (b, mb, eb) =
                    merged_plan-Orders directions haversine shift (merged_rows db t route_ids) plan
                      fp m.booking_id time stop in
                  let (o, q, mo, eo, mq, eq, tq, _) = merged_row-linked db t route_ids b mb in
                  let same_route : o.route_id ≡ l.route_id =
                    keyed.links_single o l mo ml (eo ∙ eb ∙ em) in
                  let same_row : q ≡ r = keyed.routes_keyed q r mq mr (sym eq ∙ same_route ∙ el) in
                  absurd (foreign (ap (λ (y : Route). y.tenant_id) (sym same_row) ∙ tq ∙ same))
            ]),
      )
