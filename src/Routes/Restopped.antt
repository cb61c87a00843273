-- ===== src/Routes/Restopped.antt =====
-- The links that an update of the stops of a route writes (`update_route` in
-- app/routes/route_management.py).
use fleet_manager.Prelude.{
  ℕ, ◌≡◌, ◌≢◌, sym, ◌∙◌, subst, true, not, Option, none, some, List, [], ◌∷◌, arith, ◌==◌, filter,
  Elem, here, there, Elem-cons, Elem-append, Elem-append_right, Elem-filter, inl, inr, ◌↔◌,
}
use fleet_manager.Prelude.Result.{ok, bind-eq-ok, or_raise-eq-ok, ok_injective}
use fleet_manager.Store.{
  Db, Route, RouteManagementBooking, Booking, Shift, LogType, Point, get_booking,
}
use fleet_manager.Routes.{RouteError, Plan, links_for}
use fleet_manager.Routes.Optimal.{Query, Directions, pickup_spot, drop_spot}
use fleet_manager.Routes.Ordered.{Orders, generate_optimal_route-Orders, generate_drop_route-Orders}
use fleet_manager.Routes.Complete.{
  IsComplete, OrdersWaypoints, generate_optimal_route-IsComplete, generate_drop_route-IsComplete,
}
use fleet_manager.Routes.Build.{shift_of, last_of, plan_or}
use fleet_manager.Routes.Rebuilt.{links_for-Elem}
use fleet_manager.Routes.Moved.{links_for_complete}
use fleet_manager.Routes.Handlers.{plan_or-eq-ok}
use fleet_manager.Routes.Rework.{get_each, relinked, free_link_id}
use fleet_manager.Routes.Reworked.{get_each-Elem, get_booking-key}
use fleet_manager.Routes.Targets.{Linked}
use fleet_manager.Routes.Update.{
  emptied, restopped, without, updated_for, updated_plan, update_stops, updated_route,
}

get_each_complete :
    (db : Db) (ks : List ℕ) (bs : List Booking) (k : ℕ)
    → get_each db ks ≡ ok bs
    → Elem k ks
    → (b : Booking) × Elem b bs × (b.booking_id ≡ k)
unfolding get_each
get_each_complete db (j ∷ ks) bs k h m =
    let (c, fc, h1) = or_raise-eq-ok (get_booking db j) RouteError.booking_not_found _ h in
    let (cs, fs, h2) = bind-eq-ok (get_each db ks) _ h1 in
    let same = ok_injective (c ∷ cs) bs h2 in
    elim (Elem-cons m) [
      | inl e ↦ (c, subst (λ l. Elem c l) same here, get_booking-key db j c fc ∙ sym e)
      | inr m' ↦
          let (b, mb, eb) = get_each_complete db ks cs k fs m' in
          (b, subst (λ l. Elem b l) same (there mb), eb)
    ]
get_each_complete db [] bs k h m = elim m [ ]

-- The links of the route are for these bookings, and the others have been there before.
pub record Restops (db db' : Db) (route_id : ℕ) (ids : List ℕ) : Type 0 where
  pub stops : (k : ℕ) → Linked db' route_id k ↔ Elem k ids
  pub other_links :
      (l : RouteManagementBooking) → Elem l db'.links → l.route_id ≢ route_id → Elem l db.links

-- New links of the route for these bookings.
relinked-Restops :
    (db : Db) (route_id : ℕ) (ids : List ℕ) (made : List RouteManagementBooking)
    → ((l : RouteManagementBooking) → Elem l made → (l.route_id ≡ route_id) × Elem l.booking_id ids)
    → ((k : ℕ)
        → Elem k ids
        → (l : RouteManagementBooking) × Elem l made × (l.route_id ≡ route_id) × (l.booking_id ≡ k))
    → Restops db (relinked db route_id made) route_id ids
relinked-Restops db route_id ids made from to =
    let is_other = λ (l : RouteManagementBooking). not (l.route_id == route_id) in
    let left = filter is_other db.links in
    record {
      stops = λ k. (
        (λ linked.
            let (l, ml, el, ek) = linked in
            elim (Elem-append left made ml) [
              | inl old ↦
                  let (_, other) = Elem-filter is_other db.links old in absurd (ground arith)
              | inr new ↦ subst (λ j. Elem j ids) ek (from l new).1
            ]),
        (λ m. let (l, ml, el, ek) = to k m in (l, Elem-append_right left made ml, el, ek)),
      );
      other_links = λ l ml other. elim (Elem-append left made ml) [
        | inl old ↦ (Elem-filter is_other db.links old).0
        | inr new ↦ absurd (other (from l new).0)
      ];
    }

module _ (directions : Query → Option Directions) (haversine : Point → Point → ℕ)
    (all : OrdersWaypoints directions) where
  updated_for-Serves :
      (log : LogType) (shift_time : ℕ) (b : Booking) (bs : List Booking) (plan : Plan)
      → updated_for directions haversine log shift_time b bs ≡ ok plan
      → Orders plan (b ∷ bs) × IsComplete plan (b ∷ bs)
  updated_for-Serves LogType.login shift_time b bs plan h = (
    generate_optimal_route-Orders directions haversine (b ∷ bs) (drop_spot (last_of b bs))
        shift_time true plan h,
    generate_optimal_route-IsComplete directions haversine all (b ∷ bs) (drop_spot (last_of b bs))
        shift_time true plan h,
  )
  updated_for-Serves LogType.logout shift_time b bs plan h = (
    generate_drop_route-Orders directions haversine (b ∷ bs) (pickup_spot b) shift_time true plan h,
    generate_drop_route-IsComplete directions haversine all (b ∷ bs) (pickup_spot b) shift_time true
        plan h,
  )

  updated_plan-Serves :
      (shift : Option Shift) (bs : List Booking) (plan : Plan)
      → updated_plan directions haversine shift bs ≡ ok plan
      → Orders plan bs × IsComplete plan bs
  updated_plan-Serves none [] plan h = absurd (cc)
  updated_plan-Serves (some shift) [] plan h = absurd (cc)
  updated_plan-Serves none (b ∷ bs) plan h = absurd (cc)
  updated_plan-Serves (some shift) (b ∷ bs) plan h =
      updated_for-Serves shift.log_type shift.shift_time b bs plan h

  update_stops-Restops :
      (db : Db) (route : Route) (cur requested ids : List ℕ) (now : ℕ) (db' : Db)
      → update_stops directions haversine db route cur requested ids now ≡ ok db'
      → Restops db db' route.route_id ids
  update_stops-Restops db route cur requested ids now db' h =
      let (rows, fr, h1) = bind-eq-ok (get_each db ids) _ h in
      let planned =
        updated_plan directions haversine (shift_of db route.tenant_id route.shift_id) rows in
      let (plan, fp, h2) =
        bind-eq-ok
          (plan_or RouteError.route_optimization_failed RouteError.route_update_error planned) _
          h1 in
      let (orders, complete) =
        updated_plan-Serves (shift_of db route.tenant_id route.shift_id) rows plan (
          plan_or-eq-ok RouteError.route_optimization_failed RouteError.route_update_error planned
            plan fp) in
      let id = free_link_id db route.route_id in
      let made = links_for route.route_id id 1 plan.stops in
      let restops =
        relinked-Restops db route.route_id ids made
          (λ l ml.
            let (er, (time, stop)) = links_for-Elem route.route_id id 1 plan.stops l ml in
            let (b, mb, eb) = orders l.booking_id time stop in
            (er, subst (λ k. Elem k ids) eb (get_each-Elem db ids rows b fr mb)))
          (λ k mk.
            let (b, mb, eb) = get_each_complete db ids rows k fr mk in
            let (time, stop) = complete b mb in
            let (l, ml, el, er) =
              links_for_complete route.route_id id 1 plan.stops b.booking_id time stop in
            (l, ml, er, el ∙ eb)) in
      subst (λ d. Restops db d route.route_id ids)
        (ok_injective (restopped db route plan (without cur ids) (without ids cur) now) db' h2)
        (record { stops = restops.stops; other_links = restops.other_links })

  pub updated_route-Restops :
      (db : Db) (route : Route) (cur requested ids : List ℕ) (now : ℕ) (db' : Db)
      → updated_route directions haversine db route cur requested ids now ≡ ok db'
      → Restops db db' route.route_id ids
  updated_route-Restops db route cur requested [] now db' h =
      let restops =
        relinked-Restops db route.route_id [] [] (λ l ml. elim ml [ ]) (λ k mk. elim mk [ ]) in
      subst (λ d. Restops db d route.route_id [])
        (ok_injective (emptied db route requested now) db' h)
        (record { stops = restops.stops; other_links = restops.other_links })
  updated_route-Restops db route cur requested (k ∷ ks) now db' h =
      update_stops-Restops db route cur requested (k ∷ ks) now db' h
