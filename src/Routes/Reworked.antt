-- ===== src/Routes/Reworked.antt =====
-- The links that an update of a route writes (`update_route_bookings` in
-- app/routes/route_management.py).
use fleet_manager.Prelude.{
  ℕ, suc, ◌≡◌, refl, sym, ◌∙◌, ap, subst, ◌≢◌, Bool, true, false, not, Option, some, List, [], ◌∷◌,
  arith, ◌==◌, map, filter, find?-true, Elem, here, there, Elem-cons, Elem-append, Elem-filter, inl,
  inr, ◌⊎◌, All-Elem, All-of_Elem,
}
use fleet_manager.Prelude.Result.{ok, bind-eq-ok, or_raise-eq-ok, ok_injective}
use fleet_manager.Prelude.Sort.{sort_by, All-sort_by}
use fleet_manager.Store.{
  Db, Route, RouteManagementBooking, Booking, Shift, LogType, Point, get_booking, put_route,
}
use fleet_manager.Routes.{RouteError, Plan, links_for}
use fleet_manager.Routes.Build.{last_of, plan_or}
use fleet_manager.Routes.Optimal.{Query, Directions, pickup_spot, drop_spot}
use fleet_manager.Routes.Ordered.{Orders, generate_optimal_route-Orders, generate_drop_route-Orders}
use fleet_manager.Routes.Rebuilt.{links_for-Elem}
use fleet_manager.Routes.Handlers.{plan_or-eq-ok}
use fleet_manager.Routes.Rework.{
  RouteBookingUpdate, check_times, get_each, relinked, free_link_id, manual_links, with_time,
  ordered_for, ordered_plan, reworked_links,
}

pub get_booking-key : (db : Db) (k : ℕ) (b : Booking) → get_booking db k ≡ some b → b.booking_id ≡ k
get_booking-key db k b h =
    let (t, m) = find?-true (λ (b : Booking). b.booking_id == k) db.bookings h in ground arith

pub get_each-Elem :
    (db : Db) (ks : List ℕ) (bs : List Booking) (b : Booking)
    → get_each db ks ≡ ok bs
    → Elem b bs
    → Elem b.booking_id ks
unfolding get_each
get_each-Elem db [] bs b h m = elim (subst (λ l. Elem b l) (sym (ok_injective [] bs h)) m) [ ]
get_each-Elem db (k ∷ ks) bs b h m =
    let (c, fc, h1) = or_raise-eq-ok (get_booking db k) RouteError.booking_not_found _ h in
    let (cs, fs, h2) = bind-eq-ok (get_each db ks) _ h1 in
    elim (Elem-cons (subst (λ l. Elem b l) (sym (ok_injective (c ∷ cs) bs h2)) m)) [
      | inl e ↦
          let key : k ≡ b.booking_id =
            sym (get_booking-key db k c fc) ∙ ap (λ (y : Booking). y.booking_id) (sym e) in
          subst (λ j. Elem j (k ∷ ks)) key here
      | inr m' ↦ there (get_each-Elem db ks cs b fs m')
    ]

manual_links-Elem :
    (route_id id : ℕ) (us : List RouteBookingUpdate) (l : RouteManagementBooking)
    → Elem l (manual_links route_id id us)
    → Elem l.booking_id (map (λ u. u.booking_id) us)
manual_links-Elem route_id id (u ∷ us) l m = elim (Elem-cons m) [
  | inl e ↦
      subst
        (λ (y : RouteManagementBooking).
          Elem y.booking_id (u.booking_id ∷ map (λ u. u.booking_id) us))
        (sym e) here
  | inr m' ↦ there (manual_links-Elem route_id (suc id) us l m')
]
manual_links-Elem route_id id [] l m = elim m [ ]

update_of :
    (us : List RouteBookingUpdate) (k : ℕ)
    → Elem k (map (λ u. u.booking_id) us)
    → (u : RouteBookingUpdate) × Elem u us × (u.booking_id ≡ k)
update_of (u ∷ us) k m = elim (Elem-cons m) [
  | inl e ↦ (u, here, sym e)
  | inr m' ↦ let (v, mv, ev) = update_of us k m' in (v, there mv, ev)
]
update_of [] k m = elim m [ ]

id_of :
    (us : List RouteBookingUpdate) (u : RouteBookingUpdate)
    → Elem u us
    → Elem u.booking_id (map (λ u. u.booking_id) us)
id_of (x ∷ us) u here = here
id_of (x ∷ us) u (there m) = there (id_of us u m)
id_of [] u m = elim m [ ]

-- The sorted updates are for the same bookings.
sorted-ids :
    (us : List RouteBookingUpdate) (k : ℕ)
    → Elem k (map (λ u. u.booking_id) (sort_by (λ u. u.order_id) us))
    → Elem k (map (λ u. u.booking_id) us)
sorted-ids us k m =
    let (u, mu, e) = update_of (sort_by (λ u. u.order_id) us) k m in
    let P = λ (u : RouteBookingUpdate). Elem u.booking_id (map (λ u. u.booking_id) us) in
    subst (λ j. Elem j (map (λ u. u.booking_id) us)) e
      (All-Elem P (sort_by (λ u. u.order_id) us)
        (All-sort_by (λ u. u.order_id) P us (All-of_Elem P us (id_of us))) mu)

-- What a rework leaves: links of other routes, links of the route for these bookings, and the rows of
-- bookings.
pub record Reworks (db db' : Db) (route_id : ℕ) (ids : List ℕ) : Type 0 where
  pub links_from :
      (l : RouteManagementBooking)
      → Elem l db'.links
      → (Elem l db.links × (l.route_id ≢ route_id)) ⊎ Elem l.booking_id ids
  pub same_bookings : db'.bookings ≡ db.bookings

relinked-from :
    (db : Db) (route_id : ℕ) (ids : List ℕ) (made : List RouteManagementBooking)
    → ((l : RouteManagementBooking) → Elem l made → Elem l.booking_id ids)
    → (l : RouteManagementBooking) → Elem l (relinked db route_id made).links
    → (Elem l db.links × (l.route_id ≢ route_id)) ⊎ Elem l.booking_id ids
relinked-from db route_id ids made of_ids l m =
    let is_other = λ (l : RouteManagementBooking). not (l.route_id == route_id) in
    elim (Elem-append (filter is_other db.links) made m) [
      | inl old ↦ let (mo, other) = Elem-filter is_other db.links old in inl (mo, ground arith)
      | inr new ↦ inr (of_ids l new)
    ]

module _ (directions : Query → Option Directions) (haversine : Point → Point → ℕ) where
  ordered_for-Orders :
      (log : LogType) (shift_time : ℕ) (b : Booking) (bs : List Booking) (plan : Plan)
      → ordered_for directions haversine log shift_time b bs ≡ ok plan
      → Orders plan (b ∷ bs)
  ordered_for-Orders LogType.login shift_time b bs plan h =
      generate_optimal_route-Orders directions haversine (b ∷ bs) (drop_spot (last_of b bs))
        shift_time false plan h
  ordered_for-Orders LogType.logout shift_time b bs plan h =
      generate_drop_route-Orders directions haversine (b ∷ bs) (pickup_spot b) shift_time false plan
        h

  ordered_plan-Orders :
      (shift : Shift) (bs : List Booking) (plan : Plan)
      → ordered_plan directions haversine shift bs ≡ ok plan
      → Orders plan bs
  ordered_plan-Orders shift [] plan h id time m = absurd (cc)
  ordered_plan-Orders shift (x ∷ bs) plan h id time m =
      ordered_for-Orders shift.log_type shift.shift_time x bs plan h id time m

  pub reworked_links-Reworks :
      (optimize : Bool) (db : Db) (route : Route) (shift : Shift) (us : List RouteBookingUpdate)
      (db' : Db)
      → reworked_links directions haversine optimize db route shift us ≡ ok db'
      → Reworks db db' route.route_id (map (λ u. u.booking_id) us)
  reworked_links-Reworks false db route shift us db' h =
      let ids = map (λ u. u.booking_id) us in
      let made = manual_links route.route_id (free_link_id db route.route_id) us in
      let (u, fu, h1) = bind-eq-ok (check_times us) _ h in
      subst (λ d. Reworks db d route.route_id ids)
        (ok_injective (relinked db route.route_id made) db' h1)
        (record {
          links_from =
              relinked-from db route.route_id ids made
                (manual_links-Elem route.route_id (free_link_id db route.route_id) us);
          same_bookings = refl;
        })
  reworked_links-Reworks true db route shift us db' h =
      let ids = map (λ u. u.booking_id) us in
      let (rows, fr, h1) =
        bind-eq-ok (get_each db (map (λ u. u.booking_id) (sort_by (λ u. u.order_id) us))) _ h in
      let planned = ordered_plan directions haversine shift rows in
      let (plan, fp, h2) =
        bind-eq-ok (plan_or RouteError.optimization_failed RouteError.update_bookings_error planned)
          _ h1 in
      let orders = ordered_plan-Orders shift rows plan (
        plan_or-eq-ok RouteError.optimization_failed RouteError.update_bookings_error planned plan
          fp) in
      let made = links_for route.route_id (free_link_id db route.route_id) 1 plan.stops in
      subst (λ d. Reworks db d route.route_id ids)
        (ok_injective (put_route (with_time route plan) (relinked db route.route_id made)) db' h2)
        (record {
          links_from = relinked-from db route.route_id ids made (λ l ml.
              let (_, (time, stop)) =
                links_for-Elem route.route_id (free_link_id db route.route_id) 1 plan.stops l ml in
              let (b, mb, eb) = orders l.booking_id time stop in
              sorted-ids us l.booking_id (
                subst (λ k. Elem k (map (λ u. u.booking_id) (sort_by (λ u. u.order_id) us))) eb
                  (get_each-Elem db (map (λ u. u.booking_id) (sort_by (λ u. u.order_id) us)) rows b
                    fr mb)));
          same_bookings = refl;
        })
