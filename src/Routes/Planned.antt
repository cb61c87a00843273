-- ===== src/Routes/Planned.antt =====
-- What making, merging and deleting routes keeps (`create_route_from_bookings`, `merge_routes` and
-- `delete_route` in app/routes/route_management.py).
use fleet_manager.Prelude.{
  ℕ, ◌≡◌, refl, sym, ◌∙◌, ap, subst, ◌≢◌, true, false, not, ◌&&◌, Option, none, List, [], ◌∷◌, ◌++◌,
  arith, ◌==◌, any-true, filter, map, Elem, here, there, Elem-cons, Elem-append, Elem-filter,
  Bool-cases, inl, inr,
}
use fleet_manager.Store.{Text, Db, Route, RouteManagementBooking, Booking, BookingStatus}
use fleet_manager.Trip.Types.{eq_booking_status}
use fleet_manager.Trip.Duty.{is_final}
use fleet_manager.Trip.Completion.{Good}
use fleet_manager.Routes.{
  is_one_of, Plan, next_route_id, next_link_id, new_route, links_for, scheduled, with_route,
}
use fleet_manager.Routes.Build.{
  unoptimized, unlinked, unique_ids, booking_ids_of, without_routes, reverted,
}
use fleet_manager.Routes.Ordered.{Orders}
use fleet_manager.Routes.Rebuilt.{
  Rebuilds, Rebuilds-Good, next_route_id-lt, links_for-Elem, Elem-map, scheduled_lem,
}

pub unoptimized-Orders : (bs : List Booking) → Orders (unoptimized bs) bs
unoptimized-Orders (b ∷ bs) id time m = elim (Elem-cons m) [
  | inl e ↦ (b, here, ap (λ (s : ℕ × Option Text). s.0) (sym e))
  | inr m' ↦ let (c, mc, ec) = unoptimized-Orders bs id time m' in (c, there mc, ec)
]
unoptimized-Orders [] id time m = elim m [ ]

new_id_unused : (db : Db) (r : Route) → Elem r db.routes → r.route_id ≢ next_route_id db.routes
new_id_unused db r m e = let h = next_route_id-lt r db.routes m in absurd (omega arith)

-- A new route for bookings that no other route has.
pub with_route-Good :
    (db : Db) (tenant_id : ℕ) (shift_id : Option ℕ) (plan : Plan) (ids : List ℕ) (now : ℕ)
    (bs : List Booking)
    → Orders plan bs
    → ((b : Booking) → Elem b bs → is_one_of ids b.booking_id ≡ true)
    → Good db
    → Good (with_route (unlinked ids db) tenant_id shift_id plan ids now)
unfolding with_route
with_route-Good db tenant_id shift_id plan ids now bs orders asked good =
    let new = new_route (next_route_id db.routes) tenant_id shift_id plan.estimated_time now in
    let left = filter (λ (l : RouteManagementBooking). not (is_one_of ids l.booking_id)) db.links in
    let made = links_for (next_route_id db.routes) (next_link_id left) 1 plan.stops in
    let built : Rebuilds db (with_route (unlinked ids db) tenant_id shift_id plan ids now) new
        (λ l. is_one_of ids l.booking_id ≡ false) (λ l. is_one_of ids l.booking_id ≡ true) =
      record {
        unused = new_id_unused db;
        not_completed = λ e. absurd (cc);
        routes_from = λ r m. elim (Elem-append db.routes (new ∷ []) m) [
          | inl old ↦ inl old
          | inr last ↦ elim (Elem-cons last) [ inl e ↦ inr e | inr n ↦ elim n [ ] ]
        ];
        links_from = λ l m. elim (Elem-append left made m) [
          | inl kept ↦
              let (old, other) =
                Elem-filter (λ (l : RouteManagementBooking). not (is_one_of ids l.booking_id))
                  db.links kept in
              inl (old, ground arith)
          | inr fresh ↦
              let (er, (time, stop)) =
                links_for-Elem (next_route_id db.routes) (next_link_id left) 1 plan.stops l fresh in
              let (b, mb, eb) = orders l.booking_id time stop in
              inr (er, subst (λ k. is_one_of ids k ≡ true) eb (asked b mb))
        ];
        apart = λ l m old kept fresh e.
            absurd (let h = subst (λ k. is_one_of ids k ≡ false) e kept in ground arith);
        bookings_from = λ b m.
            let (a, ma, e) = Elem-map (scheduled ids now) db.bookings b m in
            let (key, final) = scheduled_lem ids now a in
            (
              a,
              ma,
              ap (λ (y : Booking). y.booking_id) e ∙ key,
              λ f. subst (λ (y : Booking). is_final y.status ≡ true) (sym e) (final f),
            );
      } in
    Rebuilds-Good good built

-- Links whose route is one of those that are merged have the bookings of the new route.
pub merged-Good :
    (db : Db) (tenant_id : ℕ) (shift_id : Option ℕ) (plan : Plan) (route_ids ids : List ℕ) (now : ℕ)
    (bs : List Booking)
    → Orders plan bs
    → ((b : Booking)
        → Elem b bs
        → (l : RouteManagementBooking) × Elem l db.links
          × (l.booking_id ≡ b.booking_id)
          × (is_one_of route_ids l.route_id ≡ true))
    → Good db
    → Good (without_routes route_ids (with_route db tenant_id shift_id plan ids now))
unfolding with_route
merged-Good db tenant_id shift_id plan route_ids ids now bs orders linked good =
    let new = new_route (next_route_id db.routes) tenant_id shift_id plan.estimated_time now in
    let made = links_for (next_route_id db.routes) (next_link_id db.links) 1 plan.stops in
    let keeps_route = λ (r : Route). not (is_one_of route_ids r.route_id) in
    let keeps_link = λ (l : RouteManagementBooking). not (is_one_of route_ids l.route_id) in
    let built : Rebuilds db
        (without_routes route_ids (with_route db tenant_id shift_id plan ids now)) new
        (λ l. is_one_of route_ids l.route_id ≡ false)
        (λ m.
          (l : RouteManagementBooking) × Elem l db.links
          × (l.booking_id ≡ m.booking_id)
          × (is_one_of route_ids l.route_id ≡ true)) =
      record {
        unused = new_id_unused db;
        not_completed = λ e. absurd (cc);
        routes_from = λ r m.
            let (m', _) = Elem-filter keeps_route (db.routes ++ new ∷ []) m in
            elim (Elem-append db.routes (new ∷ []) m') [
              | inl old ↦ inl old
              | inr last ↦ elim (Elem-cons last) [ inl e ↦ inr e | inr n ↦ elim n [ ] ]
            ];
        links_from = λ l m.
            let (m', kept) = Elem-filter keeps_link (db.links ++ made) m in
            elim (Elem-append db.links made m') [
              | inl old ↦ inl (old, ground arith)
              | inr fresh ↦
                  let (er, (time, stop)) =
                    links_for-Elem (next_route_id db.routes) (next_link_id db.links) 1 plan.stops l
                      fresh in
                  let (b, mb, eb) = orders l.booking_id time stop in
                  let (o, mo, eo, among) = linked b mb in inr (er, (o, mo, eo ∙ eb, among))
            ];
        apart = λ l m old kept (o, mo, eo, among) e.
            let same = good.0.links_single l o old mo (e ∙ sym eo) in
            absurd
              (let h = subst (λ k. is_one_of route_ids k ≡ true) (sym same) among in ground arith);
        bookings_from = λ b m.
            let (a, ma, e) = Elem-map (scheduled ids now) db.bookings b m in
            let (key, final) = scheduled_lem ids now a in
            (
              a,
              ma,
              ap (λ (y : Booking). y.booking_id) e ∙ key,
              λ f. subst (λ (y : Booking). is_final y.status ≡ true) (sym e) (final f),
            );
      } in
    Rebuilds-Good good built

pub is_one_of-Elem : (k : ℕ) (ids : List ℕ) → is_one_of ids k ≡ true → Elem k ids
is_one_of-Elem k ids h =
    let (i, m, e) = any-true (λ i. i == k) ids h in subst (λ j. Elem j ids) (ground arith) m

pub unique_ids-Elem : (k : ℕ) (ids : List ℕ) → Elem k (unique_ids ids) → Elem k ids
unique_ids-Elem k (i ∷ ids) m = elim (Elem-cons m) [
  | inl e ↦ subst (λ j. Elem j (i ∷ ids)) (sym e) here
  | inr m' ↦ there (unique_ids-Elem k ids (Elem-filter (λ k. not (k == i)) (unique_ids ids) m').0)
]
unique_ids-Elem k [] m = elim m [ ]

linked_by :
    (ls : List RouteManagementBooking) (k : ℕ)
    → Elem k (map (λ l. l.booking_id) ls)
    → (l : RouteManagementBooking) × Elem l ls × (l.booking_id ≡ k)
linked_by (l ∷ ls) k m = elim (Elem-cons m) [
  | inl e ↦ (l, here, sym e)
  | inr m' ↦ let (o, mo, eo) = linked_by ls k m' in (o, there mo, eo)
]
linked_by [] k m = elim m [ ]

-- The link and the route that put a booking among those of the routes.
pub linked_to :
    (db : Db) (routes : List Route) (k : ℕ)
    → Elem k (booking_ids_of db routes)
    → (l : RouteManagementBooking) × (r : Route) × Elem l db.links
      × (l.booking_id ≡ k)
      × Elem r routes
      × (l.route_id ≡ r.route_id)
linked_to db (r ∷ rs) k m =
    let of_route = λ (l : RouteManagementBooking). l.route_id == r.route_id in
    elim (Elem-append (map (λ l. l.booking_id) (filter of_route db.links)) (booking_ids_of db rs)
      m) [
        | inl own ↦
            let (l, ml, el) = linked_by (filter of_route db.links) k own in
            let (m', er) = Elem-filter of_route db.links ml in (l, r, m', el, here, ground arith)
        | inr rest ↦
            let (l, q, ml, el, mq, er) = linked_to db rs k rest in (l, q, ml, el, there mq, er)
      ]
linked_to db [] k m = elim m [ ]

scheduled_open :
    (s : BookingStatus) → eq_booking_status s BookingStatus.scheduled ≡ true → is_final s ≢ true
scheduled_open BookingStatus.request e f = absurd (cc)
scheduled_open BookingStatus.scheduled e f = cc
scheduled_open BookingStatus.ongoing e f = absurd (cc)
scheduled_open BookingStatus.completed e f = absurd (cc)
scheduled_open BookingStatus.cancelled e f = absurd (cc)
scheduled_open BookingStatus.no_show e f = absurd (cc)
scheduled_open BookingStatus.expired e f = absurd (cc)

-- Reverting keeps the key of a booking, and changes none that is final.
reverted_lem :
    (ids : List ℕ) (now : ℕ) (a : Booking)
    → ((reverted ids now a).booking_id ≡ a.booking_id)
      × (is_final a.status ≡ true → is_final (reverted ids now a).status ≡ true)
reverted_lem ids now a =
    elim (Bool-cases
      (is_one_of ids a.booking_id && eq_booking_status a.status BookingStatus.scheduled)) [
        | inl due ↦ rw due (refl, λ f. absurd (scheduled_open a.status (ground arith) f))
        | inr other ↦ rw other (refl, λ f. f)
      ]

-- Routes that go, with their links.
pub deleted-Good :
    (db : Db) (route_ids ids : List ℕ) (now : ℕ)
    → Good db
    → Good (without_routes route_ids (record db { bookings = map (reverted ids now) db.bookings }))
deleted-Good db route_ids ids now good =
    let after =
      without_routes route_ids (record db { bookings = map (reverted ids now) db.bookings }) in
    let built : Rebuilds db after (new_route (next_route_id db.routes) 0 none 0 now) (λ l. Unit {0})
        (λ l. ⊥) =
      record {
        unused = new_id_unused db;
        not_completed = λ e. absurd (cc);
        routes_from = λ r m.
            inl (Elem-filter (λ (r : Route). not (is_one_of route_ids r.route_id)) db.routes m).0;
        links_from = λ l m. inl (
          (Elem-filter (λ (l : RouteManagementBooking). not (is_one_of route_ids l.route_id))
              db.links m).0,
          tt,
        );
        apart = λ l m old kept none_fresh e. none_fresh;
        bookings_from = λ b m.
            let (a, ma, e) = Elem-map (reverted ids now) db.bookings b m in
            let (key, final) = reverted_lem ids now a in
            (
              a,
              ma,
              ap (λ (y : Booking). y.booking_id) e ∙ key,
              λ f. subst (λ (y : Booking). is_final y.status ≡ true) (sym e) (final f),
            );
      } in
    Rebuilds-Good good built
