-- ===== src/Routes/Dropped.antt =====
-- Bookings that an update of a route leaves out (`update_route_bookings` in
-- app/routes/route_management.py).
use fleet_manager.Prelude.{
  ℕ, ◌≡◌, refl, sym, ◌∙◌, subst, ◌≢◌, Bool, true, false, not, Option, List, [], ◌∷◌, arith, ◌==◌,
  map, filter, length, any-of_Elem, Elem, here, there, inl, inr,
}
use fleet_manager.Prelude.Result.{ok, bind-eq-ok, raise_if-eq-ok, or_raise-eq-ok, ok_injective}
use fleet_manager.Store.{Db, RouteManagementBooking, Booking, Point}
use fleet_manager.Trip.Completion.{IsKeyed}
use fleet_manager.Routes.{
  RouteError, Planner, planning_tenant, is_one_of, route_of_tenant, scheduled,
}
use fleet_manager.Routes.Optimal.{Query, Directions}
use fleet_manager.Routes.Kept.{route_of_tenant_lem}
use fleet_manager.Routes.Rework.{
  RouteBookingUpdate, joined_shift, links_of, no_update, reworked_links, update_route_bookings,
}
use fleet_manager.Routes.Reworked.{Reworks, reworked_links-Reworks}

Elem-map_of : {A B : Type 0} (f : A → B) {a : A} (xs : List A) → Elem a xs → Elem (f a) (map f xs)
Elem-map_of f (x ∷ xs) here = here
Elem-map_of f (x ∷ xs) (there m) = there (Elem-map_of f xs m)
Elem-map_of f [] m = elim m [ ]

is_one_of-of_Elem : (ids : List ℕ) (k : ℕ) → Elem k ids → is_one_of ids k ≡ true
is_one_of-of_Elem ids k m = any-of_Elem (λ j. j == k) ids m (ground arith)

unscheduled :
    (ids : List ℕ) (now : ℕ) (b : Booking)
    → is_one_of ids b.booking_id ≡ false
    → scheduled ids now b ≡ b
unscheduled ids now b other = rw other refl

module _ (directions : Query → Option Directions) (haversine : Point → Point → ℕ) where
  -- What an accepted update commits.
  pub update_route_bookings_lem :
      (db : Db) (user : Planner) (asked : Option ℕ) (route_id : ℕ) (us : List RouteBookingUpdate)
      (optimize : Bool) (now : ℕ) (db' : Db)
      → update_route_bookings directions haversine db user asked route_id us optimize now ≡ ok db'
      → (db₁ : Db) × Reworks db db₁ route_id (map (λ u. u.booking_id) us)
        × (db' ≡ record db₁ {
          bookings = map (scheduled (map (λ u. u.booking_id) us) now) db₁.bookings;
        })
  unfolding update_route_bookings
  update_route_bookings_lem db user asked route_id us optimize now db' h =
      let ids = map (λ (u : RouteBookingUpdate). u.booking_id) us in
      let (tenant_id, ft, h1) = bind-eq-ok (planning_tenant user asked) _ h in
      let (some_bookings, h2) =
        raise_if-eq-ok (no_update us) RouteError.no_bookings_provided _ h1 in
      let (route, fr, h3) =
        or_raise-eq-ok (route_of_tenant db tenant_id route_id) RouteError.route_not_found _ h2 in
      let (shift, fs, h4) =
        or_raise-eq-ok (joined_shift db (links_of db route_id)) RouteError.route_not_found _ h3 in
      let (valid, h5) =
        raise_if-eq-ok
          (not (
            length (filter (λ l. is_one_of ids l.booking_id) (links_of db route_id)) == length ids))
          RouteError.invalid_bookings _ h4 in
      let (db₁, fd, h6) =
        bind-eq-ok (reworked_links directions haversine optimize db route shift us) _ h5 in
      let (_, key, _) = route_of_tenant_lem db tenant_id route_id route fr in
      let works = reworked_links-Reworks directions haversine optimize db route shift us db₁ fd in
      (db₁, subst (λ k. Reworks db db₁ k ids) key works, sym (ok_injective _ _ h6))

  -- A booking of the route that an accepted update does not list is on no route any more, but its row
  -- is left as it is, scheduled if it was, where bookings are linked to one route.
  pub update_route_bookings_drops :
      (db : Db) (user : Planner) (asked : Option ℕ) (route_id : ℕ) (us : List RouteBookingUpdate)
      (optimize : Bool) (now : ℕ) (db' : Db) (l : RouteManagementBooking)
      → IsKeyed db
      → update_route_bookings directions haversine db user asked route_id us optimize now ≡ ok db'
      → Elem l db.links
      → l.route_id ≡ route_id
      → is_one_of (map (λ u. u.booking_id) us) l.booking_id ≡ false
      → ((m : RouteManagementBooking) → Elem m db'.links → m.booking_id ≢ l.booking_id)
        × ((b : Booking) → Elem b db.bookings → b.booking_id ≡ l.booking_id → Elem b db'.bookings)
  update_route_bookings_drops db user asked route_id us optimize now db' l keyed h ml el unlisted =
      let ids = map (λ (u : RouteBookingUpdate). u.booking_id) us in
      let (db₁, works, e) =
        update_route_bookings_lem db user asked route_id us optimize now db' h in
      (
        (λ m mm em. elim (works.links_from m (subst (λ (d : Db). Elem m d.links) e mm)) [
          | inl (old, elsewhere) ↦ elsewhere (keyed.links_single m l old ml em ∙ el)
          | inr listed ↦
              let t = is_one_of-of_Elem ids l.booking_id (subst (λ k. Elem k ids) em listed) in
              absurd (ground arith)
        ]),
        (λ b mb eb.
            let other : is_one_of ids b.booking_id ≡ false =
              subst (λ k. is_one_of ids k ≡ false) (sym eb) unlisted in
            let kept : Elem b db₁.bookings = subst (λ bs. Elem b bs) (sym works.same_bookings) mb in
            let there_still = Elem-map_of (scheduled ids now) db₁.bookings kept in
            subst (λ (d : Db). Elem b d.bookings) (sym e)
              (subst (λ c. Elem c (map (scheduled ids now) db₁.bookings))
                (unscheduled ids now b other) there_still)),
      )
