-- ===== src/Geofence/Once.antt =====
-- How often a stop is notified (`_run_geofence_check` in app/services/geofence_service.py).
use fleet_manager.Prelude.{
  ℕ, ◌*◌, ◌≤◌, ◌≡◌, refl, sym, ◌∙◌, ap, subst, ◌≢◌, true, Option, none, some, List, [], ◌∷◌, arith,
  ltb, ◌==◌, filter, find?, find?-true, All, All-Elem, All-of_Elem, Elem, here, there, Elem-replace,
  Elem-filter, Bool-cases, Option-cases, inl, inr,
}
use fleet_manager.Prelude.Sort.{All-sort_by}
use fleet_manager.Store.{Db, RouteManagementBooking, Booking, Point, get_config, put_link}
use fleet_manager.Trip.Checks.{joins, target_of}
use fleet_manager.Geofence.{
  Arrival, Report, is_pending, radius_of, first_waiting, stops_of_route, notified, arrival_of,
  run_geofence_check, push, track,
}

pub first_waiting_lem :
    (bookings : List Booking) (ls : List RouteManagementBooking) (l : RouteManagementBooking)
    (b : Booking)
    → first_waiting bookings ls ≡ some (l, b)
    → Elem l ls × (l.geofence_notified_at ≡ none) × Elem b bookings × (joins is_pending l b ≡ true)
unfolding first_waiting
first_waiting_lem bookings [] l b h = absurd (cc)
first_waiting_lem bookings (x ∷ xs) l b h = elim (Option-cases x.geofence_notified_at) [
  | inr (t, done) ↦
      let (m, fresh', mb, pending) = first_waiting_lem bookings xs l b (ground arith) in
      (there m, fresh', mb, pending)
  | inl fresh ↦ elim (Option-cases (find? (joins is_pending x) bookings)) [
    | inl none_pending ↦
        let (m, fresh', mb, pending) = first_waiting_lem bookings xs l b (ground arith) in
        (there m, fresh', mb, pending)
    | inr (k, found) ↦
        let (t, mk) = find?-true (joins is_pending x) bookings found in
        let el : x ≡ l = ground arith in
        let eb : k ≡ b = ground arith in
        (
          subst (λ y. Elem y (x ∷ xs)) el here,
          ap (λ (y : RouteManagementBooking). y.geofence_notified_at) (sym el) ∙ fresh,
          subst (λ y. Elem y bookings) eb mk,
          subst (λ y. joins is_pending y b ≡ true) el
              (subst (λ y. joins is_pending x y ≡ true) eb t),
        )
  ]
]

pub stops_of_route-Elem :
    (db : Db) (route_id : ℕ) (l : RouteManagementBooking)
    → Elem l (stops_of_route db route_id)
    → Elem l db.links × ((l.route_id == route_id) ≡ true)
stops_of_route-Elem db route_id l m =
    let p = λ (l : RouteManagementBooking). l.route_id == route_id in
    let P = λ (y : RouteManagementBooking). Elem y db.links × (p y ≡ true) in
    All-Elem P (stops_of_route db route_id)
      (All-sort_by (λ l. l.order_id) P (filter p db.links)
        (All-of_Elem P (filter p db.links) (λ a ma. Elem-filter p db.links ma)))
      m

-- What one report does: nothing, or the notification of a link that had none.
pub data Step (geodesic : Point → Point → ℕ) (db : Db) (r : Report)
    : Db → Option Arrival → Type 0 where
  silent : Step geodesic db r db none
  fired :
      (l : RouteManagementBooking) (b : Booking) (stop : Point)
      → Elem l db.links
      → (l.route_id == r.route_id) ≡ true
      → l.geofence_notified_at ≡ none
      → Elem b db.bookings
      → joins is_pending l b ≡ true
      → target_of b.pickup_latitude b.pickup_longitude ≡ some stop
      → geodesic r.here stop ≤ radius_of (get_config db r.tenant_id) * 1000
      → Step geodesic db r
          (put_link (notified l r.now) db)
          (some (arrival_of l b r.route_id (geodesic r.here stop)))

module _ (geodesic : Point → Point → ℕ) where
  abbrev Steps : Db → Report → Db × Option Arrival → Type 0
  Steps db r (db', a) = Step geodesic db r db' a

  run_geofence_check-Step :
      (db : Db) (r : Report)
      → Steps db r (run_geofence_check geodesic db r.tenant_id r.route_id r.here r.now)
  unfolding run_geofence_check
  run_geofence_check-Step db r =
      elim (Option-cases (first_waiting db.bookings (stops_of_route db r.route_id))) [
        | inl none_left ↦ rw none_left silent
        | inr ((l, b), found) ↦
            let (m, fresh, mb, pending) =
              first_waiting_lem db.bookings (stops_of_route db r.route_id) l b found in
            let (ml, er) = stops_of_route-Elem db r.route_id l m in
            elim (Option-cases (target_of b.pickup_latitude b.pickup_longitude)) [
              | inl nowhere ↦ rw found (rw nowhere silent)
              | inr (stop, known) ↦
                  elim (Bool-cases
                    (ltb (radius_of (get_config db r.tenant_id) * 1000) (geodesic r.here stop))) [
                      | inl away ↦ rw found (rw known (rw away silent))
                      | inr near ↦ rw found (
                          rw known
                            (rw near (fired l b stop ml er fresh mb pending known (ground arith))))
                    ]
            ]
      ]

-- No two pushes of the list are about one link.
abbrev pub IsDistinct : List Arrival → Type 0
IsDistinct [] = Unit
IsDistinct (a ∷ pushes) = All (λ b. b.link_id ≢ a.link_id) pushes × IsDistinct pushes

-- A link with the id has not been notified.
abbrev pub IsFresh : Db → ℕ → Type 0
IsFresh db id =
    (l : RouteManagementBooking) × Elem l db.links × (l.id ≡ id) × (l.geofence_notified_at ≡ none)

-- A link that is fresh after a notification was fresh before, and is another one.
put_link-IsFresh :
    (db : Db) (l : RouteManagementBooking) (now id : ℕ)
    → IsFresh (put_link (notified l now) db) id
    → IsFresh db id × (id ≢ l.id)
put_link-IsFresh db l now id (k, m, e, fresh) =
    elim (Elem-replace (λ l. l.id) (notified l now) db.links m) [
      | inl same ↦ absurd (
          let e' = ap (λ (y : RouteManagementBooking). y.geofence_notified_at) same in ground arith)
      | inr (m', other) ↦ ((k, m', e, fresh), λ same. other (e ∙ same))
    ]

module _ (geodesic : Point → Point → ℕ) where
  abbrev Tracked : Db → List Arrival → Type 0
  Tracked db pushes = All (λ a. IsFresh db a.link_id) pushes × IsDistinct pushes

  push-Tracked :
      (db : Db) (r : Report) (db' : Db) (a : Option Arrival) (pushes : List Arrival)
      → Step geodesic db r db' a
      → Tracked db' pushes
      → Tracked db (push a pushes)
  push-Tracked db r db' a pushes silent t = t
  push-Tracked db r db' a pushes (fired l b stop ml er fresh mb pending known near) (f, d) =
      let before = λ (x : Arrival) (m : Elem x pushes).
        put_link-IsFresh db l r.now x.link_id (All-Elem (λ a. IsFresh db' a.link_id) pushes f m) in
      (
        (
          (l, ml, refl, fresh),
          All-of_Elem (λ a. IsFresh db a.link_id) pushes (λ x m. (before x m).0),
        ),
        (All-of_Elem (λ x. x.link_id ≢ l.id) pushes (λ x m. (before x m).1), d),
      )

  -- However often positions are reported, of whatever routes, no link is notified twice, and none
  -- that had been notified before.
  pub track-IsDistinct :
      (rs : List Report) (db : Db)
      → All (λ a. IsFresh db a.link_id) (track geodesic db rs).1
        × IsDistinct (track geodesic db rs).1
  unfolding track
  track-IsDistinct [] db = (tt, tt)
  track-IsDistinct (r ∷ rs) db =
      let step = run_geofence_check geodesic db r.tenant_id r.route_id r.here r.now in
      push-Tracked db r step.0 step.1 (track geodesic step.0 rs).1
        (run_geofence_check-Step geodesic db r) (track-IsDistinct rs step.0)
