-- ===== src/Geofence/Blocked.antt =====
-- A stop without coordinates (`_run_geofence_check` in app/services/geofence_service.py).
use fleet_manager.Prelude.{
  ℕ, ◌*◌, ◌≤◌, ◌<◌, ◌≡◌, refl, sym, ◌∙◌, ap, subst, ◌≢◌, true, Option, none, some, List, [], ◌∷◌,
  arith, ltb, ◌==◌, ==_iff, filter, find?, find?-none, All, All-Elem, Elem, Elem-cons, Elem-replace,
  Elem-replace_other, Elem-filter_of, Bool-cases, Option-cases, inl, inr,
}
use fleet_manager.Prelude.Sort.{IsSortedBy, sort_by-IsSortedBy, Elem-sort_by}
use fleet_manager.Store.{
  Db, RouteManagementBooking, Booking, BookingStatus, Point, get_config, put_link,
}
use fleet_manager.Trip.Checks.{joins, target_of}
use fleet_manager.Geofence.{
  Arrival, Report, is_pending, radius_of, first_waiting, stops_of_route, notified,
  run_geofence_check, push, track,
}
use fleet_manager.Geofence.Once.{first_waiting_lem, stops_of_route-Elem}

-- A stop that waits, whose booking is scheduled and has no usable coordinates, and a later stop of its
-- route, where the ids of links are keys.
pub record Blocks (db : Db) (l m : RouteManagementBooking) : Type 0 where
  pub keyed :
      (x y : RouteManagementBooking) → Elem x db.links → Elem y db.links → x.id ≡ y.id → x ≡ y
  pub blocking : Elem l db.links
  pub waits : l.geofence_notified_at ≡ none
  pub booked :
      (b : Booking) × Elem b db.bookings
      × (b.booking_id ≡ l.booking_id)
      × (b.status ≡ BookingStatus.scheduled)
  pub unplaced :
      (b : Booking)
      → Elem b db.bookings
      → b.booking_id ≡ l.booking_id
      → target_of b.pickup_latitude b.pickup_longitude ≡ none
  pub blocked : Elem m db.links
  pub one_route : m.route_id ≡ l.route_id
  pub later : l.order_id < m.order_id

found_of :
    (l : RouteManagementBooking) (bookings : List Booking) (b : Booking)
    → Elem b bookings
    → b.booking_id ≡ l.booking_id
    → b.status ≡ BookingStatus.scheduled
    → (k : Booking) × (find? (joins is_pending l) bookings ≡ some k)
found_of l bookings b m i s = elim (Option-cases (find? (joins is_pending l) bookings)) [
  | inr found ↦ found
  | inl missing ↦
      let no = find?-none (joins is_pending l) bookings missing m in
      let yes_pending : is_pending b.status ≡ true = rw s refl in absurd (ground arith)
]

-- The first waiting stop is not behind one that waits.
first_waiting_before :
    (bookings : List Booking) (ls : List RouteManagementBooking) (l x : RouteManagementBooking)
    (b k : Booking)
    → IsSortedBy (λ (y : RouteManagementBooking). y.order_id) ls
    → first_waiting bookings ls ≡ some (x, k)
    → Elem l ls
    → l.geofence_notified_at ≡ none
    → find? (joins is_pending l) bookings ≡ some b
    → x.order_id ≤ l.order_id
unfolding first_waiting
first_waiting_before bookings [] l x b k sorted h m fresh found = elim m [ ]
first_waiting_before bookings (y ∷ ys) l x b k (least, sorted) h m fresh found =
    elim (Option-cases y.geofence_notified_at) [
      | inr (t, done) ↦ elim (Elem-cons m) [
        | inl e ↦
            let done' =
              subst (λ (z : RouteManagementBooking). z.geofence_notified_at ≡ none) e fresh in
            absurd (cc)
        | inr m' ↦ first_waiting_before bookings ys l x b k sorted (ground arith) m' fresh found
      ]
      | inl free ↦ elim (Option-cases (find? (joins is_pending y) bookings)) [
        | inl nobody ↦ elim (Elem-cons m) [
          | inl e ↦
              let found' = subst (λ z. find? (joins is_pending z) bookings ≡ some b) e found in
              absurd (cc)
          | inr m' ↦ first_waiting_before bookings ys l x b k sorted (ground arith) m' fresh found
        ]
        | inr (j, here_found) ↦
            let first : y ≡ x = ground arith in
            let le : y.order_id ≤ l.order_id = elim (Elem-cons m) [
              | inl e ↦ let same = ap (λ (z : RouteManagementBooking). z.order_id) e in omega arith
              | inr m' ↦
                  All-Elem (λ (z : RouteManagementBooking). y.order_id ≤ z.order_id) ys least m'
            ] in
            subst (λ (z : RouteManagementBooking). z.order_id ≤ l.order_id) first le
      ]
    ]

-- Marking another stop leaves both stops as they are.
put_link-Blocks :
    (db : Db) (l m x : RouteManagementBooking) (now : ℕ)
    → Blocks db l m
    → x.id ≢ l.id
    → x.id ≢ m.id
    → Blocks (put_link (notified x now) db) l m
put_link-Blocks db l m x now s nl nm =
    let new = notified x now in
    let key = λ (y : RouteManagementBooking). y.id in
    record {
      keyed = λ a c ma mc e. elim (Elem-replace key new db.links ma) [
        | inl ea ↦ elim (Elem-replace key new db.links mc) [
          | inl ec ↦ ea ∙ sym ec
          | inr (mc', kc) ↦ absurd (kc (sym e ∙ ap key ea))
        ]
        | inr (ma', ka) ↦ elim (Elem-replace key new db.links mc) [
          | inl ec ↦ absurd (ka (e ∙ ap key ec))
          | inr (mc', kc) ↦ s.keyed a c ma' mc' e
        ]
      ];
      blocking = Elem-replace_other key new db.links s.blocking (λ e. nl (sym e));
      waits = s.waits;
      booked = s.booked;
      unplaced = s.unplaced;
      blocked = Elem-replace_other key new db.links s.blocked (λ e. nm (sym e));
      one_route = s.one_route;
      later = s.later;
    }

-- The push, if there is one, is not about the stop.
abbrev Spares : RouteManagementBooking → Option Arrival → Type 0
Spares m none = Unit
Spares m (some a) = a.link_id ≢ m.id

module _ (db : Db) (l m : RouteManagementBooking) (s : Blocks db l m) (route_id : ℕ)
    (x : RouteManagementBooking) (k : Booking)
    (found : first_waiting db.bookings (stops_of_route db route_id) ≡ some (x, k)) where
  -- The first waiting stop is not the blocked one.
  first_waiting-blocked : x.id ≢ m.id
  first_waiting-blocked e =
      let (mx, fresh, mk, pending) =
        first_waiting_lem db.bookings (stops_of_route db route_id) x k found in
      let (ml, er) = stops_of_route-Elem db route_id x mx in
      let same : x ≡ m = s.keyed x m ml s.blocked e in
      let of_route : m.route_id ≡ route_id =
        subst (λ (y : RouteManagementBooking). y.route_id ≡ route_id) same
          ((==_iff x.route_id route_id).0 er) in
      let one_route = s.one_route in
      let stop : Elem l (stops_of_route db route_id) =
        Elem-sort_by (λ y. y.order_id) (filter (λ y. y.route_id == route_id) db.links)
          (Elem-filter_of (λ y. y.route_id == route_id) db.links s.blocking (ground arith)) in
      let (b, mb, ib, sb) = s.booked in
      let (j, fj) = found_of l db.bookings b mb ib sb in
      let le =
        first_waiting_before db.bookings (stops_of_route db route_id) l x j k
          (sort_by-IsSortedBy (λ y. y.order_id) (filter (λ y. y.route_id == route_id) db.links))
          found stop s.waits fj in
      let le' : m.order_id ≤ l.order_id =
        subst (λ (y : RouteManagementBooking). y.order_id ≤ l.order_id) same le in
      let later = s.later in omega arith

  -- Where its booking has coordinates, it is not the blocking one either.
  first_waiting-blocking :
      (p : Point) → target_of k.pickup_latitude k.pickup_longitude ≡ some p → x.id ≢ l.id
  first_waiting-blocking p placed e =
      let (mx, fresh, mk, pending) =
        first_waiting_lem db.bookings (stops_of_route db route_id) x k found in
      let (ml, er) = stops_of_route-Elem db route_id x mx in
      let same : x ≡ l = s.keyed x l ml s.blocking e in
      let of_l : joins is_pending l k ≡ true =
        subst (λ y. joins is_pending y k ≡ true) same pending in
      let nowhere = s.unplaced k mk (ground arith) in absurd (cc)

module _ (geodesic : Point → Point → ℕ) (l m : RouteManagementBooking) where
  run_geofence_check-Blocks :
      (db : Db) (r : Report)
      → Blocks db l m
      → let step = run_geofence_check geodesic db r.tenant_id r.route_id r.here r.now in
        Blocks step.0 l m × Spares m step.1
  unfolding run_geofence_check
  run_geofence_check-Blocks db r s =
      elim (Option-cases (first_waiting db.bookings (stops_of_route db r.route_id))) [
        | inl nobody ↦ rw nobody (s, tt)
        | inr ((x, k), found) ↦
            elim (Option-cases (target_of k.pickup_latitude k.pickup_longitude)) [
              | inl nowhere ↦ rw found (rw nowhere (s, tt))
              | inr (p, placed) ↦
                  let nm = first_waiting-blocked db l m s r.route_id x k found in
                  let nl = first_waiting-blocking db l m s r.route_id x k found p placed in
                  elim (Bool-cases
                    (ltb (radius_of (get_config db r.tenant_id) * 1000) (geodesic r.here p))) [
                      | inl far ↦ rw found (rw placed (rw far (s, tt)))
                      | inr near ↦
                          rw found
                            (rw placed (rw near (put_link-Blocks db l m x r.now s nl nm, nm)))
                    ]
            ]
      ]

  All-push :
      (o : Option Arrival) (arrivals : List Arrival)
      → Spares m o
      → All (λ a. a.link_id ≢ m.id) arrivals
      → All (λ a. a.link_id ≢ m.id) (push o arrivals)
  All-push none arrivals h t = t
  All-push (some a) arrivals h t = (h, t)

  -- While a stop waits whose booking is scheduled but has no usable coordinates, no report ever
  -- notifies a later stop of the route: however many reports there are, of whatever routes and from
  -- wherever, none of the pushes is about the later stop, and its link stays as it is.
  pub track_blocked :
      (rs : List Report) (db : Db)
      → Blocks db l m
      → All (λ a. a.link_id ≢ m.id) (track geodesic db rs).1 × Elem m (track geodesic db rs).0.links
  unfolding track
  track_blocked [] db s = (tt, s.blocked)
  track_blocked (r ∷ rs) db s =
      let step = run_geofence_check geodesic db r.tenant_id r.route_id r.here r.now in
      let (s', spared) = run_geofence_check-Blocks db r s in
      let (rest, kept) = track_blocked rs step.0 s' in
      (All-push step.1 (track geodesic step.0 rs).1 spared rest, kept)
