-- ===== src/Routes/Rebuilt.antt =====
-- Changes of the routes, their links and bookings that planning makes
-- (app/routes/route_management.py).
use fleet_manager.Prelude.{
  ℕ, suc, ◌<◌, ◌≡◌, refl, sym, ◌∙◌, ap, subst, ◌≢◌, true, ◌&&◌, Option, List, [], ◌∷◌, arith, map,
  Elem, here, there, Elem-cons, Bool-cases, inl, inr, ◌⊎◌,
}
use fleet_manager.Store.{
  Text, Db, Route, RouteStatus, RouteManagementBooking, Booking, BookingStatus,
}
use fleet_manager.Trip.Types.{eq_booking_status}
use fleet_manager.Trip.Duty.{is_final}
use fleet_manager.Trip.Completion.{IsKeyed, IsSettled, Good}
use fleet_manager.Routes.{is_one_of, next_route_id, links_for, scheduled}

-- Routes and links are kept or dropped, or are the new route and links to it, of other bookings
-- than those of the kept links; the bookings are the old ones, and final ones stay final.
pub record Rebuilds (db db' : Db) (new : Route) (Kept Fresh : RouteManagementBooking → Type 0)
    : Type 0 where
  pub unused : (r : Route) → Elem r db.routes → r.route_id ≢ new.route_id
  pub not_completed : new.status ≢ RouteStatus.completed
  pub routes_from : (r : Route) → Elem r db'.routes → Elem r db.routes ⊎ (r ≡ new)
  pub links_from :
      (l : RouteManagementBooking)
      → Elem l db'.links
      → (Elem l db.links × Kept l) ⊎ ((l.route_id ≡ new.route_id) × Fresh l)
  pub apart :
      (l m : RouteManagementBooking)
      → Elem l db.links
      → Kept l
      → Fresh m
      → l.booking_id ≢ m.booking_id
  pub bookings_from :
      (b : Booking)
      → Elem b db'.bookings
      → (a : Booking) × Elem a db.bookings
        × (b.booking_id ≡ a.booking_id)
        × (is_final a.status ≡ true → is_final b.status ≡ true)

module _ {db db' : Db} {new : Route} {Kept Fresh : RouteManagementBooking → Type 0} (good : Good db)
    (built : Rebuilds db db' new Kept Fresh) where
  rebuilt-IsKeyed : IsKeyed db'
  rebuilt-IsKeyed = record {
    routes_keyed = λ a b ma mb e. elim (built.routes_from a ma) [
      | inl ma' ↦ elim (built.routes_from b mb) [
        | inl mb' ↦ good.0.routes_keyed a b ma' mb' e
        | inr eb ↦ absurd (built.unused a ma' (e ∙ ap (λ (y : Route). y.route_id) eb))
      ]
      | inr ea ↦ elim (built.routes_from b mb) [
        | inl mb' ↦ absurd (built.unused b mb' (sym e ∙ ap (λ (y : Route). y.route_id) ea))
        | inr eb ↦ ea ∙ sym eb
      ]
    ];
    links_single = λ l m ml mm e. elim (built.links_from l ml) [
      | inl (ml', kl) ↦ elim (built.links_from m mm) [
        | inl (mm', km) ↦ good.0.links_single l m ml' mm' e
        | inr (em, fm) ↦ absurd (built.apart l m ml' kl fm e)
      ]
      | inr (el, fl) ↦ elim (built.links_from m mm) [
        | inl (mm', km) ↦ absurd (built.apart m l mm' km fl (sym e))
        | inr (em, fm) ↦ el ∙ sym em
      ]
    ];
  }

  rebuilt-IsSettled : IsSettled db'
  rebuilt-IsSettled r l b mr ml mb done e f = elim (built.routes_from r mr) [
    | inr en ↦ absurd (built.not_completed (ap (λ (y : Route). y.status) (sym en) ∙ done))
    | inl mr' ↦ elim (built.links_from l ml) [
      | inr (el, _) ↦ absurd (built.unused r mr' (sym e ∙ el))
      | inl (ml', _) ↦
          let (a, ma, ea, final) = built.bookings_from b mb in
          final (good.1 r l a mr' ml' ma done e (sym ea ∙ f))
    ]
  ]

  pub Rebuilds-Good : Good db'
  Rebuilds-Good = (rebuilt-IsKeyed, rebuilt-IsSettled)

pub next_route_id-lt : (r : Route) (rs : List Route) → Elem r rs → r.route_id < next_route_id rs
next_route_id-lt r (q ∷ rs) here = ground arith
next_route_id-lt r (q ∷ rs) (there m) = let h = next_route_id-lt r rs m in ground arith
next_route_id-lt r [] m = elim m [ ]

pub links_for-Elem :
    (route_id id order_id : ℕ) (stops : List (ℕ × Option Text)) (l : RouteManagementBooking)
    → Elem l (links_for route_id id order_id stops)
    → (l.route_id ≡ route_id) × ((time : Option Text) × Elem (l.booking_id, time) stops)
links_for-Elem route_id id order_id ((booking_id, time) ∷ stops) l m = elim (Elem-cons m) [
  | inl e ↦ (
    ap (λ (y : RouteManagementBooking). y.route_id) e,
    (
      time,
      subst (λ (y : RouteManagementBooking). Elem (y.booking_id, time) ((booking_id, time) ∷ stops))
          (sym e) here,
    ),
  )
  | inr m' ↦
      let (er, (t, mt)) = links_for-Elem route_id (suc id) (suc order_id) stops l m' in
      (er, (t, there mt))
]
links_for-Elem route_id id order_id [] l m = elim m [ ]

pub Elem-map :
    (f : Booking → Booking) (bs : List Booking) (b : Booking)
    → Elem b (map f bs)
    → (a : Booking) × Elem a bs × (b ≡ f a)
Elem-map f (x ∷ bs) b m = elim (Elem-cons m) [
  | inl e ↦ (x, here, e)
  | inr m' ↦ let (a, ma, e) = Elem-map f bs b m' in (a, there ma, e)
]
Elem-map f [] b m = elim m [ ]

pub request_open :
    (s : BookingStatus) → eq_booking_status s BookingStatus.request ≡ true → is_final s ≢ true
request_open BookingStatus.request e f = cc
request_open BookingStatus.scheduled e f = absurd (cc)
request_open BookingStatus.ongoing e f = absurd (cc)
request_open BookingStatus.completed e f = absurd (cc)
request_open BookingStatus.cancelled e f = absurd (cc)
request_open BookingStatus.no_show e f = absurd (cc)
request_open BookingStatus.expired e f = absurd (cc)

-- Scheduling keeps the key of a booking, and changes none that is final.
pub scheduled_lem :
    (ids : List ℕ) (now : ℕ) (a : Booking)
    → ((scheduled ids now a).booking_id ≡ a.booking_id)
      × (is_final a.status ≡ true → is_final (scheduled ids now a).status ≡ true)
scheduled_lem ids now a =
    elim (Bool-cases
      (is_one_of ids a.booking_id && eq_booking_status a.status BookingStatus.request)) [
        | inl due ↦ rw due (refl, λ f. absurd (request_open a.status (ground arith) f))
        | inr other ↦ rw other (refl, λ f. f)
      ]
