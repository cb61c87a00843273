-- ===== src/Trip/Completion.antt =====
-- Completed routes and their bookings (`end_duty` and the rides of
-- app/routes/app_driver_router.py).
use fleet_manager.Prelude.{
  ◌≢◌, ◌≡◌, refl, sym, ◌∙◌, subst, ap, true, replace, Elem, Elem-replace, ◌⊎◌, inl, inr,
}
use fleet_manager.Store.{
  Db, Route, RouteStatus, RouteManagementBooking, Booking, put_link, put_booking,
}
use fleet_manager.Trip.Duty.{is_final}

-- Route ids are keys, and a booking is linked to one route only.
pub record IsKeyed (db : Db) : Type 0 where
  pub routes_keyed :
      (a b : Route) → Elem a db.routes → Elem b db.routes → a.route_id ≡ b.route_id → a ≡ b
  pub links_single :
      (l m : RouteManagementBooking)
      → Elem l db.links
      → Elem m db.links
      → l.booking_id ≡ m.booking_id
      → l.route_id ≡ m.route_id

-- Every booking that is linked to a completed route is completed, no-show or cancelled.
abbrev pub IsSettled : Db → Type 0
IsSettled db =
    (r : Route) (l : RouteManagementBooking) (b : Booking)
    → Elem r db.routes
    → Elem l db.links
    → Elem b db.bookings
    → r.status ≡ RouteStatus.completed
    → l.route_id ≡ r.route_id
    → b.booking_id ≡ l.booking_id
    → is_final b.status ≡ true

abbrev pub Good : Db → Type 0
Good db = IsKeyed db × IsSettled db

-- A write of one route, with the other tables kept.
module _ {db : Db} (good : Good db) (new : Route) where
  pub route_write-IsKeyed :
      (db' : Db)
      → db'.routes ≡ replace (λ r. r.route_id) new db.routes
      → db'.links ≡ db.links
      → IsKeyed db'
  route_write-IsKeyed db' er el = record {
    routes_keyed = λ a b ma mb e.
        elim (Elem-replace (λ r. r.route_id) new db.routes (subst (λ l. Elem a l) er ma)) [
          | inl ea ↦
              elim (Elem-replace (λ r. r.route_id) new db.routes (subst (λ l. Elem b l) er mb)) [
                | inl eb ↦ ea ∙ sym eb
                | inr (_, other) ↦ absurd (other (sym e ∙ ap (λ (y : Route). y.route_id) ea))
              ]
          | inr (ma', other) ↦
              elim (Elem-replace (λ r. r.route_id) new db.routes (subst (λ l. Elem b l) er mb)) [
                | inl eb ↦ absurd (other (e ∙ ap (λ (y : Route). y.route_id) eb))
                | inr (mb', _) ↦ good.0.routes_keyed a b ma' mb' e
              ]
        ];
    links_single = rw el good.0.links_single;
  }

  pub route_write-IsSettled :
      (db' : Db)
      → db'.routes ≡ replace (λ r. r.route_id) new db.routes
      → db'.links ≡ db.links
      → db'.bookings ≡ db.bookings
      → (new.status ≡ RouteStatus.completed
          → (l : RouteManagementBooking) (b : Booking) → Elem l db.links
          → Elem b db.bookings
          → l.route_id ≡ new.route_id
          → b.booking_id ≡ l.booking_id
          → is_final b.status ≡ true)
      → IsSettled db'
  route_write-IsSettled db' er el eb final r l b mr ml mb done e f =
      let ml' = subst (λ y. Elem l y) el ml in
      let mb' = subst (λ y. Elem b y) eb mb in
      elim (Elem-replace (λ r. r.route_id) new db.routes (subst (λ y. Elem r y) er mr)) [
        | inl e' ↦
            final (subst (λ (y : Route). y.status ≡ RouteStatus.completed) e' done) l b ml' mb'
              (e ∙ ap (λ (y : Route). y.route_id) e') f
        | inr (mr', _) ↦ good.1 r l b mr' ml' mb' done e f
      ]

-- What a ride writes: times in the link that was found, and a status in its booking, which is
-- final unless the link's route is under way.
pub record Ride (db : Db) (link : RouteManagementBooking) (booking : Booking) : Type 0 where
  pub old : RouteManagementBooking
  pub was_there : Elem old db.links
  pub same_route : link.route_id ≡ old.route_id
  pub same_booking : link.booking_id ≡ old.booking_id
  pub of_link : booking.booking_id ≡ old.booking_id
  pub final_or_going :
      (is_final booking.status ≡ true)
      ⊎ ((r : Route) × Elem r db.routes
          × (r.route_id ≡ old.route_id)
          × (r.status ≢ RouteStatus.completed))

module _ {db : Db} (good : Good db) (link : RouteManagementBooking) (booking : Booking)
    (ride : Ride db link booking) where
  -- A link after the ride has the keys of a link before it.
  old_link :
      (l : RouteManagementBooking)
      → Elem l (replace (λ l. l.id) link db.links)
      → (m : RouteManagementBooking) × Elem m db.links
        × (l.route_id ≡ m.route_id)
        × (l.booking_id ≡ m.booking_id)
  old_link l m = elim (Elem-replace (λ l. l.id) link db.links m) [
    | inl e ↦ (
      ride.old,
      ride.was_there,
      ap (λ (y : RouteManagementBooking). y.route_id) e ∙ ride.same_route,
      ap (λ (y : RouteManagementBooking). y.booking_id) e ∙ ride.same_booking,
    )
    | inr (m', _) ↦ (l, m', refl, refl)
  ]

  pub ride-IsKeyed : IsKeyed (put_link link (put_booking booking db))
  ride-IsKeyed = record {
    routes_keyed = good.0.routes_keyed;
    links_single = λ l m hl hm e.
        let (l', ml, rl, bl) = old_link l hl in
        let (m', mm, rm, bm) = old_link m hm in
        rl ∙ good.0.links_single l' m' ml mm (sym bl ∙ e ∙ bm) ∙ sym rm;
  }

  pub ride-IsSettled : IsSettled (put_link link (put_booking booking db))
  ride-IsSettled r l b mr hl hb done e f =
      let (l', ml, rl, bl) = old_link l hl in
      elim (Elem-replace (λ b. b.booking_id) booking db.bookings hb) [
        | inr (mb, _) ↦ good.1 r l' b mr ml mb done (sym rl ∙ e) (f ∙ bl)
        | inl eb ↦ elim ride.final_or_going [
          | inl final ↦ subst (λ (y : Booking). is_final y.status ≡ true) (sym eb) final
          | inr (going, mg, eg, st) ↦
              let same_booking : l'.booking_id ≡ ride.old.booking_id =
                sym bl ∙ sym f ∙ ap (λ (y : Booking). y.booking_id) eb ∙ ride.of_link in
              let same_route : l'.route_id ≡ ride.old.route_id =
                good.0.links_single l' ride.old ml ride.was_there same_booking in
              let same_row : r ≡ going =
                good.0.routes_keyed r going mr mg (sym e ∙ rl ∙ same_route ∙ sym eg) in
              absurd (st (ap (λ (y : Route). y.status) (sym same_row) ∙ done))
        ]
      ]
