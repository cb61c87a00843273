-- ===== src/Trip/Settled.antt =====
-- The bookings of completed routes, after a series of requests of the driver app
-- (app/routes/app_driver_router.py).
use fleet_manager.Prelude.{
  ℕ, ◌≡◌, refl, sym, ◌∙◌, true, false, not, ◌&&◌, arith, ◌==◌, any, Elem, any-false, find?-true,
  inl, inr,
}
use fleet_manager.Store.{Db, RouteManagementBooking, Booking, Point, put_route}
use fleet_manager.Trip.Types.{Driver}
use fleet_manager.Trip.Checks.{joins, exists_joined}
use fleet_manager.Trip.Duty.{is_final, is_of_route, started, finish_route}
use fleet_manager.Trip.Ride.{
  boarded, boarded_link, boarded_booking, not_shown, missed_link, missed_booking, dropped_off,
  dropped_link, dropped_booking,
}
use fleet_manager.Trip.Change.{
  FindsBooking, Change, same, starts, boards_escort, ends, picks_up, misses, drops,
}
use fleet_manager.Trip.Finish.{finish_route_lem}
use fleet_manager.Trip.Effect.{Finds-facts}
use fleet_manager.Trip.Completion.{
  Good, Ride, route_write-IsKeyed, route_write-IsSettled, ride-IsKeyed, ride-IsSettled,
}

-- What the last guard of `end_duty` makes sure of.
no_pending :
    (db : Db) (route_id : ℕ)
    → exists_joined (is_of_route route_id) (λ s. not (is_final s)) db ≡ false
    → (l : RouteManagementBooking) (b : Booking) → Elem l db.links
    → Elem b db.bookings
    → l.route_id ≡ route_id
    → b.booking_id ≡ l.booking_id
    → is_final b.status ≡ true
no_pending db route_id none_open l b ml mb e f =
    let open_booking = joins (λ s. not (is_final s)) l in
    let link_ok =
      any-false (λ l. is_of_route route_id l && any (joins (λ s. not (is_final s)) l) db.bookings)
        db.links none_open ml in
    let quiet : any open_booking db.bookings ≡ false = ground arith in
    let row_ok = any-false open_booking db.bookings quiet mb in ground arith

-- The rows that the lookup of a booking finds.
FindsBooking-facts :
    (db : Db) (ctx : Driver) (route_id booking_id : ℕ) (rb : RouteManagementBooking)
    (booking : Booking)
    → FindsBooking db ctx route_id booking_id rb booking
    → Elem rb db.links × (rb.route_id ≡ route_id) × (booking.booking_id ≡ rb.booking_id)
FindsBooking-facts db ctx route_id booking_id rb booking (fl, fb) =
    let (tl, ml) =
      find?-true (λ l. l.route_id == route_id && l.booking_id == booking_id) db.links fl in
    let (tb, mb) =
      find?-true (λ b. b.booking_id == booking_id && b.tenant_id == ctx.tenant_id) db.bookings fb in
    (ml, ground arith, ground arith)

module _ (geodesic : Point → Point → ℕ) where
  pub Change-Good :
      (ctx : Driver) (db : Db) {db' : Db} → Change geodesic ctx db db' → Good db → Good db'
  unfolding boarded not_shown dropped_off
  Change-Good ctx db (same e) good = rw e good
  Change-Good ctx db (starts i now route found planned free e) good = rw e (
    route_write-IsKeyed good (started now route) (put_route (started now route) db) refl refl,
    route_write-IsSettled good (started now route) (put_route (started now route) db) refl refl refl
        (λ done. absurd (cc)),
  )
  Change-Good ctx db (boards_escort i otp route found going typed e) good =
      let row = record route { escort_boarded = true } in
      rw e (
        route_write-IsKeyed good row (put_route row db) refl refl,
        route_write-IsSettled good row (put_route row db) refl refl refl (λ done. absurd (cc)),
      )
  Change-Good ctx db (ends i now route found going final e) good =
      let (row, rows, id, done, _, _, _, links, bookings) =
        finish_route_lem geodesic db now route in
      let (_, at, _, _) = Finds-facts geodesic ctx db i route found in
      rw e (
        route_write-IsKeyed good row (finish_route geodesic db now route) rows links,
        route_write-IsSettled good row (finish_route geodesic db now route) rows links bookings
            (λ _ l b ml mb el eb. no_pending db i final l b ml mb (el ∙ id ∙ at) eb),
      )
  Change-Good ctx db (picks_up i j here otp now route rb booking w found going s fb ready e) good =
      let (ml, er, eb) = FindsBooking-facts db ctx i j rb booking fb in
      let (mr, at, _, _) = Finds-facts geodesic ctx db i route found in
      let ride : Ride db (boarded_link rb now) (boarded_booking booking) = record {
        old = rb;
        was_there = ml;
        same_route = refl;
        same_booking = refl;
        of_link = eb;
        final_or_going = inr (route, mr, at ∙ sym er, λ done. absurd (cc));
      } in
      rw e (ride-IsKeyed good _ _ ride, ride-IsSettled good _ _ ride)
  Change-Good ctx db (misses i j reason now route rb booking found fb g c passed e) good =
      let (ml, er, eb) = FindsBooking-facts db ctx i j rb booking fb in
      let ride : Ride db (missed_link rb now) (missed_booking booking reason now) = record {
        old = rb;
        was_there = ml;
        same_route = refl;
        same_booking = refl;
        of_link = eb;
        final_or_going = inl refl;
      } in
      rw e (ride-IsKeyed good _ _ ride, ride-IsSettled good _ _ ride)
  Change-Good ctx db (drops i j otp now route rb booking found fb typed e) good =
      let (ml, er, eb) = FindsBooking-facts db ctx i j rb booking fb in
      let ride : Ride db (dropped_link rb now) (dropped_booking booking now) = record {
        old = rb;
        was_there = ml;
        same_route = refl;
        same_booking = refl;
        of_link = eb;
        final_or_going = inl refl;
      } in
      rw e (ride-IsKeyed good _ _ ride, ride-IsSettled good _ _ ride)
