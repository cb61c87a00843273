-- ===== src/Bookings/Reopened.antt =====
-- What an update without a shift leaves (`update_booking` in app/routes/booking_router.py).
use fleet_manager.Prelude.{
  ℕ, ◌≡◌, refl, ◌≢◌, ◌&&◌, ◌||◌, none, some, List, [], ◌∷◌, arith, ◌==◌, ==_iff, find?-true,
  replace, Elem, here, there, Bool-cases, inl, inr,
}
use fleet_manager.Prelude.Result.{ok}
use fleet_manager.Store.{Db, Booking, BookingStatus, UserType, put_booking}
use fleet_manager.Bookings.{User, Registry}
use fleet_manager.Bookings.Slots.{SameSlot}
use fleet_manager.Bookings.Update.{updatable, update_booking}

kept_by :
    (c b : Booking) (bs : List Booking)
    → Elem b bs
    → b.booking_id ≢ c.booking_id
    → Elem b (replace (λ b. b.booking_id) c bs)
kept_by c b (x ∷ bs) here n = elim (Bool-cases (b.booking_id == c.booking_id)) [
  | inl same ↦ absurd (n (ground arith))
  | inr other ↦ rw other here
]
kept_by c b (x ∷ bs) (there m) n = there (kept_by c b bs m n)
kept_by c b [] m n = elim m [ ]

put_by :
    (c b : Booking) (bs : List Booking)
    → Elem b bs
    → b.booking_id ≡ c.booking_id
    → Elem c (replace (λ b. b.booking_id) c bs)
put_by c b (x ∷ bs) here e = rw ((==_iff b.booking_id c.booking_id).1 e) here
put_by c b (x ∷ bs) (there m) e = there (put_by c b bs m e)
put_by c b [] m e = elim m [ ]

-- Where an employee may update a cancelled booking, and has another one for its date and shift, an
-- update that names no shift is accepted, whatever the day and the cutoffs: then both are there,
-- the one reopened as a request.
pub update_booking_reopens :
    (reg : Registry) (db : Db) (user : User) (today now : ℕ) (b o : Booking)
    → user.user_type ≡ UserType.employee
    → updatable db user b.booking_id ≡ some b
    → b.status ≡ BookingStatus.cancelled
    → Elem o db.bookings
    → o.booking_id ≢ b.booking_id
    → SameSlot b o
    → (db' : Db) × (c : Booking) × (update_booking reg db user b.booking_id none today now
        ≡ ok (db', c))
      × (c.status ≡ BookingStatus.request)
      × (c.booking_id ≡ b.booking_id)
      × Elem c db'.bookings
      × Elem o db'.bookings
      × SameSlot c o
unfolding update_booking
update_booking_reopens reg db user today now b o who found off m n s =
    let c : Booking = record b { status = BookingStatus.request; updated_at = now } in
    let (tb, mb) =
      find?-true
        (λ x.
          (x.booking_id == b.booking_id)
          && (x.tenant_id == user.tenant_id)
          && (user.booking_update || x.employee_id == user.user_id))
        db.bookings found in
    (
      put_booking c db,
      c,
      rw who (rw found (rw off refl)),
      refl,
      refl,
      put_by c b db.bookings mb refl,
      kept_by c o db.bookings m n,
      s,
    )
