-- ===== src/Bookings/Series.antt =====
-- Series of requests for bookings (app/routes/booking_router.py), mixed with the requests of drivers
-- and the scans of employees.
use fleet_manager.Prelude.{
  ℕ, ◌<◌, ◌≡◌, refl, sym, ◌∙◌, ap, subst, false, not, ◌&&◌, ◌||◌, Option, none, some, List, [], ◌∷◌,
  arith, ltb, ◌==◌, find?-true, any, any-false, map, All, All-Elem, All-of_Elem, Elem, here, there,
  Elem-cons, Bool-cases, inl, inr,
}
use fleet_manager.Prelude.Result.{
  Result, ok, err, bind-eq-ok, raise_if-eq-ok, or_raise-eq-ok, Result-cases,
}
use fleet_manager.Store.{Db, Booking, BookingStatus, get_booking, put_booking}
use fleet_manager.Trip.Types.{eq_booking_status}
use fleet_manager.Bookings.{
  BookingError, User, Registry, is_for, get_shift_of, get_cutoff, shift_datetime, is_cut_off,
  has_started,
}
use fleet_manager.Bookings.Slots.{
  IsUnique, Fits, Stays-refl, replace-IsUnique, Stays-Fits, append-IsUnique,
}
use fleet_manager.Bookings.Dates.{IsAscending}
use fleet_manager.Bookings.Create.{BookingCreate, create_booking}
use fleet_manager.Bookings.Granted.{IsGranted, create_booking-IsGranted}
use fleet_manager.Bookings.Update.{
  is_employee, updatable, new_interval, check_shift, change_shift, moved, updated, update_booking,
  shift_of_booking, is_too_late, cancelled, cancel_booking,
}

pub data BookingRequest : Type 0 where
  create : BookingCreate → BookingRequest
  update : ℕ → Option ℕ → BookingRequest
  cancel : ℕ → BookingRequest

-- The database after a request.
abbrev pub booked : {A : Type 0} → Db → Result BookingError (Db × A) → Db
booked db (ok (db', reply)) = db'
booked db (err e) = db

abbrev pub take_booking : Registry → Db → User → BookingRequest → ℕ → ℕ → Db
take_booking reg db user (BookingRequest.create request) today now =
    booked db (create_booking reg db user request today now)
take_booking reg db user (BookingRequest.update booking_id shift_id) today now =
    booked db (update_booking reg db user booking_id shift_id today now)
take_booking reg db user (BookingRequest.cancel booking_id) today now =
    booked db (cancel_booking reg db user booking_id today now)

date_after :
    (rows : List Booking) (d : ℕ) (b : Booking)
    → All (λ e. d < e) (map (λ r. r.booking_date) rows)
    → Elem b rows
    → d < b.booking_date
date_after (r ∷ rows) d b all here = all.0
date_after (r ∷ rows) d b all (there m) = date_after rows d b all.1 m
date_after [] d b all m = elim m [ ]

-- Rows of different dates are told apart by their dates.
same_row :
    (rows : List Booking) (a b : Booking)
    → IsAscending (map (λ r. r.booking_date) rows)
    → Elem a rows
    → Elem b rows
    → a.booking_date ≡ b.booking_date
    → a ≡ b
same_row (r ∷ rows) a b (first, up) ma mb e = elim (Elem-cons ma) [
  | inl ea ↦ elim (Elem-cons mb) [
    | inl eb ↦ ea ∙ sym eb
    | inr mb' ↦
        let less : r.booking_date < b.booking_date = date_after rows r.booking_date b first mb' in
        let e' = ap (λ (x : Booking). x.booking_date) ea in absurd (omega arith)
  ]
  | inr ma' ↦ elim (Elem-cons mb) [
    | inl eb ↦
        let less : r.booking_date < a.booking_date = date_after rows r.booking_date a first ma' in
        let e' = ap (λ (x : Booking). x.booking_date) eb in absurd (omega arith)
    | inr mb' ↦ same_row rows a b up ma' mb' e
  ]
]
same_row [] a b up ma mb e = elim ma [ ]

create-IsUnique :
    (reg : Registry) (db : Db) (user : User) (request : BookingCreate) (today now : ℕ) (db' : Db)
    (rows : List Booking)
    → create_booking reg db user request today now ≡ ok (db', rows)
    → IsUnique db.bookings
    → IsUnique db'.bookings
create-IsUnique reg db user request today now db' rows h unique =
    let (b, booker, up, dates, future, granted, e) =
      create_booking-IsGranted reg db user request today now db' rows h in
    let fits : All (λ c. Fits c db.bookings) rows =
      All-of_Elem (λ c. Fits c db.bookings) rows
        (λ c mc o mo (t, i, d, (k, kc, ko)).
          let g = All-Elem (IsGranted db b request today now) rows granted mc in
          absurd (g.free o mo (sym i) (sym d) (ko ∙ sym kc))) in
    let apart : IsUnique rows =
      λ x y mx my (t, i, d, k). ap (λ (r : Booking). r.booking_id) (same_row rows x y up mx my d) in
    subst (λ d. IsUnique d.bookings) (sym e) (append-IsUnique db.bookings rows unique apart fits)

-- What an update leaves of a booking.
updated_lem :
    (b : Booking) (shift_id : Option ℕ) (now : ℕ)
    → ((updated b shift_id now).booking_id ≡ b.booking_id)
      × ((updated b shift_id now).tenant_id ≡ b.tenant_id)
      × ((updated b shift_id now).employee_id ≡ b.employee_id)
      × ((updated b shift_id now).booking_date ≡ b.booking_date)
      × ((updated b shift_id now).shift_id ≡ (moved b shift_id).shift_id)
updated_lem b none now = elim (Bool-cases (eq_booking_status b.status BookingStatus.cancelled)) [
  | inl c ↦ rw c (refl, refl, refl, refl, refl)
  | inr c ↦ rw c (refl, refl, refl, refl, refl)
]
updated_lem b (some k) now =
    elim (Bool-cases (eq_booking_status b.status BookingStatus.cancelled)) [
      | inl c ↦ rw c (refl, refl, refl, refl, refl)
      | inr c ↦ rw c (refl, refl, refl, refl, refl)
    ]

-- Nobody is in the slot to which an update moves a booking.
not_duplicate :
    (reg : Registry) (db : Db) (user : User) (b : Booking) (shift_id today now : ℕ)
    → check_shift reg db user b shift_id today now ≡ ok tt
    → any
        (λ o.
          is_for b.employee_id b.booking_date shift_id o
          && (o.tenant_id == user.tenant_id)
          && not (o.booking_id == b.booking_id))
        db.bookings
      ≡ false
unfolding check_shift
not_duplicate reg db user b shift_id today now h =
    let (shift, fs, h1) =
      or_raise-eq-ok (get_shift_of db user.tenant_id shift_id) BookingError.shift_not_found _ h in
    let (interval, fi, h2) =
      bind-eq-ok (new_interval b.booking_type shift.log_type (get_cutoff reg user.tenant_id)) _
        h1 in
    let start = shift_datetime b.booking_date shift in
    let (early, h3) =
      raise_if-eq-ok (is_cut_off now start interval) BookingError.booking_cutoff _ h2 in
    let (not_started, h4) =
      raise_if-eq-ok (has_started today now b.booking_date start) BookingError.past_shift_time _
        h3 in
    ground arith

same_id :
    (o b : Booking) (tenant_id shift_id : ℕ)
    → o.tenant_id ≡ tenant_id
    → o.employee_id ≡ b.employee_id
    → o.booking_date ≡ b.booking_date
    → o.shift_id ≡ some shift_id
    → (is_for b.employee_id b.booking_date shift_id o
        && (o.tenant_id == tenant_id)
        && not (o.booking_id == b.booking_id))
      ≡ false
    → b.booking_id ≡ o.booking_id
same_id o b tenant_id shift_id t e d k quiet = ground arith

-- The updated booking has a slot of its own.
updated-Fits :
    (reg : Registry) (db : Db) (user : User) (b : Booking) (shift_id : Option ℕ) (today now : ℕ)
    → change_shift reg db user b shift_id today now ≡ ok tt
    → b.tenant_id ≡ user.tenant_id
    → Elem b db.bookings
    → IsUnique db.bookings
    → Fits (updated b shift_id now) db.bookings
updated-Fits reg db user b none today now h tenant m unique =
    let (i, t, e, d, k) = updated_lem b none now in
    Stays-Fits (updated b none now) b db.bookings (i, t, e, d, k) m unique
updated-Fits reg db user b (some shift_id) today now h tenant m unique =
    λ o mo (t, e, d, (k, kc, ko)).
      let (ci, ct, ce, cd, ck) = updated_lem b (some shift_id) now in
      let quiet =
        any-false
          (λ o.
            is_for b.employee_id b.booking_date shift_id o
            && (o.tenant_id == user.tenant_id)
            && not (o.booking_id == b.booking_id))
          db.bookings (not_duplicate reg db user b shift_id today now h) mo in
      let of_tenant : o.tenant_id ≡ user.tenant_id = sym t ∙ ct ∙ tenant in
      let of_employee : o.employee_id ≡ b.employee_id = sym e ∙ ce in
      let of_date : o.booking_date ≡ b.booking_date = sym d ∙ cd in
      let of_shift : o.shift_id ≡ some shift_id = ko ∙ sym kc ∙ ck in
      ci ∙ same_id o b user.tenant_id shift_id of_tenant of_employee of_date of_shift quiet

update-IsUnique :
    (reg : Registry) (db : Db) (user : User) (booking_id : ℕ) (shift_id : Option ℕ) (today now : ℕ)
    (db' : Db) (reply : Booking)
    → update_booking reg db user booking_id shift_id today now ≡ ok (db', reply)
    → IsUnique db.bookings
    → IsUnique db'.bookings
unfolding update_booking
update-IsUnique reg db user booking_id shift_id today now db' reply h unique =
    let (who, h1) = raise_if-eq-ok (not (is_employee user.user_type)) BookingError.forbidden _ h in
    let (b, fb, h2) =
      or_raise-eq-ok (updatable db user booking_id) BookingError.booking_not_found _ h1 in
    let (state, h3) =
      raise_if-eq-ok
        (not (
          eq_booking_status b.status BookingStatus.request
          || eq_booking_status b.status BookingStatus.cancelled))
        (BookingError.invalid_booking_status b.status) _ h2 in
    let (u, fc, h4) = bind-eq-ok (change_shift reg db user b shift_id today now) _ h3 in
    let (tb, mb) =
      find?-true
        (λ b.
          (b.booking_id == booking_id)
          && (b.tenant_id == user.tenant_id)
          && (user.booking_update || b.employee_id == user.user_id))
        db.bookings fb in
    let e : put_booking (updated b shift_id now) db ≡ db' = cc in
    subst (λ (d : Db). IsUnique d.bookings) e
      (replace-IsUnique (updated b shift_id now) db.bookings unique
        (updated-Fits reg db user b shift_id today now fc (ground arith) mb unique))

cancel_lem :
    (reg : Registry) (db : Db) (user : User) (booking_id today now : ℕ) (db' : Db) (reply : Booking)
    → cancel_booking reg db user booking_id today now ≡ ok (db', reply)
    → (b : Booking) × (get_booking db booking_id ≡ some b)
      × (put_booking (cancelled b now) db ≡ db')
unfolding cancel_booking
cancel_lem reg db user booking_id today now db' reply h =
    let (who, h1) = raise_if-eq-ok (not (is_employee user.user_type)) BookingError.forbidden _ h in
    let (b, fb, h2) =
      or_raise-eq-ok (get_booking db booking_id) BookingError.booking_not_found _ h1 in
    let (t, h3) =
      raise_if-eq-ok (not (b.tenant_id == user.tenant_id)) BookingError.tenant_mismatch _ h2 in
    let (p, h4) = raise_if-eq-ok (ltb b.booking_date today) BookingError.past_booking _ h3 in
    let (st, h5) =
      raise_if-eq-ok (not (eq_booking_status b.status BookingStatus.request))
        BookingError.booking_already_scheduled _ h4 in
    let (late, h6) =
      raise_if-eq-ok
        (is_too_late (shift_of_booking db b) (get_cutoff reg user.tenant_id) b.booking_date now)
        BookingError.cancel_cutoff _ h5 in
    (b, fb, cc)

cancel-IsUnique :
    (reg : Registry) (db : Db) (user : User) (booking_id today now : ℕ) (db' : Db) (reply : Booking)
    → cancel_booking reg db user booking_id today now ≡ ok (db', reply)
    → IsUnique db.bookings
    → IsUnique db'.bookings
cancel-IsUnique reg db user booking_id today now db' reply h unique =
    let (b, fb, e) = cancel_lem reg db user booking_id today now db' reply h in
    let (tb, mb) = find?-true (λ b. b.booking_id == booking_id) db.bookings fb in
    subst (λ (d : Db). IsUnique d.bookings) e
      (replace-IsUnique (cancelled b now) db.bookings unique
        (Stays-Fits (cancelled b now) b db.bookings (Stays-refl b) mb unique))

-- Every request for bookings, accepted or refused, leaves each booking in a slot of its own.
pub take_booking-IsUnique :
    (reg : Registry) (db : Db) (user : User) (request : BookingRequest) (today now : ℕ)
    → IsUnique db.bookings
    → IsUnique (take_booking reg db user request today now).bookings
take_booking-IsUnique reg db user (BookingRequest.create request) today now unique =
    elim (Result-cases (create_booking reg db user request today now)) [
      | inl ((db', rows), h) ↦
          rw h (create-IsUnique reg db user request today now db' rows h unique)
      | inr (e, h) ↦ rw h unique
    ]
take_booking-IsUnique reg db user (BookingRequest.update i s) today now unique =
    elim (Result-cases (update_booking reg db user i s today now)) [
      | inl ((db', reply), h) ↦ rw h (update-IsUnique reg db user i s today now db' reply h unique)
      | inr (e, h) ↦ rw h unique
    ]
take_booking-IsUnique reg db user (BookingRequest.cancel i) today now unique =
    elim (Result-cases (cancel_booking reg db user i today now)) [
      | inl ((db', reply), h) ↦ rw h (cancel-IsUnique reg db user i today now db' reply h unique)
      | inr (e, h) ↦ rw h unique
    ]
