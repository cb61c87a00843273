-- ===== src/Bookings/Dealt.antt =====
-- Whom a booking for all employees deals with (`bulk_book_all_employees` in
-- app/routes/booking_router.py).
use fleet_manager.Prelude.{
  ℕ, suc, ◌≡◌, refl, ap, sym, ◌≢◌, ◌↔◌, ◌⊎◌, inl, inr, Bool, true, false, not, ◌&&◌, ◌||◌, some,
  List, [], ◌∷◌, arith, ◌==◌, ==_iff, ==_refl, subst, is_key, is_key-some, any, any-true, any-false,
  any-of_Elem, Elem, Elem-filter, Elem-filter_of, Bool-cases,
}
use fleet_manager.Prelude.Result.{ok, Result-cases, raise_if-eq-ok, bind-eq-ok}
use fleet_manager.Bookings.Create.{row_of}
use fleet_manager.Store.{Db, Booking, BookingStatus, Employee, Shift, Tenant}
use fleet_manager.Trip.Types.{eq_booking_status}
use fleet_manager.Bookings.{BookingError, Registry, get_weekoff, is_weekoff, is_for, trip_for}
use fleet_manager.Bookings.Bulk.{
  BulkCreate, is_empty, target_employees, is_booked, prepare, book_each,
}

-- The employee has a booking for the date and shift that is not cancelled.
abbrev pub HasOpen : Db → BulkCreate → ℕ → Type 0
HasOpen db payload employee_id =
    (o : Booking) × Elem o db.bookings
    × (o.employee_id ≡ employee_id)
    × (o.booking_date ≡ payload.booking_date)
    × (o.shift_id ≡ some payload.shift_id)
    × (o.status ≢ BookingStatus.cancelled)

-- The employees are gone through in order, each once: one is passed over exactly for an open
-- booking, and any other is booked in one row or named among the failed ones, on a weekly day off
-- for that.
pub data IsDealt (db : Db) (reg : Registry) (payload : BulkCreate)
    : List Employee → List Booking → ℕ → List (ℕ × BookingError) → Type 0 where
  done : IsDealt db reg payload [] [] 0 []
  skips :
      {es : List Employee} {rows : List Booking} {n : ℕ} {fs : List (ℕ × BookingError)}
      (e : Employee)
      → HasOpen db payload e.employee_id
      → IsDealt db reg payload es rows n fs
      → IsDealt db reg payload (e ∷ es) rows (suc n) fs
  books :
      {es : List Employee} {rows : List Booking} {n : ℕ} {fs : List (ℕ × BookingError)}
      (e : Employee) (row : Booking)
      → ¬ HasOpen db payload e.employee_id
      → row.employee_id ≡ e.employee_id
      → is_weekoff (get_weekoff reg e.employee_id) payload.booking_date ≡ false
      → IsDealt db reg payload es rows n fs
      → IsDealt db reg payload (e ∷ es) (row ∷ rows) n fs
  fails :
      {es : List Employee} {rows : List Booking} {n : ℕ} {fs : List (ℕ × BookingError)}
      (e : Employee) (reason : BookingError)
      → ¬ HasOpen db payload e.employee_id
      → (is_weekoff (get_weekoff reg e.employee_id) payload.booking_date ≡ true
          → reason ≡ BookingError.weekoff_day)
      → IsDealt db reg payload es rows n fs
      → IsDealt db reg payload (e ∷ es) rows n ((e.employee_id, reason) ∷ fs)

-- The employees that are meant: the tenant's active ones, all or those of the list.
abbrev pub IsMeant : Db → ℕ → List ℕ → Employee → Type 0
IsMeant db tenant_id ids e =
    Elem e db.employees
    × (e.tenant_id ≡ tenant_id)
    × (e.is_active ≡ true)
    × ((ids ≡ []) ⊎ Elem e.employee_id ids)

asked_for :
    (ids : List ℕ) (k : ℕ)
    → (is_empty ids || any (λ i. i == k) ids) ≡ true
    → (ids ≡ []) ⊎ Elem k ids
asked_for [] k h = inl refl
asked_for (i ∷ is) k h =
    let (j, m, e) = any-true (λ i. i == k) (i ∷ is) h in
    inr (subst (λ x. Elem x (i ∷ is)) ((==_iff j k).0 e) m)

asked_for_of :
    (ids : List ℕ) (k : ℕ)
    → (ids ≡ []) ⊎ Elem k ids
    → (is_empty ids || any (λ i. i == k) ids) ≡ true
asked_for_of ids k (inl e) = rw e refl
asked_for_of ids k (inr m) = let t = any-of_Elem (λ i. i == k) ids m (==_refl k) in ground arith

pub target_employees-IsMeant :
    (db : Db) (tenant_id : ℕ) (ids : List ℕ) (e : Employee)
    → Elem e (target_employees db tenant_id ids) ↔ IsMeant db tenant_id ids e
target_employees-IsMeant db tenant_id ids e =
    let meant = λ (x : Employee).
      (x.tenant_id == tenant_id)
      && x.is_active
      && (is_empty ids || any (λ i. i == x.employee_id) ids) in
    (
      (λ m.
          let (m', t) = Elem-filter meant db.employees m in
          (m', ground arith, ground arith, asked_for ids e.employee_id (ground arith))),
      (λ (m, t, a, w).
          let w' = asked_for_of ids e.employee_id w in
          Elem-filter_of meant db.employees m (ground arith)),
    )

is_booked-HasOpen :
    (db : Db) (payload : BulkCreate) (employee_id : ℕ)
    → is_booked db payload employee_id ≡ true
    → HasOpen db payload employee_id
is_booked-HasOpen db payload employee_id h =
    let (o, m, t) =
      any-true
        (λ b.
          is_for employee_id payload.booking_date payload.shift_id b
          && not (eq_booking_status b.status BookingStatus.cancelled))
        db.bookings h in
    (
      o,
      m,
      ground arith,
      ground arith,
      is_key-some o.shift_id payload.shift_id (ground arith),
      λ c. absurd (let t' = rw c at t in ground arith),
    )

pub cancelled_of :
    (s : BookingStatus)
    → eq_booking_status s BookingStatus.cancelled ≡ true
    → s ≡ BookingStatus.cancelled
cancelled_of BookingStatus.request h = absurd (cc)
cancelled_of BookingStatus.scheduled h = absurd (cc)
cancelled_of BookingStatus.ongoing h = absurd (cc)
cancelled_of BookingStatus.completed h = absurd (cc)
cancelled_of BookingStatus.cancelled h = refl
cancelled_of BookingStatus.no_show h = absurd (cc)
cancelled_of BookingStatus.expired h = absurd (cc)

pub test_of : (p q : Bool) → p ≡ true → (p && not q) ≡ false → q ≡ true
test_of p q e h = ground arith

no_open :
    (db : Db) (payload : BulkCreate) (employee_id : ℕ)
    → is_booked db payload employee_id ≡ false
    → ¬ HasOpen db payload employee_id
no_open db payload employee_id h (o, m, i, d, s, live) =
    let t =
      any-false
        (λ b.
          is_for employee_id payload.booking_date payload.shift_id b
          && not (eq_booking_status b.status BookingStatus.cancelled))
        db.bookings h m in
    let slot : is_for employee_id payload.booking_date payload.shift_id o ≡ true =
      let k : is_key o.shift_id payload.shift_id ≡ true = rw s (==_refl payload.shift_id) in
      ground arith in
    live (cancelled_of o.status (test_of _ _ slot t))

works_of :
    (reg : Registry) (tenant_id : ℕ) (shift : Shift) (tenant : Tenant) (payload : BulkCreate)
    (now : ℕ) (e : Employee) (id : ℕ) (row : Booking)
    → prepare reg tenant_id shift tenant payload now e id ≡ ok row
    → (row.employee_id ≡ e.employee_id)
      × (is_weekoff (get_weekoff reg e.employee_id) payload.booking_date ≡ false)
works_of reg tenant_id shift tenant payload now e id row h =
    let (works, h1) =
      raise_if-eq-ok (is_weekoff (get_weekoff reg e.employee_id) payload.booking_date)
        BookingError.weekoff_day _ h in
    let (trip, ft, h2) = bind-eq-ok (trip_for reg shift tenant e) _ h1 in
    let made =
      row_of tenant_id e payload.shift_id payload.booking_type now payload.booking_date trip id in
    let same : made ≡ row = cc in (ap (λ (b : Booking). b.employee_id) (sym same), works)

module _ (db : Db) (reg : Registry) (tenant_id : ℕ) (shift : Shift) (tenant : Tenant)
    (payload : BulkCreate) (now : ℕ) where
  pub book_each-IsDealt :
      (es : List Employee) (id : ℕ)
      → let s = book_each db reg tenant_id shift tenant payload now es id in
        IsDealt db reg payload es s.booked s.skipped s.failed_employees
  unfolding book_each
  book_each-IsDealt [] id = done
  book_each-IsDealt (e ∷ es) id = elim (Bool-cases (is_booked db payload e.employee_id)) [
    | inl old ↦
        let open_booking = is_booked-HasOpen db payload e.employee_id old in
        rw old (skips e open_booking (book_each-IsDealt es id))
    | inr new ↦ elim (Result-cases (prepare reg tenant_id shift tenant payload now e id)) [
      | inl (row, made) ↦
          let (his, works) = works_of reg tenant_id shift tenant payload now e id row made in
          rw new (
            rw made (
              books e row (no_open db payload e.employee_id new) his works
                (book_each-IsDealt es (suc id))))
      | inr (reason, failed) ↦
          let off : is_weekoff (get_weekoff reg e.employee_id) payload.booking_date ≡ true
              → reason ≡ BookingError.weekoff_day =
            λ w. let f = rw w at failed in cc in
          rw new (
            rw failed
              (fails e reason (no_open db payload e.employee_id new) off (book_each-IsDealt es id)))
    ]
  ]
