-- ===== src/Bookings/Granted.antt =====
-- What a booking has passed when it is created (`create_booking` in
-- app/routes/booking_router.py).
use fleet_manager.Prelude.{
  ℕ, suc, ◌+◌, ◌≤◌, ◌<◌, ◌≡◌, refl, sym, subst, ◌≢◌, true, false, ◌&&◌, Option, none, some, List,
  [], ◌∷◌, ◌++◌, arith, leb, ◌==◌, find?, find?-none, find?-true, any, any-false, map, All, ◌⊎◌, ap,
  ==_iff, All-of_Elem, Elem, ◌↔◌,
}
use fleet_manager.Prelude.Result.{ok, bind-eq-ok, raise_if-eq-ok, or_raise-eq-ok}
use fleet_manager.Store.{
  Db, Booking, BookingStatus, BookingType, Shift, LogType, Employee, Cutoff, UserType, Tenant,
  WeekoffConfig,
}
use fleet_manager.Bookings.{
  BookingError, User, Registry, booking_tenant, is_weekoff, cutoff_interval, get_tenant,
  get_weekoff, get_cutoff, shift_datetime, is_cut_off, has_started, is_for, trip_for,
  next_booking_id,
}
use fleet_manager.Bookings.Dates.{IsAscending, sorted_dates-IsAscending, sorted_dates-Elem}
use fleet_manager.Bookings.Create.{
  BookingCreate, Booker, sorted_dates, refuse_existing, row_of, check_date, check_dates, booker_of,
  create_booking,
}

-- The interval is left between now and the start, unless it is 0.
abbrev pub InTime : ℕ → ℕ → ℕ → Type 0
InTime now start interval = 0 < interval → now + interval ≤ start

-- The tenant's configuration lets such a booking be made now.
abbrev pub IsAllowed : BookingType → LogType → Option Cutoff → ℕ → ℕ → Type 0
IsAllowed BookingType.regular log none now start = Unit
IsAllowed BookingType.regular LogType.login (some c) now start =
    InTime now start c.booking_login_cutoff
IsAllowed BookingType.regular LogType.logout (some c) now start =
    InTime now start c.booking_logout_cutoff
IsAllowed BookingType.adhoc log none now start = ⊥
IsAllowed BookingType.adhoc log (some c) now start =
    (c.allow_adhoc_booking ≡ true) × InTime now start c.adhoc_booking_cutoff
IsAllowed BookingType.medical_emergency log none now start = ⊥
IsAllowed BookingType.medical_emergency log (some c) now start =
    (c.allow_medical_emergency_booking ≡ true) × InTime now start c.medical_emergency_booking_cutoff

pub cutoff_interval-IsAllowed :
    (t : BookingType) (log : LogType) (c : Option Cutoff) (now start : ℕ) (interval : Option ℕ)
    → cutoff_interval t log c ≡ ok interval
    → is_cut_off now start interval ≡ false
    → IsAllowed t log c now start
cutoff_interval-IsAllowed BookingType.regular log none now start i h n = tt
cutoff_interval-IsAllowed BookingType.regular LogType.login (some c) now start i h n =
    λ p. ground arith
cutoff_interval-IsAllowed BookingType.regular LogType.logout (some c) now start i h n =
    λ p. ground arith
cutoff_interval-IsAllowed BookingType.adhoc log none now start i h n = absurd (cc)
cutoff_interval-IsAllowed BookingType.adhoc log (some c) now start i h n =
    (ground arith, λ p. ground arith)
cutoff_interval-IsAllowed BookingType.medical_emergency log none now start i h n = absurd (cc)
cutoff_interval-IsAllowed BookingType.medical_emergency log (some c) now start i h n =
    (ground arith, λ p. ground arith)

-- The booking is a new request for its date, of the person, shift and tenant, and may be made.
pub record IsGranted (db : Db) (b : Booker) (request : BookingCreate) (today now : ℕ)
    (row : Booking) : Type 0 where
  pub is_request : row.status ≡ BookingStatus.request
  pub of_tenant : row.tenant_id ≡ b.tenant_id
  pub of_person : row.employee_id ≡ b.person.employee_id
  pub of_shift : row.shift_id ≡ some request.shift_id
  pub works : is_weekoff b.weekoff_config row.booking_date ≡ false
  pub allowed :
      IsAllowed request.booking_type b.shift.log_type b.cutoff now
        (shift_datetime row.booking_date b.shift)
  pub not_started : row.booking_date ≡ today → now < shift_datetime row.booking_date b.shift
  pub free :
      (o : Booking)
      → Elem o db.bookings
      → o.employee_id ≡ row.employee_id
      → o.booking_date ≡ row.booking_date
      → o.shift_id ≢ row.shift_id

refuse_existing-none : (o : Option Booking) → refuse_existing o ≡ ok tt → o ≡ none
refuse_existing-none none h = refl
refuse_existing-none (some b) h = absurd (cc)

none_for :
    (db : Db) (employee_id date shift_id : ℕ) (o : Booking)
    → find? (is_for employee_id date shift_id) db.bookings ≡ none
    → Elem o db.bookings
    → o.employee_id ≡ employee_id
    → o.booking_date ≡ date
    → o.shift_id ≢ some shift_id
none_for db employee_id date shift_id o h m e d k =
    let unlike : is_for employee_id date shift_id o ≡ false =
      find?-none (is_for employee_id date shift_id) db.bookings h m in
    absurd (ground arith)

pub check_date_lem :
    (db : Db) (reg : Registry) (b : Booker) (request : BookingCreate) (today now date id : ℕ)
    (row : Booking)
    → check_date db reg b request today now date id ≡ ok row
    → IsGranted db b request today now row × (row.booking_date ≡ date)
unfolding check_date
check_date_lem db reg b request today now date id row h =
    let start = shift_datetime date b.shift in
    let (works, h1) =
      raise_if-eq-ok (is_weekoff b.weekoff_config date) BookingError.weekoff_day _ h in
    let (interval, fi, h2) =
      bind-eq-ok (cutoff_interval request.booking_type b.shift.log_type b.cutoff) _ h1 in
    let (early, h3) =
      raise_if-eq-ok (is_cut_off now start interval) BookingError.booking_cutoff _ h2 in
    let (open_shift, h4) =
      raise_if-eq-ok (has_started today now date start) BookingError.past_shift_time _ h3 in
    let (u, fo, h5) =
      bind-eq-ok
        (refuse_existing (find? (is_for b.person.employee_id date request.shift_id) db.bookings)) _
        h4 in
    let (trip, ft, h6) = bind-eq-ok (trip_for reg b.shift b.tenant b.person) _ h5 in
    let built =
      row_of b.tenant_id b.person request.shift_id request.booking_type now date trip id in
    let same : built ≡ row = cc in
    let nobody =
      refuse_existing-none (find? (is_for b.person.employee_id date request.shift_id) db.bookings)
        fo in
    subst (λ r. IsGranted db b request today now r × (r.booking_date ≡ date)) same
      (
        record {
          is_request = refl;
          of_tenant = refl;
          of_person = refl;
          of_shift = refl;
          works = works;
          allowed =
              cutoff_interval-IsAllowed request.booking_type b.shift.log_type b.cutoff now start
                interval fi early;
          not_started = λ e. ground arith;
          free = λ o m e d. none_for db b.person.employee_id date request.shift_id o nobody m e d;
        },
        refl,
      )

-- The dates of the rows, and what each row has passed.
pub check_dates_lem :
    (db : Db) (reg : Registry) (b : Booker) (request : BookingCreate) (today now : ℕ) (ds : List ℕ)
    (id : ℕ) (rows : List Booking)
    → check_dates db reg b request today now ds id ≡ ok rows
    → (map (λ r. r.booking_date) rows ≡ ds) × All (IsGranted db b request today now) rows
unfolding check_dates
check_dates_lem db reg b request today now [] id rows h =
    let e : [] ≡ rows = cc in
    subst (λ rs. (map (λ r. r.booking_date) rs ≡ []) × All (IsGranted db b request today now) rs) e
      (refl, tt)
check_dates_lem db reg b request today now (d ∷ ds) id rows h =
    let (row, fr, h1) = bind-eq-ok (check_date db reg b request today now d id) _ h in
    let (rest, fs, h2) = bind-eq-ok (check_dates db reg b request today now ds (suc id)) _ h1 in
    let (granted, date) = check_date_lem db reg b request today now d id row fr in
    let (dates, all) = check_dates_lem db reg b request today now ds (suc id) rest fs in
    let e : row ∷ rest ≡ rows = cc in
    subst
      (λ rs. (map (λ r. r.booking_date) rs ≡ d ∷ ds) × All (IsGranted db b request today now) rs) e
      (cc, (granted, all))

-- What a lookup by key gives: a row of the key, or nothing where no row has it.
abbrev pub IsRowOf {ℓ} : {A : Type ℓ} → (A → ℕ) → ℕ → List A → Option A → Type ℓ
IsRowOf {A = A} key k rows none = (a : A) → Elem a rows → key a ≢ k
IsRowOf key k rows (some a) = Elem a rows × (key a ≡ k)

find?-IsRowOf {ℓ} :
    {A : Type ℓ} (key : A → ℕ) (k : ℕ) (rows : List A) (o : Option A)
    → find? (λ a. key a == k) rows ≡ o
    → IsRowOf key k rows o
find?-IsRowOf key k rows none h =
    λ a m e. let f = find?-none (λ a. key a == k) rows h m in ground arith
find?-IsRowOf key k rows (some a) h =
    let (t, m) = find?-true (λ a. key a == k) rows h in (m, (==_iff (key a) k).0 t)

-- For which tenant the user books: an administrator for the one asked for, an employee for the own.
abbrev pub BooksFor : User → Option ℕ → ℕ → Type 0
BooksFor user asked tenant_id =
    ((user.user_type ≡ UserType.admin) × (asked ≡ some tenant_id))
    ⊎ ((user.user_type ≡ UserType.employee) × (user.tenant_id ≡ tenant_id))

booking_tenant-BooksFor :
    (user : User) (asked : Option ℕ) (tenant_id : ℕ)
    → booking_tenant user asked ≡ ok tenant_id
    → BooksFor user asked tenant_id
booking_tenant-BooksFor user none tenant_id h = ground arith
booking_tenant-BooksFor user (some t) tenant_id h = ground arith

-- Whom the bookings are for: an active employee, and a shift, of the tenant that the user books
-- for, with the weekly days off of that employee and the cutoff of that tenant.
pub record IsBooker (db : Db) (reg : Registry) (user : User) (request : BookingCreate) (b : Booker)
    : Type 0 where
  pub books_for : BooksFor user request.tenant_id b.tenant_id
  pub person_there : Elem b.person db.employees
  pub person_asked : b.person.employee_id ≡ request.employee_id
  pub person_of_tenant : b.person.tenant_id ≡ b.tenant_id
  pub person_active : b.person.is_active ≡ true
  pub shift_there : Elem b.shift db.shifts
  pub shift_asked : b.shift.shift_id ≡ request.shift_id
  pub shift_of_tenant : b.shift.tenant_id ≡ b.tenant_id
  pub tenant_there : Elem b.tenant reg.tenants
  pub of_tenant : b.tenant.tenant_id ≡ b.tenant_id
  pub days_off :
      IsRowOf (λ w. w.employee_id) request.employee_id reg.weekoff_configs b.weekoff_config
  pub cutoff : IsRowOf (λ c. c.tenant_id) b.tenant_id reg.cutoffs b.cutoff

booker_of-IsBooker :
    (db : Db) (reg : Registry) (user : User) (request : BookingCreate) (b : Booker)
    → booker_of db reg user request ≡ ok b
    → IsBooker db reg user request b
unfolding booker_of
booker_of-IsBooker db reg user request b h =
    let (tenant_id, ft, h1) = bind-eq-ok (booking_tenant user request.tenant_id) _ h in
    let is_person = λ (e : Employee).
      e.employee_id == request.employee_id && e.tenant_id == tenant_id && e.is_active in
    let is_shift = λ (s : Shift). s.shift_id == request.shift_id && s.tenant_id == tenant_id in
    let (person, fp, h2) =
      or_raise-eq-ok (find? is_person db.employees) BookingError.employee_not_found _ h1 in
    let (shift, fs, h3) =
      or_raise-eq-ok (find? is_shift db.shifts) BookingError.shift_not_found _ h2 in
    let (tenant, fn, h4) =
      or_raise-eq-ok (get_tenant reg tenant_id) BookingError.tenant_not_found _ h3 in
    let (tp, mp) = find?-true is_person db.employees fp in
    let (ts, ms) = find?-true is_shift db.shifts fs in
    let (mt, et) = find?-IsRowOf (λ (t : Tenant). t.tenant_id) tenant_id reg.tenants _ fn in
    let asked : person.employee_id ≡ request.employee_id = ground arith in
    let built : Booker = record {
      tenant_id = tenant_id;
      person = person;
      shift = shift;
      tenant = tenant;
      weekoff_config = get_weekoff reg person.employee_id;
      cutoff = get_cutoff reg tenant_id;
    } in
    let same : built ≡ b = cc in
    subst (λ x. IsBooker db reg user request x) same
      (record {
        books_for = booking_tenant-BooksFor user request.tenant_id tenant_id ft;
        person_there = mp;
        person_asked = asked;
        person_of_tenant = ground arith;
        person_active = ground arith;
        shift_there = ms;
        shift_asked = ground arith;
        shift_of_tenant = ground arith;
        tenant_there = mt;
        of_tenant = et;
        days_off =
            find?-IsRowOf (λ (w : WeekoffConfig). w.employee_id) request.employee_id
              reg.weekoff_configs (get_weekoff reg person.employee_id)
              (ap (get_weekoff reg) (sym asked));
        cutoff =
            find?-IsRowOf (λ (c : Cutoff). c.tenant_id) tenant_id reg.cutoffs
              (get_cutoff reg tenant_id) refl;
      })

none_past :
    (today : ℕ) (dates : List ℕ)
    → any (λ d. leb (d + 1) today) dates ≡ false
    → All (λ d. today ≤ d) dates
none_past today dates h =
    All-of_Elem (λ d. today ≤ d) dates
      (λ d m. let e = any-false (λ d. leb (d + 1) today) dates h m in ground arith)

-- An accepted request makes one new request for each of its dates, and for no other, earliest
-- first, and adds these to the bookings and nothing else: for the asked active employee and shift
-- of one tenant, which an administrator names and an employee belongs to, on days from today on
-- that are not weekly off for this employee, within this tenant's cutoff for the type, for a shift that has not started if it is today's, and where the employee had no booking,
-- cancelled or not, for the date and shift.
pub create_booking-IsGranted :
    (reg : Registry) (db : Db) (user : User) (request : BookingCreate) (today now : ℕ) (db' : Db)
    (rows : List Booking)
    → create_booking reg db user request today now ≡ ok (db', rows)
    → (b : Booker) × IsBooker db reg user request b
      × IsAscending (map (λ r. r.booking_date) rows)
      × ((d : ℕ) → Elem d (map (λ r. r.booking_date) rows) ↔ Elem d request.booking_dates)
      × All (λ d. today ≤ d) request.booking_dates
      × All (IsGranted db b request today now) rows
      × (db' ≡ record db { bookings = db.bookings ++ rows })
unfolding create_booking
create_booking-IsGranted reg db user request today now db' rows h =
    let (b, fb, h1) = bind-eq-ok (booker_of db reg user request) _ h in
    let (future, h2) =
      raise_if-eq-ok (any (λ d. leb (d + 1) today) request.booking_dates) BookingError.invalid_date
        _ h1 in
    let ds = sorted_dates request.booking_dates in
    let (made, fr, h3) =
      bind-eq-ok (check_dates db reg b request today now ds (next_booking_id db.bookings)) _ h2 in
    let (dates, granted) =
      check_dates_lem db reg b request today now ds (next_booking_id db.bookings) made fr in
    let same : made ≡ rows = cc in
    let dates' : map (λ r. r.booking_date) rows ≡ ds =
      subst (λ rs. map (λ r. r.booking_date) rs ≡ ds) same dates in
    (
      b,
      booker_of-IsBooker db reg user request b fb,
      subst IsAscending (sym dates') (sorted_dates-IsAscending request.booking_dates),
      (λ d.
          subst (λ ls. Elem d ls ↔ Elem d request.booking_dates) (sym dates')
            (sorted_dates-Elem d request.booking_dates)),
      none_past today request.booking_dates future,
      subst (λ rs. All (IsGranted db b request today now) rs) same granted,
      cc,
    )
