-- ===== src/Routes/Build.antt =====
-- `create_route_from_bookings`, `merge_routes` and `delete_route`
-- (app/routes/route_management.py).
use fleet_manager.Prelude.{
  ℕ, ◌+◌, Bool, true, false, not, ◌&&◌, Option, none, some, List, [], ◌∷◌, ◌++◌, map, ◌==◌,
  if◌then◌else◌, any, filter, is_truthy, length,
}
use fleet_manager.Prelude.Int.{ℤ, round_div_ℤ, pos_part, neg_part}
use fleet_manager.Prelude.Result.{Result, ok, err, ◌>>=◌, ◌>>◌, raise_if, or_raise}
use fleet_manager.Prelude.Text.{codes}
use fleet_manager.Store.{Db, Route, Booking, BookingStatus, Shift, LogType, Point}
use fleet_manager.Trip.Types.{eq_booking_status}
use fleet_manager.Bookings.{Registry, get_shift_of, get_tenant}
use fleet_manager.Routes.Optimal.{
  Query, Directions, Failure, pickup_spot, drop_spot, generate_optimal_route, generate_drop_route,
}
use fleet_manager.Routes.{
  RouteError, Planner, planning_tenant, is_one_of, route_of_tenant, Plan, with_route,
}

abbrev pub is_empty : List ℕ → Bool
is_empty [] = true
is_empty (x ∷ xs) = false

abbrev pub same_option : Option ℕ → Option ℕ → Bool
same_option none none = true
same_option none (some k) = false
same_option (some j) none = false
same_option (some j) (some k) = j == k

-- The rows of `ids` that are the tenant's.
abbrev pub own_bookings : Db → ℕ → List ℕ → List Booking
own_bookings db tenant_id ids =
    filter (λ b. is_one_of ids b.booking_id && b.tenant_id == tenant_id) db.bookings

-- The shift of the bookings, which are all for one shift and date.
abbrev pub common_shift : List Booking → Result RouteError (Option ℕ)
common_shift [] = err RouteError.bookings_not_found
common_shift (b ∷ bs) = do
  raise_if (any (λ c. not (same_option c.shift_id b.shift_id)) bs) RouteError.mixed_shifts
  raise_if (any (λ c. not (c.booking_date == b.booking_date)) bs) RouteError.mixed_dates
  ok b.shift_id

abbrev pub shift_of : Db → ℕ → Option ℕ → Option Shift
shift_of db tenant_id none = none
shift_of db tenant_id (some k) = get_shift_of db tenant_id k

-- Without optimisation the stops stand in the order of the rows, with no times.
abbrev pub unoptimized : List Booking → Plan
unoptimized bs = record { estimated_time = 0; stops = map (λ b. (b.booking_id, none)) bs }

abbrev pub unlinked : List ℕ → Db → Db
unlinked ids db = record db { links = filter (λ l. not (is_one_of ids l.booking_id)) db.links }

-- A row of the tenant is there for each of the ids.
abbrev pub all_found : List ℕ → List Booking → Bool
all_found ids bs = length bs == length ids

-- `group[-1]` of the bookings behind `b`, or `b`
abbrev pub last_of : Booking → List Booking → Booking
last_of b [] = b
last_of b (c ∷ cs) = last_of c cs

-- The answer of a handler to no routes, and to an exception.
abbrev pub plan_or : RouteError → RouteError → Result Failure Plan → Result RouteError Plan
plan_or e e' (ok plan) = ok plan
plan_or e e' (err Failure.no_candidate) = err e
plan_or e e' (err Failure.raised) = err e'

module _ (directions : Query → Option Directions) (haversine : Point → Point → ℕ) where
  -- A pick-up route goes to the last booking's destination, a drop route leaves from the first
  -- booking's origin.
  abbrev pub optimized_for : LogType → ℕ → Booking → List Booking → Result Failure Plan
  optimized_for LogType.login shift_time b bs =
      generate_optimal_route directions haversine (b ∷ bs) (drop_spot (last_of b bs)) shift_time
        false
  optimized_for LogType.logout shift_time b bs =
      generate_drop_route directions haversine (b ∷ bs) (pickup_spot b) shift_time true

  abbrev pub optimized_plan : Shift → List Booking → Result Failure Plan
  optimized_plan shift [] = err Failure.raised
  optimized_plan shift (b ∷ bs) = optimized_for shift.log_type shift.shift_time b bs

  abbrev pub plan_for : Bool → Shift → List Booking → Result RouteError Plan
  plan_for true shift bs =
      plan_or RouteError.optimization_failed RouteError.create_route_error (optimized_plan shift bs)
  plan_for false shift bs = ok (unoptimized bs)

  -- `optimized` is the request's flag; the reply is the key of the new route.
  unfoldable pub create_route_from_bookings :
      Db → Planner → Option ℕ → List ℕ → Bool → ℕ → Result RouteError Db
  create_route_from_bookings db user asked booking_ids optimized now = do
    tenant_id ← planning_tenant user asked
    raise_if (is_empty booking_ids) RouteError.no_bookings_provided
    let rows = own_bookings db tenant_id booking_ids
    raise_if (not (all_found booking_ids rows)) RouteError.bookings_not_found
    shift_id ← common_shift rows
    shift ← or_raise (shift_of db tenant_id shift_id) RouteError.shift_not_found
    plan ← plan_for optimized shift rows
    ok (with_route (unlinked booking_ids db) tenant_id shift_id plan booking_ids now)

-- `list(dict.fromkeys(ids))`
abbrev pub unique_ids : List ℕ → List ℕ
unique_ids [] = []
unique_ids (i ∷ is) = i ∷ filter (λ k. not (k == i)) (unique_ids is)

abbrev pub booking_ids_of : Db → List Route → List ℕ
booking_ids_of db [] = []
booking_ids_of db (r ∷ rs) =
    map (λ l. l.booking_id) (filter (λ l. l.route_id == r.route_id) db.links)
    ++ booking_ids_of db rs

-- The loop over the routes, with the shift that it has so far; no shift is false in Python.
abbrev pub merged_shift : Option ℕ → List Route → Result RouteError (Option ℕ)
merged_shift seen [] = ok seen
merged_shift seen (r ∷ rs) =
    let rest = merged_shift r.shift_id rs in
    if is_truthy seen && not (same_option r.shift_id seen)
    then err RouteError.shift_mismatch
    else rest

abbrev pub key_of : Option ℤ → Option ℤ → Option ℕ → Option (ℤ × ℤ × Option ℕ)
key_of none lng address = none
key_of (some lat) none address = none
key_of (some lat) (some lng) address = some (round_div_ℤ lat 10, round_div_ℤ lng 10, address)

-- Where the office is, for a booking: coordinates to 10^-6 degrees, and the address.
abbrev pub office_key : LogType → Booking → Option (ℤ × ℤ × Option ℕ)
office_key LogType.login b = key_of b.drop_latitude b.drop_longitude b.drop_location
office_key LogType.logout b = key_of b.pickup_latitude b.pickup_longitude b.pickup_location

abbrev pub eq_ℤ : ℤ → ℤ → Bool
eq_ℤ a b = (pos_part a + neg_part b) == (pos_part b + neg_part a)

abbrev pub same_office : ℤ × ℤ × Option ℕ → ℤ × ℤ × Option ℕ → Bool
same_office (lat, lng, address) (lat', lng', address') =
    eq_ℤ lat lat' && eq_ℤ lng lng' && same_option address address'

-- The keys of the offices; a missing coordinate cannot be rounded.
abbrev pub office_keys : LogType → List Booking → Result RouteError (List (ℤ × ℤ × Option ℕ))
office_keys log [] = ok []
office_keys log (b ∷ bs) = or_raise (office_key log b) RouteError.route_merge_error >>= λ key.
    office_keys log bs >>= λ keys. ok (key ∷ keys)

-- At most one office. `bookings[0]` fails where there is none.
abbrev pub check_office : List (ℤ × ℤ × Option ℕ) → Result RouteError (Unit {0})
check_office [] = err RouteError.route_merge_error
check_office (key ∷ keys) =
    raise_if (any (λ k. not (same_office key k)) keys) RouteError.office_location_mismatch

abbrev pub no_route : List Route → Bool
no_route [] = true
no_route (r ∷ rs) = false

abbrev pub without_routes : List ℕ → Db → Db
without_routes ids db = record db {
  routes = filter (λ r. not (is_one_of ids r.route_id)) db.routes;
  links = filter (λ l. not (is_one_of ids l.route_id)) db.links;
}

module _ (directions : Query → Option Directions) (haversine : Point → Point → ℕ) where
  -- The office is that of the first booking.
  abbrev pub merged_for : LogType → ℕ → Booking → List Booking → Result Failure Plan
  merged_for LogType.login shift_time b bs =
      generate_optimal_route directions haversine (b ∷ bs) (drop_spot b) shift_time true
  merged_for LogType.logout shift_time b bs =
      generate_drop_route directions haversine (b ∷ bs) (pickup_spot b) shift_time true

  abbrev pub merged_plan : Shift → List Booking → Result Failure Plan
  merged_plan shift [] = err Failure.raised
  merged_plan shift (b ∷ bs) = merged_for shift.log_type shift.shift_time b bs

  unfoldable pub merge_routes : Db → Planner → Option ℕ → List ℕ → ℕ → Result RouteError Db
  merge_routes db user asked route_ids now = do
    tenant_id ← planning_tenant user asked
    raise_if (is_empty route_ids) RouteError.no_route_ids
    let routes = filter (λ r. is_one_of route_ids r.route_id && r.tenant_id == tenant_id) db.routes
    raise_if (no_route routes) RouteError.route_not_found
    shift_id ← merged_shift none routes
    let ids = unique_ids (booking_ids_of db routes)
    raise_if (is_empty ids) RouteError.empty_route_list
    let rows = filter (λ b. is_one_of ids b.booking_id) db.bookings
    shift ← or_raise (shift_of db tenant_id shift_id) RouteError.shift_not_found
    keys ← office_keys shift.log_type rows
    check_office keys
    plan ← plan_or RouteError.opt_fail RouteError.opt_fail (merged_plan shift rows)
    ok (without_routes route_ids (with_route db tenant_id shift_id plan ids now))

-- A scheduled booking of a route that is deleted is a request again.
abbrev pub reverted : List ℕ → ℕ → Booking → Booking
reverted ids now b =
    if is_one_of ids b.booking_id && eq_booking_status b.status BookingStatus.scheduled
    then record b {
      status = BookingStatus.request;
      boarding_otp = none;
      deboarding_otp = none;
      reason = some (codes "Route deleted - reverted to request");
      updated_at = now;
    }
    else b

unfoldable pub delete_route : Registry → Db → Planner → Option ℕ → ℕ → ℕ → Result RouteError Db
delete_route reg db user asked route_id now = do
  tenant_id ← planning_tenant user asked
  or_raise (get_tenant reg tenant_id) RouteError.tenant_not_found >>= λ tenant. ok tt
  route ← or_raise (route_of_tenant db tenant_id route_id) RouteError.route_not_found
  let ids = map (λ l. l.booking_id) (filter (λ l. l.route_id == route_id) db.links)
  let reverted_db = record db { bookings = map (reverted ids now) db.bookings }
  ok (without_routes (route.route_id ∷ []) reverted_db)
