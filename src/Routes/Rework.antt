-- ===== src/Routes/Rework.antt =====
-- `bulk_delete_routes`, `update_route_bookings` and `update_route`
-- (app/routes/route_management.py).
use fleet_manager.Prelude.{
  ℕ, suc, ◌+◌, ◌-◌, ◌*◌, Bool, true, false, not, ◌&&◌, ◌||◌, Option, none, some, List, [], ◌∷◌,
  ◌++◌, map, ◌==◌, ltb, any, filter, is_key, length,
}
use fleet_manager.Prelude.Result.{Result, ok, err, ◌>>=◌, ◌>>◌, raise_if, or_raise}
use fleet_manager.Prelude.Sort.{sort_by}
use fleet_manager.Store.{
  Text, Db, Route, RouteManagementBooking, Booking, Shift, LogType, Point, get_booking, get_shift,
  put_route,
}
use fleet_manager.Delay.{is_digit, split_colon}
use fleet_manager.Bookings.{Registry, get_tenant}
use fleet_manager.Routes.Optimal.{
  Query, Directions, Failure, pickup_spot, drop_spot, generate_optimal_route, generate_drop_route,
}
use fleet_manager.Routes.{
  RouteError, Planner, planning_tenant, is_one_of, route_of_tenant, Plan, next_link_id, links_for,
  scheduled,
}
use fleet_manager.Routes.Build.{last_of, plan_or, without_routes, reverted}

-- The joins of a link with a booking of the shift and date.
abbrev pub is_link_on : Db → ℕ → ℕ → RouteManagementBooking → Bool
is_link_on db shift_id date l =
    any (λ b. b.booking_id == l.booking_id && is_key b.shift_id shift_id && b.booking_date == date)
      db.bookings

abbrev pub routes_on : Db → ℕ → ℕ → ℕ → List Route
routes_on db tenant_id shift_id date =
    filter
      (λ r.
        r.tenant_id == tenant_id
        && any (λ l. l.route_id == r.route_id && is_link_on db shift_id date l) db.links)
      db.routes

abbrev pub linked_ids : Db → List ℕ → List ℕ
linked_ids db route_ids =
    map (λ l. l.booking_id) (filter (λ l. is_one_of route_ids l.route_id) db.links)

-- No routes, no change; the reply is the routes' keys.
unfoldable pub bulk_delete_routes :
    Registry → Db → Planner → Option ℕ → ℕ → ℕ → ℕ → Result RouteError (Db × List ℕ)
bulk_delete_routes reg db user asked shift_id date now = do
  tenant_id ← planning_tenant user asked
  or_raise (get_tenant reg tenant_id) RouteError.tenant_not_found >>= λ tenant. ok tt
  let route_ids = map (λ r. r.route_id) (routes_on db tenant_id shift_id date)
  let ids = linked_ids db route_ids
  ok (
    without_routes route_ids (record db { bookings = map (reverted ids now) db.bookings }),
    route_ids,
  )

pub record RouteBookingUpdate : Type 0 where
  pub booking_id : ℕ
  pub order_id : ℕ
  pub estimated_pick_up_time : Option Text
  pub estimated_drop_time : Option Text

-- The shift of the first link of the route whose booking has one.
abbrev pub booking_shift : Db → Option Booking → Option Shift
booking_shift db none = none
booking_shift db (some b) = elim b.shift_id [ some k ↦ get_shift db k | none ↦ none ]

abbrev pub or_else : Option Shift → Option Shift → Option Shift
or_else none o = o
or_else (some s) o = some s

abbrev pub joined_shift : Db → List RouteManagementBooking → Option Shift
joined_shift db [] = none
joined_shift db (l ∷ ls) =
    or_else (booking_shift db (get_booking db l.booking_id)) (joined_shift db ls)

abbrev pub links_of : Db → ℕ → List RouteManagementBooking
links_of db route_id = filter (λ l. l.route_id == route_id) db.links

-- One or two digits, of a value below the bound.
abbrev pub is_field : ℕ → Text → Bool
is_field bound [] = false
is_field bound (c ∷ []) = is_digit c
is_field bound (c ∷ d ∷ []) = is_digit c && is_digit d && ltb (10 * (c - b'0') + (d - b'0')) bound
is_field bound (c ∷ d ∷ e ∷ s) = false

abbrev pub are_fields : List Text → Bool
are_fields [] = false
are_fields (h ∷ []) = false
are_fields (h ∷ m ∷ []) = false
are_fields (h ∷ m ∷ s ∷ []) = is_field 24 h && is_field 60 m && is_field 60 s
are_fields (h ∷ m ∷ s ∷ t ∷ ts) = false

-- `datetime.strptime(s, "%H:%M:%S")` succeeds.
abbrev pub is_time : Text → Bool
is_time s = are_fields (split_colon s)

abbrev pub is_blank : Option Text → Bool
is_blank none = true
is_blank (some []) = true
is_blank (some (c ∷ s)) = false

abbrev pub is_time? : Option Text → Bool
is_time? none = false
is_time? (some s) = is_time s

unfoldable pub check_times : List RouteBookingUpdate → Result RouteError (Unit {0})
check_times [] = ok tt
check_times (u ∷ us) =
    raise_if (is_blank u.estimated_pick_up_time || is_blank u.estimated_drop_time)
      RouteError.manual_times_required
    >> (raise_if (not (is_time? u.estimated_pick_up_time && is_time? u.estimated_drop_time))
          RouteError.invalid_time_format
        >> check_times us)

-- `get_booking_by_id` of each.
unfoldable pub get_each : Db → List ℕ → Result RouteError (List Booking)
get_each db [] = ok []
get_each db (k ∷ ks) = or_raise (get_booking db k) RouteError.booking_not_found >>= λ b.
    get_each db ks >>= λ bs. ok (b ∷ bs)

-- The links of the route give way to these.
abbrev pub relinked : Db → ℕ → List RouteManagementBooking → Db
relinked db route_id made = record db {
  links = filter (λ l. not (l.route_id == route_id)) db.links ++ made;
}

-- The next key, once the route's links are gone.
abbrev pub free_link_id : Db → ℕ → ℕ
free_link_id db route_id = next_link_id (filter (λ l. not (l.route_id == route_id)) db.links)

abbrev pub manual_links : ℕ → ℕ → List RouteBookingUpdate → List RouteManagementBooking
manual_links route_id id [] = []
manual_links route_id id (u ∷ us) =
    record {
      id = id;
      route_id = route_id;
      booking_id = u.booking_id;
      order_id = u.order_id;
      estimated_pick_up_time = u.estimated_pick_up_time;
      actual_pick_up_time = none;
      actual_drop_time = none;
      geofence_notified_at = none;
    }
    ∷ manual_links route_id (suc id) us

abbrev pub with_time : Route → Plan → Route
with_time route plan = record route { estimated_total_time = some plan.estimated_time }

abbrev pub no_update : List RouteBookingUpdate → Bool
no_update [] = true
no_update (u ∷ us) = false

module _ (directions : Query → Option Directions) (haversine : Point → Point → ℕ) where
  -- The service keeps the order of the drops.
  abbrev pub ordered_for : LogType → ℕ → Booking → List Booking → Result Failure Plan
  ordered_for LogType.login shift_time b bs =
      generate_optimal_route directions haversine (b ∷ bs) (drop_spot (last_of b bs)) shift_time
        false
  ordered_for LogType.logout shift_time b bs =
      generate_drop_route directions haversine (b ∷ bs) (pickup_spot b) shift_time false

  abbrev pub ordered_plan : Shift → List Booking → Result Failure Plan
  ordered_plan shift [] = err Failure.raised
  ordered_plan shift (b ∷ bs) = ordered_for shift.log_type shift.shift_time b bs

  -- The links and the row of the route.
  abbrev pub optimized_links : Db → Route → Shift → List RouteBookingUpdate → Result RouteError Db
  optimized_links db route shift updates = do
    rows ← get_each db (map (λ u. u.booking_id) (sort_by (λ u. u.order_id) updates))
    plan ←
        plan_or RouteError.optimization_failed RouteError.update_bookings_error
          (ordered_plan shift rows)
    ok (
        put_route (with_time route plan) (
          relinked db route.route_id
            (links_for route.route_id (free_link_id db route.route_id) 1 plan.stops)))

  abbrev pub reworked_links :
      Bool → Db → Route → Shift → List RouteBookingUpdate → Result RouteError Db
  reworked_links true db route shift updates = optimized_links db route shift updates
  reworked_links false db route shift updates = do
    check_times updates
    ok (
        relinked db route.route_id
          (manual_links route.route_id (free_link_id db route.route_id) updates))

  unfoldable pub update_route_bookings :
      Db → Planner → Option ℕ → ℕ → List RouteBookingUpdate → Bool → ℕ → Result RouteError Db
  update_route_bookings db user asked route_id updates optimize now = do
    tenant_id ← planning_tenant user asked
    raise_if (no_update updates) RouteError.no_bookings_provided
    route ← or_raise (route_of_tenant db tenant_id route_id) RouteError.route_not_found
    shift ← or_raise (joined_shift db (links_of db route_id)) RouteError.route_not_found
    let ids = map (λ u. u.booking_id) updates
    raise_if
        (not
          (length (filter (λ l. is_one_of ids l.booking_id) (links_of db route_id)) == length ids))
        RouteError.invalid_bookings
    db' ← reworked_links optimize db route shift updates
    ok (record db' { bookings = map (scheduled ids now) db'.bookings })
