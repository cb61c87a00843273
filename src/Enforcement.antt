-- ===== src/Enforcement.antt =====
-- One trip per shift (app/utils/trip_enforcement.py): a booking that is added to a route must not
-- be on another active route of the tenant.
pub mod Laws
use fleet_manager.Prelude.{
  ℕ, Bool, true, false, not, ◌&&◌, ◌||◌, Option, none, some, List, [], ◌∷◌, map, ◌==◌,
  if◌then◌else◌, any, filter,
}
use fleet_manager.Prelude.Result.{Result, ok, err, ◌>>=◌}
use fleet_manager.Store.{Db, Route, RouteManagementBooking, Booking, BookingStatus, get_booking}

-- The two errors of status 409.
pub data Conflict : Type 0 where
  booking_already_active : ℕ → BookingStatus → Conflict
  booking_already_assigned : ℕ → List ℕ → Conflict

module _ (route_id tenant_id : ℕ) where
  -- The link puts the booking on another active route of the tenant.
  abbrev pub conflicts_in : List Route → ℕ → RouteManagementBooking → Bool
  conflicts_in routes booking_id l =
      l.booking_id == booking_id
      && not (l.route_id == route_id)
      && any (λ r. r.route_id == l.route_id && r.tenant_id == tenant_id && r.is_active) routes

  unfoldable pub existing_links : Db → ℕ → List RouteManagementBooking
  existing_links db booking_id = filter (conflicts_in db.routes booking_id) db.links

-- `_ACTIVE_BOOKING_STATUSES`
abbrev pub is_active_status : BookingStatus → Bool
is_active_status BookingStatus.request = false
is_active_status BookingStatus.scheduled = false
is_active_status BookingStatus.ongoing = true
is_active_status BookingStatus.completed = true
is_active_status BookingStatus.cancelled = false
is_active_status BookingStatus.no_show = false
is_active_status BookingStatus.expired = false

abbrev pub is_deleted : List RouteManagementBooking → RouteManagementBooking → Bool
is_deleted gone l = any (λ (m : RouteManagementBooking). m.id == l.id) gone

-- `for link in existing_links: db.delete(link)`
unfoldable pub delete_links : List RouteManagementBooking → Db → Db
delete_links gone db = record db { links = filter (λ l. not (is_deleted gone l)) db.links }

-- What the policy makes of the links found.
abbrev pub move_or_block : Bool → Db → ℕ → List RouteManagementBooking → Result Conflict Db
move_or_block true db booking_id gone = ok (delete_links gone db)
move_or_block false db booking_id gone =
    err (booking_already_assigned booking_id (map (λ l. l.route_id) gone))

abbrev pub settle :
    Bool → Db → ℕ → List RouteManagementBooking → Option Booking → Result Conflict Db
settle auto_move db booking_id [] booking = ok db
settle auto_move db booking_id (l ∷ ls) none = move_or_block auto_move db booking_id (l ∷ ls)
settle auto_move db booking_id (l ∷ ls) (some b) =
    if is_active_status b.status
    then err (booking_already_active booking_id b.status)
    else move_or_block auto_move db booking_id (l ∷ ls)

module _ (route_id tenant_id : ℕ) (auto_move : Bool) where
  -- One round of the loop.
  unfoldable pub enforce_booking : Db → ℕ → Result Conflict Db
  enforce_booking db booking_id =
      settle auto_move db booking_id (existing_links route_id tenant_id db booking_id)
        (get_booking db booking_id)

  unfoldable pub enforce_each : Db → List ℕ → Result Conflict Db
  enforce_each db [] = ok db
  enforce_each db (booking_id ∷ ids) = enforce_booking db booking_id >>= λ db'. enforce_each db' ids

-- The set of booking ids is a list, in the order of the iteration.
unfoldable pub enforce_one_trip_per_shift : Db → ℕ → ℕ → List ℕ → Bool → Bool → Result Conflict Db
enforce_one_trip_per_shift db route_id tenant_id booking_ids enabled auto_move =
    if not enabled then ok db else enforce_each route_id tenant_id auto_move db booking_ids
