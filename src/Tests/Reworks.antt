-- ===== src/Tests/Reworks.antt =====
-- The stops of routes of the night shift change: an employee joins, and one is left out.
use fleet_manager.Prelude.{ℕ, ◌≡◌, ◌≢◌, refl, false, none, some, List, [], ◌∷◌, Elem, here}
use fleet_manager.Prelude.Result.{ok, err}
use fleet_manager.Prelude.Text.{codes}
use fleet_manager.Store.{Db, Booking, Route, RouteManagementBooking}
use fleet_manager.Routes.{RouteError}
use fleet_manager.Routes.Optimal.{generate_drop_route, check_drops, picked, time_text}
use fleet_manager.Trip.Otp.{str}
use fleet_manager.Delay.{split_colon}
use fleet_manager.Routes.Rework.{RouteBookingUpdate, check_times, get_each, update_route_bookings}
use fleet_manager.Routes.Dropped.{update_route_bookings_drops}
use fleet_manager.Enforcement.{
  enforce_one_trip_per_shift, enforce_each, enforce_booking, existing_links, delete_links,
}
use fleet_manager.Routes.Update.{Operation, updating_tenant, enforced, update_route}
use fleet_manager.Routes.Targets.{IsUpdated}
use fleet_manager.Routes.Updated.{update_route-IsUpdated}
use fleet_manager.Tests.Night.{hour, at, taxi, db, earlier, link, second_link}
use fleet_manager.Tests.Bookings.{reg}
use fleet_manager.Tests.Routes.{
  directions, planner, db_small, small, differ-IsKeyed, directions-OrdersWaypoints,
}

-- Only the first of the two employees is given a new time.
abbrev listed : List RouteBookingUpdate
listed =
    record {
      booking_id = 11;
      order_id = 1;
      estimated_pick_up_time = some (codes "21:05:00");
      estimated_drop_time = some (codes "21:30:00");
    }
    ∷ []

abbrev db_left : Db
db_left = record db {
  links = record (link 1 7 11 1) { estimated_pick_up_time = some (codes "21:05:00") } ∷ [];
}

updates : update_route_bookings directions taxi db planner none 7 listed false (at 18) ≡ ok db_left
unfolding update_route_bookings check_times split_colon
updates = refl

without_seconds :
    update_route_bookings directions taxi db planner none 7
      (record {
        booking_id = 11;
        order_id = 1;
        estimated_pick_up_time = some (codes "21:05");
        estimated_drop_time = some (codes "21:30:00");
      }
        ∷ [])
      false
      (at 18)
    ≡ err RouteError.invalid_time_format
unfolding update_route_bookings check_times split_colon
without_seconds = refl

update_route_bookings_drops_example :
    ((m : RouteManagementBooking) → Elem m db_left.links → m.booking_id ≢ 12)
    × ((b : Booking) → Elem b db.bookings → b.booking_id ≡ 12 → Elem b db_left.bookings)
update_route_bookings_drops_example =
    update_route_bookings_drops directions taxi db planner none 7 listed false (at 18) db_left
      second_link (differ-IsKeyed db refl refl) updates here refl refl

-- The second employee joins route 7, and leaves route 8, since the tenant wants one trip per shift.
abbrev db_joined : Db
db_joined = record db_small {
  routes =
      record (small 7 1) { estimated_total_time = some hour }
      ∷ small 8 1
      ∷ small 9 2
      ∷ earlier
      ∷ [];
  links = link 33 9 13 1 ∷ link 34 7 11 1 ∷ link 35 7 12 2 ∷ [];
}

joins :
    update_route directions taxi
      (λ ids. ids)
      reg
      db_small
      planner
      none
      7
      Operation.add
      (12 ∷ [])
      (at 18)
    ≡ ok db_joined
unfolding update_route enforced get_each enforce_one_trip_per_shift enforce_each enforce_booking
    existing_links delete_links generate_drop_route check_drops picked time_text str
joins = refl

update_route-IsUpdated_example :
    (tenant_id : ℕ) × (r : Route) × (updating_tenant planner none ≡ ok tenant_id)
    × Elem r db_small.routes
    × (r.route_id ≡ 7)
    × (r.tenant_id ≡ tenant_id)
    × IsUpdated Operation.add db_small db_joined tenant_id 7 (12 ∷ [])
update_route-IsUpdated_example =
    update_route-IsUpdated directions taxi directions-OrdersWaypoints (λ ids. ids) reg db_small
      planner none 7 Operation.add (12 ∷ []) (at 18) db_joined (λ k ids. ((λ m. m), (λ m. m))) joins
