-- ===== src/Tests/Routes.antt =====
-- The routes of the night shift are planned: two of them are merged, and get a vehicle.
use fleet_manager.Prelude.{
  ℕ, zero, suc, ◌+◌, ◌<◌, ◌++◌, length, ◌≡◌, ◌≢◌, refl, ap, subst, Bool, true, false, Option, none,
  some, List, [], ◌∷◌, arith, inl, not, any, any-of_Elem, ◌&&◌, ◌==◌, Elem, here, there, ◌⊎◌,
}
use fleet_manager.Prelude.Result.{ok}
use fleet_manager.Prelude.Int.{pos, round_div_ℤ}
use fleet_manager.Prelude.Sort.{sort_by}
use fleet_manager.Prelude.Text.{codes}
use fleet_manager.Store.{Db, Route, RouteStatus, RouteManagementBooking, UserType, Vehicle}
use fleet_manager.Trip.Machine.{Request}
use fleet_manager.Trip.Exclusive.{IsExclusive}
use fleet_manager.Trip.Completion.{IsKeyed, IsSettled}
use fleet_manager.Duty.{
  trips_of, check_rest, clipped, merge, gaps_from, max_of, judge, total_minutes,
}
use fleet_manager.Employee.Mixed.{Event}
use fleet_manager.Routes.{Planner, planning_tenant, with_route}
use fleet_manager.Routes.Build.{merge_routes, create_route_from_bookings}
use fleet_manager.Routes.Assign.{
  DriverRow, Fleet, assign_vehicle_to_route, ready_pair, with_vehicle,
}
use fleet_manager.Routes.Optimal.{
  Spot, Query, Leg, Directions, generate_drop_route, check_drops, picked, time_text,
}
use fleet_manager.Trip.Otp.{str}
use fleet_manager.Routes.Complete.{OrdersWaypoints}
use fleet_manager.Routes.Moved.{IsMoved, create_route_from_bookings-IsMoved}
use fleet_manager.Routes.Foreign.{merge_routes_foreign}
use fleet_manager.Routes.Served.{IsReady, Serves, assign_vehicle_to_route-Serves}
use fleet_manager.Routes.Doubled.{MayServe, assign_vehicle_to_route_doubles}
use fleet_manager.Routes.Day.{Planning, PlanningEvent, plans, rides, run_day, run_day-IsSettled}
use fleet_manager.Tests.Night.{
  ctx, hour, at, taxi, office, vehicle, vendor, db, route, earlier, going, link,
}
use fleet_manager.Tests.Bookings.{reg}
use fleet_manager.Tests.Mixed.{garage}

-- Half an hour to each of the waypoints, in the order in which they were asked for.
abbrev indexes : ℕ → ℕ → List ℕ
indexes i zero = []
indexes i (suc n) = i ∷ indexes (suc i) n

abbrev half_hour : List Spot → List Leg
half_hour [] = record { distance = 9_000; duration = 1_800 } ∷ []
half_hour (p ∷ ps) = record { distance = 9_000; duration = 1_800 } ∷ half_hour ps

abbrev pub directions : Query → Option Directions
directions q =
    some (record { waypoint_order = indexes 0 (length q.waypoints); legs = half_hour q.waypoints })

abbrev pub planner : Planner
planner = record { user_type = UserType.employee; tenant_id = 1; vendor_id = none }

abbrev fleet : Fleet
fleet = record {
  vendors = vendor ∷ [];
  vehicles = vehicle ∷ [];
  drivers = record { driver_id = 5; vendor_id = 2; is_active = true } ∷ [];
  escorts = record { escort_id = 9; vendor_id = 2; is_available = true } ∷ [];
}

-- A route with one stop.
abbrev pub small : ℕ → ℕ → Route
small route_id tenant_id = record route {
  route_id = route_id;
  tenant_id = tenant_id;
  assigned_vendor_id = none;
  assigned_vehicle_id = none;
  assigned_driver_id = none;
  assigned_escort_id = none;
  status = RouteStatus.planned;
}

-- Route 9 is another tenant's.
abbrev pub db_small : Db
db_small = record db {
  routes = small 7 1 ∷ small 8 1 ∷ small 9 2 ∷ earlier ∷ [];
  links = link 31 7 11 1 ∷ link 32 8 12 1 ∷ link 33 9 13 1 ∷ [];
}

-- No two rows have the same key.
abbrev differ : {A : Type 0} → (A → ℕ) → List A → Bool
differ key [] = true
differ key (x ∷ xs) = not (any (λ y. key x == key y) xs) && differ key xs

same_row :
    {A : Type 0} (key : A → ℕ) (xs : List A) (a b : A)
    → differ key xs ≡ true
    → Elem a xs
    → Elem b xs
    → key a ≡ key b
    → a ≡ b
same_row key (x ∷ xs) a b d here here e = refl
same_row key (x ∷ xs) a b d here (there m) e =
    let t = any-of_Elem (λ y. key x == key y) xs m (ground arith) in absurd (ground arith)
same_row key (x ∷ xs) a b d (there m) here e =
    let t = any-of_Elem (λ y. key x == key y) xs m (ground arith) in absurd (ground arith)
same_row key (x ∷ xs) a b d (there m) (there n) e = same_row key xs a b (ground arith) m n e
same_row key [] a b d m n e = elim m [ ]

pub differ-IsKeyed :
    (d : Db)
    → differ (λ (r : Route). r.route_id) d.routes ≡ true
    → differ (λ (l : RouteManagementBooking). l.booking_id) d.links ≡ true
    → IsKeyed d
differ-IsKeyed d dr dl = record {
  routes_keyed = λ a b ma mb e. same_row (λ (r : Route). r.route_id) d.routes a b dr ma mb e;
  links_single = λ l m ml mm e.
      ap (λ (l : RouteManagementBooking). l.route_id)
        (same_row (λ (l : RouteManagementBooking). l.booking_id) d.links l m dl ml mm e);
}

pub small-IsKeyed : IsKeyed db_small
small-IsKeyed = differ-IsKeyed db_small refl refl

abbrev merged : List ℕ
merged = 7 ∷ 8 ∷ 9 ∷ []

abbrev db_merged : Db
db_merged = record db_small {
  routes =
      earlier
      ∷ record (small 10 1) {
        estimated_total_time = some hour;
        ota_grace_minutes = some (pos 5);
        escort_required = false;
        escort_otp = none;
        updated_at = at 18;
      }
      ∷ [];
  links =
      record (link 34 10 11 1) { estimated_pick_up_time = some (codes "21:00") }
      ∷ record (link 35 10 12 2) { estimated_pick_up_time = some (codes "21:00") }
      ∷ [];
}

merges : merge_routes directions taxi db_small planner none merged (at 18) ≡ ok db_merged
unfolding merge_routes with_route round_div_ℤ generate_drop_route check_drops picked time_text str
merges = refl

merge_routes_foreign_example :
    ((q : Route) → Elem q db_merged.routes → q.route_id ≢ 9)
    × ((m : RouteManagementBooking) → Elem m db_merged.links → m.booking_id ≢ 13)
merge_routes_foreign_example =
    merge_routes_foreign directions taxi db_small planner none merged (at 18) db_merged 1
      (small 9 2) (link 33 9 13 1) small-IsKeyed merges refl (there (there here)) (λ e. omega arith)
      refl (there (there here)) refl

-- The driver's other route has started an hour ago.
abbrev second_going : Route
second_going = record going {
  route_id = 8;
  assigned_driver_id = some 6;
  assigned_vehicle_id = some 3;
}

abbrev db_two : Db
db_two = record db { routes = going ∷ second_going ∷ earlier ∷ [] }

abbrev db_doubled : Db
db_doubled = record db { routes = going ∷ with_vehicle second_going 4 5 ∷ earlier ∷ [] }

assigns : assign_vehicle_to_route fleet db_two planner 8 4 (at 22) ≡ ok (db_doubled, false)
unfolding assign_vehicle_to_route ready_pair check_rest clipped trips_of judge max_of gaps_from
    merge sort_by total_minutes
assigns = refl

assign_vehicle_to_route-Serves_example :
    (r : Route) × (v : Vehicle) × (d : DriverRow) × Elem r db_two.routes
    × (r.route_id ≡ 8)
    × (r.tenant_id ≡ 1)
    × ((false ≡ false) ⊎ (none ≡ r.assigned_vendor_id))
    × IsReady fleet 1 r.assigned_vendor_id 4 v d
    × Serves db_two planner (at 22) r v d db_doubled false
assign_vehicle_to_route-Serves_example =
    assign_vehicle_to_route-Serves fleet db_two planner 8 4 (at 22) db_doubled false assigns

abbrev his : DriverRow
his = record { driver_id = 5; vendor_id = 2; is_active = true }

pairs : ready_pair fleet 1 second_going.assigned_vendor_id 4 ≡ ok (vehicle, his)
unfolding ready_pair
pairs = refl

has_rested : MayServe db_two planner 5 (at 22)
unfolding check_rest clipped trips_of judge max_of gaps_from merge sort_by total_minutes
has_rested = inl refl

assign_vehicle_to_route_doubles_example :
    (db' : Db) × (warned : Bool) × (assign_vehicle_to_route fleet db_two planner 8 4 (at 22)
      ≡ ok (db', warned))
    × ¬ IsExclusive db'.routes
assign_vehicle_to_route_doubles_example =
    assign_vehicle_to_route_doubles fleet db_two planner 8 4 (at 22) second_going going vehicle his
      refl refl refl (inl refl) pairs has_rested here (λ e. omega arith) refl refl refl

small-IsSettled : IsSettled db_small
small-IsSettled r l b here ml mb done e f = absurd (cc)
small-IsSettled r l b (there here) ml mb done e f = absurd (cc)
small-IsSettled r l b (there (there here)) ml mb done e f = absurd (cc)
small-IsSettled r l b (there (there (there here))) here mb done e f = absurd (omega arith)
small-IsSettled r l b (there (there (there here))) (there here) mb done e f = absurd (omega arith)
small-IsSettled r l b (there (there (there here))) (there (there here)) mb done e f =
    absurd (omega arith)
small-IsSettled r l b (there (there (there here))) (there (there (there m))) mb done e f =
    elim m [ ]
small-IsSettled r l b (there (there (there (there m)))) ml mb done e f = elim m [ ]

abbrev events : List PlanningEvent
events =
    plans planner (Planning.merge none (7 ∷ 8 ∷ [])) (at 18)
    ∷ plans planner (Planning.assign_vendor_bulk none (10 ∷ []) 2) (at 18)
    ∷ plans planner (Planning.assign_vehicle 10 4) (at 19)
    ∷ plans planner (Planning.assign_escort none 10 9) (at 19)
    ∷ rides (Event.driver ctx (Request.start_duty 10 (at 20)))
    ∷ plans planner (Planning.delete none 8) (at 20)
    ∷ rides (Event.driver ctx (Request.start_trip 10 11 office (some (codes "17")) (at 21)))
    ∷ rides (Event.driver ctx (Request.mark_no_show 10 12 none (at 21)))
    ∷ plans planner (Planning.create none (12 ∷ []) false) (at 22)
    ∷ plans planner (Planning.delete none 10) (at 23)
    ∷ plans planner (Planning.delete_bulk none 3 10) (at 23)
    ∷ []

run_day-IsSettled_example :
    IsKeyed (run_day taxi garage reg fleet directions taxi db_small events)
    × IsSettled (run_day taxi garage reg fleet directions taxi db_small events)
run_day-IsSettled_example =
    run_day-IsSettled taxi garage reg fleet directions taxi events db_small small-IsKeyed
      small-IsSettled

-- The service of these tests orders all waypoints.
indexes-Elem : (n i k : ℕ) → k < n → Elem (i + k) (indexes i n)
indexes-Elem (suc n) i zero h = subst (λ j. Elem j (indexes i (suc n))) (omega arith) here
indexes-Elem (suc n) i (suc k) h = there (
    subst (λ j. Elem j (indexes (suc i) n)) (omega arith)
      (indexes-Elem n (suc i) k (omega (arith, h))))
indexes-Elem zero i k h = absurd (omega (arith, h))

pub directions-OrdersWaypoints : OrdersWaypoints directions
directions-OrdersWaypoints q answer h i lt =
    let e : record { waypoint_order = indexes 0 (length q.waypoints); legs = half_hour q.waypoints }
        ≡ answer =
      cc in
    subst (λ (a : Directions). Elem i a.waypoint_order) e
      (subst (λ k. Elem k (indexes 0 (length q.waypoints))) (omega arith)
        (indexes-Elem (length q.waypoints) 0 i lt))

abbrev db_made : Db
db_made = record db_small {
  routes =
      db_small.routes
      ++ record (small 10 1) {
        estimated_total_time = some hour;
        ota_grace_minutes = some (pos 5);
        escort_required = false;
        escort_otp = none;
        updated_at = at 18;
      }
        ∷ [];
  links =
      record (link 33 9 13 1) { estimated_pick_up_time = some (codes "21:00") }
      ∷ record (link 34 10 11 1) { estimated_pick_up_time = some (codes "21:00") }
      ∷ record (link 35 10 12 2) { estimated_pick_up_time = some (codes "21:00") }
      ∷ [];
}

makes :
    create_route_from_bookings directions taxi db_small planner none (12 ∷ 11 ∷ []) true (at 18)
    ≡ ok db_made
unfolding create_route_from_bookings with_route generate_drop_route check_drops picked time_text str
makes = refl

create_route_from_bookings-IsMoved_example :
    (tenant_id : ℕ) × (planning_tenant planner none ≡ ok tenant_id)
    × IsMoved db_small db_made tenant_id (12 ∷ 11 ∷ [])
create_route_from_bookings-IsMoved_example =
    create_route_from_bookings-IsMoved directions taxi directions-OrdersWaypoints db_small planner
      none (12 ∷ 11 ∷ []) true (at 18) db_made makes
