-- ===== src/Routes/Day.antt =====
-- Planners, drivers and employees in one series of requests, in the order in which the server takes
-- them (app/routes/route_management.py, app/routes/app_driver_router.py and
-- app/routes/app_employee_router.py).
use fleet_manager.Prelude.{ℕ, Bool, ◌≡◌, refl, Option, List, [], ◌∷◌}
use fleet_manager.Prelude.Result.{Result, ok, err}
use fleet_manager.Store.{Db, Point}
use fleet_manager.Trip.Completion.{IsKeyed, IsSettled, Good}
use fleet_manager.Employee.{Garage}
use fleet_manager.Employee.Mixed.{Event, take_event, take_event-Good}
use fleet_manager.Bookings.{Registry}
use fleet_manager.Routes.{RouteError, Planner}
use fleet_manager.Routes.Build.{create_route_from_bookings, merge_routes, delete_route}
use fleet_manager.Routes.Assign.{
  Fleet, assign_vendor_to_route, assign_vendor_to_routes_bulk, assign_vehicle_to_route,
  assign_escort_to_route,
}
use fleet_manager.Routes.Rework.{bulk_delete_routes}
use fleet_manager.Routes.Optimal.{Query, Directions}
use fleet_manager.Routes.Handlers.{
  create_route_from_bookings-Good, merge_routes-Good, delete_route-Good, bulk_delete_routes-Good,
}
use fleet_manager.Routes.Kept.{
  assign_vendor_to_route-Good, assign_vendor_to_routes_bulk-Good, assign_escort_to_route-Good,
}
use fleet_manager.Routes.Served.{assign_vehicle_to_route-Good}

pub data Planning : Type 0 where
  create : Option ℕ → List ℕ → Bool → Planning
  merge : Option ℕ → List ℕ → Planning
  delete : Option ℕ → ℕ → Planning
  delete_bulk : Option ℕ → ℕ → ℕ → Planning
  assign_vendor : Option ℕ → ℕ → ℕ → Planning
  assign_vendor_bulk : Option ℕ → List ℕ → ℕ → Planning
  assign_vehicle : ℕ → ℕ → Planning
  assign_escort : Option ℕ → ℕ → ℕ → Planning

pub data PlanningEvent : Type 0 where
  plans : Planner → Planning → ℕ → PlanningEvent
  rides : Event → PlanningEvent

-- The database after a request; a refused one is rolled back.
abbrev pub planned : Db → Result RouteError Db → Db
planned db (ok db') = db'
planned db (err e) = db

abbrev pub planned_with : {A : Type 0} → Db → Result RouteError (Db × A) → Db
planned_with db (ok (db', reply)) = db'
planned_with db (err e) = db

module _ (geodesic : Point → Point → ℕ) (garage : Garage) (reg : Registry) (fleet : Fleet)
    (directions : Query → Option Directions) (haversine : Point → Point → ℕ) where
  -- `now` is in UTC for the rest of drivers, and local where rows are stamped.
  abbrev pub plan : Db → Planner → ℕ → Planning → Db
  plan db user now (Planning.create asked ids optimized) =
      planned db (create_route_from_bookings directions haversine db user asked ids optimized now)
  plan db user now (Planning.merge asked ids) =
      planned db (merge_routes directions haversine db user asked ids now)
  plan db user now (Planning.delete asked id) = planned db (delete_route reg db user asked id now)
  plan db user now (Planning.delete_bulk asked shift_id date) =
      planned_with db (bulk_delete_routes reg db user asked shift_id date now)
  plan db user now (Planning.assign_vendor asked id vendor_id) =
      planned db (assign_vendor_to_route fleet db user asked id vendor_id)
  plan db user now (Planning.assign_vendor_bulk asked ids vendor_id) =
      planned_with db (assign_vendor_to_routes_bulk fleet db user asked ids vendor_id)
  plan db user now (Planning.assign_vehicle id vehicle_id) =
      planned_with db (assign_vehicle_to_route fleet db user id vehicle_id now)
  plan db user now (Planning.assign_escort asked id escort_id) =
      planned db (assign_escort_to_route fleet db user asked id escort_id now)

  abbrev pub take_planning_event : Db → PlanningEvent → Db
  take_planning_event db (plans user planning now) = plan db user now planning
  take_planning_event db (rides event) = take_event geodesic garage db event

  unfoldable pub run_day : Db → List PlanningEvent → Db
  run_day db [] = db
  run_day db (event ∷ events) = run_day (take_planning_event db event) events

planned-Good :
    (db : Db) (o : Result RouteError Db)
    → ((db' : Db) → o ≡ ok db' → Good db → Good db')
    → Good db
    → Good (planned db o)
planned-Good db (ok db') keeps good = keeps db' refl good
planned-Good db (err e) keeps good = good

planned_with-Good :
    {A : Type 0} (db : Db) (o : Result RouteError (Db × A))
    → ((db' : Db) (reply : A) → o ≡ ok (db', reply) → Good db → Good db')
    → Good db
    → Good (planned_with db o)
planned_with-Good db (ok (db', reply)) keeps good = keeps db' reply refl good
planned_with-Good db (err e) keeps good = good

module _ (geodesic : Point → Point → ℕ) (garage : Garage) (reg : Registry) (fleet : Fleet)
    (directions : Query → Option Directions) (haversine : Point → Point → ℕ) where
  plan-Good :
      (db : Db) (user : Planner) (now : ℕ) (planning : Planning)
      → Good db
      → Good (plan geodesic garage reg fleet directions haversine db user now planning)
  plan-Good db user now (Planning.create asked ids optimized) good =
      planned-Good db _
        (λ d h g.
          create_route_from_bookings-Good directions haversine db user asked ids optimized now d h
            g)
        good
  plan-Good db user now (Planning.merge asked ids) good =
      planned-Good db _
        (λ d h g. merge_routes-Good directions haversine db user asked ids now d h g) good
  plan-Good db user now (Planning.delete asked id) good =
      planned-Good db _ (λ d h g. delete_route-Good reg db user asked id now d h g) good
  plan-Good db user now (Planning.delete_bulk asked shift_id date) good =
      planned_with-Good db _
        (λ d r h g. bulk_delete_routes-Good reg db user asked shift_id date now d r h g) good
  plan-Good db user now (Planning.assign_vendor asked id vendor_id) good =
      planned-Good db _
        (λ d h g. assign_vendor_to_route-Good fleet db user asked id vendor_id d h g) good
  plan-Good db user now (Planning.assign_vendor_bulk asked ids vendor_id) good =
      planned_with-Good db _
        (λ d r h g. assign_vendor_to_routes_bulk-Good fleet db user asked ids vendor_id d r h g)
        good
  plan-Good db user now (Planning.assign_vehicle id vehicle_id) good =
      planned_with-Good db _
        (λ d r h g. assign_vehicle_to_route-Good fleet db user id vehicle_id now d r h g) good
  plan-Good db user now (Planning.assign_escort asked id escort_id) good =
      planned-Good db _
        (λ d h g. assign_escort_to_route-Good fleet db user asked id escort_id now d h g) good

  take_planning_event-Good :
      (db : Db) (event : PlanningEvent)
      → Good db
      → Good (take_planning_event geodesic garage reg fleet directions haversine db event)
  take_planning_event-Good db (plans user planning now) good = plan-Good db user now planning good
  take_planning_event-Good db (rides event) good = take_event-Good geodesic garage db event good

  -- Where route ids are keys, each booking is linked to one route only, and every booking of a
  -- completed route is completed, no-show or cancelled, all this still holds after any series of
  -- requests of planners that make, merge, delete and assign routes, of drivers and of scanning
  -- employees, in any order, whatever the road service answers.
  pub run_day-IsSettled :
      (events : List PlanningEvent) (db : Db)
      → IsKeyed db
      → IsSettled db
      → IsKeyed (run_day geodesic garage reg fleet directions haversine db events)
        × IsSettled (run_day geodesic garage reg fleet directions haversine db events)
  unfolding run_day
  run_day-IsSettled [] db keyed settled = (keyed, settled)
  run_day-IsSettled (event ∷ events) db keyed settled =
      let (k, s) = take_planning_event-Good db event (keyed, settled) in
      run_day-IsSettled events
        (take_planning_event geodesic garage reg fleet directions haversine db event) k s
