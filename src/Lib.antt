-- ===== src/Lib.antt =====
-- Fleet manager: the rules that run a corporate transport service.
--
-- A tenant's employees book rides for a shift; bookings are put on routes; a driver takes a route,
-- boards an escort and the employees, drops them, and ends the duty. The development models the
-- driver app, which moves routes and bookings from state to state, the booking of rides, the planning
-- of routes, device sessions, and the rules that all these consult.
--
-- Store, Store/Rows: the tables that the code reads and writes (app/models/*.py), as lists of
--   rows in a database record. A query is a filter or a search of a list in the order of the
--   table, `order_by` a stable sort, a flush of a changed object the replacement of the row with
--   its primary key.
-- Trip: the driver app (app/routes/app_driver_router.py). Trip/Checks and Trip/Otp hold the
--   guards (`validate_route_for_driver`, `validate_booking_in_route`,
--   `check_previous_bookings_completed`, `validate_driver_location`, `get_next_stop`,
--   `verify_otp`), Trip/Duty the handlers `start_duty`, `board_escort` and `end_duty`, Trip/Ride
--   `start_trip`, `mark_no_show` and `verify_drop_and_complete_route`, Trip/Distance
--   app/services/distance_service.py. A handler maps a database, a driver and the request to what
--   it commits, the background tasks it leaves and its reply, or to the error that it raises.
--   Trip/Machine runs series of requests. Trip/Change describes the steps of the database
--   independently, as a relation; Trip/Accepts relates the handlers to it, Trip/Effect,
--   Trip/Finish, Trip/Exclusive, Trip/Completion and Trip/Settled are about series of steps, and
--   Trip/Boarding and Trip/Status about what boarding and dropping ask for.
-- Bookings: `create_booking`, `bulk_book_all_employees`, `update_booking` and `cancel_booking`
--   (app/routes/booking_router.py) in Bookings/Create, Bookings/Bulk and Bookings/Update. They share
--   the table of bookings with Trip and Employee: Bookings/Series and Bookings/Day are about series
--   of requests, Bookings/Granted, Bookings/Dealt, Bookings/Filled and Bookings/Reopened about
--   single ones, and Bookings/Slots and Bookings/Dates hold their lemmas. A new booking's key is
--   one above all others, as the key sequence of the table gives.
-- Routes: planning (app/routes/route_management.py). Routes/Build holds `create_route_from_bookings`,
--   `merge_routes` and `delete_route`, Routes/Assign `assign_vendor_to_route`,
--   `assign_vendor_to_routes_bulk`, `assign_vehicle_to_route`, which asks Duty for the driver's rest,
--   and `assign_escort_to_route`, Routes/Rework `bulk_delete_routes` and `update_route_bookings`,
--   Routes/Update `update_route`, which applies Enforcement, Routes/Optimal the order of the stops
--   (app/services/optimal_route_generation.py). They write the routes, links and bookings on which
--   Trip works: Routes/Day is about series in which planners, drivers and scanning employees take
--   turns, over the lemmas of Routes/Rebuilt, Routes/Planned, Routes/Handlers and Routes/Kept.
--   Routes/Ordered and Routes/Complete are about the stops of a plan, Routes/Moved, Routes/Served,
--   Routes/Doubled, Routes/Foreign, Routes/Updated (over Routes/Targets and Routes/Restopped) and
--   Routes/Dropped (over Routes/Reworked) about single requests. A new row's key is one above all
--   others. The order in which Python goes through a set is the parameter `iterate` of `update_route`.
-- Employee: boarding at a nodal point (`nodal_qr_scan` in app/routes/app_employee_router.py).
--   Employee/Scan is about one scan, Employee/Mixed about series in which the requests of drivers
--   and the scans of employees alternate at will.
-- Safety: escorts, dark hours and codes. Safety/Escort is `route_requires_escort` and
--   `update_route_escort_requirement` (app/utils/otp_utils.py), Safety/Otp the codes of the same
--   file, Safety/DarkHour is app/services/dark_hour_boarding_service.py, Safety/Window the time
--   windows of both. `start_trip` consults Safety/DarkHour.
-- Duty: the rest check of app/services/driver_duty_hours_service.py.
-- Delay: the OTD tag that `end_duty` writes (app/utils/delay_tagging.py) and its root cause
--   (app/services/delay_classification_service.py). Delay/Clock holds the times of day as texts.
-- Geofence: the arrivals at stops (app/services/geofence_service.py), checked at each position that
--   a driver reports: `run_geofence_check` is `_run_geofence_check`, `track` a series of reports.
-- Stale: the watch over silent drivers (app/services/stale_driver_service.py); `run_check` is
--   `_run_check`, `run_jobs` the job at a series of ticks. Stale/Cooldown is about the map of the
--   last alerts, Stale/Silence about which routes are alerted.
-- Sessions: device sessions and the cached tokens of notifications (`SessionManager` in
--   app/services/session_manager.py, over app/services/session_cache.py). Sessions/Series is about
--   series of requests, over Sessions/Single and Sessions/Registered. Store's `UserSession` is what
--   Stale reads of the same table.
-- Enforcement: one trip per shift (app/utils/trip_enforcement.py).
-- Contract: what a vendor bills. Contract/Slabs is `CRUDContractSlab` (app/crud/contract.py, with
--   the checks of app/schemas/contract.py and the constraints of app/models/contract.py),
--   Contract/Cost app/services/contract_service.py. Contract/Contiguous, Contract/Keys and
--   Contract/Chain are about series of changes of slabs, Contract/Bill, Contract/Monotone and
--   Contract/Access about what a bill amounts to and who sees it. Contract/Cost reads the routes
--   that Trip has completed and measured.
-- Tests: a night shift that is run through the handlers, and the examples.
-- Prelude: results, lists of rows, integers, texts and the stable sort.
--
-- Units: ids, OTPs and texts that are only compared are natural numbers (0 is the empty value,
-- which Python takes for false); a datetime is a number of microseconds in the one time zone of the
-- service, a coordinate a number of 10^-7 degrees, a distance a number of millimetres or metres,
-- a rate a number of 10^-6 units of currency to the kilometre, an amount a number of hundredths.
-- Floating-point rounding of distances and rates is not modelled. geopy's `geodesic`, the distance on
-- the sphere (`haversine`), the Directions service of Google (`directions`) and `secrets.randbelow`
-- are parameters; nothing is assumed of the first two, of the service only where a theorem says so,
-- that it orders all the waypoints it is given, and of the last that it stays in its range.
--
-- Loops are structural recursions, but for the decimal digits of a number (`str` in Trip/Otp): n
-- rounds are enough for n, since each round divides by ten.
--
-- Not modelled: exceptions that the code does not raise itself (a failing database, the handlers of
-- `except Exception`), the work of the background tasks, logging, HTTP and JSON, timestamps that
-- the database fills in on an update, and the other services and screens, such as accounts,
-- permissions, the clustering of bookings into routes, the dispatch of routes, alerts, chats,
-- announcements, reports and caches.
pub mod Prelude
pub mod Store
pub mod Trip
pub mod Safety
pub mod Stale
pub mod Duty
pub mod Delay
pub mod Enforcement
pub mod Contract
pub mod Employee
pub mod Bookings
pub mod Routes
pub mod Sessions
pub mod Geofence
pub mod Tests
