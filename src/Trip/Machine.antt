-- ===== src/Trip/Machine.antt =====
-- The driver app as a machine: the requests (app/routes/app_driver_router.py), and the database
-- after one of them or after a series.
use fleet_manager.Prelude.{ℕ, Option, List, [], ◌∷◌}
use fleet_manager.Prelude.Result.{ok, err}
use fleet_manager.Store.{Text, Db, Point}
use fleet_manager.Trip.Types.{Driver, Outcome}
use fleet_manager.Trip.Duty
use fleet_manager.Trip.Ride

pub data Request : Type 0 where
  start_duty : ℕ → ℕ → Request
  board_escort : ℕ → ℕ → Request
  end_duty : ℕ → ℕ → Request
  start_trip : ℕ → ℕ → Point → Option Text → ℕ → Request
  mark_no_show : ℕ → ℕ → Option Text → ℕ → Request
  verify_drop : ℕ → ℕ → Point → Option Text → ℕ → Request

-- The database that the next request sees.
abbrev pub committed : Db → Outcome → Db
committed db (ok (db', tasks, reply)) = db'
committed db (err e) = db

module _ (geodesic : Point → Point → ℕ) where
  unfoldable pub handle : Db → Driver → Request → Outcome
  handle db ctx (Request.start_duty route_id now) = Duty.start_duty db ctx route_id now
  handle db ctx (Request.board_escort route_id otp) = Duty.board_escort db ctx route_id otp
  handle db ctx (Request.end_duty route_id now) = Duty.end_duty geodesic db ctx route_id now
  handle db ctx (Request.start_trip route_id booking_id here otp now) =
      Ride.start_trip geodesic db ctx route_id booking_id here otp now
  handle db ctx (Request.mark_no_show route_id booking_id reason now) =
      Ride.mark_no_show db ctx route_id booking_id reason now
  handle db ctx (Request.verify_drop route_id booking_id here otp now) =
      Ride.verify_drop geodesic db ctx route_id booking_id here otp now

  -- Requests of any drivers, in the order in which the server takes them.
  unfoldable pub serve : Db → List (Driver × Request) → Db
  serve db [] = db
  serve db ((ctx, req) ∷ reqs) = serve (committed db (handle db ctx req)) reqs
