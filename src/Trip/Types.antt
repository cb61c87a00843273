-- ===== src/Trip/Types.antt =====
-- What a request to the driver app carries and what comes of it
-- (app/routes/app_driver_router.py): the raised errors by their error codes, the tasks left to run
-- in the background, and the replies.
use fleet_manager.Prelude.{ℕ, Bool, ◌==◌, Option, List}
use fleet_manager.Prelude.Result.{Result}
use fleet_manager.Store.{Text, Db, RouteStatus, BookingStatus, RouteManagementBooking, Booking}
use fleet_manager.Safety.DarkHour.{Warning}

-- What `DriverAuth` returns.
pub record Driver : Type 0 where
  pub tenant_id : ℕ
  pub driver_id : ℕ

pub data OtpType : Type 0 where
  boarding deboarding : OtpType

pub data LocationType : Type 0 where
  pickup drop : LocationType

pub data HttpError : Type 0 where
  route_not_found : HttpError
  invalid_route_state : RouteStatus → HttpError
  driver_has_ongoing_route : ℕ → HttpError
  route_not_ongoing : RouteStatus → HttpError
  no_escort_assigned : HttpError
  escort_otp_not_generated : HttpError
  invalid_escort_otp : HttpError
  escort_not_boarded : HttpError
  booking_not_in_route : HttpError
  booking_not_found : HttpError
  previous_bookings_pending : ℕ → HttpError
  driver_too_far_from : LocationType → HttpError
  dark_hour_boarding_blocked : HttpError
  booking_not_boardable : BookingStatus → HttpError
  invalid_otp : OtpType → HttpError
  invalid_booking_state : BookingStatus → HttpError
  pending_bookings_exist : ℕ → HttpError

pub data Task : Type 0 where
  initialize_firebase_node : ℕ → Task
  send_duty_start_notifications : ℕ → Task
  send_onboard_notification : ℕ → ℕ → Task
  send_no_show_notification : ℕ → Text → Task
  send_drop_completion_notification : ℕ → ℕ → Task
  clear_firebase_location : Task

-- The next stop is served from these two rows.
abbrev pub NextStop : Type 0
NextStop = Option (RouteManagementBooking × Booking)

pub data Reply : Type 0 where
  duty_already_started duty_started : Reply
  escort_already_boarded escort_boarded : Reply
  trip_started : NextStop → List Warning → Reply
  no_show_marked : NextStop → Reply
  already_dropped dropped : Reply
  route_already_completed duty_ended : Reply

-- A handler commits and replies, or raises: then nothing is committed, and the tasks that it has
-- queued are dropped with the response that would have run them.
abbrev pub Outcome : Type 0
Outcome = Result HttpError (Db × List Task × Reply)

abbrev rank_route : RouteStatus → ℕ
rank_route RouteStatus.planned = 0
rank_route RouteStatus.vendor_assigned = 1
rank_route RouteStatus.driver_assigned = 2
rank_route RouteStatus.ongoing = 3
rank_route RouteStatus.completed = 4
rank_route RouteStatus.cancelled = 5

-- `==` of the two enums
abbrev pub eq_route_status : RouteStatus → RouteStatus → Bool
eq_route_status s t = rank_route s == rank_route t

abbrev rank_booking : BookingStatus → ℕ
rank_booking BookingStatus.request = 0
rank_booking BookingStatus.scheduled = 1
rank_booking BookingStatus.ongoing = 2
rank_booking BookingStatus.completed = 3
rank_booking BookingStatus.cancelled = 4
rank_booking BookingStatus.no_show = 5
rank_booking BookingStatus.expired = 6

abbrev pub eq_booking_status : BookingStatus → BookingStatus → Bool
eq_booking_status s t = rank_booking s == rank_booking t
