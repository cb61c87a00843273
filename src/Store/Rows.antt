-- ===== src/Store/Rows.antt =====
-- Table rows (app/models/route_management.py, booking.py, shift.py, enums.py, employee.py,
-- tenant_config.py, route_delay_event.py, driver_location_history.py, vehicle.py, vendor.py,
-- tenant.py, cutoff.py, weekoff_config.py, nodal_point.py, user_session.py).
use fleet_manager.Prelude.{ℕ, Bool, Option, List}
use fleet_manager.Prelude.Int.{ℤ}

-- A text, as its code points.
abbrev pub Text : Type 0
Text = List ℕ

pub data RouteStatus : Type 0 where
  planned vendor_assigned driver_assigned ongoing completed cancelled : RouteStatus

pub data BookingStatus : Type 0 where
  request scheduled ongoing completed cancelled no_show expired : BookingStatus

pub data PickupType : Type 0 where
  pickup nodal : PickupType

-- "IN", from home to the office, and "OUT", from the office home.
pub data LogType : Type 0 where
  login logout : LogType

pub data BookingType : Type 0 where
  regular adhoc medical_emergency : BookingType

pub data Gender : Type 0 where
  male female other : Gender

pub data FemaleConstraint : Type 0 where
  first_last_female second_second_last_female any_female disable : FemaleConstraint

pub data DelayType : Type 0 where
  late early on_time : DelayType

pub data DelayCategory : Type 0 where
  no_delay driver_delay employee_delay traffic_delay : DelayCategory

-- The values of `dark_hour_boarding_mode`; `block` is also any text that is none of the others.
pub data DarkHourMode : Type 0 where
  off warn block : DarkHourMode

-- The values of `driver_rest_enforcement`; `warn` is also any text but "block".
pub data RestEnforcement : Type 0 where
  warn block : RestEnforcement

pub record Point : Type 0 where
  pub latitude : ℤ
  pub longitude : ℤ

-- `estimated_total_time` is the `timedelta` that the column's minutes make, and distances are in
-- metres, to which the column's kilometres are rounded.
pub record Route : Type 0 where
  pub route_id : ℕ
  pub tenant_id : ℕ
  pub shift_id : Option ℕ
  pub assigned_vendor_id : Option ℕ
  pub assigned_vehicle_id : Option ℕ
  pub assigned_driver_id : Option ℕ
  pub assigned_escort_id : Option ℕ
  pub escort_required : Bool
  pub escort_otp : Option ℕ
  pub escort_boarded : Bool
  pub status : RouteStatus
  pub estimated_total_time : Option ℕ
  pub actual_total_distance : Option ℕ
  pub actual_start_time : Option ℕ
  pub actual_end_time : Option ℕ
  pub delay_type : Option DelayType
  pub delay_minutes : Option ℤ
  pub delay_tagged_at : Option ℕ
  pub ota_grace_minutes : Option ℤ
  pub is_active : Bool
  pub updated_at : ℕ

pub record RouteManagementBooking : Type 0 where
  pub id : ℕ
  pub route_id : ℕ
  pub booking_id : ℕ
  pub order_id : ℕ
  pub estimated_pick_up_time : Option Text
  pub actual_pick_up_time : Option Text
  pub actual_drop_time : Option Text
  pub geofence_notified_at : Option ℕ

pub record Booking : Type 0 where
  pub booking_id : ℕ
  pub tenant_id : ℕ
  pub employee_id : ℕ
  pub shift_id : Option ℕ
  pub booking_date : ℕ
  pub boarding_otp : Option ℕ
  pub deboarding_otp : Option ℕ
  pub pickup_latitude : Option ℤ
  pub pickup_longitude : Option ℤ
  pub pickup_location : Option ℕ
  pub drop_latitude : Option ℤ
  pub drop_longitude : Option ℤ
  pub drop_location : Option ℕ
  pub nodal_point_id : Option ℕ
  pub status : BookingStatus
  pub booking_type : BookingType
  pub reason : Option Text
  pub updated_at : ℕ

pub record Shift : Type 0 where
  pub shift_id : ℕ
  pub tenant_id : ℕ
  pub log_type : LogType
  pub shift_time : ℕ
  pub pickup_type : Option PickupType
  pub female_constraint : Option FemaleConstraint

pub record Employee : Type 0 where
  pub employee_id : ℕ
  pub tenant_id : ℕ
  pub gender : Option Gender
  pub latitude : Option ℤ
  pub longitude : Option ℤ
  pub address : Option ℕ
  pub is_active : Bool

pub record TenantConfig : Type 0 where
  pub tenant_id : ℕ
  pub escort_required_start_time : Option ℕ
  pub escort_required_end_time : Option ℕ
  pub escort_required_for_women : Bool
  pub login_boarding_otp : Bool
  pub login_deboarding_otp : Bool
  pub logout_boarding_otp : Bool
  pub logout_deboarding_otp : Bool
  pub one_trip_per_shift_enabled : Bool
  pub auto_move_on_conflict : Bool
  pub delay_driver_grace_minutes : Option ℤ
  pub delay_employee_grace_minutes : Option ℤ
  pub dark_hour_boarding_mode : Option DarkHourMode
  pub geofence_arrival_radius_meters : Option ℕ
  pub stale_driver_threshold_minutes : ℕ
  pub driver_max_duty_minutes : ℕ
  pub driver_rest_enforcement : RestEnforcement

pub record RouteDelayEvent : Type 0 where
  pub route_id : ℕ
  pub tenant_id : ℕ
  pub delay_type : DelayType
  pub delay_minutes : ℤ
  pub delay_category : DelayCategory
  pub tagged_at : ℕ

pub record Vendor : Type 0 where
  pub vendor_id : ℕ
  pub tenant_id : ℕ

pub record Vehicle : Type 0 where
  pub vehicle_id : ℕ
  pub vendor_id : ℕ
  pub vehicle_type_id : ℕ
  pub contract_id : Option ℕ
  pub driver_id : Option ℕ
  pub rc_number : ℕ
  pub is_active : Bool

pub record Tenant : Type 0 where
  pub tenant_id : ℕ
  pub latitude : Option ℤ
  pub longitude : Option ℤ
  pub address : Option ℕ

-- The intervals are numbers of microseconds.
pub record Cutoff : Type 0 where
  pub tenant_id : ℕ
  pub booking_login_cutoff : ℕ
  pub cancel_login_cutoff : ℕ
  pub booking_logout_cutoff : ℕ
  pub cancel_logout_cutoff : ℕ
  pub medical_emergency_booking_cutoff : ℕ
  pub adhoc_booking_cutoff : ℕ
  pub allow_adhoc_booking : Bool
  pub allow_medical_emergency_booking : Bool

pub record WeekoffConfig : Type 0 where
  pub employee_id : ℕ
  pub monday : Bool
  pub tuesday : Bool
  pub wednesday : Bool
  pub thursday : Bool
  pub friday : Bool
  pub saturday : Bool
  pub sunday : Bool

pub record NodalPoint : Type 0 where
  pub nodal_point_id : ℕ
  pub name : ℕ
  pub address : Option ℕ
  pub latitude : ℤ
  pub longitude : ℤ
  pub is_active : Bool

pub record EmployeeNodalPoint : Type 0 where
  pub employee_id : ℕ
  pub nodal_point_id : ℕ

-- A row of `driver_location_history`.
pub record Ping : Type 0 where
  pub route_id : ℕ
  pub position : Point
  pub recorded_at : ℕ

pub data UserType : Type 0 where
  admin : UserType
  employee : UserType
  vendor : UserType
  driver : UserType

-- A session of the user; `user_type` is "admin", "employee", "vendor" or "driver".
pub record UserSession : Type 0 where
  pub user_id : ℕ
  pub tenant_id : ℕ
  pub user_type : UserType
  pub has_fcm_token : Bool
  pub is_active : Bool
