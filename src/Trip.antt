-- ===== src/Trip.antt =====
-- The driver app (app/routes/app_driver_router.py): duty, boarding, no-show, drop.
pub mod Types
pub mod Otp
pub mod Checks
pub mod Duty
pub mod Ride
pub mod Distance
pub mod Machine
pub mod Change
pub mod Accepts
pub mod Finish
pub mod Effect
pub mod Exclusive
pub mod Completion
pub mod Settled
pub mod Boarding
pub mod Status
