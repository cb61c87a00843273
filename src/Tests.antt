-- ===== src/Tests.antt =====
-- Scenarios and tests: one night shift of a tenant, in the driver app
-- (app/routes/app_driver_router.py) and in the services that it uses.
mod Night
mod Trip
mod Safety
mod Times
mod Bills
mod Mixed
mod Geofence
mod Stale
mod Bookings
mod Routes
mod Reworks
mod Sessions
