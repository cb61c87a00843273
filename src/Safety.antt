-- ===== src/Safety.antt =====
-- Safety of female employees: the clock window, the escort requirement, boarding in dark hours,
-- and the OTPs (app/utils/otp_utils.py, app/services/dark_hour_boarding_service.py).
pub mod Window
pub mod DarkHour
pub mod Escort
pub mod Otp
