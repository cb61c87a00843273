-- ===== src/Tests/Safety.antt =====
-- Escorts, dark hours and codes on the night shift.
use fleet_manager.Prelude.{
  ℕ, ◌*◌, ◌≡◌, refl, ◌↔◌, ◌≢◌, true, false, some, [], ◌∷◌, arith, ◌==◌, ltb, if◌then◌else◌, any,
  filter, All, length,
}
use fleet_manager.Prelude.Text.{codes}
use fleet_manager.Prelude.Sort.{sort_by}
use fleet_manager.Store.{Shift, FemaleConstraint, DarkHourMode, TenantConfig}
use fleet_manager.Safety.Window.{
  is_time_in_escort_range, in_dark_window, in_dark_window-eq-is_time_in_escort_range,
}
use fleet_manager.Safety.DarkHour.{
  check_dark_hour_boarding, IsAtRisk, check_dark_hour_boarding-refuses,
}
use fleet_manager.Safety.Otp.{get_required_otp_count, codes_from, generate_otp_codes, LogType}
use fleet_manager.Safety.Otp.Codes.{IsFourDigit, generate_otp_codes-IsFourDigit}
use fleet_manager.Safety.Escort.{
  is_female, gender_of_booking, shift_of_key, shift_of_route, escort_for_shift,
  route_requires_escort, shift_rule, employee_gender_at_position, ordered_booking_ids,
}
use fleet_manager.Safety.Escort.Rules.{
  route_requires_escort-female, route_requires_escort-any_female,
}
use fleet_manager.Tests.Night.{hour, db, config, shift}

check_dark_hour_boarding-refuses_example :
    ((check_dark_hour_boarding (some (codes "FEMALE")) false config (5 * hour)).is_ok ≡ false) ↔ (
      (config.dark_hour_boarding_mode ≡ some DarkHourMode.block)
      × IsAtRisk (some (codes "FEMALE")) false config (5 * hour))
check_dark_hour_boarding-refuses_example =
    check_dark_hour_boarding-refuses (some (codes "FEMALE")) false config (5 * hour)

abbrev warning : TenantConfig
warning = record config { dark_hour_boarding_mode = some DarkHourMode.warn }

in_dark_window-eq-is_time_in_escort_range_example :
    in_dark_window (6 * hour) (6 * hour) (6 * hour)
    ≡ is_time_in_escort_range (6 * hour) (6 * hour) (6 * hour)
in_dark_window-eq-is_time_in_escort_range_example =
    in_dark_window-eq-is_time_in_escort_range (6 * hour) (6 * hour) (6 * hour)

shift_found : shift_of_route db 7 1 ≡ some shift
unfolding shift_of_route shift_of_key
shift_found = refl

escort_needed : route_requires_escort db (some config) 7 1 ≡ true
unfolding route_requires_escort escort_for_shift shift_of_route shift_of_key shift_rule
    employee_gender_at_position ordered_booking_ids gender_of_booking sort_by
escort_needed = refl

route_requires_escort-female_example :
    (s : Shift) × (shift_of_route db 7 1 ≡ some s)
    × (s.female_constraint ≢ some FemaleConstraint.disable)
    × (any
          (λ l. is_female (gender_of_booking db l.booking_id))
          (filter (λ l. l.route_id == 7) db.links)
        ≡ true)
route_requires_escort-female_example =
    route_requires_escort-female db (some config) 7 1 escort_needed

route_requires_escort-any_female_example :
    route_requires_escort db (some config) 7 1
    ≡ any
        (λ l. is_female (gender_of_booking db l.booking_id))
        (filter (λ l. l.route_id == 7) db.links)
route_requires_escort-any_female_example =
    route_requires_escort-any_female db (some config) 7 1 shift shift_found refl

-- The source of the tests: the index, while it is in range.
abbrev counter : ℕ → ℕ → ℕ
counter i n = if ltb i n then i else 0

two_codes :
    generate_otp_codes counter (get_required_otp_count LogType.logout (some config))
    ≡ 1000 ∷ 1001 ∷ []
unfolding generate_otp_codes codes_from get_required_otp_count
two_codes = refl

generate_otp_codes-IsFourDigit_example :
    All IsFourDigit (generate_otp_codes counter 2) × (length (generate_otp_codes counter 2) ≡ 2)
generate_otp_codes-IsFourDigit_example =
    generate_otp_codes-IsFourDigit counter (λ i n h. ground arith) 2
