-- ===== src/Safety/DarkHour.antt =====
-- app/services/dark_hour_boarding_service.py
use fleet_manager.Prelude.{
  ℕ, ◌≡◌, ◌↔◌, Bool, true, false, not, Option, none, some, List, [], ◌∷◌, arith, get_or,
  if◌then◌else◌,
}
use fleet_manager.Prelude.Text.{codes, eq_text, lower}
use fleet_manager.Store.{Text, TenantConfig, DarkHourMode}
use fleet_manager.Safety.Window.{in_dark_window}

pub data Warning : Type 0 where
  dark_hour_no_escort : Warning

-- The `dict` returned; `error_code` holds "DARK_HOUR_NO_ESCORT" or nothing.
pub record Verdict : Type 0 where
  pub is_ok : Bool
  pub warnings : List Warning
  pub error_code : Option Warning

abbrev pub allow : Verdict
allow = record { is_ok = true; warnings = []; error_code = none }

-- `not gender or gender.lower() != "female"`, the other way round
abbrev pub is_female_text : Option Text → Bool
is_female_text none = false
is_female_text (some g) = eq_text (lower g) (codes "female")

-- What the mode makes of a boarding in dark hours with no escort.
abbrev pub apply_mode : DarkHourMode → Verdict
apply_mode DarkHourMode.off = allow
apply_mode DarkHourMode.warn = record {
  is_ok = true;
  warnings = dark_hour_no_escort ∷ [];
  error_code = none;
}
apply_mode DarkHourMode.block = record {
  is_ok = false;
  warnings = [];
  error_code = some dark_hour_no_escort;
}

-- Gates 4 and 5: the window is configured, and the time is in it.
abbrev pub in_configured_window : ℕ → Option ℕ → Option ℕ → Bool
in_configured_window now (some start) (some finish) = in_dark_window now start finish
in_configured_window now (some start) none = false
in_configured_window now none finish = false

abbrev pub is_off : DarkHourMode → Bool
is_off DarkHourMode.off = true
is_off DarkHourMode.warn = false
is_off DarkHourMode.block = false

unfoldable pub check_dark_hour_boarding : Option Text → Bool → TenantConfig → ℕ → Verdict
check_dark_hour_boarding gender escort_present_and_boarded cfg now_time =
    let mode = get_or cfg.dark_hour_boarding_mode DarkHourMode.off in
    if is_off mode
    then allow
    else if not (is_female_text gender)
    then allow
    else if not cfg.escort_required_for_women
    then allow
    else if not (in_configured_window now_time start finish)
    then allow
    else if escort_present_and_boarded
    then allow
    else apply_mode mode
  where
    open cfg use {escort_required_start_time as start, escort_required_end_time as finish}

-- A woman boards in the tenant's dark window, where it wants escorts, and none is on board.
abbrev pub IsAtRisk : Option Text → Bool → TenantConfig → ℕ → Type 0
IsAtRisk gender escorted cfg now =
    (is_female_text gender ≡ true)
    × (cfg.escort_required_for_women ≡ true)
    × (in_configured_window now cfg.escort_required_start_time cfg.escort_required_end_time ≡ true)
    × (escorted ≡ false)

-- Boarding is refused exactly when the mode is `block` and the employee is at risk.
pub check_dark_hour_boarding-refuses :
    (gender : Option Text) (escorted : Bool) (cfg : TenantConfig) (now : ℕ)
    → ((check_dark_hour_boarding gender escorted cfg now).is_ok ≡ false)
      ↔ ((cfg.dark_hour_boarding_mode ≡ some DarkHourMode.block) × IsAtRisk gender escorted cfg now)
unfolding check_dark_hour_boarding
check_dark_hour_boarding-refuses gender escorted cfg now = ground arith

-- A warning is given exactly when the mode is `warn` and the employee is at risk.
pub check_dark_hour_boarding-warns :
    (gender : Option Text) (escorted : Bool) (cfg : TenantConfig) (now : ℕ)
    → ((check_dark_hour_boarding gender escorted cfg now).warnings ≡ dark_hour_no_escort ∷ [])
      ↔ ((cfg.dark_hour_boarding_mode ≡ some DarkHourMode.warn) × IsAtRisk gender escorted cfg now)
unfolding check_dark_hour_boarding
check_dark_hour_boarding-warns gender escorted cfg now = ground arith
