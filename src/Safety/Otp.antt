-- ===== src/Safety/Otp.antt =====
-- The OTP counts and codes of app/utils/otp_utils.py. `randbelow` is that of the module `secrets`.
pub mod Codes
use fleet_manager.Prelude.{
  ℕ, zero, suc, ◌+◌, Bool, Option, none, some, List, [], ◌∷◌, if◌then◌else◌,
}
use fleet_manager.Store.{TenantConfig}

-- `shift_log_type`: "IN", "OUT" or any other text.
pub data LogType : Type 0 where
  login logout other : LogType

abbrev flag : Bool → ℕ
flag b = if b then 1 else 0

unfoldable pub get_required_otp_count : LogType → Option TenantConfig → ℕ
get_required_otp_count LogType.login (some c) =
    flag c.login_boarding_otp + flag c.login_deboarding_otp
get_required_otp_count LogType.logout (some c) =
    flag c.logout_boarding_otp + flag c.logout_deboarding_otp
get_required_otp_count LogType.login none = 0
get_required_otp_count LogType.logout none = 0
get_required_otp_count LogType.other c = 0

-- `randbelow i n` is what the i-th call returns.
unfoldable pub codes_from : (ℕ → ℕ → ℕ) → ℕ → ℕ → List ℕ
codes_from randbelow i zero = []
codes_from randbelow i (suc n) = (randbelow i 9000 + 1000) ∷ codes_from randbelow (i + 1) n

unfoldable pub generate_otp_codes : (ℕ → ℕ → ℕ) → ℕ → List ℕ
unfolding codes_from
generate_otp_codes randbelow count = codes_from randbelow 0 count
