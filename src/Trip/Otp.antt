-- ===== src/Trip/Otp.antt =====
-- `verify_otp` (app/routes/app_driver_router.py): a stored code against the text that was typed.
use fleet_manager.Prelude.{
  ℕ, zero, suc, ◌+◌, ◌/◌, ◌%◌, ◌≡◌, ◌↔◌, Option, none, some, [], ◌∷◌, arith, ltb, if◌then◌else◌,
  not,
}
use fleet_manager.Prelude.Result.{Result, ok, raise_if}
use fleet_manager.Prelude.Text.{codes, eq_text, eq_text_iff}
use fleet_manager.Store.{Text}
use fleet_manager.Trip.Types.{OtpType, HttpError, invalid_otp}

-- The decimal digits of a number before `rest`; n rounds are enough.
abbrev pub digits_of : ℕ → ℕ → Text → Text
digits_of zero n rest = (n % 10 + 48) ∷ rest
digits_of (suc f) n rest =
    let more = digits_of f (n / 10) ((n % 10 + 48) ∷ rest) in
    if ltb n 10 then (n + 48) ∷ rest else more

-- `str(n)`
unfoldable pub str : ℕ → Text
str n = digits_of n n []

-- `str(s)` of an optional text
abbrev pub str_of_text : Option Text → Text
str_of_text none = codes "None"
str_of_text (some s) = s

unfoldable pub verify_otp : Option ℕ → Option Text → OtpType → Result HttpError (Unit {0})
verify_otp none provided_otp otp_type = ok tt
verify_otp (some zero) provided_otp otp_type = ok tt
verify_otp (some (suc n)) provided_otp otp_type =
    raise_if (not (eq_text (str (suc n)) (str_of_text provided_otp))) (invalid_otp otp_type)

-- A positive stored code is accepted exactly if its decimal digits were typed.
pub verify_otp-ok :
    (n : ℕ) (provided : Option Text) (t : OtpType)
    → (verify_otp (some (suc n)) provided t ≡ ok tt) ↔ (str (suc n) ≡ str_of_text provided)
unfolding verify_otp
verify_otp-ok n provided t = ground (arith, eq_text_iff (str (suc n)) (str_of_text provided))
