-- ===== src/Safety/Otp/Codes.antt =====
-- What `generate_otp_codes` returns (app/utils/otp_utils.py).
use fleet_manager.Prelude.{ℕ, zero, suc, ◌+◌, ◌≤◌, ◌<◌, ◌≡◌, refl, ap, arith, All, length}
use fleet_manager.Safety.Otp.{codes_from, generate_otp_codes}

abbrev pub IsFourDigit : ℕ → Type 0
IsFourDigit c = (1000 ≤ c) × (c ≤ 9999)

codes_from-IsFourDigit :
    (randbelow : ℕ → ℕ → ℕ)
    → ((i n : ℕ) → 0 < n → randbelow i n < n)
    → (i n : ℕ) → All IsFourDigit (codes_from randbelow i n)
unfolding codes_from
codes_from-IsFourDigit randbelow below i zero = tt
codes_from-IsFourDigit randbelow below i (suc n) =
    (omega (arith, below i 9000 (omega arith)), codes_from-IsFourDigit randbelow below (i + 1) n)

length-codes_from : (randbelow : ℕ → ℕ → ℕ) (i n : ℕ) → length (codes_from randbelow i n) ≡ n
unfolding codes_from
length-codes_from randbelow i zero = refl
length-codes_from randbelow i (suc n) = ap suc (length-codes_from randbelow (i + 1) n)

-- Where `randbelow n` stays below a positive n, as many codes come out as were asked for, each of
-- them between 1000 and 9999.
pub generate_otp_codes-IsFourDigit :
    (randbelow : ℕ → ℕ → ℕ)
    → ((i n : ℕ) → 0 < n → randbelow i n < n)
    → (n : ℕ)
    → All IsFourDigit (generate_otp_codes randbelow n)
      × (length (generate_otp_codes randbelow n) ≡ n)
unfolding generate_otp_codes
generate_otp_codes-IsFourDigit randbelow below n =
    (codes_from-IsFourDigit randbelow below 0 n, length-codes_from randbelow 0 n)
