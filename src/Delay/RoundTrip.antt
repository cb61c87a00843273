-- ===== src/Delay/RoundTrip.antt =====
-- Reading the stop times that the driver app writes (`strftime("%H:%M")` in
-- app/routes/app_driver_router.py, `parse_hhmm_to_minutes` in app/utils/delay_tagging.py).
use fleet_manager.Prelude.{ℕ, ◌+◌, ◌-◌, ◌*◌, ◌/◌, ◌%◌, ◌≤◌, ◌≡◌, ap, ◌∙◌, some, [], ◌∷◌, arith}
use fleet_manager.Prelude.Int.{pos, ◌+ℤ◌, ◌*ℤ◌}
use fleet_manager.Store.{Text}
use fleet_manager.Delay.Clock.{
  minute_of_day, hhmm, strip, split_colon, parse_int, parse_hhmm_to_minutes,
}

abbrev IsDigit : ℕ → Type 0
IsDigit c = (48 ≤ c) × (c ≤ 57)

module _ {a b c d : ℕ} (ha : IsDigit a) (hb : IsDigit b) (hc : IsDigit c) (hd : IsDigit d) where
  abbrev clock_text : Text
  clock_text = a ∷ b ∷ 58 ∷ c ∷ d ∷ []

  strip-clock_text : strip clock_text ≡ clock_text
  unfolding strip
  strip-clock_text = ground arith

  split_colon-clock_text : split_colon clock_text ≡ (a ∷ b ∷ []) ∷ (c ∷ d ∷ []) ∷ []
  unfolding split_colon
  split_colon-clock_text = ground arith

parse_int-two_digits :
    (a b : ℕ)
    → IsDigit a
    → IsDigit b
    → parse_int (a ∷ b ∷ []) ≡ some (pos ((a - 48) * 10 + (b - 48)))
unfolding parse_int
parse_int-two_digits a b ha hb = ground arith

parse-clock_text :
    (a b c d : ℕ)
    → IsDigit a
    → IsDigit b
    → IsDigit c
    → IsDigit d
    → parse_hhmm_to_minutes (some (a ∷ b ∷ 58 ∷ c ∷ d ∷ []))
      ≡ some (pos ((((a - 48) * 10 + (b - 48)) * 60 + ((c - 48) * 10 + (d - 48)))))
unfolding parse_hhmm_to_minutes ◌+ℤ◌ ◌*ℤ◌
parse-clock_text a b c d ha hb hc hd = rw (strip-clock_text ha hb hc hd) (
    rw (split_colon-clock_text ha hb hc hd)
      (rw (parse_int-two_digits a b ha hb) (rw (parse_int-two_digits c d hc hd) (ground arith))))

-- A time written by the driver app is read back as its minutes since midnight.
pub parse_hhmm_to_minutes-hhmm :
    (now : ℕ) → parse_hhmm_to_minutes (some (hhmm now)) ≡ some (pos (minute_of_day now))
unfolding hhmm
parse_hhmm_to_minutes-hhmm now =
    let m : ℕ = minute_of_day now in
    parse-clock_text (m / 60 / 10 + 48) (m / 60 % 10 + 48) (m % 60 / 10 + 48) (m % 60 % 10 + 48)
      (omega arith) (omega arith) (omega arith) (omega arith)
    ∙ ap (λ (n : ℕ). some (pos n)) (omega arith)
