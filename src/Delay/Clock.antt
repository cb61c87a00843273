-- ===== src/Delay/Clock.antt =====
-- Times of day as texts: `strftime("%H:%M")`, and what `parse_hhmm_to_minutes`
-- (app/utils/delay_tagging.py) uses of `str.strip`, `str.split` and `int`, over ASCII.
use fleet_manager.Prelude.{
  ℕ, ◌+◌, ◌-◌, ◌*◌, ◌/◌, ◌%◌, Bool, true, false, ◌&&◌, ◌||◌, Option, none, some, List, [], ◌∷◌, leb,
  ◌==◌, if◌then◌else◌,
}
use fleet_manager.Prelude.Int.{ℤ, pos, neg, ◌+ℤ◌, ◌*ℤ◌}
use fleet_manager.Store.{Text}
use fleet_manager.Safety.Window.{day}

abbrev pub minute : ℕ
minute = 60_000_000

-- Minutes since midnight of a datetime.
abbrev pub minute_of_day : ℕ → ℕ
minute_of_day now = now % day / minute

abbrev pub two_digits : ℕ → Text → Text
two_digits n rest = (n / 10 + 48) ∷ (n % 10 + 48) ∷ rest

-- `now.strftime("%H:%M")`
unfoldable pub hhmm : ℕ → Text
hhmm now = two_digits (minute_of_day now / 60) (b':' ∷ two_digits (minute_of_day now % 60) [])

abbrev pub is_space : ℕ → Bool
is_space c = (leb 9 c && leb c 13) || (leb 28 c && leb c 32)

abbrev pub strip_left : Text → Text
strip_left [] = []
strip_left (c ∷ s) = let rest = strip_left s in if is_space c then rest else c ∷ s

abbrev pub push_right : ℕ → Text → Text
push_right c [] = if is_space c then [] else c ∷ []
push_right c (d ∷ s) = c ∷ d ∷ s

abbrev pub strip_right : Text → Text
strip_right [] = []
strip_right (c ∷ s) = push_right c (strip_right s)

unfoldable pub strip : Text → Text
strip s = strip_right (strip_left s)

abbrev pub push_part : ℕ → List Text → List Text
push_part c [] = (c ∷ []) ∷ []
push_part c (p ∷ ps) = (c ∷ p) ∷ ps

-- `s.split(":")`, never empty
unfoldable pub split_colon : Text → List Text
split_colon [] = [] ∷ []
split_colon (c ∷ s) = let rest = split_colon s in if c == b':' then [] ∷ rest else push_part c rest

abbrev pub is_digit : ℕ → Bool
is_digit c = leb b'0' c && leb c b'9'

-- The digits of an `int` literal; an underscore may stand between two digits.
unfoldable pub digits_from : ℕ → Bool → Text → Option ℕ
digits_from acc after_digit [] = if after_digit then some acc else none
digits_from acc after_digit (c ∷ s) =
    let more = digits_from (acc * 10 + (c - b'0')) true s in
    let grouped = digits_from acc false s in
    if is_digit c then more else if c == b'_' && after_digit then grouped else none

abbrev pub signed : (ℕ → ℤ) → Option ℕ → Option ℤ
signed sign none = none
signed sign (some n) = some (sign n)

abbrev pub int_of : Text → Option ℤ
int_of [] = none
int_of (c ∷ s) =
    if c == b'-'
    then signed (λ n. neg (pos n)) (digits_from 0 false s)
    else if c == b'+'
    then signed pos (digits_from 0 false s)
    else signed pos (digits_from 0 false (c ∷ s))

-- `int(s)`; `none` is a ValueError.
unfoldable pub parse_int : Text → Option ℤ
unfolding digits_from strip
parse_int s = int_of (strip s)

abbrev pub minutes_of : Option ℤ → Option ℤ → Option ℤ
minutes_of none m = none
minutes_of (some h) none = none
minutes_of (some h) (some m) = some (h *ℤ pos 60 +ℤ m)

abbrev pub minutes_of_parts : List Text → Option ℤ
minutes_of_parts [] = none
minutes_of_parts (h ∷ []) = none
minutes_of_parts (h ∷ m ∷ rest) = minutes_of (parse_int h) (parse_int m)

-- `parse_hhmm_to_minutes`
unfoldable pub parse_hhmm_to_minutes : Option Text → Option ℤ
unfolding parse_int strip split_colon
parse_hhmm_to_minutes none = none
parse_hhmm_to_minutes (some []) = none
parse_hhmm_to_minutes (some (c ∷ s)) = minutes_of_parts (split_colon (strip (c ∷ s)))
