-- ===== src/Bookings/Update.antt =====
-- `update_booking` and `cancel_booking` (app/routes/booking_router.py).
use fleet_manager.Prelude.{
  ℕ, Bool, true, false, ◌&&◌, ◌||◌, Option, none, some, ltb, ◌==◌, if◌then◌else◌, find?, any, not,
}
use fleet_manager.Prelude.Result.{Result, ok, ◌>>=◌, ◌>>◌, raise_if, or_raise}
use fleet_manager.Prelude.Text.{codes}
use fleet_manager.Store.{
  Db, Booking, BookingStatus, BookingType, Shift, LogType, Cutoff, UserType, get_booking, get_shift,
  put_booking,
}
use fleet_manager.Trip.Types.{eq_booking_status}
use fleet_manager.Bookings.{
  BookingError, User, Registry, get_shift_of, get_cutoff, cutoff_interval, shift_datetime,
  is_cut_off, has_started, is_for,
}

abbrev pub is_employee : UserType → Bool
is_employee UserType.admin = false
is_employee UserType.employee = true
is_employee UserType.vendor = false
is_employee UserType.driver = false

-- The booking that the user may update.
abbrev pub updatable : Db → User → ℕ → Option Booking
updatable db user booking_id =
    find?
      (λ b.
        (b.booking_id == booking_id)
        && (b.tenant_id == user.tenant_id)
        && (user.booking_update || b.employee_id == user.user_id))
      db.bookings

-- Without a configuration nothing is asked of the type.
abbrev pub new_interval : BookingType → LogType → Option Cutoff → Result BookingError (Option ℕ)
new_interval booking_type log none = ok none
new_interval booking_type log (some c) = cutoff_interval booking_type log (some c)

-- The checks of the new shift.
unfoldable pub check_shift :
    Registry → Db → User → Booking → ℕ → ℕ → ℕ → Result BookingError (Unit {0})
check_shift reg db user b shift_id today now = do
  shift ← or_raise (get_shift_of db user.tenant_id shift_id) BookingError.shift_not_found
  interval ← new_interval b.booking_type shift.log_type (get_cutoff reg user.tenant_id)
  let start = shift_datetime b.booking_date shift
  raise_if (is_cut_off now start interval) BookingError.booking_cutoff
  raise_if (has_started today now b.booking_date start) BookingError.past_shift_time
  raise_if
      (any
        (λ o.
          is_for b.employee_id b.booking_date shift_id o
          && (o.tenant_id == user.tenant_id)
          && not (o.booking_id == b.booking_id))
        db.bookings)
      BookingError.duplicate_booking

abbrev pub change_shift :
    Registry → Db → User → Booking → Option ℕ → ℕ → ℕ → Result BookingError (Unit {0})
change_shift reg db user b none today now = ok tt
change_shift reg db user b (some shift_id) today now = check_shift reg db user b shift_id today now

abbrev pub moved : Booking → Option ℕ → Booking
moved b none = b
moved b (some shift_id) = record b { shift_id = some shift_id }

abbrev pub is_some_shift : Option ℕ → Bool
is_some_shift none = false
is_some_shift (some k) = true

-- The booking after the update, which stamps it if anything was asked.
abbrev pub updated : Booking → Option ℕ → ℕ → Booking
updated b shift_id now =
    let c = moved b shift_id in
    if eq_booking_status b.status BookingStatus.cancelled
    then record c { status = BookingStatus.request; updated_at = now }
    else if is_some_shift shift_id
    then record c { updated_at = now }
    else c

unfoldable pub update_booking :
    Registry → Db → User → ℕ → Option ℕ → ℕ → ℕ → Result BookingError (Db × Booking)
update_booking reg db user booking_id shift_id today now = do
  raise_if (not (is_employee user.user_type)) BookingError.forbidden
  b ← or_raise (updatable db user booking_id) BookingError.booking_not_found
  raise_if
      (not (
        eq_booking_status b.status BookingStatus.request
        || eq_booking_status b.status BookingStatus.cancelled))
      (BookingError.invalid_booking_status b.status)
  change_shift reg db user b shift_id today now
  ok (put_booking (updated b shift_id now) db, updated b shift_id now)

abbrev pub shift_of_booking : Db → Booking → Option Shift
shift_of_booking db b = elim b.shift_id [ none ↦ none | some k ↦ get_shift db k ]

abbrev pub cancel_interval : LogType → Cutoff → ℕ
cancel_interval LogType.login c = c.cancel_login_cutoff
cancel_interval LogType.logout c = c.cancel_logout_cutoff

-- Whether the time for a cancellation has passed.
abbrev pub is_too_late : Option Shift → Option Cutoff → ℕ → ℕ → Bool
is_too_late none cutoff date now = false
is_too_late (some s) none date now = false
is_too_late (some s) (some c) date now =
    is_cut_off now (shift_datetime date s) (some (cancel_interval s.log_type c))

abbrev pub cancelled : Booking → ℕ → Booking
cancelled b now = record b {
  status = BookingStatus.cancelled;
  reason = some (codes "Cancelled by employee before routing");
  updated_at = now;
}

unfoldable pub cancel_booking :
    Registry → Db → User → ℕ → ℕ → ℕ → Result BookingError (Db × Booking)
cancel_booking reg db user booking_id today now = do
  raise_if (not (is_employee user.user_type)) BookingError.forbidden
  b ← or_raise (get_booking db booking_id) BookingError.booking_not_found
  raise_if (not (b.tenant_id == user.tenant_id)) BookingError.tenant_mismatch
  raise_if (ltb b.booking_date today) BookingError.past_booking
  raise_if (not (eq_booking_status b.status BookingStatus.request))
      BookingError.booking_already_scheduled
  raise_if (is_too_late (shift_of_booking db b) (get_cutoff reg user.tenant_id) b.booking_date now)
      BookingError.cancel_cutoff
  ok (put_booking (cancelled b now) db, cancelled b now)
