-- ===== src/Safety/Escort.antt =====
-- `route_requires_escort` and its helpers (app/utils/otp_utils.py).
pub mod Rules
pub mod Update
use fleet_manager.Prelude.{
  ℕ, ◌-◌, Bool, true, false, not, ◌&&◌, ◌||◌, Option, none, some, List, [], ◌∷◌, map, ltb, ◌==◌,
  if◌then◌else◌, any, filter, find?, length,
}
use fleet_manager.Prelude.Sort.{sort_by}
use fleet_manager.Store.{
  Db, Route, Shift, TenantConfig, Gender, FemaleConstraint, get_booking, get_employee, get_shift,
}
use fleet_manager.Safety.Window.{is_time_in_escort_range}

abbrev pub is_female : Option Gender → Bool
is_female none = false
is_female (some Gender.male) = false
is_female (some Gender.female) = true
is_female (some Gender.other) = false

-- The employee's gender, by the join of `bookings` and `employees`.
unfoldable pub gender_of_booking : Db → ℕ → Option Gender
gender_of_booking db booking_id = elim (get_booking db booking_id) [
  | none ↦ none
  | some b ↦ elim (get_employee db b.employee_id) [ none ↦ none | some e ↦ e.gender ]
]

-- The genders in the order of the stops.
unfoldable pub employee_gender_at_position : List ℕ → Db → List (Option Gender)
employee_gender_at_position booking_ids db = map (gender_of_booking db) booking_ids

unfoldable pub ordered_booking_ids : Db → ℕ → List ℕ
ordered_booking_ids db route_id =
    map (λ l. l.booking_id)
      (sort_by (λ l. l.order_id) (filter (λ l. l.route_id == route_id) db.links))

-- `stops[i]`; out of range no employee is female.
abbrev pub nth : List (Option Gender) → ℕ → Option Gender
nth [] i = none
nth (g ∷ gs) ℕ.zero = g
nth (g ∷ gs) (ℕ.suc i) = nth gs i

-- The tenant's rule, which stands where the shift has no constraint of its own.
unfoldable pub tenant_rule : Option TenantConfig → ℕ → List (Option Gender) → Bool
tenant_rule none shift_time stops = false
tenant_rule (some c) shift_time stops =
    if not c.escort_required_for_women then false else elim c.escort_required_start_time [
      | none ↦ false
      | some start ↦ elim c.escort_required_end_time [
        | none ↦ false
        | some finish ↦
            if is_time_in_escort_range shift_time start finish then any is_female stops else false
      ]
    ]

unfoldable pub shift_rule :
    Option FemaleConstraint → Option TenantConfig → ℕ → List (Option Gender) → Bool
unfolding tenant_rule
shift_rule (some FemaleConstraint.disable) config shift_time stops = false
shift_rule fc config shift_time [] = false
shift_rule (some FemaleConstraint.any_female) config shift_time stops = any is_female stops
shift_rule (some FemaleConstraint.first_last_female) config shift_time stops =
    is_female (nth stops 0) || is_female (nth stops (length stops - 1))
shift_rule (some FemaleConstraint.second_second_last_female) config shift_time stops =
    if ltb (length stops) 2
    then false
    else is_female (nth stops 1) || is_female (nth stops (length stops - 2))
shift_rule none config shift_time stops = tenant_rule config shift_time stops

abbrev is_route : ℕ → ℕ → Route → Bool
is_route route_id tenant_id r = r.route_id == route_id && r.tenant_id == tenant_id

-- `if not route.shift_id: return False`, and the lookup of the shift.
unfoldable pub shift_of_key : Db → Option ℕ → Option Shift
shift_of_key db none = none
shift_of_key db (some ℕ.zero) = none
shift_of_key db (some (ℕ.suc k)) = get_shift db (ℕ.suc k)

abbrev pub key_of_route : Option Route → Option ℕ
key_of_route none = none
key_of_route (some r) = r.shift_id

-- The shift of the route, if there is a route and it has one.
unfoldable pub shift_of_route : Db → ℕ → ℕ → Option Shift
shift_of_route db route_id tenant_id =
    shift_of_key db (key_of_route (find? (is_route route_id tenant_id) db.routes))

abbrev pub stops_of : Db → ℕ → List (Option Gender)
stops_of db route_id = employee_gender_at_position (ordered_booking_ids db route_id) db

unfoldable pub escort_for_shift : Db → Option TenantConfig → ℕ → Option Shift → Bool
escort_for_shift db config route_id none = false
escort_for_shift db config route_id (some s) =
    shift_rule s.female_constraint config s.shift_time (stops_of db route_id)

-- `safety_config` is what `get_tenant_config_with_cache` returns. An unexpected exception, which
-- makes the answer False, is not modelled.
unfoldable pub route_requires_escort : Db → Option TenantConfig → ℕ → ℕ → Bool
unfolding escort_for_shift shift_of_route
route_requires_escort db safety_config route_id tenant_id =
    escort_for_shift db safety_config route_id (shift_of_route db route_id tenant_id)

-- The row update, and the value returned.
unfoldable pub update_route_escort_requirement : Db → Option TenantConfig → ℕ → ℕ → Db × Bool
update_route_escort_requirement db safety_config route_id tenant_id =
    let requires_escort = route_requires_escort db safety_config route_id tenant_id in
    (
      record db {
        routes =
            map
              (λ (r : Route).
                if is_route route_id tenant_id r
                then record r { escort_required = requires_escort }
                else r)
              db.routes;
      },
      requires_escort,
    )
