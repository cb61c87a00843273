-- ===== src/Delay.antt =====
-- OTD delay tagging of a finished route and its root cause (app/utils/delay_tagging.py and
-- app/services/delay_classification_service.py). The defaults on an unexpected exception are not
-- modelled.
mod Clock
pub mod RoundTrip
pub mod Grace
pub mod Cause
pub use Clock.{hhmm, minute, minute_of_day, parse_hhmm_to_minutes, is_digit}
unfoldable pub use Clock.{split_colon}
use fleet_manager.Prelude.{
  ℕ, ◌+◌, Bool, true, false, Option, none, some, List, [], ◌∷◌, ◌==◌, if◌then◌else◌, get_or, any,
  filter,
}
use fleet_manager.Prelude.Int.{ℤ, pos, neg, sub_ℕ, ◌-ℤ◌, ltb_ℤ, round_div_ℤ}
use fleet_manager.Prelude.Sort.{sort_by}
use fleet_manager.Store.{
  Text, Db, Route, RouteManagementBooking, TenantConfig, DelayType, DelayCategory, get_config,
}

abbrev pub difference : Option ℤ → Option ℤ → Option ℤ
difference none act = none
difference (some est) none = none
difference (some est) (some act) = some (act -ℤ est)

-- `_stop_delay_minutes`
unfoldable pub stop_delay_minutes : RouteManagementBooking → Option ℤ
stop_delay_minutes rb =
    difference (parse_hhmm_to_minutes rb.estimated_pick_up_time)
      (parse_hhmm_to_minutes rb.actual_pick_up_time)

abbrev pub is_over : ℤ → Option ℤ → Bool
is_over grace none = false
is_over grace (some delay) = ltb_ℤ grace delay

-- The stops of a late route in their order.
unfoldable pub classify_stops : List RouteManagementBooking → ℤ → ℤ → DelayCategory
classify_stops [] driver_grace employee_grace = DelayCategory.traffic_delay
classify_stops (first ∷ rest) driver_grace employee_grace =
    if is_over driver_grace (stop_delay_minutes first)
    then DelayCategory.driver_delay
    else if any (λ rb. is_over employee_grace (stop_delay_minutes rb)) (first ∷ rest)
    then DelayCategory.employee_delay
    else DelayCategory.traffic_delay

unfoldable pub stops_of_route : Db → ℕ → List RouteManagementBooking
stops_of_route db route_id =
    sort_by (λ l. l.order_id) (filter (λ l. l.route_id == route_id) db.links)

-- `_classify`
unfoldable pub classify_delay_category : Db → ℕ → DelayType → ℤ → ℤ → DelayCategory
classify_delay_category db route_id DelayType.on_time driver_grace employee_grace =
    DelayCategory.no_delay
classify_delay_category db route_id DelayType.early driver_grace employee_grace =
    DelayCategory.no_delay
classify_delay_category db route_id DelayType.late driver_grace employee_grace =
    classify_stops (stops_of_route db route_id) driver_grace employee_grace

abbrev pub driver_grace_of : Option TenantConfig → ℤ
driver_grace_of none = pos 10
driver_grace_of (some c) = get_or c.delay_driver_grace_minutes (pos 10)

abbrev pub employee_grace_of : Option TenantConfig → ℤ
employee_grace_of none = pos 5
employee_grace_of (some c) = get_or c.delay_employee_grace_minutes (pos 5)

-- `_resolve_delay_category`
unfoldable pub resolve_delay_category : Db → Route → DelayType → DelayCategory
unfolding classify_delay_category
resolve_delay_category db route delay_type =
    let config = get_config db route.tenant_id in
    classify_delay_category db route.route_id delay_type (driver_grace_of config)
      (employee_grace_of config)

-- How late the route ended, in microseconds.
abbrev pub lateness : ℕ → ℕ → ℕ → ℤ
lateness start total finish = sub_ℕ finish (start + total)

unfoldable pub delay_type_of : ℤ → ℤ → DelayType
delay_type_of delay_minutes grace =
    if ltb_ℤ grace delay_minutes
    then DelayType.late
    else if ltb_ℤ delay_minutes (neg grace)
    then DelayType.early
    else DelayType.on_time

-- The body of `tag_trip_delay` behind its guards. The changed route is returned.
unfoldable pub tag_with : Db → Route → ℕ → ℕ → ℕ → Db × Route
unfolding delay_type_of
tag_with db route now start total =
    let delay_minutes =
      round_div_ℤ (lateness start total (get_or route.actual_end_time now)) minute in
    let delay_type = delay_type_of delay_minutes (get_or route.ota_grace_minutes (pos 5)) in
    let route' = record route {
      delay_type = some delay_type;
      delay_minutes = some delay_minutes;
      delay_tagged_at = some now;
    } in
    (
      record db {
        delay_events =
            record {
              route_id = route.route_id;
              tenant_id = route.tenant_id;
              delay_type = delay_type;
              delay_minutes = delay_minutes;
              delay_category = resolve_delay_category db route' delay_type;
              tagged_at = now;
            }
            ∷ db.delay_events;
      },
      route',
    )

abbrev pub tag_guarded : Db → Route → ℕ → Option ℕ → Option ℕ → Db × Route
tag_guarded db route now none total = (db, route)
tag_guarded db route now (some start) none = (db, route)
tag_guarded db route now (some start) (some total) = tag_with db route now start total

unfoldable pub tag_trip_delay : Db → Route → ℕ → Db × Route
unfolding tag_with
tag_trip_delay db route now =
    tag_guarded db route now route.actual_start_time route.estimated_total_time
