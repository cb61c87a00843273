-- ===== src/Stale.antt =====
-- The watch over drivers that send no position (app/services/stale_driver_service.py). A tick of
-- the scheduler sees the database at its time; the map `_last_alert_at` lives from one tick to the
-- next. All times are of one time zone, as in Store; the code reads a time without one as UTC.
-- Pushes and queries that fail are not modelled.
pub mod Cooldown
pub mod Silence
use fleet_manager.Prelude.{
  ℕ, ◌+◌, ◌*◌, max, Bool, true, false, ◌&&◌, Option, none, some, List, [], ◌∷◌, ◌++◌, map, not, ltb,
  ◌==◌, if◌then◌else◌, filter,
}
use fleet_manager.Store.{
  Db, Route, RouteStatus, Ping, TenantConfig, UserSession, UserType, get_config,
}
use fleet_manager.Trip.Types.{eq_route_status}

abbrev pub minute : ℕ
minute = 60_000_000

-- `_ALERT_COOLDOWN_MINUTES`
abbrev pub cooldown : ℕ
cooldown = 10 * minute

-- An entry of `_last_alert_at`; the first with its key counts.
pub record Stamp : Type 0 where
  pub route_id : ℕ
  pub at : ℕ

abbrev pub last_alert_at : List Stamp → ℕ → Option ℕ
last_alert_at [] id = none
last_alert_at (s ∷ stamps) id = if s.route_id == id then some s.at else last_alert_at stamps id

-- What `_alert_admins` sends: a push to each of the users.
pub record Alert : Type 0 where
  pub route_id : ℕ
  pub at : ℕ
  pub users : List ℕ

-- `threshold_map.get(...)` in minutes; 0 is false in Python.
abbrev pub threshold_of : Option TenantConfig → ℕ
threshold_of none = 5
threshold_of (some config) =
    if config.stale_driver_threshold_minutes == 0 then 5 else config.stale_driver_threshold_minutes

abbrev later : ℕ → Option ℕ → Option ℕ
later t none = some t
later t (some u) = some (max t u)

abbrev pub last_ping : List Ping → ℕ → Option ℕ
last_ping [] id = none
last_ping (p ∷ pings) id =
    let rest = last_ping pings id in if p.route_id == id then later p.recorded_at rest else rest

-- The time from which the route's silence counts.
abbrev pub silent_since : Db → Route → Option ℕ
silent_since db route = elim (last_ping db.pings route.route_id) [
  | none ↦ route.actual_start_time
  | some t ↦ some t
]

-- `t + length ≤ now`, for a time that may be missing.
abbrev pub is_past : ℕ → ℕ → Option ℕ → Bool
is_past now length none = false
is_past now length (some t) = not (ltb now (t + length))

abbrev pub is_cooling : ℕ → Option ℕ → Bool
is_cooling now none = false
is_cooling now (some t) = ltb now (t + cooldown)

abbrev pub is_silent : Db → ℕ → Route → Bool
is_silent db now route =
    is_past now (threshold_of (get_config db route.tenant_id) * minute) (silent_since db route)

abbrev pub is_ongoing : Route → Bool
is_ongoing r = eq_route_status r.status RouteStatus.ongoing

abbrev pub is_stale : Db → List Stamp → ℕ → Route → Bool
is_stale db stamps now route =
    is_silent db now route && not (is_cooling now (last_alert_at stamps route.route_id))

abbrev pub stale_routes : Db → List Stamp → ℕ → List Route
stale_routes db stamps now = filter (is_stale db stamps now) (filter is_ongoing db.routes)

abbrev is_admin : UserType → Bool
is_admin UserType.admin = true
is_admin UserType.employee = false
is_admin UserType.vendor = false
is_admin UserType.driver = false

abbrev pub admins_of : Db → ℕ → List ℕ
admins_of db tenant_id =
    map (λ s. s.user_id)
      (filter
        (λ s. s.tenant_id == tenant_id && is_admin s.user_type && s.is_active && s.has_fcm_token)
        db.user_sessions)

abbrev pub alert_of : Db → ℕ → Route → Alert
alert_of db now r = record { route_id = r.route_id; at = now; users = admins_of db r.tenant_id }

abbrev pub stamped : List Stamp → ℕ → ℕ → List Stamp
stamped stamps id now = record { route_id = id; at = now } ∷ stamps

-- `_alert_admins` for each of the routes.
abbrev pub alert_each : Db → ℕ → List Stamp → List Route → List Stamp × List Alert
alert_each db now stamps [] = (stamps, [])
alert_each db now stamps (r ∷ rs) =
    let rest = alert_each db now (stamped stamps r.route_id now) rs in
    (rest.0, alert_of db now r ∷ rest.1)

unfoldable pub run_check : List Stamp → Db → ℕ → List Stamp × List Alert
run_check stamps db now = alert_each db now stamps (stale_routes db stamps now)

-- The job at each tick, with the database and the time that it finds.
unfoldable pub run_jobs : List Stamp → List (Db × ℕ) → List Alert
run_jobs stamps [] = []
run_jobs stamps ((db, now) ∷ ticks) =
    let step = run_check stamps db now in let rest = run_jobs step.0 ticks in step.1 ++ rest
