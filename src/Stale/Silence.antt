-- ===== src/Stale/Silence.antt =====
-- Which routes are alerted (`_run_check` in app/services/stale_driver_service.py).
use fleet_manager.Prelude.{
  ℕ, ◌+◌, ◌*◌, max, ◌≤◌, ◌≡◌, ◌↔◌, refl, sym, subst, ◌≢◌, true, false, Option, none, some, List, [],
  ◌∷◌, arith, ltb, ◌==◌, filter, All, All-Elem, All-of_Elem, Elem, here, there, Elem-cons,
  Elem-filter, Elem-filter_of, Bool-cases, Option-cases, inl, inr, ◌⊎◌,
}
use fleet_manager.Store.{Db, Route, RouteStatus, Ping, get_config}
use fleet_manager.Trip.Types.{eq_route_status}
use fleet_manager.Stale.{
  Stamp, Alert, minute, threshold_of, later, last_ping, is_past, last_alert_at, stamped, is_cooling,
  is_stale, is_ongoing, alert_of, alert_each, stale_routes, run_check,
}
use fleet_manager.Stale.Cooldown.{IsFree, is_stale-IsFree}

-- The time of the last ping of the route.
abbrev pub IsLast : List Ping → ℕ → Option ℕ → Type 0
IsLast pings id none = All (λ p. p.route_id ≢ id) pings
IsLast pings id (some t) =
    ((p : Ping) × Elem p pings × (p.route_id ≡ id) × (p.recorded_at ≡ t))
    × All (λ p. p.route_id ≡ id → p.recorded_at ≤ t) pings

later-IsLast :
    (p : Ping) (pings : List Ping) (id : ℕ) (o : Option ℕ)
    → p.route_id ≡ id
    → IsLast pings id o
    → IsLast (p ∷ pings) id (later p.recorded_at o)
later-IsLast p pings id none e others = (
  (p, here, e, refl),
  (
    (λ _. omega arith),
    All-of_Elem (λ q. q.route_id ≡ id → q.recorded_at ≤ p.recorded_at) pings
        (λ q m same. absurd (All-Elem (λ q. q.route_id ≢ id) pings others m same)),
  ),
)
later-IsLast p pings id (some t) e ((q, m, same, at), before) =
    let rest = λ (k : ℕ) (le : t ≤ k).
      All-of_Elem (λ q. q.route_id ≡ id → q.recorded_at ≤ k) pings
        (λ q m same.
          let b = All-Elem (λ q. q.route_id ≡ id → q.recorded_at ≤ t) pings before m same in
          omega arith) in
    elim (Bool-cases (ltb t p.recorded_at)) [
      | inl newer ↦ (
        (p, here, e, (ground arith)),
        ((λ _. (ground arith)), rest (max p.recorded_at t) (ground arith)),
      )
      | inr older ↦ (
        (q, there m, same, (ground arith)),
        ((λ _. (ground arith)), rest (max p.recorded_at t) (ground arith)),
      )
    ]

skipped-IsLast :
    (p : Ping) (pings : List Ping) (id : ℕ) (o : Option ℕ)
    → p.route_id ≢ id
    → IsLast pings id o
    → IsLast (p ∷ pings) id o
skipped-IsLast p pings id none n others = (n, others)
skipped-IsLast p pings id (some t) n ((q, m, same, at), before) =
    ((q, there m, same, at), ((λ e. absurd (n e)), before))

last_ping-IsLast : (pings : List Ping) (id : ℕ) → IsLast pings id (last_ping pings id)
last_ping-IsLast [] id = tt
last_ping-IsLast (p ∷ pings) id = elim (Bool-cases (p.route_id == id)) [
  | inl same ↦
      rw same
        (later-IsLast p pings id (last_ping pings id) (ground arith) (last_ping-IsLast pings id))
  | inr other ↦
      rw other
        (skipped-IsLast p pings id (last_ping pings id) (ground arith) (last_ping-IsLast pings id))
]

-- The latest ping, or without one the start, lies the length or more behind the time.
abbrev pub IsSilent : Db → ℕ → ℕ → Route → Type 0
IsSilent db now length r =
    All (λ p. p.route_id ≡ r.route_id → p.recorded_at + length ≤ now) db.pings
    × (((p : Ping) × Elem p db.pings × (p.route_id ≡ r.route_id))
        ⊎ ((t : ℕ) × (r.actual_start_time ≡ some t) × (t + length ≤ now)))

is_past_lem :
    (now length : ℕ) (o : Option ℕ)
    → is_past now length o ≡ true
    → (t : ℕ) × (o ≡ some t) × (t + length ≤ now)
is_past_lem now length none h = absurd (cc)
is_past_lem now length (some t) h = (t, refl, ground arith)

is_past-IsSilent :
    (db : Db) (now length : ℕ) (r : Route) (o : Option ℕ)
    → IsLast db.pings r.route_id o
    → is_past now length (elim o [ none ↦ r.actual_start_time | some t ↦ some t ]) ≡ true
    → IsSilent db now length r
is_past-IsSilent db now length r none others h = (
  All-of_Elem (λ p. p.route_id ≡ r.route_id → p.recorded_at + length ≤ now) db.pings
      (λ p m e. absurd (All-Elem (λ q. q.route_id ≢ r.route_id) db.pings others m e)),
  inr (is_past_lem now length r.actual_start_time h),
)
is_past-IsSilent db now length r (some t) ((p, m, e, at), before) h =
    let past : t + length ≤ now = ground arith in
    (
      All-of_Elem (λ p. p.route_id ≡ r.route_id → p.recorded_at + length ≤ now) db.pings
          (λ q mq eq.
            let b =
              All-Elem (λ q. q.route_id ≡ r.route_id → q.recorded_at ≤ t) db.pings before mq eq in
            omega arith),
      inl (p, m, e),
    )

IsSilent-is_past :
    (db : Db) (now length : ℕ) (r : Route) (o : Option ℕ)
    → IsLast db.pings r.route_id o
    → IsSilent db now length r
    → is_past now length (elim o [ none ↦ r.actual_start_time | some t ↦ some t ]) ≡ true
IsSilent-is_past db now length r none others (old, inl (p, m, e)) =
    absurd (All-Elem (λ q. q.route_id ≢ r.route_id) db.pings others m e)
IsSilent-is_past db now length r none others (old, inr (t, start, past)) = rw start (ground arith)
IsSilent-is_past db now length r (some t) ((p, m, e, at), before) (old, seen) =
    let past =
      All-Elem (λ p. p.route_id ≡ r.route_id → p.recorded_at + length ≤ now) db.pings old m e in
    ground arith

alert_each-Elem :
    (db : Db) (now : ℕ) (a : Alert) (rs : List Route) (stamps : List Stamp)
    → Elem a (alert_each db now stamps rs).1
    → (r : Route) × Elem r rs × (a ≡ alert_of db now r)
alert_each-Elem db now a [] stamps m = elim m [ ]
alert_each-Elem db now a (r ∷ rs) stamps m = elim (Elem-cons m) [
  | inl e ↦ (r, here, e)
  | inr m' ↦
      let (q, mq, e) = alert_each-Elem db now a rs (stamped stamps r.route_id now) m' in
      (q, there mq, e)
]

Elem-alert_each :
    (db : Db) (now : ℕ) (r : Route) (rs : List Route) (stamps : List Stamp)
    → Elem r rs
    → Elem (alert_of db now r) (alert_each db now stamps rs).1
Elem-alert_each db now r [] stamps m = elim m [ ]
Elem-alert_each db now r (q ∷ rs) stamps here = here
Elem-alert_each db now r (q ∷ rs) stamps (there m) =
    there (Elem-alert_each db now r rs (stamped stamps q.route_id now) m)

-- Why a route is alerted at a tick.
pub record IsDue (db : Db) (stamps : List Stamp) (now : ℕ) (r : Route) : Type 0 where
  pub found : Elem r db.routes
  pub ongoing : r.status ≡ RouteStatus.ongoing
  pub silent : IsSilent db now (threshold_of (get_config db r.tenant_id) * minute) r
  pub free : IsFree stamps r.route_id now

IsFree-is_cooling :
    (stamps : List Stamp) (id now : ℕ)
    → IsFree stamps id now
    → is_cooling now (last_alert_at stamps id) ≡ false
IsFree-is_cooling stamps id now free = elim (Option-cases (last_alert_at stamps id)) [
  | inl never ↦ rw never refl
  | inr (s, at) ↦ rw at (let past = free s at in ground arith)
]

ongoing_of :
    (s : RouteStatus) → eq_route_status s RouteStatus.ongoing ≡ true → s ≡ RouteStatus.ongoing
ongoing_of RouteStatus.planned h = absurd (cc)
ongoing_of RouteStatus.vendor_assigned h = absurd (cc)
ongoing_of RouteStatus.driver_assigned h = absurd (cc)
ongoing_of RouteStatus.ongoing h = refl
ongoing_of RouteStatus.completed h = absurd (cc)
ongoing_of RouteStatus.cancelled h = absurd (cc)

stale_routes-IsDue :
    (db : Db) (stamps : List Stamp) (now : ℕ) (r : Route)
    → Elem r (stale_routes db stamps now)
    → IsDue db stamps now r
stale_routes-IsDue db stamps now r m =
    let (m', stale) = Elem-filter (is_stale db stamps now) (filter is_ongoing db.routes) m in
    let (found, on) = Elem-filter is_ongoing db.routes m' in
    record {
      found = found;
      ongoing = ongoing_of r.status on;
      silent =
          is_past-IsSilent db now (threshold_of (get_config db r.tenant_id) * minute) r
            (last_ping db.pings r.route_id) (last_ping-IsLast db.pings r.route_id) (ground arith);
      free = is_stale-IsFree db stamps now r stale;
    }

IsDue-stale_routes :
    (db : Db) (stamps : List Stamp) (now : ℕ) (r : Route)
    → IsDue db stamps now r
    → Elem r (stale_routes db stamps now)
IsDue-stale_routes db stamps now r due =
    let silent =
      IsSilent-is_past db now (threshold_of (get_config db r.tenant_id) * minute) r
        (last_ping db.pings r.route_id) (last_ping-IsLast db.pings r.route_id) due.silent in
    let free = IsFree-is_cooling stamps r.route_id now due.free in
    Elem-filter_of (is_stale db stamps now) (filter is_ongoing db.routes)
      (Elem-filter_of is_ongoing db.routes due.found (rw due.ongoing refl))
      (rw silent (rw free refl))

-- A tick alerts, to all admins of their tenants that can be reached, those ongoing routes and no
-- others whose latest ping, or without one whose start, is as old as the tenant's threshold, and
-- that were not alerted in the last ten minutes.
pub run_check-IsDue :
    (stamps : List Stamp) (db : Db) (now : ℕ) (a : Alert)
    → Elem a (run_check stamps db now).1
      ↔ ((r : Route) × IsDue db stamps now r × (a ≡ alert_of db now r))
unfolding run_check
run_check-IsDue stamps db now a = (
  (λ m.
      let (r, mr, e) = alert_each-Elem db now a (stale_routes db stamps now) stamps m in
      (r, stale_routes-IsDue db stamps now r mr, e)),
  (λ (r, due, e).
      subst (λ b. Elem b (run_check stamps db now).1) (sym e)
        (Elem-alert_each db now r (stale_routes db stamps now) stamps
          (IsDue-stale_routes db stamps now r due))),
)
