-- ===== src/Stale/Cooldown.antt =====
-- How often a route is alerted (`_run_check` in app/services/stale_driver_service.py).
use fleet_manager.Prelude.{
  ℕ, ◌+◌, ◌≤◌, ◌≡◌, refl, sym, subst, ◌≢◌, Bool, true, false, some, List, [], ◌∷◌, ◌++◌, arith, ltb,
  ◌==◌, filter, All, All-Elem, All-of_Elem, Elem, Elem-filter, Bool-cases, inl, inr,
}
use fleet_manager.Store.{Db, Route}
use fleet_manager.Stale.{
  Stamp, Alert, cooldown, last_alert_at, stamped, is_cooling, is_stale, is_ongoing, alert_of,
  alert_each, stale_routes, run_check, run_jobs,
}

-- The keys of the routes differ.
abbrev pub IsKeyed : List Route → Type 0
IsKeyed [] = Unit
IsKeyed (r ∷ rs) = All (λ q. q.route_id ≢ r.route_id) rs × IsKeyed rs

-- Two alerts of one route are at least the cooldown apart.
abbrev pub IsSpaced : List Alert → Type 0
IsSpaced [] = Unit
IsSpaced (a ∷ alerts) =
    All (λ b. b.route_id ≡ a.route_id → a.at + cooldown ≤ b.at) alerts × IsSpaced alerts

-- At time t the route is out of its cooldown.
abbrev pub IsFree : List Stamp → ℕ → ℕ → Type 0
IsFree stamps id t = (s : ℕ) → last_alert_at stamps id ≡ some s → s + cooldown ≤ t

abbrev IsGood : List Stamp → List Alert → Type 0
IsGood stamps alerts = All (λ a. IsFree stamps a.route_id a.at) alerts × IsSpaced alerts

IsFree-stamped :
    (stamps : List Stamp) (id j now t : ℕ)
    → IsFree (stamped stamps id now) j t
    → IsFree stamps id now
    → IsFree stamps j t × (j ≡ id → now + cooldown ≤ t)
IsFree-stamped stamps id j now t f g = elim (Bool-cases (id == j)) [
  | inl same ↦
      let e : id ≡ j = ground arith in
      let after : now + cooldown ≤ t = f now (rw same refl) in
      (
        (λ s h.
            let old = g s (subst (λ k. last_alert_at stamps k ≡ some s) (sym e) h) in omega arith),
        λ _. after,
      )
  | inr other ↦ ((λ s h. f s (rw other h)), λ e. absurd (ground arith))
]

stamped-IsFree :
    (stamps : List Stamp) (id j now t : ℕ)
    → j ≢ id
    → IsFree stamps j t
    → IsFree (stamped stamps id now) j t
stamped-IsFree stamps id j now t n f s h = elim (Bool-cases (id == j)) [
  | inl same ↦ absurd (n (ground arith))
  | inr other ↦ f s (ground arith)
]

-- One alert more, ahead of the others.
cons-IsGood :
    (stamps : List Stamp) (a : Alert) (alerts : List Alert)
    → IsFree stamps a.route_id a.at
    → IsGood (stamped stamps a.route_id a.at) alerts
    → IsGood stamps (a ∷ alerts)
cons-IsGood stamps a alerts free (f, spaced) =
    let both = λ (b : Alert) (m : Elem b alerts).
      IsFree-stamped stamps a.route_id b.route_id a.at b.at
        (All-Elem (λ c. IsFree (stamped stamps a.route_id a.at) c.route_id c.at) alerts f m) free in
    (
      (free, All-of_Elem (λ b. IsFree stamps b.route_id b.at) alerts (λ b m. (both b m).0)),
      (
        All-of_Elem (λ b. b.route_id ≡ a.route_id → a.at + cooldown ≤ b.at) alerts
            (λ b m. (both b m).1),
        spaced,
      ),
    )

alert_each-IsGood :
    (db : Db) (now : ℕ) (rs : List Route) (stamps : List Stamp) (alerts : List Alert)
    → IsKeyed rs
    → All (λ r. IsFree stamps r.route_id now) rs
    → IsGood (alert_each db now stamps rs).0 alerts
    → IsGood stamps ((alert_each db now stamps rs).1 ++ alerts)
alert_each-IsGood db now [] stamps alerts keyed free good = good
alert_each-IsGood db now (r ∷ rs) stamps alerts (new, keyed) (free, frees) good =
    let next = stamped stamps r.route_id now in
    cons-IsGood stamps (alert_of db now r) ((alert_each db now next rs).1 ++ alerts) free (
      alert_each-IsGood db now rs next alerts keyed
        (All-of_Elem (λ q. IsFree next q.route_id now) rs
          (λ q m.
            stamped-IsFree stamps r.route_id q.route_id now now
              (All-Elem (λ q. q.route_id ≢ r.route_id) rs new m)
              (All-Elem (λ q. IsFree stamps q.route_id now) rs frees m)))
        good)

filter-IsKeyed : (p : Route → Bool) (rs : List Route) → IsKeyed rs → IsKeyed (filter p rs)
filter-IsKeyed p [] keyed = keyed
filter-IsKeyed p (r ∷ rs) (new, keyed) = elim (Bool-cases (p r)) [
  | inl kept ↦ rw kept (
    All-of_Elem (λ q. q.route_id ≢ r.route_id) (filter p rs)
        (λ q m. All-Elem (λ q. q.route_id ≢ r.route_id) rs new (Elem-filter p rs m).0),
    filter-IsKeyed p rs keyed,
  )
  | inr dropped ↦ rw dropped (filter-IsKeyed p rs keyed)
]

pub is_stale-IsFree :
    (db : Db) (stamps : List Stamp) (now : ℕ) (r : Route)
    → is_stale db stamps now r ≡ true
    → IsFree stamps r.route_id now
is_stale-IsFree db stamps now r stale s h =
    let cool : is_cooling now (last_alert_at stamps r.route_id) ≡ false = ground arith in
    let cool' : ltb now (s + cooldown) ≡ false = subst (λ o. is_cooling now o ≡ false) h cool in
    ground arith

-- However the database changes from one tick to the next, whatever times the ticks see, and
-- whatever the cooldowns are at first: two alerts of one route are at least ten minutes apart, if
-- the keys of the routes differ at each tick.
pub run_jobs-IsSpaced :
    (ticks : List (Db × ℕ)) (stamps : List Stamp)
    → All (λ t. IsKeyed t.0.routes) ticks
    → All (λ a. IsFree stamps a.route_id a.at) (run_jobs stamps ticks)
      × IsSpaced (run_jobs stamps ticks)
unfolding run_jobs run_check
run_jobs-IsSpaced [] stamps keyed = (tt, tt)
run_jobs-IsSpaced ((db, now) ∷ ticks) stamps (keyed, rest) =
    let stale = stale_routes db stamps now in
    alert_each-IsGood db now stale stamps (run_jobs (run_check stamps db now).0 ticks)
      (filter-IsKeyed (is_stale db stamps now) (filter is_ongoing db.routes)
        (filter-IsKeyed is_ongoing db.routes keyed))
      (All-of_Elem (λ r. IsFree stamps r.route_id now) stale
        (λ r m.
          is_stale-IsFree db stamps now r
            (Elem-filter (is_stale db stamps now) (filter is_ongoing db.routes) m).1))
      (run_jobs-IsSpaced ticks (run_check stamps db now).0 rest)
