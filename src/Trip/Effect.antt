-- ===== src/Trip/Effect.antt =====
-- What a request of the driver app (app/routes/app_driver_router.py) does to the table of routes.
use fleet_manager.Prelude.{
  ℕ, ◌≡◌, refl, ◌∙◌, true, none, some, List, arith, replace, find?, Elem, find?-true, find?-none,
  ◌⊎◌, inl, inr,
}
use fleet_manager.Store.{Db, Route, RouteStatus, Point}
use fleet_manager.Trip.Types.{Driver}
use fleet_manager.Trip.Checks.{is_driver_route}
use fleet_manager.Trip.Duty.{is_other_ongoing, started}
use fleet_manager.Trip.Ride.{boarded, not_shown, dropped_off}
use fleet_manager.Trip.Finish.{finish_route_lem}
use fleet_manager.Trip.Change.{
  Finds, Change, same, starts, boards_escort, ends, picks_up, misses, drops,
}

-- One step of a route's life.
pub data Edge (s t : RouteStatus) : Type 0 where
  stays : t ≡ s → Edge s t
  begins : s ≡ RouteStatus.driver_assigned → t ≡ RouteStatus.ongoing → Edge s t
  finishes : s ≡ RouteStatus.ongoing → t ≡ RouteStatus.completed → Edge s t

-- Both routes are under way with the same driver of the same tenant.
abbrev pub Clash : Route → Route → Type 0
Clash a b =
    (a.status ≡ RouteStatus.ongoing)
    × (b.status ≡ RouteStatus.ongoing)
    × (a.tenant_id ≡ b.tenant_id)
    × (d : ℕ) × (a.assigned_driver_id ≡ some d)
    × (b.assigned_driver_id ≡ some d)

-- `new` takes the place of `old`.
pub record Succeeds (rows : List Route) (old new : Route) : Type 0 where
  pub was_there : Elem old rows
  pub same_id : new.route_id ≡ old.route_id
  pub same_tenant : new.tenant_id ≡ old.tenant_id
  pub same_driver : new.assigned_driver_id ≡ old.assigned_driver_id
  pub edge : Edge old.status new.status
  pub alone :
      (old.status ≡ RouteStatus.ongoing)
      ⊎ ((r : Route) → Elem r rows → Clash r new → r.route_id ≡ new.route_id)

pub data RouteEffect (rows rows' : List Route) : Type 0 where
  kept : rows' ≡ rows → RouteEffect rows rows'
  wrote :
      (old new : Route)
      → Succeeds rows old new
      → rows' ≡ replace (λ r. r.route_id) new rows
      → RouteEffect rows rows'

module _ (geodesic : Point → Point → ℕ) (ctx : Driver) (db : Db) where
  -- What the driver's lookup says of the row.
  pub Finds-facts :
      (route_id : ℕ) (route : Route)
      → Finds db ctx route_id route
      → Elem route db.routes
        × (route.route_id ≡ route_id)
        × (route.tenant_id ≡ ctx.tenant_id)
        × (route.assigned_driver_id ≡ some ctx.driver_id)
  Finds-facts route_id route found =
      let (test, m) = find?-true (is_driver_route route_id ctx none) db.routes found in
      (m, ground arith, ground arith, ground arith)

  -- No row of another id is under way with this driver.
  no-Clash :
      (route_id now : ℕ) (route : Route)
      → Finds db ctx route_id route
      → find? (is_other_ongoing route_id ctx) db.routes ≡ none
      → (r : Route) → Elem r db.routes
      → Clash r (started now route)
      → r.route_id ≡ route.route_id
  no-Clash route_id now route found free r m (going, _, tenant, d, mine, his) =
      let no_match = find?-none (is_other_ongoing route_id ctx) db.routes free m in
      let (_, id_ok, tenant_ok, driver_ok) = Finds-facts route_id route found in ground arith

  pub Change-RouteEffect :
      {db' : Db} → Change geodesic ctx db db' → RouteEffect db.routes db'.routes
  unfolding boarded not_shown dropped_off
  Change-RouteEffect (same e) = kept (ground arith)
  Change-RouteEffect (starts route_id now route found planned free e) =
      wrote route (started now route)
        (record {
          was_there = (Finds-facts route_id route found).0;
          same_id = refl;
          same_tenant = refl;
          same_driver = refl;
          edge = begins planned refl;
          alone = inr (no-Clash route_id now route found free);
        })
        (λ i. (e i).routes)
  Change-RouteEffect (boards_escort route_id otp route found going typed e) =
      wrote route (record route { escort_boarded = true })
        (record {
          was_there = (Finds-facts route_id route found).0;
          same_id = refl;
          same_tenant = refl;
          same_driver = refl;
          edge = stays refl;
          alone = inl going;
        })
        (λ i. (e i).routes)
  Change-RouteEffect (ends route_id now route found going final e) =
      let (row, rows, id, done, tenant, driver, _, _, _) = finish_route_lem geodesic db now route in
      wrote route row
        (record {
          was_there = (Finds-facts route_id route found).0;
          same_id = id;
          same_tenant = tenant;
          same_driver = driver;
          edge = finishes going done;
          alone = inl going;
        })
        ((λ i. (e i).routes) ∙ rows)
  Change-RouteEffect (picks_up route_id b here otp now route rb booking w f g s fb ready e) =
      kept (λ i. (e i).routes)
  Change-RouteEffect (misses route_id b reason now route rb booking f fb g c p e) =
      kept (λ i. (e i).routes)
  Change-RouteEffect (drops route_id b otp now route rb booking f fb v e) = kept (λ i. (e i).routes)
