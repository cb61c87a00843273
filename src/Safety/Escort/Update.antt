-- ===== src/Safety/Escort/Update.antt =====
-- `update_route_escort_requirement` (app/utils/otp_utils.py).
use fleet_manager.Prelude.{
  ℕ, ◌≡◌, refl, Bool, Option, List, [], ◌∷◌, map, arith, find?, if◌then◌else◌,
}
use fleet_manager.Store.{Db, Route, TenantConfig}
use fleet_manager.Safety.Escort.{
  is_route, ordered_booking_ids, employee_gender_at_position, gender_of_booking, key_of_route,
  shift_of_key, escort_for_shift, route_requires_escort, update_route_escort_requirement,
}

module _ (route_id tenant_id : ℕ) where
  abbrev mark : Bool → Route → Route
  mark b r = if is_route route_id tenant_id r then record r { escort_required = b } else r

  -- The row found keeps its shift, which is all that the requirement reads of it.
  find?-mark :
      (b : Bool) (rs : List Route)
      → key_of_route (find? (is_route route_id tenant_id) (map (mark b) rs))
        ≡ key_of_route (find? (is_route route_id tenant_id) rs)
  find?-mark b [] = refl
  find?-mark b (r ∷ rs) = ground (arith, find?-mark b rs)

  mark-mark : (b : Bool) (rs : List Route) → map (mark b) (map (mark b) rs) ≡ map (mark b) rs
  mark-mark b [] = refl
  mark-mark b (r ∷ rs) = ground (arith, mark-mark b rs)

  requirement-mark :
      (db : Db) (config : Option TenantConfig) (b : Bool)
      → route_requires_escort
          (record db { routes = map (mark b) db.routes })
          config
          route_id
          tenant_id
        ≡ route_requires_escort db config route_id tenant_id
  unfolding route_requires_escort ordered_booking_ids shift_of_key employee_gender_at_position
      gender_of_booking
  requirement-mark db config b =
      λ i. escort_for_shift db config route_id (shift_of_key db (find?-mark b db.routes i))

  -- Writing the flag does not change the requirement, so a second update changes nothing and
  -- returns the same.
  pub update_route_escort_requirement_idem :
      (db : Db) (config : Option TenantConfig)
      → let (db', b) = update_route_escort_requirement db config route_id tenant_id in
        (route_requires_escort db' config route_id tenant_id ≡ b)
        × (update_route_escort_requirement db' config route_id tenant_id ≡ (db', b))
  unfolding update_route_escort_requirement
  update_route_escort_requirement_idem db config =
      let b = route_requires_escort db config route_id tenant_id in
      let same = requirement-mark db config b in (same, rw same (rw (mark-mark b db.routes)))
