-- ===== src/Trip/Distance.antt =====
-- `compute_and_persist_actual_distance` (app/services/distance_service.py). `geodesic` is geopy's
-- distance, in millimetres; a pair on which it raises is not modelled.
use fleet_manager.Prelude.{ℕ, ◌+◌, some, List, [], ◌∷◌, ◌==◌, filter}
use fleet_manager.Prelude.Int.{round_div}
use fleet_manager.Prelude.Sort.{sort_by}
use fleet_manager.Store.{Db, Route, Ping, Point}

module _ (geodesic : Point → Point → ℕ) where
  -- The distances between neighbours, added up.
  unfoldable pub path_length : List Ping → ℕ
  path_length [] = 0
  path_length (p ∷ []) = 0
  path_length (p ∷ q ∷ ps) = geodesic p.position q.position + path_length (q ∷ ps)

  unfoldable pub total_distance : Db → ℕ → ℕ
  unfolding path_length round_div
  total_distance db route_id =
      round_div
        (path_length (sort_by (λ p. p.recorded_at) (filter (λ p. p.route_id == route_id) db.pings)))
        1000

  unfoldable pub compute_and_persist_actual_distance : Db → Route → Route
  unfolding total_distance
  compute_and_persist_actual_distance db route = record route {
    actual_total_distance = some (total_distance db route.route_id);
  }
