-- ===== src/Duty/Merge.antt =====
-- The time on duty that merged segments cover (`_check_rest_impl` in
-- app/services/driver_duty_hours_service.py).
use fleet_manager.Prelude.{
  ℕ, ◌≤◌, ◌<◌, ◌≡◌, refl, Bool, ◌&&◌, ◌||◌, List, [], ◌∷◌, arith, ltb, leb, any, All, max,
}
use fleet_manager.Prelude.Sort.{IsSortedBy}
use fleet_manager.Duty.{Interval, merge_from, merge}

-- The instant is on duty.
abbrev pub holds : ℕ → Interval → Bool
holds t i = leb i.start t && ltb t i.finish

-- A segment of some length within the window.
abbrev pub IsWithin : ℕ → ℕ → Interval → Type 0
IsWithin window_start window_end i =
    (window_start ≤ i.start) × (i.start < i.finish) × (i.finish ≤ window_end)

-- Each segment begins after `prev`, is not empty, and ends before the next begins and before the
-- window's end.
abbrev pub IsApart : ℕ → List Interval → ℕ → Type 0
IsApart prev [] window_end = prev ≤ window_end
IsApart prev (i ∷ is) window_end =
    (prev ≤ i.start) × (i.start < i.finish) × IsApart i.finish is window_end

module _ (ws we : ℕ) where
  holds-merge_from :
      (t : ℕ) (c : Interval) (is : List Interval)
      → IsWithin ws we c
      → All (IsWithin ws we) is
      → All (λ i. c.start ≤ i.start) is
      → IsSortedBy (λ i. i.start) is
      → any (holds t) (merge_from c is) ≡ (holds t c || any (holds t) is)
  unfolding merge_from
  holds-merge_from t c [] pc ps lo so = refl
  holds-merge_from t c (i ∷ is) pc ps lo so = ground (
    arith,
    holds-merge_from t (record c { finish = max c.finish i.finish }) is (omega arith) ps.1 lo.1
        so.1,
    holds-merge_from t i is ps.0 ps.1 so.0 so.1,
  )

  merge_from-IsApart :
      (prev : ℕ) (c : Interval) (is : List Interval)
      → prev ≤ c.start
      → IsWithin ws we c
      → All (IsWithin ws we) is
      → IsApart prev (merge_from c is) we
  unfolding merge_from
  merge_from-IsApart prev c [] h pc ps = (h, pc.1, pc.2)
  merge_from-IsApart prev c (i ∷ is) h pc ps = ground (
    arith,
    merge_from-IsApart prev (record c { finish = max c.finish i.finish }) is h (omega arith) ps.1,
    merge_from-IsApart c.finish i is,
  )

  -- Sorted segments of some length within the window, merged, cover the same instants, and are
  -- apart from one another.
  pub merge_lem :
      (is : List Interval)
      → All (IsWithin ws we) is
      → IsSortedBy (λ i. i.start) is
      → ws ≤ we
      → ((t : ℕ) → any (holds t) (merge is) ≡ any (holds t) is) × IsApart ws (merge is) we
  unfolding merge
  merge_lem [] ps so h = (λ t. refl, h)
  merge_lem (i ∷ is) ps so h = (
    λ t. holds-merge_from t i is ps.0 ps.1 so.0 so.1,
    merge_from-IsApart ws i is ps.0.0 ps.0 ps.1,
  )
