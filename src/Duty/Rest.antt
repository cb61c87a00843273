-- ===== src/Duty/Rest.antt =====
-- What the rest check decides (`check_rest` in app/services/driver_duty_hours_service.py).
use fleet_manager.Prelude.{
  ℕ, ◌+◌, ◌-◌, ◌*◌, ◌≤◌, ◌<◌, ◌≡◌, refl, sym, ◌∙◌, ◌↔◌, true, List, [], ◌∷◌, arith, any, All,
  Option, none,
}
use fleet_manager.Prelude.Sort.{sort_by, sort_by-IsSortedBy, any-sort_by, All-sort_by}
use fleet_manager.Store.{Db}
use fleet_manager.Safety.Window.{day}
use fleet_manager.Duty.{
  Interval, clipped, trips_of, last_end, minutes, max_of, gaps_from, merge, judge, check_intervals,
  check_rest,
}
use fleet_manager.Duty.Merge.{holds, IsWithin, IsApart, merge_lem}
use fleet_manager.Duty.Gaps.{IsFree, IsFree-le-max_of, max_of-IsFree}

clipped-IsWithin : (ws we : ℕ) (ts : List Interval) → All (IsWithin ws we) (clipped ws we ts)
unfolding clipped
clipped-IsWithin ws we [] = tt
clipped-IsWithin ws we (t ∷ ts) = ground (arith, clipped-IsWithin ws we ts)

-- Within the window, clipping keeps the time on duty.
holds-clipped :
    (ws we t : ℕ) (ts : List Interval)
    → ws ≤ t
    → t < we
    → any (holds t) (clipped ws we ts) ≡ any (holds t) ts
unfolding clipped
holds-clipped ws we t [] h k = refl
holds-clipped ws we t (i ∷ is) h k = ground (arith, holds-clipped ws we t is h k)

-- The longest free time of the window `ws` to `we` is that many minutes.
abbrev pub IsLongest : ℕ → ℕ → List Interval → ℕ → Type 0
IsLongest ws we is gap =
    ((a b : ℕ) → ws ≤ a → a < b → b ≤ we → IsFree is a b → minutes (b - a) ≤ gap)
    × (a : ℕ) × (b : ℕ) × (ws ≤ a)
    × (a ≤ b)
    × (b ≤ we)
    × IsFree is a b
    × (minutes (b - a) ≡ gap)

module _ (ws we max_duty : ℕ) where
  IsLongest-gaps :
      (merged is : List Interval)
      → IsApart ws merged we
      → ((t : ℕ) → any (holds t) merged ≡ any (holds t) is)
      → IsLongest ws we is (max_of (gaps_from ws merged we))
  IsLongest-gaps merged is apart same =
      let (a, b, wa, ab, bw, free, e) = max_of-IsFree ws merged we apart in
      (
        λ a b wa ab bw free.
            IsFree-le-max_of ws merged we a b apart wa ab bw (λ t at tb. same t ∙ free t at tb),
        a,
        b,
        wa,
        ab,
        bw,
        λ t at tb. sym (same t) ∙ free t at tb,
        e,
      )

  check_intervals-IsLongest :
      (is : List Interval) (last : Option ℕ)
      → All (IsWithin ws we) is
      → we ≡ ws + day
      → let r = check_intervals ws we max_duty last is in
        IsLongest ws we is r.rest_gap_minutes
        × ((r.is_ok ≡ true) ↔ (24 * 60 ≤ r.rest_gap_minutes + max_duty))
  unfolding check_intervals judge
  check_intervals-IsLongest [] last ps e = (
    (
      λ a b wa ab bw free. omega arith,
      ws,
      we,
      omega arith,
      omega arith,
      omega arith,
      λ t at tb. refl,
      omega arith,
    ),
    (λ _. omega arith, λ _. refl),
  )
  check_intervals-IsLongest (i ∷ is) last ps e =
      let sorted = sort_by (λ (i : Interval). i.start) (i ∷ is) in
      let (same, apart) =
        merge_lem ws we sorted (All-sort_by (λ i. i.start) (IsWithin ws we) (i ∷ is) ps)
          (sort_by-IsSortedBy (λ i. i.start) (i ∷ is)) (omega arith) in
      (
        IsLongest-gaps (merge sorted) (i ∷ is) apart
            (λ t. same t ∙ any-sort_by (λ i. i.start) (holds t) (i ∷ is)),
        ground arith,
      )

IsLongest-clipped :
    (ws we gap : ℕ) (ts : List Interval)
    → IsLongest ws we (clipped ws we ts) gap
    → IsLongest ws we ts gap
IsLongest-clipped ws we gap ts (upper, a, b, wa, ab, bw, free, e) = (
  λ a b wa ab bw free.
      upper a b wa ab bw
        (λ t at tb. holds-clipped ws we t ts (omega arith) (omega arith) ∙ free t at tb),
  a,
  b,
  wa,
  ab,
  bw,
  λ t at tb. sym (holds-clipped ws we t ts (omega arith) (omega arith)) ∙ free t at tb,
  e,
)

-- For a start later than the first day of the calendar, the reported rest gap is the longest time,
-- in whole minutes, within the 24 hours before the start in which none of the driver's trips was
-- under way, in whatever order and overlap the trips are stored; and the driver may start exactly
-- if this gap and the permitted duty add up to 24 hours or more.
pub check_rest-IsLongest :
    (db : Db) (driver_id start max_duty : ℕ)
    → day ≤ start
    → let r = check_rest db driver_id start max_duty in
      IsLongest (start - day) start (trips_of db driver_id start) r.rest_gap_minutes
      × ((r.is_ok ≡ true) ↔ (24 * 60 ≤ r.rest_gap_minutes + max_duty))
unfolding check_rest
check_rest-IsLongest db driver_id start max_duty h =
    let ws = start - day in
    let trips = trips_of db driver_id start in
    let (longest, fits) =
      check_intervals-IsLongest ws start max_duty (clipped ws start trips) (last_end trips none)
        (clipped-IsWithin ws start trips) (omega arith) in
    (IsLongest-clipped ws start _ trips longest, fits)
