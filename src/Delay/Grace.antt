-- ===== src/Delay/Grace.antt =====
-- What a delay tag says of the real times (`tag_trip_delay` in app/utils/delay_tagging.py).
use fleet_manager.Prelude.{ℕ, ◌+◌, ◌-◌, ◌*◌, ◌≤◌, ◌≡◌, refl, some, ◌∷◌, arith, get_or}
use fleet_manager.Prelude.Int.{pos, sub_ℕ, round_div_ℤ, round_div_near, round_div_ℤ_parts}
use fleet_manager.Store.{Db, Route, RouteDelayEvent, DelayType}
use fleet_manager.Delay.{minute, delay_type_of, tag_trip_delay}

-- What a tag says of a route that was planned to end at `planned` and ended at `finish`, with `g`
-- minutes of grace: rounding to minutes moves each limit by half a minute.
abbrev pub Means : DelayType → ℕ → ℕ → ℕ → Type 0
Means DelayType.late planned finish g = 2 * planned + (2 * g + 1) * minute ≤ 2 * finish
Means DelayType.early planned finish g = 2 * finish + (2 * g + 1) * minute ≤ 2 * planned
Means DelayType.on_time planned finish g =
    (2 * finish ≤ 2 * planned + (2 * g + 1) * minute)
    × (2 * planned ≤ 2 * finish + (2 * g + 1) * minute)

delay_type_of-Means :
    (g planned finish : ℕ)
    → Means (delay_type_of (round_div_ℤ (sub_ℕ finish planned) minute) (pos g)) planned finish g
unfolding delay_type_of
delay_type_of-Means g planned finish = ground (
  arith,
  round_div_ℤ_parts (sub_ℕ finish planned) minute (omega arith),
  round_div_near (finish - planned) minute (omega arith),
  round_div_near (planned - finish) minute (omega arith),
  round_div_near 0 minute (omega arith),
)

-- A route with a start and an estimated time, and g minutes of grace, is tagged LATE only if it
-- ended g and a half minutes or more after its planned end, EARLY only if it ended so much before
-- it, and ON_TIME only if it ended within g and a half minutes of it. One audit event is added; it
-- repeats the type and the minutes written to the route, whose status is kept.
pub tag_trip_delay-Means :
    (db : Db) (route : Route) (now start total g : ℕ)
    → route.actual_start_time ≡ some start
    → route.estimated_total_time ≡ some total
    → get_or route.ota_grace_minutes (pos 5) ≡ pos g
    → let (db', route') = tag_trip_delay db route now in
      (e : RouteDelayEvent) × Means e.delay_type
        (start + total)
        (get_or route.actual_end_time now)
        g
      × (db'.delay_events ≡ e ∷ db.delay_events)
      × (route'.delay_type ≡ some e.delay_type)
      × (route'.delay_minutes ≡ some e.delay_minutes)
      × (route'.status ≡ route.status)
unfolding tag_trip_delay
tag_trip_delay-Means db route now start total g es et eg = rw es (
    rw et (
      rw eg (
        _,
        delay_type_of-Means g (start + total) (get_or route.actual_end_time now),
        refl,
        refl,
        refl,
        refl,
      )))
