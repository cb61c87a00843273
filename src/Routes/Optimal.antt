-- ===== src/Routes/Optimal.antt =====
-- The order of the stops of a route (app/services/optimal_route_generation.py). The Directions
-- service of Google, and the floating-point distance on the sphere, are parameters.
use fleet_manager.Prelude.{
  ℕ, zero, suc, ◌+◌, ◌-◌, ◌*◌, ◌/◌, ◌%◌, Bool, true, false, not, ◌||◌, Option, none, some, List, [],
  ◌∷◌, ltb, ◌==◌, if◌then◌else◌, filter, map, length,
}
use fleet_manager.Prelude.Int.{ℤ, pos, negsuc, sub_ℕ}
use fleet_manager.Prelude.Result.{Result, ok, err, ◌>>=◌, ◌>>◌, raise_if, or_raise}
use fleet_manager.Delay.{minute}
use fleet_manager.Store.{Text, Booking, Point}
use fleet_manager.Trip.Otp.{str}
use fleet_manager.Routes.{Plan}

-- A place, of which a coordinate may be missing.
pub record Spot : Type 0 where
  pub latitude : Option ℤ
  pub longitude : Option ℤ

-- A question to the service, which may be asked to reorder the waypoints.
pub record Query : Type 0 where
  pub origin : Spot
  pub destination : Spot
  pub waypoints : List Spot
  pub is_reordered : Bool

-- Metres and seconds.
pub record Leg : Type 0 where
  pub distance : ℕ
  pub duration : ℕ

-- The first of the routes in an answer.
pub record Directions : Type 0 where
  pub waypoint_order : List ℕ
  pub legs : List Leg

-- An empty list of routes, or an exception.
pub data Failure : Type 0 where
  no_candidate raised : Failure

abbrev pub pickup_spot : Booking → Spot
pickup_spot b = record { latitude = b.pickup_latitude; longitude = b.pickup_longitude }

abbrev pub drop_spot : Booking → Spot
drop_spot b = record { latitude = b.drop_latitude; longitude = b.drop_longitude }

abbrev pub point_of : Option ℤ → Option ℤ → Option Point
point_of none lng = none
point_of (some lat) none = none
point_of (some lat) (some lng) = some (record { latitude = lat; longitude = lng })

abbrev pub get_elem? {ℓ} : {A : Type ℓ} → List A → ℕ → Option A
get_elem? [] i = none
get_elem? (x ∷ xs) zero = some x
get_elem? (x ∷ xs) (suc i) = get_elem? xs i

-- `[group[i] for i in order]`
unfoldable pub picked : List Booking → List ℕ → Result Failure (List Booking)
picked group [] = ok []
picked group (i ∷ order) =
    or_raise (get_elem? group i) Failure.raised >>= λ b. picked group order >>= λ bs. ok (b ∷ bs)

abbrev pub total_duration : List Leg → ℕ
total_duration [] = 0
total_duration (l ∷ ls) = l.duration + total_duration ls

-- `legs[:-1]`
abbrev pub before_last : List Leg → List Leg
before_last [] = []
before_last (l ∷ []) = []
before_last (l ∷ k ∷ ls) = l ∷ before_last (k ∷ ls)

-- `f"{n:02d}"`
abbrev pub padded : ℕ → Text
padded n = if ltb n 10 then b'0' ∷ str n else str n

abbrev pub joined : Text → Text → Text
joined [] t = t
joined (c ∷ s) t = c ∷ joined s t

-- Hours and minutes of a number of seconds, which `//` and `%` round down below 0, too.
unfoldable pub time_text : ℤ → Text
time_text (pos s) = joined (padded (s / 3600)) (b':' ∷ padded (s % 3600 / 60))
time_text (negsuc n) = b'-' ∷ joined (str (n / 3600 + 1)) (b':' ∷ padded ((3599 - n % 3600) / 60))

-- Minutes since midnight of the shift.
abbrev pub shift_minutes : ℕ → ℕ
shift_minutes shift_time = shift_time / minute

-- The stops of a pick-up route: two minutes later from one to the next.
abbrev pub pickup_stops : ℕ → ℕ → ℕ → List Booking → List (ℕ × Option Text)
pickup_stops shift_time taken i [] = []
pickup_stops shift_time taken i (b ∷ bs) =
    (b.booking_id, some (time_text (sub_ℕ (60 * shift_minutes shift_time + 120 * i) taken)))
    ∷ pickup_stops shift_time taken (suc i) bs

-- The stops of a drop route: all leave the office at the time of the shift.
abbrev pub drop_stops : ℕ → List Booking → List (ℕ × Option Text)
drop_stops shift_time [] = []
drop_stops shift_time (b ∷ bs) =
    (b.booking_id, some (time_text (pos (60 * shift_minutes shift_time))))
    ∷ drop_stops shift_time bs

-- Whole minutes
abbrev pub estimated : List Leg → ℕ
estimated legs = total_duration legs / 60 * minute

-- `not x` of a coordinate
abbrev pub is_nil : Option ℤ → Bool
is_nil none = true
is_nil (some (pos n)) = n == 0
is_nil (some (negsuc n)) = false

-- The farthest, the first of those that are equally far.
abbrev pub farthest : ℕ → Booking → List (ℕ × Booking) → Booking
farthest d b [] = b
farthest d b ((e, c) ∷ rest) =
    let farther = farthest e c rest in
    let same = farthest d b rest in if ltb d e then farther else same

abbrev pub first_or_raise : List (ℕ × Booking) → Result Failure Booking
first_or_raise [] = err Failure.raised
first_or_raise ((d, b) ∷ rest) = ok (farthest d b rest)

-- The dictionaries of two bookings differ, since their keys do.
abbrev pub remaining_bookings : Booking → List Booking → List Booking
remaining_bookings origin group = filter (λ b. not (b.booking_id == origin.booking_id)) group

-- Without waypoints the order of the answer is not read.
unfoldable pub reordered : List Booking → List ℕ → Result Failure (List Booking)
reordered [] order = ok []
reordered (b ∷ bs) order = picked (b ∷ bs) order

abbrev pub pickup_plan : ℕ → List Leg → List Booking → Plan
pickup_plan shift_time legs ordered = record {
  estimated_time = estimated legs;
  stops = pickup_stops shift_time (total_duration legs + 120 * length ordered + 15 * 60) 0 ordered;
}

abbrev pub drop_plan : ℕ → List Leg → List Booking → Plan
drop_plan shift_time legs ordered = record {
  estimated_time = estimated (before_last legs);
  stops = drop_stops shift_time ordered;
}

module _ (haversine : Point → Point → ℕ) where
  -- Radians of a missing coordinate are an exception.
  abbrev pub calculate_distance : Spot → Spot → Result Failure ℕ
  calculate_distance a b = or_raise (point_of a.latitude a.longitude) Failure.raised >>= λ p.
      or_raise (point_of b.latitude b.longitude) Failure.raised >>= λ q. ok (haversine p q)

  unfoldable pub pickup_distances : Spot → List Booking → Result Failure (List (ℕ × Booking))
  pickup_distances drop [] = ok []
  pickup_distances drop (b ∷ bs) = calculate_distance (pickup_spot b) drop >>= λ d.
      pickup_distances drop bs >>= λ ds. ok ((d, b) ∷ ds)

  unfoldable pub find_centroid_origin : Spot → List Booking → Result Failure Booking
  find_centroid_origin drop group = pickup_distances drop group >>= λ ds. first_or_raise ds

  unfoldable pub origin_booking : Bool → Spot → List Booking → Result Failure Booking
  origin_booking true drop group = find_centroid_origin drop group
  origin_booking false drop [] = err Failure.raised
  origin_booking false drop (b ∷ bs) = ok b

  -- At most 500 km from the office.
  unfoldable pub check_drops : Spot → List Booking → Result Failure (Unit {0})
  check_drops office [] = ok tt
  check_drops office (b ∷ bs) =
      raise_if (is_nil b.drop_latitude || is_nil b.drop_longitude) Failure.no_candidate
      >> (calculate_distance office (drop_spot b) >>= λ d.
          raise_if (ltb 500_000_000 d) Failure.no_candidate >> check_drops office bs)

module _ (directions : Query → Option Directions) (haversine : Point → Point → ℕ) where
  unfoldable pub generate_optimal_route : List Booking → Spot → ℕ → Bool → Result Failure Plan
  generate_optimal_route group drop shift_time use_centroid = do
    origin ← origin_booking haversine use_centroid drop group
    let remaining = remaining_bookings origin group
    answer ←
        or_raise
          (directions (record {
            origin = pickup_spot origin;
            destination = drop;
            waypoints = map pickup_spot remaining;
            is_reordered = true;
          }))
          Failure.no_candidate
    others ← reordered remaining answer.waypoint_order
    ok (pickup_plan shift_time answer.legs (origin ∷ others))

  -- The loop reads a leg for each of the stops.
  unfoldable pub generate_drop_route : List Booking → Spot → ℕ → Bool → Result Failure Plan
  generate_drop_route group office shift_time optimize_route = do
    check_drops haversine office group
    answer ←
        or_raise
          (directions (record {
            origin = office;
            destination = office;
            waypoints = map drop_spot group;
            is_reordered = optimize_route;
          }))
          Failure.no_candidate
    ordered ← picked group answer.waypoint_order
    raise_if (ltb (length answer.legs) (length ordered)) Failure.raised
    ok (drop_plan shift_time answer.legs ordered)
