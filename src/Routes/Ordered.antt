-- ===== src/Routes/Ordered.antt =====
-- The stops that app/services/optimal_route_generation.py orders are of the bookings it is given.
use fleet_manager.Prelude.{
  ℕ, zero, suc, ◌+◌, ◌*◌, ◌≡◌, sym, ap, subst, Bool, true, false, not, Option, some, List, [], ◌∷◌,
  ltb, ◌==◌, map, length, Elem, here, there, Elem-cons, Elem-filter, Bool-cases, inl, inr,
}
use fleet_manager.Prelude.Result.{ok, bind-eq-ok, raise_if-eq-ok, or_raise-eq-ok, ok_injective}
use fleet_manager.Store.{Text, Booking, Point}
use fleet_manager.Routes.{Plan}
use fleet_manager.Routes.Optimal.{
  Spot, Query, Directions, Failure, pickup_spot, drop_spot, get_elem?, picked, total_duration,
  pickup_stops, drop_stops, farthest, calculate_distance, pickup_distances, first_or_raise,
  find_centroid_origin, origin_booking, remaining_bookings, reordered, pickup_plan,
  generate_optimal_route, check_drops, drop_plan, generate_drop_route,
}

-- The stops of a plan are of these bookings.
abbrev pub Orders : Plan → List Booking → Type 0
Orders plan bs =
    (id : ℕ) (time : Option Text)
    → Elem (id, time) plan.stops
    → (b : Booking) × Elem b bs × (b.booking_id ≡ id)

abbrev Among : List Booking → List Booking → Type 0
Among xs ys = (b : Booking) → Elem b xs → Elem b ys

get_elem?-Elem : (bs : List Booking) (i : ℕ) (b : Booking) → get_elem? bs i ≡ some b → Elem b bs
get_elem?-Elem [] i b h = absurd (cc)
get_elem?-Elem (x ∷ xs) zero b h = let e : x ≡ b = cc in subst (λ y. Elem y (x ∷ xs)) e here
get_elem?-Elem (x ∷ xs) (suc i) b h = there (get_elem?-Elem xs i b h)

picked-Among :
    (group : List Booking) (order : List ℕ) (bs : List Booking)
    → picked group order ≡ ok bs
    → Among bs group
unfolding picked
picked-Among group [] bs h b m = elim (subst (λ l. Elem b l) (sym (ok_injective [] bs h)) m) [ ]
picked-Among group (i ∷ order) bs h b m =
    let (c, fc, h1) = or_raise-eq-ok (get_elem? group i) Failure.raised _ h in
    let (cs, fs, h2) = bind-eq-ok (picked group order) _ h1 in
    elim (Elem-cons (subst (λ l. Elem b l) (sym (ok_injective (c ∷ cs) bs h2)) m)) [
      | inl e ↦ subst (λ y. Elem y group) (sym e) (get_elem?-Elem group i c fc)
      | inr m' ↦ picked-Among group order cs fs b m'
    ]

reordered-Among :
    (group : List Booking) (order : List ℕ) (bs : List Booking)
    → reordered group order ≡ ok bs
    → Among bs group
unfolding reordered
reordered-Among [] order bs h b m = elim (subst (λ l. Elem b l) (sym (ok_injective [] bs h)) m) [ ]
reordered-Among (x ∷ xs) order bs h b m = picked-Among (x ∷ xs) order bs h b m

pickup_stops-Orders :
    (shift_time taken i : ℕ) (bs : List Booking) (id : ℕ) (time : Option Text)
    → Elem (id, time) (pickup_stops shift_time taken i bs)
    → (b : Booking) × Elem b bs × (b.booking_id ≡ id)
pickup_stops-Orders shift_time taken i (b ∷ bs) id time m = elim (Elem-cons m) [
  | inl e ↦ (b, here, ap (λ (s : ℕ × Option Text). s.0) (sym e))
  | inr m' ↦
      let (c, mc, ec) = pickup_stops-Orders shift_time taken (suc i) bs id time m' in
      (c, there mc, ec)
]
pickup_stops-Orders shift_time taken i [] id time m = elim m [ ]

drop_stops-Orders :
    (shift_time : ℕ) (bs : List Booking) (id : ℕ) (time : Option Text)
    → Elem (id, time) (drop_stops shift_time bs)
    → (b : Booking) × Elem b bs × (b.booking_id ≡ id)
drop_stops-Orders shift_time (b ∷ bs) id time m = elim (Elem-cons m) [
  | inl e ↦ (b, here, ap (λ (s : ℕ × Option Text). s.0) (sym e))
  | inr m' ↦ let (c, mc, ec) = drop_stops-Orders shift_time bs id time m' in (c, there mc, ec)
]
drop_stops-Orders shift_time [] id time m = elim m [ ]

farthest-Elem :
    (d : ℕ) (b : Booking) (ds : List (ℕ × Booking))
    → (e : ℕ) × Elem (e, farthest d b ds) ((d, b) ∷ ds)
farthest-Elem d b [] = (d, here)
farthest-Elem d b ((e, c) ∷ rest) = elim (Bool-cases (ltb d e)) [
  | inl t ↦ let (k, m) = farthest-Elem e c rest in (k, there (rw t m))
  | inr f ↦
      let (k, m) = farthest-Elem d b rest in
      (
        k,
        elim (Elem-cons m) [
          | inl same ↦ subst (λ p. Elem p ((d, b) ∷ (e, c) ∷ rest)) (sym (rw f same)) here
          | inr m' ↦ there (there (rw f m'))
        ],
      )
]

first_or_raise-Elem :
    (ds : List (ℕ × Booking)) (b : Booking) → first_or_raise ds ≡ ok b → (e : ℕ) × Elem (e, b) ds
first_or_raise-Elem [] b h = absurd (cc)
first_or_raise-Elem ((d, c) ∷ rest) b h =
    let e : farthest d c rest ≡ b = cc in
    let (k, m) = farthest-Elem d c rest in (k, subst (λ y. Elem (k, y) ((d, c) ∷ rest)) e m)

module _ (haversine : Point → Point → ℕ) where
  pickup_distances-Elem :
      (drop : Spot) (bs : List Booking) (ds : List (ℕ × Booking)) (e : ℕ) (b : Booking)
      → pickup_distances haversine drop bs ≡ ok ds
      → Elem (e, b) ds
      → Elem b bs
  unfolding pickup_distances
  pickup_distances-Elem drop [] ds e b h m =
      elim (subst (λ l. Elem (e, b) l) (sym (ok_injective [] ds h)) m) [ ]
  pickup_distances-Elem drop (x ∷ xs) ds e b h m =
      let (d, fd, h1) = bind-eq-ok (calculate_distance haversine (pickup_spot x) drop) _ h in
      let (rest, fr, h2) = bind-eq-ok (pickup_distances haversine drop xs) _ h1 in
      elim (Elem-cons (subst (λ l. Elem (e, b) l) (sym (ok_injective ((d, x) ∷ rest) ds h2)) m)) [
        | inl same ↦ subst (λ y. Elem y (x ∷ xs)) (ap (λ (p : ℕ × Booking). p.1) (sym same)) here
        | inr m' ↦ there (pickup_distances-Elem drop xs rest e b fr m')
      ]

  origin_booking-Elem :
      (use_centroid : Bool) (drop : Spot) (group : List Booking) (b : Booking)
      → origin_booking haversine use_centroid drop group ≡ ok b
      → Elem b group
  unfolding origin_booking find_centroid_origin
  origin_booking-Elem false drop (x ∷ xs) b h =
      let e : x ≡ b = cc in subst (λ y. Elem y (x ∷ xs)) e here
  origin_booking-Elem false drop [] b h = absurd (cc)
  origin_booking-Elem true drop group b h =
      let (ds, fd, h1) = bind-eq-ok (pickup_distances haversine drop group) _ h in
      let (e, m) = first_or_raise-Elem ds b h1 in pickup_distances-Elem drop group ds e b fd m

module _ (directions : Query → Option Directions) (haversine : Point → Point → ℕ) where
  pub generate_optimal_route-Orders :
      (group : List Booking) (drop : Spot) (shift_time : ℕ) (use_centroid : Bool) (plan : Plan)
      → generate_optimal_route directions haversine group drop shift_time use_centroid ≡ ok plan
      → Orders plan group
  unfolding generate_optimal_route
  generate_optimal_route-Orders group drop shift_time use_centroid plan h id time m =
      let (origin, fo, h1) = bind-eq-ok (origin_booking haversine use_centroid drop group) _ h in
      let remaining = remaining_bookings origin group in
      let (answer, fa, h2) =
        or_raise-eq-ok
          (directions (record {
            origin = pickup_spot origin;
            destination = drop;
            waypoints = map pickup_spot remaining;
            is_reordered = true;
          }))
          Failure.no_candidate _ h1 in
      let (others, fr, h3) = bind-eq-ok (reordered remaining answer.waypoint_order) _ h2 in
      let e = ok_injective (pickup_plan shift_time answer.legs (origin ∷ others)) plan h3 in
      let taken = total_duration answer.legs + 120 * length (origin ∷ others) + 15 * 60 in
      let (b, mb, eb) =
        pickup_stops-Orders shift_time taken 0 (origin ∷ others) id time
          (subst (λ (p : Plan). Elem (id, time) p.stops) (sym e) m) in
      elim (Elem-cons mb) [
        | inl same ↦ (
          b,
          subst (λ y. Elem y group) (sym same)
              (origin_booking-Elem haversine use_centroid drop group origin fo),
          eb,
        )
        | inr mo ↦ (
          b,
          (Elem-filter (λ (b : Booking). not (b.booking_id == origin.booking_id)) group
              (reordered-Among remaining answer.waypoint_order others fr b mo)).0,
          eb,
        )
      ]

  pub generate_drop_route-Orders :
      (group : List Booking) (office : Spot) (shift_time : ℕ) (optimize_route : Bool) (plan : Plan)
      → generate_drop_route directions haversine group office shift_time optimize_route ≡ ok plan
      → Orders plan group
  unfolding generate_drop_route
  generate_drop_route-Orders group office shift_time optimize_route plan h id time m =
      let (u, fu, h1) = bind-eq-ok (check_drops haversine office group) _ h in
      let (answer, fa, h2) =
        or_raise-eq-ok
          (directions (record {
            origin = office;
            destination = office;
            waypoints = map drop_spot group;
            is_reordered = optimize_route;
          }))
          Failure.no_candidate _ h1 in
      let (ordered, fr, h3) = bind-eq-ok (picked group answer.waypoint_order) _ h2 in
      let (enough, h4) =
        raise_if-eq-ok (ltb (length answer.legs) (length ordered)) Failure.raised _ h3 in
      let e = ok_injective (drop_plan shift_time answer.legs ordered) plan h4 in
      let (b, mb, eb) =
        drop_stops-Orders shift_time ordered id time
          (subst (λ (p : Plan). Elem (id, time) p.stops) (sym e) m) in
      (b, picked-Among group answer.waypoint_order ordered fr b mb, eb)
