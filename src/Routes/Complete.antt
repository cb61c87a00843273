-- ===== src/Routes/Complete.antt =====
-- Every booking gets a stop (app/services/optimal_route_generation.py), where the road service orders
-- all the waypoints that it is asked to order.
use fleet_manager.Prelude.{
  ℕ, suc, ◌+◌, ◌*◌, ◌≡◌, ◌<◌, refl, sym, ap, subst, Bool, true, not, Option, some, List, [], ◌∷◌,
  ltb, ◌==◌, map, length, arith, Elem, here, there, Elem-cons, Elem-filter_of, Bool-cases, inl, inr,
}
use fleet_manager.Prelude.Result.{ok, bind-eq-ok, raise_if-eq-ok, or_raise-eq-ok, ok_injective}
use fleet_manager.Store.{Text, Booking, Point}
use fleet_manager.Routes.{Plan}
use fleet_manager.Routes.Optimal.{
  Spot, Query, Directions, Failure, pickup_spot, drop_spot, get_elem?, picked, total_duration,
  pickup_stops, drop_stops, origin_booking, remaining_bookings, reordered, pickup_plan,
  generate_optimal_route, check_drops, drop_plan, generate_drop_route,
}

-- Each of the bookings has a stop.
abbrev pub IsComplete : Plan → List Booking → Type 0
IsComplete plan bs =
    (b : Booking) → Elem b bs → (time : Option Text) × Elem (b.booking_id, time) plan.stops

-- The index of each waypoint is in the order that the service answers with.
abbrev pub OrdersWaypoints : (Query → Option Directions) → Type 0
OrdersWaypoints directions =
    (q : Query) (answer : Directions)
    → directions q ≡ some answer
    → (i : ℕ) → i < length q.waypoints
    → Elem i answer.waypoint_order

length-map : {A B : Type 0} (f : A → B) (xs : List A) → length (map f xs) ≡ length xs
length-map f [] = refl
length-map f (x ∷ xs) = ap suc (length-map f xs)

index_of :
    (bs : List Booking) (b : Booking)
    → Elem b bs
    → (i : ℕ) × (i < length bs) × (get_elem? bs i ≡ some b)
index_of (x ∷ xs) b here = (0, omega arith, refl)
index_of (x ∷ xs) b (there m) = let (i, lt, e) = index_of xs b m in (suc i, omega (arith, lt), e)
index_of [] b m = elim m [ ]

picked_at :
    (group : List Booking) (order : List ℕ) (bs : List Booking) (i : ℕ) (b : Booking)
    → picked group order ≡ ok bs
    → Elem i order
    → get_elem? group i ≡ some b
    → Elem b bs
unfolding picked
picked_at group (j ∷ order) bs i b h m e =
    let (c, fc, h1) = or_raise-eq-ok (get_elem? group j) Failure.raised _ h in
    let (cs, fs, h2) = bind-eq-ok (picked group order) _ h1 in
    let same = ok_injective (c ∷ cs) bs h2 in
    elim (Elem-cons m) [
      | inl k ↦
          let f : get_elem? group j ≡ some b = subst (λ n. get_elem? group n ≡ some b) k e in
          let cb : c ≡ b = cc in subst (λ l. Elem b l) same (subst (λ y. Elem y (c ∷ cs)) cb here)
      | inr m' ↦ subst (λ l. Elem b l) same (there (picked_at group order cs i b fs m' e))
    ]
picked_at group [] bs i b h m e = elim m [ ]

pickup_stops_complete :
    (shift_time taken i : ℕ) (bs : List Booking) (b : Booking)
    → Elem b bs
    → (time : Option Text) × Elem (b.booking_id, time) (pickup_stops shift_time taken i bs)
pickup_stops_complete shift_time taken i (x ∷ xs) b here = (_, here)
pickup_stops_complete shift_time taken i (x ∷ xs) b (there m) =
    let (t, s) = pickup_stops_complete shift_time taken (suc i) xs b m in (t, there s)
pickup_stops_complete shift_time taken i [] b m = elim m [ ]

drop_stops_complete :
    (shift_time : ℕ) (bs : List Booking) (b : Booking)
    → Elem b bs
    → (time : Option Text) × Elem (b.booking_id, time) (drop_stops shift_time bs)
drop_stops_complete shift_time (x ∷ xs) b here = (_, here)
drop_stops_complete shift_time (x ∷ xs) b (there m) =
    let (t, s) = drop_stops_complete shift_time xs b m in (t, there s)
drop_stops_complete shift_time [] b m = elim m [ ]

reordered_complete :
    (group : List Booking) (order : List ℕ) (bs : List Booking)
    → ((i : ℕ) → i < length group → Elem i order)
    → reordered group order ≡ ok bs
    → (b : Booking) → Elem b group
    → Elem b bs
unfolding reordered
reordered_complete [] order bs all h b m = elim m [ ]
reordered_complete (x ∷ xs) order bs all h b m =
    let (i, lt, e) = index_of (x ∷ xs) b m in picked_at (x ∷ xs) order bs i b h (all i lt) e

module _ (directions : Query → Option Directions) (haversine : Point → Point → ℕ)
    (all : OrdersWaypoints directions) where
  pub generate_optimal_route-IsComplete :
      (group : List Booking) (drop : Spot) (shift_time : ℕ) (use_centroid : Bool) (plan : Plan)
      → generate_optimal_route directions haversine group drop shift_time use_centroid ≡ ok plan
      → IsComplete plan group
  unfolding generate_optimal_route
  generate_optimal_route-IsComplete group drop shift_time use_centroid plan h b m =
      let (origin, fo, h1) = bind-eq-ok (origin_booking haversine use_centroid drop group) _ h in
      let remaining = remaining_bookings origin group in
      let query : Query = record {
        origin = pickup_spot origin;
        destination = drop;
        waypoints = map pickup_spot remaining;
        is_reordered = true;
      } in
      let (answer, fa, h2) = or_raise-eq-ok (directions query) Failure.no_candidate _ h1 in
      let (others, fr, h3) = bind-eq-ok (reordered remaining answer.waypoint_order) _ h2 in
      let e = ok_injective (pickup_plan shift_time answer.legs (origin ∷ others)) plan h3 in
      let taken = total_duration answer.legs + 120 * length (origin ∷ others) + 15 * 60 in
      let stop : (c : Booking)
          → Elem c (origin ∷ others)
          → (time : Option Text) × Elem (c.booking_id, time) plan.stops =
        λ c k.
          let (t, s) = pickup_stops_complete shift_time taken 0 (origin ∷ others) c k in
          (t, subst (λ (p : Plan). Elem (c.booking_id, t) p.stops) e s) in
      elim (Bool-cases (b.booking_id == origin.booking_id)) [
        | inl same ↦
            let (t, s) = stop origin here in
            let key : origin.booking_id ≡ b.booking_id = ground arith in
            (t, subst (λ k. Elem (k, t) plan.stops) key s)
        | inr other ↦
            let mr =
              Elem-filter_of (λ (b : Booking). not (b.booking_id == origin.booking_id)) group m
                (rw other refl) in
            stop b (
              there (
                reordered_complete remaining answer.waypoint_order others
                  (λ i lt.
                    all query answer fa i
                      (subst (λ n. i < n) (sym (length-map pickup_spot remaining)) lt))
                  fr b mr))
      ]

  pub generate_drop_route-IsComplete :
      (group : List Booking) (office : Spot) (shift_time : ℕ) (optimize_route : Bool) (plan : Plan)
      → generate_drop_route directions haversine group office shift_time optimize_route ≡ ok plan
      → IsComplete plan group
  unfolding generate_drop_route
  generate_drop_route-IsComplete group office shift_time optimize_route plan h b m =
      let (u, fu, h1) = bind-eq-ok (check_drops haversine office group) _ h in
      let query : Query = record {
        origin = office;
        destination = office;
        waypoints = map drop_spot group;
        is_reordered = optimize_route;
      } in
      let (answer, fa, h2) = or_raise-eq-ok (directions query) Failure.no_candidate _ h1 in
      let (ordered, fr, h3) = bind-eq-ok (picked group answer.waypoint_order) _ h2 in
      let (enough, h4) =
        raise_if-eq-ok (ltb (length answer.legs) (length ordered)) Failure.raised _ h3 in
      let e = ok_injective (drop_plan shift_time answer.legs ordered) plan h4 in
      let (i, lt, at) = index_of group b m in
      let asked =
        all query answer fa i (subst (λ n. i < n) (sym (length-map drop_spot group)) lt) in
      let (t, s) =
        drop_stops_complete shift_time ordered b
          (picked_at group answer.waypoint_order ordered i b fr asked at) in
      (t, subst (λ (p : Plan). Elem (b.booking_id, t) p.stops) e s)
