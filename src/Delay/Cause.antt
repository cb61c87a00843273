-- ===== src/Delay/Cause.antt =====
-- The root cause of a delay (`_classify` in app/services/delay_classification_service.py).
use fleet_manager.Prelude.{
  ◌≤◌, sym, subst, ◌↔◌, ◌⊎◌, ◌==◌, ==_iff, filter, here, Elem-cons, Elem-filter, Elem-filter_of,
  All-Elem, ℕ, ◌≡◌, refl, true, false, Option, some, none, List, [], ◌∷◌, arith, any, Elem,
  any-true, any-false, Bool-cases, inl, inr,
}
use fleet_manager.Prelude.Int.{ℤ, ◌<ℤ◌, ◌+ℤ◌, ◌-ℤ◌}
use fleet_manager.Prelude.Sort.{IsSortedBy, sort_by-IsSortedBy, Elem-sort_by, Elem-of_sort_by}
use fleet_manager.Store.{Db, RouteManagementBooking, DelayType, DelayCategory}
use fleet_manager.Delay.{
  parse_hhmm_to_minutes, difference, stop_delay_minutes, is_over, classify_stops, stops_of_route,
  classify_delay_category,
}

-- The stop has both times, and was reached more than the grace after its estimate.
abbrev pub IsLateStop : ℤ → RouteManagementBooking → Type 0
IsLateStop grace rb =
    (est : ℤ) × (act : ℤ) × (parse_hhmm_to_minutes rb.estimated_pick_up_time ≡ some est)
    × (parse_hhmm_to_minutes rb.actual_pick_up_time ≡ some act)
    × (est +ℤ grace <ℤ act)

-- A stop of the route.
abbrev pub IsStop : Db → ℕ → RouteManagementBooking → Type 0
IsStop db route_id rb = Elem rb db.links × (rb.route_id ≡ route_id)

-- A stop that no other stop of the route comes before.
abbrev pub IsFirstStop : Db → ℕ → RouteManagementBooking → Type 0
IsFirstStop db route_id rb =
    IsStop db route_id rb
    × ((o : RouteManagementBooking) → IsStop db route_id o → rb.order_id ≤ o.order_id)

-- What each category says of the stops of a late route.
abbrev pub Explains : DelayCategory → Db → ℕ → ℤ → ℤ → Type 0
Explains DelayCategory.no_delay db route_id dg eg = ⊥
Explains DelayCategory.driver_delay db route_id dg eg =
    (first : RouteManagementBooking) × IsFirstStop db route_id first × IsLateStop dg first
Explains DelayCategory.employee_delay db route_id dg eg =
    (first : RouteManagementBooking) × IsFirstStop db route_id first
    × ¬ IsLateStop dg first
    × (rb : RouteManagementBooking) × IsStop db route_id rb
    × IsLateStop eg rb
Explains DelayCategory.traffic_delay db route_id dg eg =
    (((rb : RouteManagementBooking) → ¬ IsStop db route_id rb)
      ⊎ ((first : RouteManagementBooking) × IsFirstStop db route_id first × ¬ IsLateStop dg first))
    × ((rb : RouteManagementBooking) → IsStop db route_id rb → ¬ IsLateStop eg rb)

sub_lt : (g est act : ℤ) → (g <ℤ act -ℤ est) ↔ (est +ℤ g <ℤ act)
unfolding ◌-ℤ◌ ◌+ℤ◌
sub_lt g est act = ground arith

over_difference :
    (g : ℤ) (e a : Option ℤ)
    → is_over g (difference e a) ≡ true
    → (est : ℤ) × (act : ℤ) × (e ≡ some est) × (a ≡ some act) × (est +ℤ g <ℤ act)
over_difference g none a h = absurd (cc)
over_difference g (some est) none h = absurd (cc)
over_difference g (some est) (some act) h =
    (est, act, refl, refl, (sub_lt g est act).0 (ground arith))

late_of_over :
    (g : ℤ) (rb : RouteManagementBooking)
    → is_over g (stop_delay_minutes rb) ≡ true
    → IsLateStop g rb
unfolding stop_delay_minutes
late_of_over g rb h =
    over_difference g (parse_hhmm_to_minutes rb.estimated_pick_up_time)
      (parse_hhmm_to_minutes rb.actual_pick_up_time) h

not_late_of_over :
    (g : ℤ) (rb : RouteManagementBooking)
    → is_over g (stop_delay_minutes rb) ≡ false
    → ¬ IsLateStop g rb
unfolding stop_delay_minutes
not_late_of_over g rb h (est, act, e, a, l) =
    let known : is_over g (some (act -ℤ est)) ≡ false =
      subst (λ x. is_over g (difference x (some act)) ≡ false) e
        (subst
          (λ x. is_over g (difference (parse_hhmm_to_minutes rb.estimated_pick_up_time) x) ≡ false)
          a h) in
    let over = (sub_lt g est act).1 l in ground arith

stops_of_route-IsStop :
    (db : Db) (route_id : ℕ) {rb : RouteManagementBooking}
    → Elem rb (stops_of_route db route_id)
    → IsStop db route_id rb
unfolding stops_of_route
stops_of_route-IsStop db route_id {rb} m =
    let (m', e) =
      Elem-filter (λ l. l.route_id == route_id) db.links
        (Elem-of_sort_by (λ l. l.order_id) (filter (λ l. l.route_id == route_id) db.links) m) in
    (m', (==_iff rb.route_id route_id).0 e)

stops_of_route-complete :
    (db : Db) (route_id : ℕ) (rb : RouteManagementBooking)
    → IsStop db route_id rb
    → Elem rb (stops_of_route db route_id)
unfolding stops_of_route
stops_of_route-complete db route_id rb (m, e) =
    Elem-sort_by (λ l. l.order_id) (filter (λ l. l.route_id == route_id) db.links)
      (Elem-filter_of (λ l. l.route_id == route_id) db.links m (ground arith))

-- The head of the stops is a first one.
stops_of_route-IsFirstStop :
    (db : Db) (route_id : ℕ) (first : RouteManagementBooking) (rest : List RouteManagementBooking)
    → stops_of_route db route_id ≡ first ∷ rest
    → IsFirstStop db route_id first
unfolding stops_of_route
stops_of_route-IsFirstStop db route_id first rest e =
    let sorted : IsSortedBy (λ (l : RouteManagementBooking). l.order_id) (first ∷ rest) =
      subst (IsSortedBy (λ l. l.order_id)) e
        (sort_by-IsSortedBy (λ l. l.order_id) (filter (λ l. l.route_id == route_id) db.links)) in
    let first_there = subst (λ ls. Elem first ls) (sym e) here in
    (
      stops_of_route-IsStop db route_id first_there,
      λ o s.
          elim (Elem-cons (subst (λ ls. Elem o ls) e (stops_of_route-complete db route_id o s))) [
            | inl same ↦ ground arith
            | inr later ↦
                All-Elem (λ (y : RouteManagementBooking). first.order_id ≤ y.order_id) rest sorted.0
                  later
          ],
    )

classify_stops-Explains :
    (db : Db) (route_id : ℕ) (dg eg : ℤ) (stops : List RouteManagementBooking)
    → stops_of_route db route_id ≡ stops
    → Explains (classify_stops stops dg eg) db route_id dg eg
unfolding classify_stops
classify_stops-Explains db route_id dg eg [] none_there =
    let nobody : (rb : RouteManagementBooking) → ¬ IsStop db route_id rb = λ rb s.
      elim (subst (λ ls. Elem rb ls) none_there (stops_of_route-complete db route_id rb s)) [ ] in
    (inl nobody, λ rb s. absurd (nobody rb s))
classify_stops-Explains db route_id dg eg (first ∷ rest) e =
    let start = stops_of_route-IsFirstStop db route_id first rest e in
    let fault = λ (rb : RouteManagementBooking). is_over eg (stop_delay_minutes rb) in
    elim (Bool-cases (is_over dg (stop_delay_minutes first))) [
      | inl late ↦ rw late (first, start, late_of_over dg first late)
      | inr punctual ↦ elim (Bool-cases (any fault (first ∷ rest))) [
        | inl some_stop ↦
            let (rb, m, over) = any-true fault (first ∷ rest) some_stop in
            rw punctual (
              rw some_stop (
                first,
                start,
                not_late_of_over dg first punctual,
                rb,
                stops_of_route-IsStop db route_id (subst (λ ls. Elem rb ls) (sym e) m),
                late_of_over eg rb over,
              ))
        | inr no_stop ↦ rw punctual (
            rw no_stop (
              inr (first, start, not_late_of_over dg first punctual),
              λ rb s. not_late_of_over eg rb (
                  any-false fault (first ∷ rest) no_stop
                    (subst (λ ls. Elem rb ls) e (stops_of_route-complete db route_id rb s))),
            ))
      ]
    ]

-- A late route is put down to the driver if its first stop was reached later than the driver's grace
-- after its estimate, else to an employee if any stop of the route was reached later than the
-- employees' grace after its estimate, else to traffic; a first stop has no stop of the route with a
-- lower order. A route that is not late has no category.
pub classify_delay_category-Explains :
    (db : Db) (route_id : ℕ) (dg eg : ℤ)
    → Explains (classify_delay_category db route_id DelayType.late dg eg) db route_id dg eg
      × (classify_delay_category db route_id DelayType.early dg eg ≡ DelayCategory.no_delay)
      × (classify_delay_category db route_id DelayType.on_time dg eg ≡ DelayCategory.no_delay)
unfolding classify_delay_category
classify_delay_category-Explains db route_id dg eg =
    (classify_stops-Explains db route_id dg eg (stops_of_route db route_id) refl, refl, refl)
