-- ===== src/Safety/Escort/Rules.antt =====
-- What the escort rules demand (`route_requires_escort` in app/utils/otp_utils.py).
use fleet_manager.Prelude.{
  ℕ, ◌-◌, ◌≡◌, refl, ◌≢◌, true, Option, none, some, List, [], ◌∷◌, map, arith, ◌==◌, any, filter,
  length, sym, ◌∙◌,
}
use fleet_manager.Prelude.Sort.{sort_by, any-sort_by}
use fleet_manager.Store.{Db, RouteManagementBooking, Shift, TenantConfig, Gender, FemaleConstraint}
use fleet_manager.Safety.Escort.{
  is_female, gender_of_booking, employee_gender_at_position, ordered_booking_ids, nth, tenant_rule,
  stops_of, shift_of_route, escort_for_shift, shift_rule, route_requires_escort,
}

any-nth :
    (stops : List (Option Gender)) (i : ℕ)
    → is_female (nth stops i) ≡ true
    → any is_female stops ≡ true
any-nth [] i h = h
any-nth (g ∷ gs) ℕ.zero h = ground arith
any-nth (g ∷ gs) (ℕ.suc i) h = ground (arith, any-nth gs i)

tenant_rule-female :
    (config : Option TenantConfig) (t : ℕ) (stops : List (Option Gender))
    → tenant_rule config t stops ≡ true
    → any is_female stops ≡ true
unfolding tenant_rule
tenant_rule-female none t stops h = cc
tenant_rule-female (some c) t stops h = ground arith

shift_rule-female :
    (fc : Option FemaleConstraint) (config : Option TenantConfig) (t : ℕ)
    (stops : List (Option Gender))
    → shift_rule fc config t stops ≡ true
    → (any is_female stops ≡ true) × (fc ≢ some FemaleConstraint.disable)
unfolding shift_rule
shift_rule-female (some FemaleConstraint.disable) config t stops h = absurd (cc)
shift_rule-female none config t [] h = absurd (cc)
shift_rule-female none config t (g ∷ gs) h = (tenant_rule-female config t (g ∷ gs) h, λ e. cc)
shift_rule-female (some fc) config t [] h = ground arith
shift_rule-female (some FemaleConstraint.any_female) config t (g ∷ gs) h = (h, λ e. cc)
shift_rule-female (some FemaleConstraint.first_last_female) config t (g ∷ gs) h =
    ground (arith, any-nth (g ∷ gs) 0, any-nth (g ∷ gs) (length (g ∷ gs) - 1))
shift_rule-female (some FemaleConstraint.second_second_last_female) config t (g ∷ gs) h =
    ground (arith, any-nth (g ∷ gs) 1, any-nth (g ∷ gs) (length (g ∷ gs) - 2))

any-map {ℓ} :
    {A : Type ℓ} (f : ℕ → Option Gender) (g : A → ℕ) (xs : List A)
    → any is_female (map f (map g xs)) ≡ any (λ x. is_female (f (g x))) xs
any-map f g [] = refl
any-map f g (x ∷ xs) = ground (arith, any-map f g xs)

shift_rule-any_female :
    (config : Option TenantConfig) (t : ℕ) (stops : List (Option Gender))
    → shift_rule (some FemaleConstraint.any_female) config t stops ≡ any is_female stops
unfolding shift_rule
shift_rule-any_female config t [] = refl
shift_rule-any_female config t (g ∷ gs) = refl

module _ (db : Db) (config : Option TenantConfig) (route_id tenant_id : ℕ) where
  any-stops_of :
      any is_female (stops_of db route_id)
      ≡ any
          (λ l. is_female (gender_of_booking db l.booking_id))
          (filter (λ l. l.route_id == route_id) db.links)
  unfolding employee_gender_at_position ordered_booking_ids
  any-stops_of =
      let rows : List RouteManagementBooking = filter (λ l. l.route_id == route_id) db.links in
      any-map (gender_of_booking db) (λ l. l.booking_id) (sort_by (λ l. l.order_id) rows)
      ∙ any-sort_by (λ l. l.order_id) (λ l. is_female (gender_of_booking db l.booking_id)) rows

  escort_for_shift-female :
      (o : Option Shift)
      → escort_for_shift db config route_id o ≡ true
      → (shift : Shift) × (o ≡ some shift)
        × (shift.female_constraint ≢ some FemaleConstraint.disable)
        × (any is_female (stops_of db route_id) ≡ true)
  unfolding escort_for_shift
  escort_for_shift-female none h = absurd (cc)
  escort_for_shift-female (some s) h =
      let (woman, enabled) =
        shift_rule-female s.female_constraint config s.shift_time (stops_of db route_id) h in
      (s, refl, enabled, woman)

  -- A route for which an escort is required has a shift that does not disable escorts, and some
  -- link of the route, in whatever order, is to a woman's booking.
  pub route_requires_escort-female :
      route_requires_escort db config route_id tenant_id ≡ true
      → (shift : Shift) × (shift_of_route db route_id tenant_id ≡ some shift)
        × (shift.female_constraint ≢ some FemaleConstraint.disable)
        × (any
              (λ l. is_female (gender_of_booking db l.booking_id))
              (filter (λ l. l.route_id == route_id) db.links)
            ≡ true)
  unfolding route_requires_escort
  route_requires_escort-female h =
      let (s, found, enabled, woman) =
        escort_for_shift-female (shift_of_route db route_id tenant_id) h in
      (s, found, enabled, sym any-stops_of ∙ woman)

  -- Where the shift's constraint is ANY_FEMALE, an escort is required exactly if some link of the
  -- route, in whatever order, is to a woman's booking; the tenant's configuration has no say.
  pub route_requires_escort-any_female :
      (shift : Shift)
      → shift_of_route db route_id tenant_id ≡ some shift
      → shift.female_constraint ≡ some FemaleConstraint.any_female
      → route_requires_escort db config route_id tenant_id
        ≡ any
            (λ l. is_female (gender_of_booking db l.booking_id))
            (filter (λ l. l.route_id == route_id) db.links)
  unfolding route_requires_escort escort_for_shift
  route_requires_escort-any_female shift found fc =
      rw found (rw fc (shift_rule-any_female config shift.shift_time _ ∙ any-stops_of))
