-- ===== src/Routes/Targets.antt =====
-- The bookings that a route shall have after an update (`update_route` in
-- app/routes/route_management.py).
use fleet_manager.Prelude.{
  ℕ, ◌≡◌, ◌≢◌, refl, sym, subst, true, false, not, Option, List, [], ◌∷◌, arith, ◌==◌, map,
  any-of_Elem, Elem, here, there, Elem-cons, Elem-append, Elem-append_left, Elem-append_right,
  Elem-filter, Elem-filter_of, Bool-cases, inl, inr, ◌⊎◌, ◌↔◌,
}
use fleet_manager.Store.{Db, Route, RouteManagementBooking, TenantConfig, get_config}
use fleet_manager.Routes.{is_one_of}
use fleet_manager.Routes.Planned.{is_one_of-Elem}
use fleet_manager.Routes.Rework.{links_of}
use fleet_manager.Routes.Update.{Operation, one_trip_enabled, changed_ids}

-- A pass through a set meets its members, and no other number.
abbrev pub IsIteration : (List ℕ → List ℕ) → Type 0
IsIteration iterate = (k : ℕ) (ids : List ℕ) → Elem k (iterate ids) ↔ Elem k ids

-- The booking is linked to the route.
abbrev pub Linked : Db → ℕ → ℕ → Type 0
Linked db route_id k =
    (l : RouteManagementBooking) × Elem l db.links × (l.route_id ≡ route_id) × (l.booking_id ≡ k)

-- What the request makes of the bookings of the route.
abbrev pub Target : Operation → Db → ℕ → List ℕ → ℕ → Type 0
Target Operation.add db route_id ids k = Linked db route_id k ⊎ Elem k ids
Target Operation.remove db route_id ids k = Linked db route_id k × ¬ Elem k ids

-- The policy of one trip per shift is in force for what is added.
abbrev pub IsOneTrip : Operation → Option TenantConfig → Type 0
IsOneTrip operation config = (operation ≡ Operation.add) × (one_trip_enabled config ≡ true)

pub record IsUpdated (operation : Operation) (db db' : Db) (tenant_id route_id : ℕ) (ids : List ℕ)
    : Type 0 where
  pub stops : (k : ℕ) → Linked db' route_id k ↔ Target operation db route_id ids k
  pub other_links :
      (l : RouteManagementBooking) → Elem l db'.links → l.route_id ≢ route_id → Elem l db.links
  pub no_other_trip :
      IsOneTrip operation (get_config db tenant_id)
      → (l : RouteManagementBooking) → Elem l db'.links
      → Elem l.booking_id ids
      → l.route_id ≢ route_id
      → (r : Route) → Elem r db.routes
      → r.route_id ≡ l.route_id
      → r.tenant_id ≡ tenant_id
      → r.is_active ≡ false

module _ (db : Db) (route_id : ℕ) where
  linked_of :
      (ls : List RouteManagementBooking) (k : ℕ)
      → Elem k (map (λ l. l.booking_id) ls)
      → (l : RouteManagementBooking) × Elem l ls × (l.booking_id ≡ k)
  linked_of (l ∷ ls) k m = elim (Elem-cons m) [
    | inl e ↦ (l, here, sym e)
    | inr m' ↦ let (o, mo, eo) = linked_of ls k m' in (o, there mo, eo)
  ]
  linked_of [] k m = elim m [ ]

  id_of_link :
      (ls : List RouteManagementBooking) (l : RouteManagementBooking)
      → Elem l ls
      → Elem l.booking_id (map (λ l. l.booking_id) ls)
  id_of_link (x ∷ ls) l here = here
  id_of_link (x ∷ ls) l (there m) = there (id_of_link ls l m)
  id_of_link [] l m = elim m [ ]

  abbrev pub current : List ℕ
  current = map (λ l. l.booking_id) (links_of db route_id)

  pub current-Linked : (k : ℕ) → Elem k current ↔ Linked db route_id k
  current-Linked k = (
    (λ m.
        let (l, ml, e) = linked_of (links_of db route_id) k m in
        let (ml', t) =
          Elem-filter (λ (l : RouteManagementBooking). l.route_id == route_id) db.links ml in
        (l, ml', ground arith, e)),
    (λ linked.
        let (l, ml, el, ek) = linked in
        subst (λ j. Elem j current) ek
          (id_of_link (links_of db route_id) l (
            Elem-filter_of (λ (l : RouteManagementBooking). l.route_id == route_id) db.links ml
              (ground arith)))),
  )

  is_one_of-of_Elem : (ids : List ℕ) (k : ℕ) → Elem k ids → is_one_of ids k ≡ true
  is_one_of-of_Elem ids k m = any-of_Elem (λ j. j == k) ids m (ground arith)

  -- The computed ids are the target.
  pub changed_ids-Target :
      (operation : Operation) (ids requested : List ℕ)
      → ((k : ℕ) → Elem k requested ↔ Elem k ids)
      → (k : ℕ)
      → Elem k (changed_ids operation current requested) ↔ Target operation db route_id ids k
  changed_ids-Target Operation.add ids requested same k = (
    (λ m. elim (Elem-append current requested m) [
      | inl c ↦ inl ((current-Linked k).0 c)
      | inr r ↦ inr ((same k).0 r)
    ]),
    (λ t. elim t [
      | inl linked ↦ Elem-append_left current requested ((current-Linked k).1 linked)
      | inr r ↦ Elem-append_right current requested ((same k).1 r)
    ]),
  )
  changed_ids-Target Operation.remove ids requested same k = (
    (λ m.
        let (c, other) = Elem-filter (λ k. not (is_one_of requested k)) current m in
        (
          (current-Linked k).0 c,
          λ r. let t = is_one_of-of_Elem requested k ((same k).1 r) in absurd (ground arith),
        )),
    (λ t.
        let (linked, unasked) = t in
        Elem-filter_of (λ k. not (is_one_of requested k)) current ((current-Linked k).1 linked)
          (elim (Bool-cases (is_one_of requested k)) [
            | inl asked ↦ absurd (unasked ((same k).0 (is_one_of-Elem k requested asked)))
            | inr other ↦ rw other refl
          ])),
  )
