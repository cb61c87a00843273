-- ===== src/Trip/Exclusive.antt =====
-- The routes under way of one driver, and the life of a route (`start_duty` and `end_duty` in
-- app/routes/app_driver_router.py).
use fleet_manager.Prelude.{
  ℕ, ◌≡◌, refl, sym, ◌∙◌, subst, ap, List, [], ◌∷◌, arith, Elem, Elem-replace, ◌⊎◌, inl, inr,
}
use fleet_manager.Store.{Db, Route, RouteStatus, Point}
use fleet_manager.Trip.Types.{Driver}
use fleet_manager.Trip.Machine.{Request, committed, handle, serve}
use fleet_manager.Trip.Accepts.{handle-Change}
use fleet_manager.Trip.Effect.{
  Edge, stays, begins, finishes, Clash, Succeeds, RouteEffect, kept, wrote, Change-RouteEffect,
}

-- Two routes under way with one driver of one tenant are the same route.
abbrev pub IsExclusive : List Route → Type 0
IsExclusive rows = (a b : Route) → Elem a rows → Elem b rows → Clash a b → a.route_id ≡ b.route_id

Clash-sym : (a b : Route) → Clash a b → Clash b a
Clash-sym a b (x, y, t, d, p, q) = (y, x, sym t, d, q, p)

-- Nothing that clashes with the new row has another id.
new-alone :
    {rows : List Route} {old new : Route}
    → IsExclusive rows
    → Succeeds rows old new
    → (r : Route) → Elem r rows
    → Clash r new
    → r.route_id ≡ new.route_id
new-alone {rows} {old} {new} ex s r m (x, y, t, d, p, q) = elim s.alone [
  | inr free ↦ free r m (x, y, t, d, p, q)
  | inl going ↦
      ex r old m s.was_there (x, going, t ∙ s.same_tenant, d, p, sym s.same_driver ∙ q)
      ∙ sym s.same_id
]

pub RouteEffect-IsExclusive :
    {rows rows' : List Route} → RouteEffect rows rows' → IsExclusive rows → IsExclusive rows'
RouteEffect-IsExclusive (kept e) ex = rw e ex
RouteEffect-IsExclusive {rows} (wrote old new s e) ex = rw e (λ a b ma mb c.
    elim (Elem-replace (λ r. r.route_id) new rows ma) [
      | inl ea ↦ elim (Elem-replace (λ r. r.route_id) new rows mb) [
        | inl eb ↦ cc
        | inr (mb', _) ↦
            let c' : Clash b new = subst (λ y. Clash b y) ea (Clash-sym a b c) in
            ap (λ (y : Route). y.route_id) ea ∙ sym (new-alone ex s b mb' c')
      ]
      | inr (ma', _) ↦ elim (Elem-replace (λ r. r.route_id) new rows mb) [
        | inl eb ↦
            let c' : Clash a new = subst (λ y. Clash a y) eb c in
            new-alone ex s a ma' c' ∙ sym (ap (λ (y : Route). y.route_id) eb)
        | inr (mb', _) ↦ ex a b ma' mb' c
      ]
    ])

-- A route's status after a series of requests, given the one before.
abbrev pub Later : RouteStatus → RouteStatus → Type 0
Later s t =
    (t ≡ s)
    ⊎ ((s ≡ RouteStatus.driver_assigned)
        × ((t ≡ RouteStatus.ongoing) ⊎ (t ≡ RouteStatus.completed)))
    ⊎ ((s ≡ RouteStatus.ongoing) × (t ≡ RouteStatus.completed))

Edge-Later : {s t u : RouteStatus} → Edge s t → Later t u → Later s u
Edge-Later (stays e) l = ground arith
Edge-Later (begins e f) l = ground arith
Edge-Later (finishes e f) l = ground arith

-- The row that a row after one request stems from.
abbrev pub Stems : List Route → Route → (RouteStatus → RouteStatus → Type 0) → Type 0
Stems rows r' R =
    (r : Route) × Elem r rows
    × (r'.route_id ≡ r.route_id)
    × (r'.tenant_id ≡ r.tenant_id)
    × (r'.assigned_driver_id ≡ r.assigned_driver_id)
    × R r.status r'.status

RouteEffect-Stems :
    {rows rows' : List Route} (r' : Route)
    → RouteEffect rows rows'
    → Elem r' rows'
    → Stems rows r' Edge
RouteEffect-Stems r' (kept e) m = (r', subst (λ l. Elem r' l) e m, refl, refl, refl, stays refl)
RouteEffect-Stems {rows} r' (wrote old new s e) m =
    elim (Elem-replace (λ r. r.route_id) new rows (subst (λ l. Elem r' l) e m)) [
      | inl e' ↦
          subst (λ y. Stems rows y Edge) (sym e')
            (old, s.was_there, s.same_id, s.same_tenant, s.same_driver, s.edge)
      | inr (m', _) ↦ (r', m', refl, refl, refl, stays refl)
    ]

module _ (geodesic : Point → Point → ℕ) where
  -- Every route after a series of requests stems from a route of the same id, tenant and driver,
  -- and its status is the same, or has gone from driver-assigned on to ongoing or completed, or
  -- from ongoing to completed: no request revives a completed or cancelled route, or starts one
  -- without a driver.
  pub serve-Later :
      (reqs : List (Driver × Request)) (db : Db) (r' : Route)
      → Elem r' (serve geodesic db reqs).routes
      → Stems db.routes r' Later
  unfolding serve
  serve-Later [] db r' m = (r', m, refl, refl, refl, inl refl)
  serve-Later ((ctx, req) ∷ reqs) db r' m =
      let db₁ = committed db (handle geodesic db ctx req) in
      let (r₁, m₁, i₁, t₁, d₁, l₁) = serve-Later reqs db₁ r' m in
      let effect = Change-RouteEffect geodesic ctx db (handle-Change geodesic ctx db req) in
      let (r, m₀, i₀, t₀, d₀, e₀) = RouteEffect-Stems r₁ effect m₁ in
      (r, m₀, i₁ ∙ i₀, t₁ ∙ t₀, d₁ ∙ d₀, Edge-Later e₀ l₁)
