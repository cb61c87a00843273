-- ===== src/Enforcement/Laws.antt =====
-- What the one-trip policy achieves (`enforce_one_trip_per_shift` in
-- app/utils/trip_enforcement.py).
use fleet_manager.Prelude.{
  ℕ, ◌≡◌, refl, sym, ◌∙◌, subst, ◌⊎◌, Bool, true, false, not, Option, none, some, List, [], ◌∷◌,
  arith, ◌==◌, ==_refl, any, filter, Elem, here, there, Elem-cons, Elem-filter, Elem-filter_of,
  any-false, any-false_of, any-of_Elem, Bool-cases, inl, inr, any-true, ==_iff, find?,
}
use fleet_manager.Prelude.Result.{ok, Result-cases}
use fleet_manager.Store.{Db, RouteManagementBooking, Booking, get_booking}
use fleet_manager.Enforcement.{
  conflicts_in, existing_links, is_active_status, is_deleted, delete_links, settle, enforce_booking,
  enforce_each, enforce_one_trip_per_shift,
}

module _ (route_id tenant_id : ℕ) where
  -- Some link puts the booking on another active route.
  abbrev pub HasConflict : Db → ℕ → Type 0
  HasConflict db b = any (conflicts_in route_id tenant_id db.routes b) db.links ≡ true

  abbrev pub IsClear : Db → ℕ → Type 0
  IsClear db b = any (conflicts_in route_id tenant_id db.routes b) db.links ≡ false

  -- What one round may do to the table of links.
  pub record Shrinks (db db' : Db) : Type 0 where
    pub routes_kept : db'.routes ≡ db.routes
    pub bookings_kept : db'.bookings ≡ db.bookings
    pub links_old : (l : RouteManagementBooking) → Elem l db'.links → Elem l db.links

  pub Shrinks-refl : (db : Db) → Shrinks db db
  Shrinks-refl db = record { routes_kept = refl; bookings_kept = refl; links_old = λ l m. m }

  Shrinks-trans : {a b c : Db} → Shrinks a b → Shrinks b c → Shrinks a c
  Shrinks-trans s t = record {
    routes_kept = t.routes_kept ∙ s.routes_kept;
    bookings_kept = t.bookings_kept ∙ s.bookings_kept;
    links_old = λ l m. s.links_old l (t.links_old l m);
  }

  Shrinks-IsClear : {db db' : Db} (b : ℕ) → Shrinks db db' → IsClear db b → IsClear db' b
  Shrinks-IsClear {db} {db'} b s clear =
      any-false_of (conflicts_in route_id tenant_id db'.routes b) db'.links (λ l m.
        rw s.routes_kept (
          any-false (conflicts_in route_id tenant_id db.routes b) db.links clear (s.links_old l m)))

  delete_links-Shrinks :
      (gone : List RouteManagementBooking) (db : Db) → Shrinks db (delete_links gone db)
  unfolding delete_links
  delete_links-Shrinks gone db = record {
    routes_kept = refl;
    bookings_kept = refl;
    links_old = λ l m. (Elem-filter (λ l. not (is_deleted gone l)) db.links m).0;
  }

  -- Deleting the links found leaves the booking clear.
  delete_links-IsClear :
      (db : Db) (b : ℕ) → IsClear (delete_links (existing_links route_id tenant_id db b) db) b
  unfolding delete_links existing_links
  delete_links-IsClear db b =
      let p = conflicts_in route_id tenant_id db.routes b in
      any-false_of p _ (λ l m.
        let (old, kept) = Elem-filter (λ l. not (is_deleted (filter p db.links) l)) db.links m in
        elim (Bool-cases (p l)) [
          | inr e ↦ e
          | inl e ↦
              let gone =
                any-of_Elem (λ (m : RouteManagementBooking). m.id == l.id) (filter p db.links)
                  (Elem-filter_of p db.links old e) (==_refl l.id) in
              absurd (ground arith)
        ])

  any-of_nil :
      (p : RouteManagementBooking → Bool) (ls : List RouteManagementBooking)
      → filter p ls ≡ []
      → any p ls ≡ false
  any-of_nil p [] e = refl
  any-of_nil p (l ∷ ls) e = ground (arith, any-of_nil p ls)

  -- The booking, if it is there, is neither ongoing nor completed.
  abbrev pub IsMovable : Db → ℕ → Type 0
  IsMovable db b =
      (booking : Booking)
      → get_booking db b ≡ some booking
      → is_active_status booking.status ≡ false

  settle-ok :
      (auto_move : Bool) (db : Db) (b : ℕ) (gone : List RouteManagementBooking) (o : Option Booking)
      {db' : Db}
      → settle auto_move db b gone o ≡ ok db'
      → ((gone ≡ []) × (db' ≡ db))
        ⊎ ((auto_move ≡ true)
            × (db' ≡ delete_links gone db)
            × ((booking : Booking) → o ≡ some booking → is_active_status booking.status ≡ false))
  settle-ok auto_move db b [] o h = inl (refl, ground arith)
  settle-ok true db b (l ∷ ls) none h = inr (refl, ground arith, λ k e. cc)
  settle-ok false db b (l ∷ ls) none h = absurd (cc)
  settle-ok auto_move db b (l ∷ ls) (some k) h = elim (Bool-cases (is_active_status k.status)) [
    | inl active ↦ absurd (ground arith)
    | inr idle ↦ elim (Bool-cases auto_move) [
      | inl moving ↦ inr (moving, ground arith, λ k' e. ground arith)
      | inr blocking ↦ absurd (ground arith)
    ]
  ]

  -- The link has been deleted for a conflict of a listed booking, which could be moved.
  pub record IsMoved (auto_move : Bool) (db : Db) (ids : List ℕ) (l : RouteManagementBooking)
      : Type 0 where
    pub booking_id : ℕ
    pub link : RouteManagementBooking
    pub moving : auto_move ≡ true
    pub listed : Elem booking_id ids
    pub was_there : Elem link db.links
    pub same_id : link.id ≡ l.id
    pub conflicting : conflicts_in route_id tenant_id db.routes booking_id link ≡ true
    pub movable : IsMovable db booking_id

  first : (b : ℕ) (ids : List ℕ) (c : ℕ) → Elem c (b ∷ []) → Elem c (b ∷ ids)
  first b ids c m = elim (Elem-cons m) [
    | inl e ↦ subst (λ x. Elem x (b ∷ ids)) (sym e) here
    | inr n ↦ elim n [ ]
  ]

  single : (db' : Db) (b : ℕ) → IsClear db' b → (c : ℕ) → Elem c (b ∷ []) → IsClear db' c
  single db' b clear c m = elim (Elem-cons m) [
    | inl e ↦ subst (λ x. IsClear db' x) (sym e) clear
    | inr n ↦ elim n [ ]
  ]

  -- What an accepted run leaves.
  pub record IsEnforced (auto_move : Bool) (db db' : Db) (ids : List ℕ) : Type 0 where
    pub clear : (b : ℕ) → Elem b ids → IsClear db' b
    pub shrinks : Shrinks db db'
    pub only_moved :
        (l : RouteManagementBooking)
        → Elem l db.links
        → Elem l db'.links ⊎ IsMoved auto_move db ids l

  module _ (auto_move : Bool) where
    kept_or_IsMoved :
        (db : Db) (b : ℕ)
        → auto_move ≡ true
        → IsMovable db b
        → (l : RouteManagementBooking) → Elem l db.links
        → Elem l (delete_links (existing_links route_id tenant_id db b) db).links
          ⊎ IsMoved auto_move db (b ∷ []) l
    unfolding delete_links existing_links
    kept_or_IsMoved db b moving movable l m =
        let p = conflicts_in route_id tenant_id db.routes b in
        let same_key = λ (k : RouteManagementBooking). k.id == l.id in
        elim (Bool-cases (any same_key (filter p db.links))) [
          | inr kept ↦
              inl
                (Elem-filter_of (λ l. not (is_deleted (filter p db.links) l)) db.links m (rw kept))
          | inl gone ↦
              let (k, mk, ek) = any-true same_key (filter p db.links) gone in
              let (old, pk) = Elem-filter p db.links mk in
              inr (record {
                booking_id = b;
                link = k;
                moving = moving;
                listed = here;
                was_there = old;
                same_id = (==_iff k.id l.id).0 ek;
                conflicting = pk;
                movable = movable;
              })
        ]

    -- A round that succeeds.
    enforce_booking_lem :
        (db : Db) (b : ℕ) {db' : Db}
        → enforce_booking route_id tenant_id auto_move db b ≡ ok db'
        → IsEnforced auto_move db db' (b ∷ [])
    unfolding enforce_booking existing_links
    enforce_booking_lem db b {db'} h =
        let p = conflicts_in route_id tenant_id db.routes b in
        elim (settle-ok auto_move db b (existing_links route_id tenant_id db b) (get_booking db b)
          h) [
            | inl (none_found, e) ↦ rw e (record {
              clear = single db b (any-of_nil p db.links none_found);
              shrinks = Shrinks-refl db;
              only_moved = λ l m. inl m;
            })
            | inr (moving, e, movable) ↦ rw e (record {
              clear =
                  single (delete_links (existing_links route_id tenant_id db b) db) b
                    (delete_links-IsClear db b);
              shrinks = delete_links-Shrinks (existing_links route_id tenant_id db b) db;
              only_moved = kept_or_IsMoved db b moving movable;
            })
          ]

    -- What a later round has moved was there, and could be moved, before the first.
    IsMoved-before :
        (db d : Db) (b : ℕ) (ids : List ℕ) (l : RouteManagementBooking)
        → Shrinks db d
        → IsMoved auto_move d ids l
        → IsMoved auto_move db (b ∷ ids) l
    IsMoved-before db d b ids l s v = record {
      booking_id = v.booking_id;
      link = v.link;
      moving = v.moving;
      listed = there v.listed;
      was_there = s.links_old v.link v.was_there;
      same_id = v.same_id;
      conflicting =
          subst (λ rs. conflicts_in route_id tenant_id rs v.booking_id v.link ≡ true) s.routes_kept
            v.conflicting;
      movable =
          subst
            (λ bs.
              (k : Booking)
              → find? (λ (x : Booking). x.booking_id == v.booking_id) bs ≡ some k
              → is_active_status k.status ≡ false)
            s.bookings_kept v.movable;
    }

    IsMoved-first :
        (db : Db) (b : ℕ) (ids : List ℕ) (l : RouteManagementBooking)
        → IsMoved auto_move db (b ∷ []) l
        → IsMoved auto_move db (b ∷ ids) l
    IsMoved-first db b ids l v = record {
      booking_id = v.booking_id;
      link = v.link;
      moving = v.moving;
      listed = first b ids v.booking_id v.listed;
      was_there = v.was_there;
      same_id = v.same_id;
      conflicting = v.conflicting;
      movable = v.movable;
    }

    join_rounds :
        (db d db' : Db) (b : ℕ) (ids : List ℕ)
        → IsEnforced auto_move db d (b ∷ [])
        → IsEnforced auto_move d db' ids
        → IsEnforced auto_move db db' (b ∷ ids)
    join_rounds db d db' b ids f g = record {
      clear = λ c m. elim (Elem-cons m) [
        | inl e ↦ Shrinks-IsClear c g.shrinks (subst (λ x. IsClear d x) (sym e) (f.clear b here))
        | inr m' ↦ g.clear c m'
      ];
      shrinks = Shrinks-trans f.shrinks g.shrinks;
      only_moved = λ l m. elim (f.only_moved l m) [
        | inr v ↦ inr (IsMoved-first db b ids l v)
        | inl m' ↦ elim (g.only_moved l m') [
          | inl kept ↦ inl kept
          | inr v ↦ inr (IsMoved-before db d b ids l f.shrinks v)
        ]
      ];
    }

    enforce_each_lem :
        (ids : List ℕ) (db : Db) {db' : Db}
        → enforce_each route_id tenant_id auto_move db ids ≡ ok db'
        → IsEnforced auto_move db db' ids
    unfolding enforce_each
    enforce_each_lem [] db {db'} h =
        subst (λ d. IsEnforced auto_move db d []) (ground arith)
          (record {
            clear = λ c m. elim m [ ];
            shrinks = Shrinks-refl db;
            only_moved = λ l m. inl m;
          })
    enforce_each_lem (b ∷ ids) db {db'} h =
        elim (Result-cases (enforce_booking route_id tenant_id auto_move db b)) [
          | inr (e, refused) ↦ absurd (ground arith)
          | inl (d, round) ↦
              join_rounds db d db' b ids (enforce_booking_lem db b {db' = d} round)
                (enforce_each_lem ids d {db' = db'} (ground arith))
        ]

    -- An accepted run of the enabled policy leaves none of the bookings on another active route of
    -- the tenant, changes no route and no booking and adds no link; and a link that is gone had the
    -- id of a link that put a listed booking, neither ongoing nor completed, on another active
    -- route, which happens only where the tenant moves bookings automatically.
    pub enforce_one_trip_per_shift-IsEnforced :
        (db : Db) (ids : List ℕ) {db' : Db}
        → enforce_one_trip_per_shift db route_id tenant_id ids true auto_move ≡ ok db'
        → IsEnforced auto_move db db' ids
    unfolding enforce_one_trip_per_shift
    enforce_one_trip_per_shift-IsEnforced db ids {db'} h = enforce_each_lem ids db {db' = db'} h
