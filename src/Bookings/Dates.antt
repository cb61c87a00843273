-- ===== src/Bookings/Dates.antt =====
-- `sorted(set(dates))` of `create_booking` (app/routes/booking_router.py).
use fleet_manager.Prelude.{
  ℕ, ◌<◌, ◌≡◌, sym, subst, List, [], ◌∷◌, arith, ltb, ◌==◌, All, Elem, here, there, Elem-cons,
  Bool-cases, inl, inr, ◌⊎◌, ◌↔◌,
}
use fleet_manager.Bookings.Create.{insert_date, sorted_dates}

-- Each date is later than those before it.
abbrev pub IsAscending : List ℕ → Type 0
IsAscending [] = Unit
IsAscending (d ∷ ds) = All (λ e. d < e) ds × IsAscending ds

insert_date-All :
    (n d : ℕ) (ds : List ℕ) → n < d → All (λ e. n < e) ds → All (λ e. n < e) (insert_date d ds)
insert_date-All n d [] h all = (h, tt)
insert_date-All n d (x ∷ xs) h all = ground (arith, insert_date-All n d xs h all.1)

All-later : (m n : ℕ) (ds : List ℕ) → m < n → All (λ e. n < e) ds → All (λ e. m < e) ds
All-later m n [] h all = tt
All-later m n (x ∷ xs) h all = (omega arith, All-later m n xs h all.1)

insert_date-IsAscending : (d : ℕ) (ds : List ℕ) → IsAscending ds → IsAscending (insert_date d ds)
insert_date-IsAscending d [] up = (tt, tt)
insert_date-IsAscending d (x ∷ xs) (first, up) =
    ground (arith, All-later d x xs, insert_date-All x d xs, insert_date-IsAscending d xs up)

pub sorted_dates-IsAscending : (ds : List ℕ) → IsAscending (sorted_dates ds)
sorted_dates-IsAscending [] = tt
sorted_dates-IsAscending (d ∷ ds) =
    insert_date-IsAscending d (sorted_dates ds) (sorted_dates-IsAscending ds)

Elem-insert_date : (a d : ℕ) (ds : List ℕ) → Elem a (insert_date d ds) → (a ≡ d) ⊎ Elem a ds
Elem-insert_date a d [] m = elim (Elem-cons m) [ inl e ↦ inl e | inr n ↦ elim n [ ] ]
Elem-insert_date a d (x ∷ xs) m = elim (Bool-cases (ltb d x)) [
  | inl before ↦
      let m' : Elem a (d ∷ x ∷ xs) = rw before at m in
      elim (Elem-cons m') [ inl e ↦ inl e | inr n ↦ inr n ]
  | inr later ↦ elim (Bool-cases (d == x)) [
    | inl same ↦ inr (rw (later, same) at m)
    | inr other ↦
        let m' : Elem a (x ∷ insert_date d xs) = rw (later, other) at m in
        elim (Elem-cons m') [
          | inl e ↦ inr (subst (λ y. Elem y (x ∷ xs)) (sym e) here)
          | inr n ↦ elim (Elem-insert_date a d xs n) [ inl e ↦ inl e | inr k ↦ inr (there k) ]
        ]
  ]
]

insert_date-Elem : (d : ℕ) (ds : List ℕ) → Elem d (insert_date d ds)
insert_date-Elem d [] = here
insert_date-Elem d (x ∷ xs) = elim (Bool-cases (ltb d x)) [
  | inl before ↦ rw before here
  | inr later ↦ elim (Bool-cases (d == x)) [
    | inl same ↦ rw (later, same) (subst (λ y. Elem y (x ∷ xs)) ((ground arith)) here)
    | inr other ↦ rw (later, other) (there (insert_date-Elem d xs))
  ]
]

insert_date-Elem_old : (a d : ℕ) (ds : List ℕ) → Elem a ds → Elem a (insert_date d ds)
insert_date-Elem_old a d [] m = elim m [ ]
insert_date-Elem_old a d (x ∷ xs) m = elim (Bool-cases (ltb d x)) [
  | inl before ↦ rw before (there m)
  | inr later ↦ elim (Bool-cases (d == x)) [
    | inl same ↦ rw (later, same) m
    | inr other ↦
        rw (later, other)
          (elim (Elem-cons m) [
            | inl e ↦ subst (λ y. Elem y (x ∷ insert_date d xs)) (sym e) here
            | inr n ↦ there (insert_date-Elem_old a d xs n)
          ])
  ]
]

pub sorted_dates-Elem : (a : ℕ) (ds : List ℕ) → Elem a (sorted_dates ds) ↔ Elem a ds
sorted_dates-Elem a [] = ((λ m. m), (λ m. m))
sorted_dates-Elem a (d ∷ ds) = (
  (λ m. elim (Elem-insert_date a d (sorted_dates ds) m) [
    | inl e ↦ subst (λ y. Elem y (d ∷ ds)) (sym e) here
    | inr n ↦ there ((sorted_dates-Elem a ds).0 n)
  ]),
  (λ m. elim (Elem-cons m) [
    | inl e ↦
        subst (λ y. Elem y (insert_date d (sorted_dates ds))) (sym e)
          (insert_date-Elem d (sorted_dates ds))
    | inr n ↦ insert_date-Elem_old a d (sorted_dates ds) ((sorted_dates-Elem a ds).1 n)
  ]),
)
