-- ===== src/Prelude/Sort.antt =====
-- A stable sort by a key, as `ORDER BY` and `list.sort(key=…)` do, and its laws.
use Prim.Native.Nat.{ℕ, ◌≤◌}
use mathlib.Core.Path.{◌≡◌, refl}
use mathlib.Core.Bool.{Bool, ◌||◌}
use mathlib.Core.List.{List, [], ◌∷◌}
use native.Mathlib.Omega.{arith}
use mathlib.Core.Logic.{inl, inr}
use fleet_manager.Prelude.Tests.{leb, if◌then◌else◌, Bool-cases}
use fleet_manager.Prelude.Lists.{All, All-of_Elem, All-Elem, Elem, here, there, any}

module _ {ℓ} {A : Type ℓ} (key : A → ℕ) where
  abbrev pub insert_by : A → List A → List A
  insert_by a [] = a ∷ []
  insert_by a (x ∷ xs) = if leb (key a) (key x) then a ∷ x ∷ xs else x ∷ insert_by a xs

  unfoldable pub sort_by : List A → List A
  sort_by [] = []
  sort_by (x ∷ xs) = insert_by x (sort_by xs)

  -- Each key is at most those behind it.
  abbrev pub IsSortedBy : List A → Type 0
  IsSortedBy [] = Unit
  IsSortedBy (x ∷ xs) = All (λ y. key x ≤ key y) xs × IsSortedBy xs

  All-insert_by :
      (n : ℕ) (a : A) (xs : List A)
      → n ≤ key a
      → All (λ y. n ≤ key y) xs
      → All (λ y. n ≤ key y) (insert_by a xs)
  All-insert_by n a [] h t = (h, tt)
  All-insert_by n a (x ∷ xs) h t = ground (arith, All-insert_by n a xs h t.1)

  All-weaken : (m n : ℕ) (xs : List A) → m ≤ n → All (λ y. n ≤ key y) xs → All (λ y. m ≤ key y) xs
  All-weaken m n [] h t = tt
  All-weaken m n (x ∷ xs) h t = (omega arith, All-weaken m n xs h t.1)

  insert_by-IsSortedBy : (a : A) (xs : List A) → IsSortedBy xs → IsSortedBy (insert_by a xs)
  insert_by-IsSortedBy a [] s = (tt, tt)
  insert_by-IsSortedBy a (x ∷ xs) s = ground (
    arith,
    insert_by-IsSortedBy a xs s.1,
    All-weaken (key a) (key x) xs,
    All-insert_by (key x) a xs,
  )

  pub sort_by-IsSortedBy : (xs : List A) → IsSortedBy (sort_by xs)
  unfolding sort_by
  sort_by-IsSortedBy [] = tt
  sort_by-IsSortedBy (x ∷ xs) = insert_by-IsSortedBy x (sort_by xs) (sort_by-IsSortedBy xs)

  any-insert_by : (p : A → Bool) (a : A) (xs : List A) → any p (insert_by a xs) ≡ (p a || any p xs)
  any-insert_by p a [] = refl
  any-insert_by p a (x ∷ xs) = ground (arith, any-insert_by p a xs)

  -- Sorting keeps the rows, so it keeps what some row satisfies.
  pub any-sort_by : (p : A → Bool) (xs : List A) → any p (sort_by xs) ≡ any p xs
  unfolding sort_by
  any-sort_by p [] = refl
  any-sort_by p (x ∷ xs) = ground (arith, any-insert_by p x (sort_by xs), any-sort_by p xs)

  All-insert {κ} : (P : A → Type κ) (a : A) (xs : List A) → P a → All P xs → All P (insert_by a xs)
  All-insert P a [] h t = (h, tt)
  All-insert P a (x ∷ xs) h t = elim (Bool-cases (leb (key a) (key x))) [
    | inl e ↦ rw e (h, t)
    | inr e ↦ rw e (t.0, All-insert P a xs h t.1)
  ]

  pub All-sort_by {κ} : (P : A → Type κ) (xs : List A) → All P xs → All P (sort_by xs)
  unfolding sort_by
  All-sort_by P [] t = tt
  All-sort_by P (x ∷ xs) t = All-insert P x (sort_by xs) t.0 (All-sort_by P xs t.1)

  Elem-insert_by : (a : A) (xs : List A) → Elem a (insert_by a xs)
  Elem-insert_by a [] = here
  Elem-insert_by a (x ∷ xs) = elim (Bool-cases (leb (key a) (key x))) [
    | inl e ↦ rw e here
    | inr e ↦ rw e (there (Elem-insert_by a xs))
  ]

  Elem-insert_by_other : (a : A) {b : A} (xs : List A) → Elem b xs → Elem b (insert_by a xs)
  Elem-insert_by_other a [] m = elim m [ ]
  Elem-insert_by_other a (x ∷ xs) here = elim (Bool-cases (leb (key a) (key x))) [
    | inl e ↦ rw e (there here)
    | inr e ↦ rw e here
  ]
  Elem-insert_by_other a (x ∷ xs) (there m) = elim (Bool-cases (leb (key a) (key x))) [
    | inl e ↦ rw e (there (there m))
    | inr e ↦ rw e (there (Elem-insert_by_other a xs m))
  ]

  -- Sorting loses no row.
  pub Elem-sort_by : {b : A} (xs : List A) → Elem b xs → Elem b (sort_by xs)
  unfolding sort_by
  Elem-sort_by [] m = m
  Elem-sort_by (x ∷ xs) here = Elem-insert_by x (sort_by xs)
  Elem-sort_by (x ∷ xs) (there m) = Elem-insert_by_other x (sort_by xs) (Elem-sort_by xs m)

  -- Sorting adds no row.
  pub Elem-of_sort_by : {b : A} (xs : List A) → Elem b (sort_by xs) → Elem b xs
  Elem-of_sort_by xs m =
      All-Elem (λ b. Elem b xs) (sort_by xs)
        (All-sort_by (λ b. Elem b xs) xs (All-of_Elem (λ b. Elem b xs) xs (λ b m'. m'))) m
