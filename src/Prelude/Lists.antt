-- ===== src/Prelude/Lists.antt =====
-- Lists of rows: the tests and searches that a query makes, and their laws.
use Prim.Native.Nat.{ℕ, suc}
use mathlib.Core.Path.{◌≡◌, refl, sym, ap, ◌∙◌, subst}
use mathlib.Core.Logic.{◌≢◌, ◌⊎◌, inl, inr}
use mathlib.Core.Bool.{Bool, true, false, ◌||◌}
use mathlib.Core.Option.{Option, none, some}
use mathlib.Core.List.{List, [], ◌∷◌, ◌++◌}
use native.Mathlib.Omega.{arith}
use fleet_manager.Prelude.Tests.{if◌then◌else◌, ◌==◌, Bool-cases}

-- Every row satisfies `P`.
abbrev pub All {ℓ κ} : {A : Type ℓ} → (A → Type κ) → List A → Type κ
All P [] = Unit
All P (x ∷ xs) = P x × All P xs

-- The row is one of the list's.
pub data Elem {ℓ} {A : Type ℓ} (a : A) : List A → Type ℓ where
  here : {xs : List A} → Elem a (a ∷ xs)
  there : {x : A} {xs : List A} → Elem a xs → Elem a (x ∷ xs)

module _ {ℓ} {A : Type ℓ} where
  abbrev pub length : List A → ℕ
  length [] = 0
  length (x ∷ xs) = suc (length xs)

  -- `exists().where(p)`
  abbrev pub any : (A → Bool) → List A → Bool
  any p [] = false
  any p (x ∷ xs) = p x || any p xs

  -- `.filter(p).all()`
  abbrev pub filter : (A → Bool) → List A → List A
  filter p [] = []
  filter p (x ∷ xs) = let rest = filter p xs in if p x then x ∷ rest else rest

  -- `.filter(p).first()`
  abbrev pub find? : (A → Bool) → List A → Option A
  find? p [] = none
  find? p (x ∷ xs) = if p x then some x else find? p xs

  abbrev pub count : (A → Bool) → List A → ℕ
  count p [] = 0
  count p (x ∷ xs) = if p x then suc (count p xs) else count p xs

  -- A write of the object `r` to the row with its key.
  abbrev pub replace : (A → ℕ) → A → List A → List A
  replace key r [] = []
  replace key r (x ∷ xs) = (if key x == key r then r else x) ∷ replace key r xs

  pub All-Elem {κ} : (P : A → Type κ) {a : A} (xs : List A) → All P xs → Elem a xs → P a
  All-Elem P [] h m = elim m [ ]
  All-Elem P (x ∷ xs) h here = h.0
  All-Elem P (x ∷ xs) h (there m) = All-Elem P xs h.1 m

  pub All-of_Elem {κ} : (P : A → Type κ) (xs : List A) → ((a : A) → Elem a xs → P a) → All P xs
  All-of_Elem P [] h = tt
  All-of_Elem P (x ∷ xs) h = (h x here, All-of_Elem P xs (λ a m. h a (there m)))

  pub any-false : (p : A → Bool) {a : A} (xs : List A) → any p xs ≡ false → Elem a xs → p a ≡ false
  any-false p [] h m = elim m [ ]
  any-false p (x ∷ xs) h here = ground arith
  any-false p (x ∷ xs) h (there m) = any-false p xs (ground arith) m

  pub any-of_Elem : (p : A → Bool) {a : A} (xs : List A) → Elem a xs → p a ≡ true → any p xs ≡ true
  any-of_Elem p [] m e = elim m [ ]
  any-of_Elem p (x ∷ xs) here e = ground arith
  any-of_Elem p (x ∷ xs) (there m) e = ground (arith, any-of_Elem p xs m e)

  -- What a search finds is a row that passes the test.
  pub find?-true :
      (p : A → Bool) (xs : List A) {a : A} → find? p xs ≡ some a → (p a ≡ true) × Elem a xs
  find?-true p [] h = cc
  find?-true p (x ∷ xs) {a} h = elim (Bool-cases (p x)) [
    | inl e ↦
        let same : x ≡ a = ground arith in
        (subst (λ y. p y ≡ true) same e, subst (λ y. Elem y (x ∷ xs)) same here)
    | inr e ↦ let (q, m) = find?-true p xs (rw e at h) in (q, there m)
  ]

  pub find?-none :
      (p : A → Bool) {a : A} (xs : List A) → find? p xs ≡ none → Elem a xs → p a ≡ false
  find?-none p [] h m = elim m [ ]
  find?-none p (x ∷ xs) h here = ground arith
  find?-none p (x ∷ xs) h (there m) = find?-none p xs (ground arith) m

  pub any-true : (p : A → Bool) (xs : List A) → any p xs ≡ true → (a : A) × Elem a xs × (p a ≡ true)
  any-true p [] h = cc
  any-true p (x ∷ xs) h = elim (Bool-cases (p x)) [
    | inl e ↦ (x, here, e)
    | inr e ↦ let (a, m, q) = any-true p xs (rw e at h) in (a, there m, q)
  ]

module _ {A : Type 0} where
  -- The row that a write leaves in the place of `x`.
  written :
      (key : A → ℕ) (r x : A)
      → ((if key x == key r then r else x) ≡ r)
        ⊎ (((if key x == key r then r else x) ≡ x) × (key x ≢ key r))
  written key r x = ground arith

  pub Elem-cons : {a y : A} {ys : List A} → Elem a (y ∷ ys) → (a ≡ y) ⊎ Elem a ys
  Elem-cons here = inl refl
  Elem-cons (there m) = inr m

  -- A row after a write is the written one, or an old one with another key.
  pub Elem-replace :
      (key : A → ℕ) (r : A) {a : A} (xs : List A)
      → Elem a (replace key r xs)
      → (a ≡ r) ⊎ (Elem a xs × (key a ≢ key r))
  Elem-replace key r [] m = elim m [ ]
  Elem-replace key r {a} (x ∷ xs) m = elim (Elem-cons m) [
    | inr m' ↦ elim (Elem-replace key r xs m') [
      | inl e ↦ inl e
      | inr (old, other) ↦ inr (there old, other)
    ]
    | inl e ↦ elim (written key r x) [
      | inl w ↦ inl (e ∙ w)
      | inr (w, other) ↦
          let same : x ≡ a = sym (e ∙ w) in
          inr (subst (λ y. Elem y (x ∷ xs)) same here, subst (λ y. key y ≢ key r) same other)
    ]
  ]

  -- A write keeps the number of rows.
  pub length-replace : (key : A → ℕ) (r : A) (xs : List A) → length (replace key r xs) ≡ length xs
  length-replace key r [] = refl
  length-replace key r (x ∷ xs) = ap suc (length-replace key r xs)

  pub Elem-filter :
      (p : A → Bool) {a : A} (xs : List A) → Elem a (filter p xs) → Elem a xs × (p a ≡ true)
  Elem-filter p [] m = elim m [ ]
  Elem-filter p {a} (x ∷ xs) m = elim (Bool-cases (p x)) [
    | inl e ↦ elim (Elem-cons (subst (λ l. Elem a l) (rw e) m)) [
      | inl same ↦
          (subst (λ y. Elem y (x ∷ xs)) (sym same) here, subst (λ y. p y ≡ true) (sym same) e)
      | inr m' ↦ let (old, q) = Elem-filter p xs m' in (there old, q)
    ]
    | inr e ↦ let (old, q) = Elem-filter p xs (subst (λ l. Elem a l) (rw e) m) in (there old, q)
  ]

  pub Elem-filter_of :
      (p : A → Bool) {a : A} (xs : List A) → Elem a xs → p a ≡ true → Elem a (filter p xs)
  Elem-filter_of p [] m e = elim m [ ]
  Elem-filter_of p (x ∷ xs) here e = rw e here
  Elem-filter_of p (x ∷ xs) (there m) e = elim (Bool-cases (p x)) [
    | inl px ↦ rw px (there (Elem-filter_of p xs m e))
    | inr px ↦ rw px (Elem-filter_of p xs m e)
  ]

  -- If every row fails the test, so does the search.
  pub any-false_of :
      (p : A → Bool) (xs : List A) → ((a : A) → Elem a xs → p a ≡ false) → any p xs ≡ false
  any-false_of p [] h = refl
  any-false_of p (x ∷ xs) h = ground (arith, h x here, any-false_of p xs (λ a m. h a (there m)))

  pub Elem-append : {a : A} (xs ys : List A) → Elem a (xs ++ ys) → Elem a xs ⊎ Elem a ys
  Elem-append [] ys m = inr m
  Elem-append (x ∷ xs) ys m = elim (Elem-cons m) [
    | inl e ↦ inl (subst (λ y. Elem y (x ∷ xs)) (sym e) here)
    | inr m' ↦ elim (Elem-append xs ys m') [ inl l ↦ inl (there l) | inr r ↦ inr r ]
  ]

  pub Elem-append_left : {a : A} (xs ys : List A) → Elem a xs → Elem a (xs ++ ys)
  Elem-append_left (x ∷ xs) ys here = here
  Elem-append_left (x ∷ xs) ys (there m) = there (Elem-append_left xs ys m)
  Elem-append_left [] ys m = elim m [ ]

  pub Elem-append_right : {a : A} (xs ys : List A) → Elem a ys → Elem a (xs ++ ys)
  Elem-append_right [] ys m = m
  Elem-append_right (x ∷ xs) ys m = there (Elem-append_right xs ys m)

module _ {A : Type 0} (key : A → ℕ) (r : A) where
  -- A write finds the row of its key.
  pub Elem-replace_new :
      {a : A} (xs : List A) → Elem a xs → key a ≡ key r → Elem r (replace key r xs)
  Elem-replace_new {a} (x ∷ xs) here e = let t : (key x == key r) ≡ true = ground arith in rw t here
  Elem-replace_new (x ∷ xs) (there m) e = there (Elem-replace_new xs m e)
  Elem-replace_new [] m e = elim m [ ]

  -- A write keeps the rows of other keys.
  pub Elem-replace_other :
      {a : A} (xs : List A) → Elem a xs → key a ≢ key r → Elem a (replace key r xs)
  Elem-replace_other {a} (x ∷ xs) here other =
      let t : (key x == key r) ≡ false = ground arith in rw t here
  Elem-replace_other (x ∷ xs) (there m) other = there (Elem-replace_other xs m other)
  Elem-replace_other [] m other = elim m [ ]
