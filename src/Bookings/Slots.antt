-- ===== src/Bookings/Slots.antt =====
-- The slots of bookings: of an employee, on a date, for a shift (app/routes/booking_router.py).
use fleet_manager.Prelude.{
  ℕ, ◌≡◌, refl, sym, ◌∙◌, ap, subst, some, List, ◌++◌, replace, All, All-Elem, Elem, Elem-append,
  Elem-replace, inl, inr,
}
use fleet_manager.Store.{Booking}

abbrev pub SameSlot : Booking → Booking → Type 0
SameSlot a b =
    (a.tenant_id ≡ b.tenant_id)
    × (a.employee_id ≡ b.employee_id)
    × (a.booking_date ≡ b.booking_date)
    × ((k : ℕ) × (a.shift_id ≡ some k) × (b.shift_id ≡ some k))

-- Two bookings of one employee are for different dates or shifts.
abbrev pub IsUnique : List Booking → Type 0
IsUnique bs = (a b : Booking) → Elem a bs → Elem b bs → SameSlot a b → a.booking_id ≡ b.booking_id

-- Nothing but itself is in the slot of the booking.
abbrev pub Fits : Booking → List Booking → Type 0
Fits c bs = (b : Booking) → Elem b bs → SameSlot c b → c.booking_id ≡ b.booking_id

SameSlot-flip : (a b : Booking) → SameSlot a b → SameSlot b a
SameSlot-flip a b (t, e, d, (k, ka, kb)) = (sym t, sym e, sym d, (k, kb, ka))

pub replace-IsUnique :
    (c : Booking) (bs : List Booking)
    → IsUnique bs
    → Fits c bs
    → IsUnique (replace (λ b. b.booking_id) c bs)
replace-IsUnique c bs unique fits a b ma mb s = elim (Elem-replace (λ b. b.booking_id) c bs ma) [
  | inl ea ↦ elim (Elem-replace (λ b. b.booking_id) c bs mb) [
    | inl eb ↦ ap (λ (x : Booking). x.booking_id) (ea ∙ sym eb)
    | inr (mb', n) ↦
        let s' : SameSlot c b = subst (λ x. SameSlot x b) ea s in
        ap (λ (x : Booking). x.booking_id) ea ∙ fits b mb' s'
  ]
  | inr (ma', n) ↦ elim (Elem-replace (λ b. b.booking_id) c bs mb) [
    | inl eb ↦
        let s' : SameSlot a c = subst (λ x. SameSlot a x) eb s in
        sym (fits a ma' (SameSlot-flip a c s')) ∙ ap (λ (x : Booking). x.booking_id) (sym eb)
    | inr (mb', n') ↦ unique a b ma' mb' s
  ]
]

-- A change that moves a booking of the table to no other slot.
abbrev pub Stays : Booking → Booking → Type 0
Stays c b =
    (c.booking_id ≡ b.booking_id)
    × (c.tenant_id ≡ b.tenant_id)
    × (c.employee_id ≡ b.employee_id)
    × (c.booking_date ≡ b.booking_date)
    × (c.shift_id ≡ b.shift_id)

pub Stays-refl : (b : Booking) → Stays b b
Stays-refl b = (refl, refl, refl, refl, refl)

pub Stays-Fits :
    (c b : Booking) (bs : List Booking) → Stays c b → Elem b bs → IsUnique bs → Fits c bs
Stays-Fits c b bs (si, st, se, sd, ss) m unique x mx (t, e, d, (k, kc, kx)) =
    si ∙ unique b x m mx (sym st ∙ t, sym se ∙ e, sym sd ∙ d, (k, sym ss ∙ kc, kx))

-- New bookings in slots of their own.
pub append-IsUnique :
    (bs new : List Booking)
    → IsUnique bs
    → IsUnique new
    → All (λ c. Fits c bs) new
    → IsUnique (bs ++ new)
append-IsUnique bs new old fresh fits a b ma mb s = elim (Elem-append bs new ma) [
  | inl ma' ↦ elim (Elem-append bs new mb) [
    | inl mb' ↦ old a b ma' mb' s
    | inr mb' ↦ sym (All-Elem (λ c. Fits c bs) new fits mb' a ma' (SameSlot-flip a b s))
  ]
  | inr ma' ↦ elim (Elem-append bs new mb) [
    | inl mb' ↦ All-Elem (λ c. Fits c bs) new fits ma' b mb' s
    | inr mb' ↦ fresh a b ma' mb' s
  ]
]
