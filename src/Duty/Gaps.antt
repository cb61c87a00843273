-- ===== src/Duty/Gaps.antt =====
-- The gaps between segments and the time without duty (`_check_rest_impl` in
-- app/services/driver_duty_hours_service.py).
use fleet_manager.Prelude.{
  ℕ, ◌-◌, ◌≤◌, ◌<◌, ◌≡◌, refl, false, List, [], ◌∷◌, arith, leb, any, Bool-cases, inl, inr,
}
use fleet_manager.Duty.{Interval, minutes, gaps_from, max_of}
use fleet_manager.Duty.Merge.{holds, IsApart}

-- No instant from `a` up to `b` is on duty.
abbrev pub IsFree : List Interval → ℕ → ℕ → Type 0
IsFree is a b = (t : ℕ) → a ≤ t → t < b → any (holds t) is ≡ false

-- Nothing is on duty before the segments begin.
free_before :
    (prev : ℕ) (is : List Interval) (we t : ℕ)
    → IsApart prev is we
    → t < prev
    → any (holds t) is ≡ false
free_before prev [] we t h lt = refl
free_before prev (i ∷ is) we t h lt = ground (arith, free_before i.finish is we t h.2)

-- No free time within the window is longer than the longest gap.
pub IsFree-le-max_of :
    (prev : ℕ) (is : List Interval) (we a b : ℕ)
    → IsApart prev is we
    → prev ≤ a
    → a < b
    → b ≤ we
    → IsFree is a b
    → minutes (b - a) ≤ max_of (gaps_from prev is we)
unfolding max_of gaps_from
IsFree-le-max_of prev [] we a b h pa ab bw free = omega arith
IsFree-le-max_of prev (i ∷ is) we a b h pa ab bw free =
    let rest = λ (later : i.finish ≤ a).
      IsFree-le-max_of i.finish is we a b h.2 later ab bw
        (λ t at tb. let clear = free t at tb in ground arith) in
    ground (arith, free a, free i.start, rest)

-- Some free time within the window is as long as the longest gap.
pub max_of-IsFree :
    (prev : ℕ) (is : List Interval) (we : ℕ)
    → IsApart prev is we
    → (a : ℕ) × (b : ℕ) × (prev ≤ a)
      × (a ≤ b)
      × (b ≤ we)
      × IsFree is a b
      × (minutes (b - a) ≡ max_of (gaps_from prev is we))
unfolding max_of gaps_from
max_of-IsFree prev [] we h = (prev, we, omega arith, h, omega arith, λ t at tb. refl, omega arith)
max_of-IsFree prev (i ∷ is) we h =
    let (a, b, pa, ab, bw, free, e) = max_of-IsFree i.finish is we h.2 in
    elim (Bool-cases (leb (max_of (gaps_from i.finish is we)) (minutes (i.start - prev)))) [
      | inl first ↦ (
        prev,
        i.start,
        omega arith,
        h.0,
        omega (arith, e),
        λ t at tb. ground (arith, free_before i.finish is we t h.2),
        ground arith,
      )
      | inr later ↦
          (a, b, omega arith, ab, bw, λ t at tb. ground (arith, free t at tb), ground (arith, e))
    ]
