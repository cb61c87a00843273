-- ===== src/Contract/Bill.antt =====
-- What a bill amounts to (`_calculate_progressive_cost` in app/services/contract_service.py).
use fleet_manager.Prelude.{
  ℕ, ◌+◌, ◌-◌, ◌*◌, ◌≤◌, ◌<◌, ◌≡◌, refl, sym, ap, Bool, true, false, none, some, List, [], ◌∷◌,
  arith, ltb, leb, get_or, any, length, All, Bool-cases, Option-cases, subst, inl, inr, ◌⊎◌,
}
use native.Mathlib.Nat.{mul-le-mul_left}
use fleet_manager.Prelude.Int.{round_div}
use fleet_manager.Prelude.Result.{ok, err, Result-cases}
use fleet_manager.Contract.{ContractSlab, distance_not_covered, tolerance}
use fleet_manager.Contract.Contiguous.{IsChain}
use fleet_manager.Contract.Cost.{
  CostLine, used_km, slab_cost, add_line, cost_from, sum_costs, calculate_progressive_cost,
}

abbrev pub sum_km : List CostLine → ℕ
sum_km [] = 0
sum_km (line ∷ lines) = line.km_used + sum_km lines

round_cents_mono : (m n : ℕ) → m ≤ n → round_div m 10_000_000_000 ≤ round_div n 10_000_000_000
unfolding round_div
round_cents_mono m n le = ground arith

-- A longer distance at the same rate costs no less.
pub slab_cost_mono : (a b rate : ℕ) → a ≤ b → slab_cost a rate ≤ slab_cost b rate
slab_cost_mono a b rate le =
    round_cents_mono (a * rate) (b * rate) (grind (arith, mul-le-mul_left rate le))

abbrev pub is_open : ContractSlab → Bool
is_open slab = elim slab.max_km [ none ↦ true | some m ↦ false ]

abbrev Costs : List CostLine → Type 0
Costs lines = All (λ l. l.cost ≡ slab_cost l.km_used l.rate) lines

add_line_lem :
    (km : ℕ) (s : ContractSlab) (more : List CostLine)
    → (sum_km (add_line km s more) ≤ km + sum_km more)
      × (km + sum_km more ≤ sum_km (add_line km s more) + 1)
      × (Costs more → Costs (add_line km s more))
add_line_lem km s more = elim (Bool-cases (ltb tolerance km)) [
  | inl e ↦ rw e (omega arith, omega arith, λ c. (refl, c))
  | inr e ↦ rw e (omega arith, ground arith, λ c. c)
]

module _ (total : ℕ) where
  -- The rounds that come after that of a slab.
  abbrev pub After : ℕ → ContractSlab → List ContractSlab → ℕ → List CostLine → Type 0
  After remaining s ss left more =
      ((remaining - used_km remaining s ≤ tolerance)
        × (more ≡ [])
        × (left ≡ remaining - used_km remaining s))
      ⊎ ((tolerance < remaining - used_km remaining s)
          × (cost_from total (remaining - used_km remaining s) (get_or s.max_km total) ss
              ≡ ok (left, more)))

  pub cost_from-round :
      (s : ContractSlab) (ss : List ContractSlab) (remaining covered left : ℕ)
      (lines : List CostLine)
      → cost_from total remaining covered (s ∷ ss) ≡ ok (left, lines)
      → (more : List CostLine) × (lines ≡ add_line (used_km remaining s) s more)
        × After remaining s ss left more
  unfolding cost_from
  cost_from-round s ss remaining covered left lines h =
      elim (Bool-cases (leb (remaining - used_km remaining s) tolerance)) [
        | inl e ↦ ([], ground arith, inl (ground arith, refl, ground arith))
        | inr e ↦
            elim (Result-cases
              (cost_from total (remaining - used_km remaining s) (get_or s.max_km total) ss)) [
                | inl ((left', more), f) ↦ (more, ground arith, inr (ground arith, ground arith))
                | inr (er, f) ↦ absurd (ground arith)
              ]
      ]

  used-le : (remaining : ℕ) (s : ContractSlab) → used_km remaining s ≤ remaining
  used-le remaining s = ground arith

  -- What the loop has not billed is left over, or lost in entries of no more than the tolerance.
  cost_from-accounts :
      (ss : List ContractSlab) (remaining covered left : ℕ) (lines : List CostLine)
      → cost_from total remaining covered ss ≡ ok (left, lines)
      → (sum_km lines + left ≤ remaining)
        × (remaining ≤ sum_km lines + left + length ss)
        × Costs lines
  unfolding cost_from
  cost_from-accounts [] remaining covered left lines h = ground arith
  cost_from-accounts (s ∷ ss) remaining covered left lines h =
      let used = used_km remaining s in
      let (more, e, after) = cost_from-round s ss remaining covered left lines h in
      let (lo, hi, keep) = add_line_lem used s more in
      let le = used-le remaining s in
      elim after [
        | inl (small, none_left, el) ↦
            let none_billed : sum_km more ≡ 0 = ap sum_km none_left in
            rw e (omega arith, omega arith, keep (subst Costs (sym none_left) tt))
        | inr (large, rest) ↦
            let (lo', hi', costs) =
              cost_from-accounts ss (remaining - used) (get_or s.max_km total) left more rest in
            rw e (omega arith, omega arith, keep costs)
      ]

  -- Where the distance that the loop left is small, some slab being open-ended.
  cost_from-open :
      (ss : List ContractSlab) (remaining covered left : ℕ) (lines : List CostLine)
      → cost_from total remaining covered ss ≡ ok (left, lines)
      → any is_open ss ≡ true
      → left ≤ tolerance
  unfolding cost_from
  cost_from-open [] remaining covered left lines h open_end = cc
  cost_from-open (s ∷ ss) remaining covered left lines h open_end =
      let (more, e, after) = cost_from-round s ss remaining covered left lines h in
      elim after [
        | inl (small, none_left, el) ↦ omega arith
        | inr (large, rest) ↦ elim (Bool-cases (is_open s)) [
          | inl unbounded ↦ absurd (ground arith)
          | inr bounded ↦
              cost_from-open ss (remaining - used_km remaining s) (get_or s.max_km total) left more
                rest (ground arith)
        ]
      ]

  -- The loop goes through a chain.
  cost_from-IsChain :
      (covered : ℕ) (ss : List ContractSlab) (remaining : ℕ)
      → IsChain (some covered) ss
      → (r : ℕ × List CostLine) × (cost_from total remaining covered ss ≡ ok r)
  unfolding cost_from
  cost_from-IsChain covered [] remaining h = ((remaining, []), refl)
  cost_from-IsChain covered (s ∷ ss) remaining (joint, range, behind) =
      let used = used_km remaining s in
      elim (Option-cases s.max_km) [
        | inl unbounded ↦ ((remaining - used, add_line used s []), ground arith)
        | inr (m, bounded) ↦
            let (r, e) =
              cost_from-IsChain m ss (remaining - used)
                (subst (λ o. IsChain o ss) bounded behind) in
            elim (Bool-cases (leb (remaining - used) tolerance)) [
              | inl small ↦ ((remaining - used, add_line used s []), ground arith)
              | inr large ↦ ((r.0, add_line used s r.1), ground arith)
            ]
      ]

-- The entries of a bill add up to no more than the distance, and fall short of it by at most a
-- millimetre for each slab and one more; the amount of each is its distance at its rate, rounded
-- to hundredths, and the cost is the sum of the amounts.
pub calculate_progressive_cost-accounts :
    (total : ℕ) (slabs : List ContractSlab) (cost : ℕ) (lines : List CostLine)
    → calculate_progressive_cost total slabs ≡ ok (cost, lines)
    → (sum_km lines ≤ total)
      × (total ≤ sum_km lines + length slabs + 1)
      × (cost ≡ sum_costs lines)
      × All (λ l. l.cost ≡ slab_cost l.km_used l.rate) lines
unfolding calculate_progressive_cost
calculate_progressive_cost-accounts total slabs cost lines h =
    elim (Result-cases (cost_from total total 0 slabs)) [
      | inr (e, refused) ↦ absurd (ground arith)
      | inl ((left, found), e) ↦
          let (lo, hi, costs) = cost_from-accounts total slabs total 0 left found e in
          let same : lines ≡ found = ground arith in
          let small : left ≤ tolerance = ground arith in
          let summed : cost ≡ sum_costs found = ground arith in
          rw same (omega arith, omega arith, summed, costs)
    ]

-- A chain of slabs from 0 km bills every distance, unless it goes beyond the last slab: no other
-- error is raised, and none at all where some slab is open-ended.
pub calculate_progressive_cost-covers :
    (total : ℕ) (slabs : List ContractSlab)
    → IsChain (some 0) slabs
    → ((r : ℕ × List CostLine) × (calculate_progressive_cost total slabs ≡ ok r))
      ⊎ ((any is_open slabs ≡ false)
          × (left : ℕ) × (tolerance < left)
          × (calculate_progressive_cost total slabs ≡ err (distance_not_covered left)))
unfolding calculate_progressive_cost
calculate_progressive_cost-covers total slabs h =
    let ((left, lines), e) = cost_from-IsChain total 0 slabs total h in
    elim (Bool-cases (ltb tolerance left)) [
      | inr small ↦ inl ((sum_costs lines, lines), ground arith)
      | inl large ↦ elim (Bool-cases (any is_open slabs)) [
        | inl unbounded ↦
            absurd (ground (arith, cost_from-open total slabs total 0 left lines e unbounded))
        | inr bounded ↦ inr (bounded, left, ground arith, ground arith)
      ]
    ]
