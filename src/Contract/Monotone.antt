-- ===== src/Contract/Monotone.antt =====
-- The costs of two distances (`_calculate_progressive_cost` in
-- app/services/contract_service.py).
use fleet_manager.Prelude.{ℕ, ◌-◌, ◌≤◌, ◌≡◌, List, [], ◌∷◌, arith, get_or, inl, inr}
use fleet_manager.Prelude.Result.{ok, Result-cases}
use fleet_manager.Contract.{ContractSlab}
use fleet_manager.Contract.Cost.{
  CostLine, used_km, add_line, cost_from, sum_costs, calculate_progressive_cost,
}
use fleet_manager.Contract.Bill.{slab_cost_mono, cost_from-round}

add_line_mono :
    (km km' : ℕ) (s : ContractSlab) (more more' : List CostLine)
    → km ≤ km'
    → sum_costs more ≤ sum_costs more'
    → sum_costs (add_line km s more) ≤ sum_costs (add_line km' s more')
unfolding sum_costs
add_line_mono km km' s more more' le h = ground (arith, slab_cost_mono km km' s.rate le)

-- A longer distance uses no less of a slab, and leaves no less.
used_mono :
    (remaining remaining' : ℕ) (s : ContractSlab)
    → remaining ≤ remaining'
    → (used_km remaining s ≤ used_km remaining' s)
      × (remaining - used_km remaining s ≤ remaining' - used_km remaining' s)
used_mono remaining remaining' s le = ground arith

cost_from_mono :
    (total total' : ℕ) (ss : List ContractSlab)
    (remaining remaining' covered covered' left left' : ℕ) (lines lines' : List CostLine)
    → remaining ≤ remaining'
    → cost_from total remaining covered ss ≡ ok (left, lines)
    → cost_from total' remaining' covered' ss ≡ ok (left', lines')
    → sum_costs lines ≤ sum_costs lines'
unfolding cost_from sum_costs
cost_from_mono total total' [] remaining remaining' covered covered' left left' lines lines' le h
      h' =
    ground arith
cost_from_mono total total' (s ∷ ss) remaining remaining' covered covered' left left' lines lines'
      le h h' =
    let (more, e, after) = cost_from-round total s ss remaining covered left lines h in
    let (more', e', after') = cost_from-round total' s ss remaining' covered' left' lines' h' in
    let (used, rest_le) = used_mono remaining remaining' s le in
    let step = add_line_mono (used_km remaining s) (used_km remaining' s) s more more' used in
    rw e (
      rw e' (elim after [
        | inl (small, none_left, el) ↦ step (rw none_left (omega arith))
        | inr (large, rest) ↦ elim after' [
          | inl (small', none_left', el') ↦ absurd (omega arith)
          | inr (large', rest') ↦ step (
              cost_from_mono total total' ss (remaining - used_km remaining s)
                (remaining' - used_km remaining' s) (get_or s.max_km total) (get_or s.max_km total')
                left left' more more' rest_le rest rest')
        ]
      ]))

-- Of two distances that the same slabs bill, the longer does not cost less.
pub calculate_progressive_cost_mono :
    (total total' : ℕ) (slabs : List ContractSlab) (cost cost' : ℕ) (lines lines' : List CostLine)
    → total ≤ total'
    → calculate_progressive_cost total slabs ≡ ok (cost, lines)
    → calculate_progressive_cost total' slabs ≡ ok (cost', lines')
    → cost ≤ cost'
unfolding calculate_progressive_cost
calculate_progressive_cost_mono total total' slabs cost cost' lines lines' le h h' =
    elim (Result-cases (cost_from total total 0 slabs)) [
      | inr (e, refused) ↦ absurd (ground arith)
      | inl ((left, found), e) ↦ elim (Result-cases (cost_from total' total' 0 slabs)) [
        | inr (e', refused') ↦ absurd (ground arith)
        | inl ((left', found'), e') ↦
            let summed : cost ≡ sum_costs found = ground arith in
            let summed' : cost' ≡ sum_costs found' = ground arith in
            rw summed (
              rw summed' (
                cost_from_mono total total' slabs total total' 0 0 left left' found found' le e e'))
      ]
    ]
