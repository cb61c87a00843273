-- ===== src/Contract/Contiguous.antt =====
-- What `validate_active_slab_chain` (app/crud/contract.py) makes sure of.
use fleet_manager.Prelude.{
  ℕ, ◌≤◌, ◌<◌, ◌≡◌, Bool, Option, none, some, List, [], ◌∷◌, arith, Option-cases, inl, inr,
}
use fleet_manager.Prelude.Result.{ok}
use fleet_manager.Contract.{ContractSlab, abs_diff, tolerance}
use fleet_manager.Contract.Slabs.{check_rest_of_chain, check_chain}

-- The range is not empty.
abbrev pub EndsAfter : ℕ → Option ℕ → Type 0
EndsAfter min_km none = Unit
EndsAfter min_km (some max_km) = min_km < max_km

-- The first slab begins at `from`, within the tolerance, and each one where the one before ends;
-- behind an open-ended slab there is none.
abbrev pub IsChain : Option ℕ → List ContractSlab → Type 0
IsChain from [] = Unit
IsChain none (s ∷ ss) = ⊥
IsChain (some from) (s ∷ ss) =
    (abs_diff from s.min_km ≤ tolerance) × EndsAfter s.min_km s.max_km × IsChain s.max_km ss

check_rest_of_chain-IsChain :
    (previous : ContractSlab) (ss : List ContractSlab)
    → check_rest_of_chain previous ss ≡ ok tt
    → IsChain previous.max_km ss
unfolding check_rest_of_chain
check_rest_of_chain-IsChain previous [] h = tt
check_rest_of_chain-IsChain previous (s ∷ ss) h = elim (Option-cases previous.max_km) [
  | inl none_before ↦ absurd (ground arith)
  | inr (m, before) ↦
      rw before (ground arith, ground arith, check_rest_of_chain-IsChain s ss (ground arith))
]

pub check_chain-IsChain :
    (b : Bool) (ss : List ContractSlab) → check_chain b ss ≡ ok tt → IsChain (some 0) ss
unfolding check_chain
check_chain-IsChain b [] h = tt
check_chain-IsChain b (s ∷ ss) h =
    (ground arith, ground arith, check_rest_of_chain-IsChain s ss (ground arith))
