-- ===== src/Contract/Slabs.antt =====
-- The changes of slabs (`CRUDContractSlab` in app/crud/contract.py). A refused change is rolled back
-- by its caller.
use fleet_manager.Prelude.{
  ℕ, suc, Bool, true, false, not, ◌&&◌, ◌||◌, Option, none, some, List, [], ◌∷◌, ◌++◌, ltb, leb,
  ◌==◌, if◌then◌else◌, get_or, any, filter, find?, replace,
}
use fleet_manager.Prelude.Result.{Result, ok, err, ◌>>=◌, ◌>>◌, raise_if, or_raise}
use fleet_manager.Contract.{
  ContractSlab, ContractError, invalid_request, integrity_error, contract_slab_not_found,
  contract_slab_required, invalid_slab_range, invalid_slab_chain, abs_diff, tolerance, active_slabs,
}

-- The table, and the next id of its sequence.
pub record SlabTable : Type 0 where
  pub rows : List ContractSlab
  pub next_id : ℕ

-- `max_km is not None and max_km <= min_km`
abbrev pub is_empty_range : ℕ → Option ℕ → Bool
is_empty_range min_km none = false
is_empty_range min_km (some max_km) = leb max_km min_km

abbrev pub check_range : ContractSlab → Result ContractError (Unit {0})
check_range slab = raise_if (is_empty_range slab.min_km slab.max_km) invalid_slab_range

-- The slab begins where the previous one ends.
abbrev pub check_joint : Option ℕ → ContractSlab → Result ContractError (Unit {0})
check_joint none slab = err invalid_slab_chain
check_joint (some max_km) slab =
    raise_if (ltb tolerance (abs_diff max_km slab.min_km)) invalid_slab_chain

-- The slabs behind `previous`.
unfoldable pub check_rest_of_chain :
    ContractSlab → List ContractSlab → Result ContractError (Unit {0})
check_rest_of_chain previous [] = ok tt
check_rest_of_chain previous (slab ∷ slabs) = do
  check_range slab
  check_joint previous.max_km slab
  check_rest_of_chain slab slabs

unfoldable pub check_chain : Bool → List ContractSlab → Result ContractError (Unit {0})
unfolding check_rest_of_chain
check_chain allow_empty [] = if allow_empty then ok tt else err contract_slab_required
check_chain allow_empty (first ∷ slabs) = do
  raise_if (ltb tolerance first.min_km) invalid_slab_chain
  check_range first
  check_rest_of_chain first slabs

-- `validate_active_slab_chain`, and the table
unfoldable pub validate_active_slab_chain : Bool → ℕ → SlabTable → Result ContractError SlabTable
unfolding check_chain
validate_active_slab_chain allow_empty contract_id table = do
  check_chain allow_empty (active_slabs contract_id table.rows)
  ok table

-- `ContractSlabCreate`
pub record SlabCreate : Type 0 where
  pub min_km : ℕ
  pub max_km : Option ℕ
  pub rate : ℕ
  pub is_active : Bool

-- The fields that are set of `ContractSlabUpdate`; `max_km` may be set to null.
pub record SlabUpdate : Type 0 where
  pub min_km : Option ℕ
  pub max_km : Option (Option ℕ)
  pub rate : Option ℕ
  pub is_active : Option Bool

abbrev pub breaks_unique : List ContractSlab → ContractSlab → Bool
breaks_unique rows slab =
    any
      (λ (s : ContractSlab).
        s.contract_id == slab.contract_id
        && s.min_km == slab.min_km
        && not (s.slab_id == slab.slab_id))
      rows

abbrev pub new_slab : ℕ → ℕ → SlabCreate → ContractSlab
new_slab slab_id contract_id obj_in = record {
  slab_id = slab_id;
  contract_id = contract_id;
  min_km = obj_in.min_km;
  max_km = obj_in.max_km;
  rate = obj_in.rate;
  is_active = obj_in.is_active;
}

unfoldable pub create : ℕ → SlabCreate → SlabTable → Result ContractError SlabTable
create contract_id obj_in table = do
  raise_if (is_empty_range obj_in.min_km obj_in.max_km || obj_in.rate == 0) invalid_request
  let db_obj = new_slab table.next_id contract_id obj_in
  raise_if (breaks_unique table.rows db_obj) integrity_error
  validate_active_slab_chain false contract_id
      (record { rows = table.rows ++ db_obj ∷ []; next_id = suc table.next_id })

abbrev pub updated : ContractSlab → SlabUpdate → ContractSlab
updated slab obj_in = record slab {
  min_km = get_or obj_in.min_km slab.min_km;
  max_km = get_or obj_in.max_km slab.max_km;
  rate = get_or obj_in.rate slab.rate;
  is_active = get_or obj_in.is_active slab.is_active;
}

-- The validation of the fields that are set.
abbrev pub is_bad_update : SlabUpdate → Bool
is_bad_update obj_in =
    elim obj_in.min_km [ none ↦ false | some m ↦ is_empty_range m (get_or obj_in.max_km none) ]
    || elim obj_in.max_km [ none ↦ false | some m ↦ is_empty_range 0 m ]
    || elim obj_in.rate [ none ↦ false | some r ↦ r == 0 ]

unfoldable pub update : ℕ → SlabUpdate → SlabTable → Result ContractError SlabTable
update slab_id obj_in table = do
  raise_if (is_bad_update obj_in) invalid_request
  db_obj ← or_raise (find? (λ s. s.slab_id == slab_id) table.rows) contract_slab_not_found
  let changed = updated db_obj obj_in
  raise_if (is_empty_range changed.min_km changed.max_km) invalid_slab_range
  raise_if (breaks_unique table.rows changed) integrity_error
  validate_active_slab_chain false db_obj.contract_id
      (record table { rows = replace (λ s. s.slab_id) changed table.rows })

unfoldable pub remove : ℕ → SlabTable → Result ContractError SlabTable
remove slab_id table = do
  db_obj ← or_raise (find? (λ s. s.slab_id == slab_id) table.rows) contract_slab_not_found
  validate_active_slab_chain true db_obj.contract_id
      (record table { rows = filter (λ s. not (s.slab_id == slab_id)) table.rows })

pub data SlabRequest : Type 0 where
  post_slab : ℕ → SlabCreate → SlabRequest
  put_slab : ℕ → SlabUpdate → SlabRequest
  delete_slab : ℕ → SlabRequest

unfoldable pub handle_slab : SlabTable → SlabRequest → Result ContractError SlabTable
handle_slab table (SlabRequest.post_slab contract_id obj_in) = create contract_id obj_in table
handle_slab table (SlabRequest.put_slab slab_id obj_in) = update slab_id obj_in table
handle_slab table (SlabRequest.delete_slab slab_id) = remove slab_id table

-- The table that the next request sees.
abbrev pub kept_or_new : SlabTable → Result ContractError SlabTable → SlabTable
kept_or_new table (ok table') = table'
kept_or_new table (err e) = table

unfoldable pub serve_slabs : SlabTable → List SlabRequest → SlabTable
serve_slabs table [] = table
serve_slabs table (req ∷ reqs) = serve_slabs (kept_or_new table (handle_slab table req)) reqs
