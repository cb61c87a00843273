-- ===== src/Contract/Chain.antt =====
-- The slabs of every contract, after changes (`CRUDContractSlab` in app/crud/contract.py).
use fleet_manager.Prelude.{
  ℕ, ◌≡◌, refl, sym, subst, ◌≢◌, Bool, true, false, not, ◌&&◌, some, List, [], ◌∷◌, ◌++◌, arith,
  ◌==◌, ==_iff, filter, find?, replace, All, Bool-cases, Option-cases, inl, inr,
}
use fleet_manager.Prelude.Result.{Result, ok, err, Result-cases}
use fleet_manager.Contract.{ContractSlab, ContractError, active_slabs}
use fleet_manager.Contract.Contiguous.{IsChain, check_chain-IsChain}
use fleet_manager.Contract.Keys.{
  IsNumbered, found_lem, others_lem, created, written, deleted, created-IsNumbered,
  written-IsNumbered, deleted-IsNumbered,
}
use fleet_manager.Contract.Slabs.{
  SlabTable, SlabCreate, SlabUpdate, SlabRequest, check_chain, validate_active_slab_chain, create,
  update, remove, new_slab, updated, handle_slab, serve_slabs, kept_or_new,
}

-- The active slabs of each contract are none, or a chain from 0.
abbrev pub IsChained : List ContractSlab → Type 0
IsChained rows = (c : ℕ) → IsChain (some 0) (active_slabs c rows)

abbrev is_of : ℕ → ContractSlab → Bool
is_of c s = s.contract_id == c && s.is_active

-- What a passed validation says.
validate_lem :
    (b : Bool) (c : ℕ) (table : SlabTable) {table' : SlabTable}
    → validate_active_slab_chain b c table ≡ ok table'
    → IsChain (some 0) (active_slabs c table.rows) × (table' ≡ table)
unfolding validate_active_slab_chain
validate_lem b c table {table'} h =
    elim (Result-cases (check_chain b (active_slabs c table.rows))) [
      | inl (u, e) ↦
          (check_chain-IsChain b (active_slabs c table.rows) (ground arith), ground arith)
      | inr (e, refused) ↦ absurd (ground arith)
    ]

-- The rows of contract `c` are the same in both tables.
abbrev Same : ℕ → List ContractSlab → List ContractSlab → Type 0
Same c rows rows' = filter (is_of c) rows' ≡ filter (is_of c) rows

-- A change that touches one contract and passes the validation.
touch-IsChained :
    (b : Bool) (c : ℕ) (rows : List ContractSlab) (table : SlabTable) {table' : SlabTable}
    → ((d : ℕ) → d ≢ c → Same d rows table.rows)
    → validate_active_slab_chain b c table ≡ ok table'
    → IsChained rows
    → IsChained table'.rows
touch-IsChained b c rows table {table'} others h chained d =
    let (passed, e) = validate_lem b c table {table' = table'} h in
    rw e (elim (Bool-cases (d == c)) [
      | inl same ↦
          let e : c ≡ d = sym ((==_iff d c).0 same) in
          subst (λ x. IsChain (some 0) (active_slabs x table.rows)) e passed
      | inr other ↦ let e : d ≢ c = ground arith in rw (others d e) (chained d)
    ])

filter-append_other :
    (d : ℕ) (rows : List ContractSlab) (s : ContractSlab)
    → s.contract_id ≢ d
    → Same d rows (rows ++ s ∷ [])
filter-append_other d [] s h = ground arith
filter-append_other d (r ∷ rows) s h = ground (arith, filter-append_other d rows s h)

filter-replace_other :
    (d : ℕ) (rows : List ContractSlab) (s : ContractSlab)
    → s.contract_id ≢ d
    → All (λ r. r.slab_id ≡ s.slab_id → r.contract_id ≢ d) rows
    → Same d rows (replace (λ r. r.slab_id) s rows)
filter-replace_other d [] s h all = refl
filter-replace_other d (r ∷ rows) s h all =
    ground (arith, filter-replace_other d rows s h all.1, all.0)

filter-delete_other :
    (d k : ℕ) (rows : List ContractSlab)
    → All (λ r. r.slab_id ≡ k → r.contract_id ≢ d) rows
    → Same d rows (filter (λ r. not (r.slab_id == k)) rows)
filter-delete_other d k [] all = refl
filter-delete_other d k (r ∷ rows) all = ground (arith, filter-delete_other d k rows all.1, all.0)

abbrev pub IsSound : SlabTable → Type 0
IsSound table = IsNumbered table × IsChained table.rows

-- Each accepted request has passed the validation of the contract that it touched.
create_lem :
    (c : ℕ) (obj_in : SlabCreate) (table : SlabTable) {table' : SlabTable}
    → create c obj_in table ≡ ok table'
    → validate_active_slab_chain false c (created c obj_in table) ≡ ok table'
unfolding create
create_lem c obj_in table h = ground arith

update_lem :
    (k : ℕ) (obj_in : SlabUpdate) (table : SlabTable) {table' : SlabTable}
    → update k obj_in table ≡ ok table'
    → (s : ContractSlab) × (find? (λ (r : ContractSlab). r.slab_id == k) table.rows ≡ some s)
      × (validate_active_slab_chain false s.contract_id (written (updated s obj_in) table)
          ≡ ok table')
unfolding update
update_lem k obj_in table h =
    elim (Option-cases (find? (λ (r : ContractSlab). r.slab_id == k) table.rows)) [
      | inl missing ↦ absurd (ground arith)
      | inr (s, found) ↦ (s, found, ground arith)
    ]

remove_lem :
    (k : ℕ) (table : SlabTable) {table' : SlabTable}
    → remove k table ≡ ok table'
    → (s : ContractSlab) × (find? (λ (r : ContractSlab). r.slab_id == k) table.rows ≡ some s)
      × (validate_active_slab_chain true s.contract_id (deleted k table) ≡ ok table')
unfolding remove
remove_lem k table h =
    elim (Option-cases (find? (λ (r : ContractSlab). r.slab_id == k) table.rows)) [
      | inl missing ↦ absurd (ground arith)
      | inr (s, found) ↦ (s, found, ground arith)
    ]

handle_slab-IsSound :
    (table : SlabTable) (req : SlabRequest) {table' : SlabTable}
    → handle_slab table req ≡ ok table'
    → IsSound table
    → IsSound table'
unfolding handle_slab
handle_slab-IsSound table (SlabRequest.post_slab c obj_in) {table'} h (numbered, chained) =
    let v = create_lem c obj_in table {table' = table'} h in
    let s = new_slab table.next_id c obj_in in
    (
      rw (validate_lem false c (created c obj_in table) {table' = table'} v).1
          (created-IsNumbered c obj_in table numbered),
      touch-IsChained false c table.rows (created c obj_in table) {table' = table'}
          (λ d other. filter-append_other d table.rows s (λ e. other (sym e))) v chained,
    )
handle_slab-IsSound table (SlabRequest.put_slab k obj_in) {table'} h (numbered, chained) =
    let (s, found, v) = update_lem k obj_in table {table' = table'} h in
    let (e, m) = found_lem k table.rows s found in
    (
      rw (validate_lem false s.contract_id (written (updated s obj_in) table) {table' = table'} v).1
          (written-IsNumbered (updated s obj_in) s table m refl numbered),
      touch-IsChained false s.contract_id table.rows (written (updated s obj_in) table)
          {table' = table'}
          (λ d other.
            filter-replace_other d table.rows (updated s obj_in) (λ e. other (sym e))
              (others_lem table s s.slab_id d numbered m refl other))
          v chained,
    )
handle_slab-IsSound table (SlabRequest.delete_slab k) {table'} h (numbered, chained) =
    let (s, found, v) = remove_lem k table {table' = table'} h in
    let (e, m) = found_lem k table.rows s found in
    (
      rw (validate_lem true s.contract_id (deleted k table) {table' = table'} v).1
          (deleted-IsNumbered k table numbered),
      touch-IsChained true s.contract_id table.rows (deleted k table) {table' = table'}
          (λ d other.
            filter-delete_other d k table.rows (others_lem table s k d numbered m e other))
          v chained,
    )

kept_or_new-IsSound :
    (table : SlabTable) (r : Result ContractError SlabTable)
    → ((table' : SlabTable) → r ≡ ok table' → IsSound table')
    → IsSound table
    → IsSound (kept_or_new table r)
kept_or_new-IsSound table (ok table') f sound = f table' refl
kept_or_new-IsSound table (err e) f sound = sound

-- Where ids are keys below the sequence's next, and the active slabs of each contract are none or a
-- chain from 0 km without gaps or overlaps, it is so after any series of requests that create,
-- update or delete slabs, accepted or refused.
pub serve_slabs-IsSound :
    (reqs : List SlabRequest) (table : SlabTable) → IsSound table → IsSound (serve_slabs table reqs)
unfolding serve_slabs
serve_slabs-IsSound [] table sound = sound
serve_slabs-IsSound (req ∷ reqs) table sound =
    serve_slabs-IsSound reqs (kept_or_new table (handle_slab table req)) (
      kept_or_new-IsSound table (handle_slab table req)
        (λ table' h. handle_slab-IsSound table req {table' = table'} h sound) sound)
