-- ===== src/Contract/Keys.antt =====
-- The ids of slabs, after changes (`CRUDContractSlab` in app/crud/contract.py).
use fleet_manager.Prelude.{
  ℕ, suc, ◌<◌, ◌≡◌, sym, ◌∙◌, ap, subst, ◌≢◌, not, some, List, [], ◌∷◌, ◌++◌, arith, ◌==◌, ==_iff,
  filter, find?, replace, All, All-of_Elem, Elem, here, there, Elem-cons, Elem-replace, Elem-filter,
  find?-true, inl, inr, ◌⊎◌,
}
use fleet_manager.Contract.{ContractSlab}
use fleet_manager.Contract.Slabs.{SlabTable, SlabCreate, new_slab}

-- The ids are keys, and below the sequence's next.
abbrev pub IsNumbered : SlabTable → Type 0
IsNumbered table =
    ((a b : ContractSlab) → Elem a table.rows → Elem b table.rows → a.slab_id ≡ b.slab_id → a ≡ b)
    × ((a : ContractSlab) → Elem a table.rows → a.slab_id < table.next_id)

-- The row found by its id.
pub found_lem :
    (k : ℕ) (rows : List ContractSlab) (s : ContractSlab)
    → find? (λ r. r.slab_id == k) rows ≡ some s
    → (s.slab_id ≡ k) × Elem s rows
found_lem k rows s h =
    let (t, m) = find?-true (λ (r : ContractSlab). r.slab_id == k) rows h in
    ((==_iff s.slab_id k).0 t, m)

-- The rows with the id of `s` belong to its contract.
pub others_lem :
    (table : SlabTable) (s : ContractSlab) (k d : ℕ)
    → IsNumbered table
    → Elem s table.rows
    → s.slab_id ≡ k
    → d ≢ s.contract_id
    → All (λ r. r.slab_id ≡ k → r.contract_id ≢ d) table.rows
others_lem table s k d numbered m e other =
    All-of_Elem (λ r. r.slab_id ≡ k → r.contract_id ≢ d) table.rows
      (λ r mr er ed.
        other
          (sym ed ∙ ap (λ (x : ContractSlab). x.contract_id) (numbered.0 r s mr m (er ∙ sym e))))

Elem-append_last :
    (x : ContractSlab) (rows : List ContractSlab) (s : ContractSlab)
    → Elem x (rows ++ s ∷ [])
    → (x ≡ s) ⊎ Elem x rows
Elem-append_last x [] s m = elim (Elem-cons m) [ inl e ↦ inl e | inr n ↦ elim n [ ] ]
Elem-append_last x (r ∷ rows) s m = elim (Elem-cons m) [
  | inl e ↦ inr (subst (λ y. Elem x (y ∷ rows)) e here)
  | inr n ↦ elim (Elem-append_last x rows s n) [ inl e ↦ inl e | inr k ↦ inr (there k) ]
]

abbrev pub created : ℕ → SlabCreate → SlabTable → SlabTable
created c obj_in table = record {
  rows = table.rows ++ new_slab table.next_id c obj_in ∷ [];
  next_id = suc table.next_id;
}

abbrev pub written : ContractSlab → SlabTable → SlabTable
written s table = record table { rows = replace (λ r. r.slab_id) s table.rows }

abbrev pub deleted : ℕ → SlabTable → SlabTable
deleted k table = record table { rows = filter (λ r. not (r.slab_id == k)) table.rows }

pub created-IsNumbered :
    (c : ℕ) (obj_in : SlabCreate) (table : SlabTable)
    → IsNumbered table
    → IsNumbered (created c obj_in table)
created-IsNumbered c obj_in table numbered =
    let s = new_slab table.next_id c obj_in in
    (
      λ a b ma mb e. elim (Elem-append_last a table.rows s ma) [
        | inl ea ↦ elim (Elem-append_last b table.rows s mb) [
          | inl eb ↦ ea ∙ sym eb
          | inr mb' ↦
              absurd (omega (arith, numbered.1 b mb', ap (λ (x : ContractSlab). x.slab_id) ea, e))
        ]
        | inr ma' ↦ elim (Elem-append_last b table.rows s mb) [
          | inl eb ↦
              absurd (omega (arith, numbered.1 a ma', ap (λ (x : ContractSlab). x.slab_id) eb, e))
          | inr mb' ↦ numbered.0 a b ma' mb' e
        ]
      ],
      λ a ma. elim (Elem-append_last a table.rows s ma) [
        | inl ea ↦ omega (arith, ap (λ (x : ContractSlab). x.slab_id) ea)
        | inr ma' ↦ omega (arith, numbered.1 a ma')
      ],
    )

pub written-IsNumbered :
    (s : ContractSlab) (old : ContractSlab) (table : SlabTable)
    → Elem old table.rows
    → s.slab_id ≡ old.slab_id
    → IsNumbered table
    → IsNumbered (written s table)
written-IsNumbered s old table m same numbered =
    let key = λ (r : ContractSlab). r.slab_id in
    (
      λ a b ma mb e. elim (Elem-replace key s table.rows ma) [
        | inl ea ↦ elim (Elem-replace key s table.rows mb) [
          | inl eb ↦ ea ∙ sym eb
          | inr (mb', other) ↦ absurd (other (sym e ∙ ap key ea))
        ]
        | inr (ma', other) ↦ elim (Elem-replace key s table.rows mb) [
          | inl eb ↦ absurd (other (e ∙ ap key eb))
          | inr (mb', _) ↦ numbered.0 a b ma' mb' e
        ]
      ],
      λ a ma. elim (Elem-replace key s table.rows ma) [
        | inl ea ↦ omega (arith, ap key ea, numbered.1 old m)
        | inr (ma', _) ↦ numbered.1 a ma'
      ],
    )

pub deleted-IsNumbered :
    (k : ℕ) (table : SlabTable) → IsNumbered table → IsNumbered (deleted k table)
deleted-IsNumbered k table numbered =
    let p = λ (r : ContractSlab). not (r.slab_id == k) in
    (
      λ a b ma mb e.
          numbered.0 a b (Elem-filter p table.rows ma).0 (Elem-filter p table.rows mb).0 e,
      λ a ma. numbered.1 a (Elem-filter p table.rows ma).0,
    )
