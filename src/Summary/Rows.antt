-- ===== src/Summary/Rows.antt =====
-- What the rows of a page add to a summary: each data object once.
use irods_go_drs.Base.{ℕ, zero, suc, ◌+◌, ◌<◌, ◌≡◌, refl, sym, subst, true, false}
use irods_go_drs.Base.{List, ◌∷◌, ◌++◌, All, any, eqb, arith, inl, inr, Bool-cases}
use irods_go_drs.Base.Exec.{Result, ok, err}
use irods_go_drs.Text.{Text, codes}
use irods_go_drs.Summary.{
  SummaryError, Counted, Columns, count_object, with_size, with_id, with_avu, append_row,
  append_rows, parse_value, sql_result_row_value, is_valid_drs_id_avu_value,
}
use irods_go_drs.Summary.Totals.{Counts, OnSuccess, count_object-Counts}

abbrev pub value_at : Columns → ℕ → Result SummaryError Text
value_at columns i = sql_result_row_value columns.values i (codes "META_DATA_ATTR_VALUE")

abbrev pub units_at : Columns → ℕ → Result SummaryError Text
units_at columns i = sql_result_row_value columns.units i (codes "META_DATA_ATTR_UNITS")

abbrev pub id_at : Columns → ℕ → Result SummaryError ℕ
id_at columns i =
    parse_value (codes "DATA_ID") (sql_result_row_value columns.ids i (codes "DATA_ID"))

-- The row has a valid DRS id, on the data object with this data id.
abbrev pub IsRowOf : Columns → ℕ → ℕ → Type 0
IsRowOf columns i id =
    (value : Text) × (units : Text) × (value_at columns i ≡ ok value)
    × (units_at columns i ≡ ok units)
    × (is_valid_drs_id_avu_value value units ≡ true)
    × (id_at columns i ≡ ok id)

abbrev pub Seen : ℕ → Counted → Type 0
Seen id c = any (eqb id) c.seen_data_ids ≡ true

abbrev pub size_at : Columns → ℕ → Result SummaryError ℕ
size_at columns i =
    parse_value (codes "DATA_SIZE") (sql_result_row_value columns.sizes i (codes "DATA_SIZE"))

-- One of the first rows has a valid DRS id on this data object, with this size.
abbrev pub IsObjectRow : Columns → ℕ → ℕ × ℕ → Type 0
IsObjectRow columns rows o =
    (i : ℕ) × (i < rows) × IsRowOf columns i o.0 × (size_at columns i ≡ ok o.1)

module _ (columns : Columns) (rows : ℕ) (objects : List (ℕ × ℕ)) where
  -- Before a row: the objects and more are counted, the further ones are rows, and no row is left out.
  abbrev pub IsAdded : ℕ → Counted → Type 0
  IsAdded row c =
      (more : List (ℕ × ℕ)) × Counts (more ++ objects) c
      × All (IsObjectRow columns rows) more
      × ((i id : ℕ) → i < row → IsRowOf columns i id → Seen id c)

  row-Seen :
      (row : ℕ) (c c' : Counted)
      → ((i id : ℕ) → i < row → IsRowOf columns i id → Seen id c)
      → ((id : ℕ) → Seen id c → Seen id c')
      → ((id : ℕ) → IsRowOf columns row id → Seen id c')
      → (i id : ℕ) → i < suc row
      → IsRowOf columns i id
      → Seen id c'
  row-Seen row c c' old keeps new i id b h = elim (Bool-cases (eqb i row)) [
    | inl here ↦ new id (subst (λ j. IsRowOf columns j id) (ground arith) h)
    | inr there ↦ keeps id (old i id (ground arith) h)
  ]

  Seen-count_object :
      (id' id size : ℕ) (c : Counted) → Seen id' c → Seen id' (count_object id size c)
  unfolding count_object
  Seen-count_object id' id size c h = ground arith

  Seen-counted : (id size : ℕ) (c : Counted) → Seen id (count_object id size c)
  unfolding count_object
  Seen-counted id size c = ground arith

  module _ (row : ℕ) (inside : row < rows) (c : Counted) (added : IsAdded row c) where
    abbrev OfRow : (ℕ → Type 0) → Type 0
    OfRow P = (id : ℕ) → IsRowOf columns row id → P id

    with_size-IsAdded :
        (id : ℕ) (size : Result SummaryError ℕ)
        → IsRowOf columns row id
        → OfRow (λ other. other ≡ id)
        → any (eqb id) c.seen_data_ids ≡ false
        → size_at columns row ≡ size
        → OnSuccess (IsAdded (suc row)) (with_size id c size)
    with_size-IsAdded id (err e) is_row only new s = tt
    with_size-IsAdded id (ok size) is_row only new s = (
      (id, size) ∷ added.0,
      count_object-Counts id size (added.0 ++ objects) c added.1 new,
      ((row, inside, is_row, s), added.2),
      row-Seen row c (count_object id size c) added.3
          (λ other h. Seen-count_object other id size c h)
          (λ other h.
            subst (λ x. Seen x (count_object id size c)) (sym (only other h))
              (Seen-counted id size c)),
    )

    with_id-IsAdded :
        (value units : Text) (id : Result SummaryError ℕ)
        → value_at columns row ≡ ok value
        → units_at columns row ≡ ok units
        → is_valid_drs_id_avu_value value units ≡ true
        → id_at columns row ≡ id
        → OnSuccess (IsAdded (suc row)) (with_id columns row c id)
    with_id-IsAdded value units (err e) v u valid r = tt
    with_id-IsAdded value units (ok id) v u valid r =
        elim (Bool-cases (any (eqb id) c.seen_data_ids)) [
          | inl seen ↦ rw seen (
            added.0,
            added.1,
            added.2,
            row-Seen row c c added.3 (λ other h. h)
                (λ other h. subst (λ x. Seen x c) (sym (only other h)) seen),
          )
          | inr new ↦ rw new (
              with_size-IsAdded id (size_at columns row) (value, units, v, u, valid, r) only new
                refl)
        ]
      where
        only : OfRow (λ other. other ≡ id)
        only other h = ground (arith, h.5, r)

    with_avu-IsAdded :
        (value units : Result SummaryError Text)
        → value_at columns row ≡ value
        → units_at columns row ≡ units
        → OnSuccess (IsAdded (suc row)) (with_avu columns row c value units)
    with_avu-IsAdded (err e) units v u = tt
    with_avu-IsAdded (ok value) (err e) v u = tt
    with_avu-IsAdded (ok value) (ok units) v u =
        elim (Bool-cases (is_valid_drs_id_avu_value value units)) [
          | inl valid ↦ rw valid (with_id-IsAdded value units (id_at columns row) v u valid refl)
          | inr other ↦ rw other (
            added.0,
            added.1,
            added.2,
            row-Seen row c c added.3 (λ id h. h)
                (λ id h. absurd (none_of other h.0 h.1 h.2 h.3 h.4)),
          )
        ]
      where
        none_of :
            is_valid_drs_id_avu_value value units ≡ false
            → (value' units' : Text) → value_at columns row ≡ ok value'
            → units_at columns row ≡ ok units'
            → is_valid_drs_id_avu_value value' units' ≡ true
            → ⊥
        none_of other value' units' v' u' valid = ground (arith, v, u)

  append_rows_step :
      (left row : ℕ) (c : Counted) (r : Result SummaryError Counted)
      → append_row columns row c ≡ r
      → OnSuccess (IsAdded (suc row)) r
      → ((c' : Counted)
          → IsAdded (suc row) c'
          → OnSuccess (IsAdded rows) (append_rows columns left (suc row) c'))
      → OnSuccess (IsAdded rows) (append_rows columns (suc left) row c)
  unfolding append_rows
  append_rows_step left row c (err e) h v ih = subst (OnSuccess (IsAdded rows)) (sym stopped) tt
    where
      stopped : append_rows columns (suc left) row c ≡ err e
      stopped = ground arith
  append_rows_step left row c (ok c') h v ih =
      subst (OnSuccess (IsAdded rows)) (sym went_on) (ih c' v)
    where
      went_on : append_rows columns (suc left) row c ≡ append_rows columns left (suc row) c'
      went_on = ground arith

  pub append_rows-IsAdded :
      (left row : ℕ) (c : Counted)
      → row + left ≡ rows
      → IsAdded row c
      → OnSuccess (IsAdded rows) (append_rows columns left row c)
  append_rows-IsAdded zero row c e v =
      unfold append_rows in subst (λ n. IsAdded n c) (omega (arith, e)) v
  append_rows-IsAdded (suc left) row c e v =
      append_rows_step left row c _ refl
        (unfold append_row in with_avu-IsAdded row (omega (arith, e)) c v _ _ refl refl)
        (λ c' v'. append_rows-IsAdded left (suc row) c' (omega (arith, e)) v')
