-- ===== src/Summary/Totals.antt =====
-- What a summary counts: each data object once, with its size.
use irods_go_drs.Base.{ℕ, ◌+◌, ◌%◌, ◌≡◌, ap, subst, false}
use irods_go_drs.Base.{List, [], ◌∷◌, any, map, length, eqb, arith}
use irods_go_drs.Base.Exec.{Result, ok, err}
use irods_go_drs.Summary.{SummaryError, word, Counted, count_object}

-- The sum of the sizes of data objects, each with its id.
abbrev pub sizes_of : List (ℕ × ℕ) → ℕ
sizes_of [] = 0
sizes_of (o ∷ objects) = o.1 + sizes_of objects

abbrev pub Distinct : List ℕ → Type 0
Distinct [] = Unit
Distinct (id ∷ ids) = (any (eqb id) ids ≡ false) × Distinct ids

-- The summary counts these objects, whose ids are different and are the ones that were seen.
abbrev pub Counts : List (ℕ × ℕ) → Counted → Type 0
Counts objects c =
    (c.seen_data_ids ≡ map (λ o. o.0) objects)
    × Distinct (map (λ o. o.0) objects)
    × (c.summary.data_object_count ≡ length objects % word)
    × (c.summary.total_size ≡ sizes_of objects % word)

abbrev pub OnSuccess : (Counted → Type 0) → Result SummaryError Counted → Type 0
OnSuccess P (ok c) = P c
OnSuccess P (err e) = Unit

pub count_object-Counts :
    (id size : ℕ) (objects : List (ℕ × ℕ)) (c : Counted)
    → Counts objects c
    → any (eqb id) c.seen_data_ids ≡ false
    → Counts ((id, size) ∷ objects) (count_object id size c)
unfolding count_object
count_object-Counts id size objects c v new = (
  ap (λ ids. id ∷ ids) v.0,
  (subst (λ ids. any (eqb id) ids ≡ false) v.0 new, v.1),
  omega (arith, v.2),
  omega (arith, v.3),
)
