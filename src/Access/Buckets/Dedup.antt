-- ===== src/Access/Buckets/Dedup.antt =====
-- The buckets of a collection: each name once, in order.
use irods_go_drs.Base.{◌≡◌, refl, sym, subst, true, ◌||◌, List, [], ◌∷◌, arith}
use irods_go_drs.Base.{Option, inl, inr, Bool-cases}
use irods_go_drs.Base.Sort.{sort, insert_sorted, IsSorted, sort-IsSorted}
use irods_go_drs.Text.{Text, ◌==◌, ==_iff, lt, lt_asym, lt_total, member}
use irods_go_drs.Model.{Avu}
use irods_go_drs.Access.Buckets.{dedup_from, dedup_sorted, bucket_names, buckets_of_metadata}

-- Each text comes before the next one.
abbrev pub IsIncreasing : List Text → Type 0
IsIncreasing [] = Unit
IsIncreasing (s ∷ []) = Unit
IsIncreasing (s ∷ t ∷ ts) = (lt s t ≡ true) × IsIncreasing (t ∷ ts)

dedup_from-IsIncreasing :
    (last : Text) (bs : List Text)
    → IsSorted lt (last ∷ bs)
    → IsIncreasing (last ∷ dedup_from last bs)
unfolding dedup_from
dedup_from-IsIncreasing last [] v = tt
dedup_from-IsIncreasing last (b ∷ []) v = ground (arith, ==_iff last b, lt_total last b)
dedup_from-IsIncreasing last (b ∷ c ∷ bs) v = elim (Bool-cases (last == b)) [
  | inl same ↦ rw same (
      dedup_from-IsIncreasing last (c ∷ bs)
        (subst (λ t. IsSorted lt (t ∷ c ∷ bs)) (sym ((==_iff last b).0 same)) v.1))
  | inr other ↦
      rw other
        (ground (arith, ==_iff last b, lt_total last b), dedup_from-IsIncreasing b (c ∷ bs) v.1)
]

member-insert_sorted :
    (t b : Text) (bs : List Text) → member t (insert_sorted lt b bs) ≡ (t == b || member t bs)
unfolding insert_sorted member
member-insert_sorted t b [] = refl
member-insert_sorted t b (c ∷ bs) = ground (arith, member-insert_sorted t b bs)

member-sort : (t : Text) (bs : List Text) → member t (sort lt bs) ≡ member t bs
unfolding sort member
member-sort t [] = refl
member-sort t (b ∷ bs) = ground (arith, member-insert_sorted t b (sort lt bs), member-sort t bs)

member-dedup_from :
    (t last : Text) (bs : List Text)
    → (t == last || member t (dedup_from last bs)) ≡ (t == last || member t bs)
unfolding dedup_from member
member-dedup_from t last [] = refl
member-dedup_from t last (b ∷ bs) =
    ground (arith, ==_iff last b, member-dedup_from t last bs, member-dedup_from t b bs)

member-dedup_sorted : (t : Text) (bs : List Text) → member t (dedup_sorted bs) ≡ member t bs
unfolding dedup_sorted member
member-dedup_sorted t [] = refl
member-dedup_sorted t (b ∷ bs) = member-dedup_from t b bs

dedup_sorted-IsIncreasing : (bs : List Text) → IsSorted lt bs → IsIncreasing (dedup_sorted bs)
unfolding dedup_sorted
dedup_sorted-IsIncreasing [] v = tt
dedup_sorted-IsIncreasing (b ∷ bs) v = dedup_from-IsIncreasing b bs v

-- The buckets of a collection come in increasing order, each once, and are the bucket names of its AVUs.
pub buckets_of_metadata_lem :
    (metas : List (Option Avu))
    → IsIncreasing (buckets_of_metadata metas)
      × ((t : Text) → member t (buckets_of_metadata metas) ≡ member t (bucket_names metas))
unfolding buckets_of_metadata
buckets_of_metadata_lem metas = (
  dedup_sorted-IsIncreasing (sort lt (bucket_names metas))
      (sort-IsSorted lt lt_asym (bucket_names metas)),
  λ t. ground (
    arith,
    member-dedup_sorted t (sort lt (bucket_names metas)),
    member-sort t (bucket_names metas),
  ),
)
