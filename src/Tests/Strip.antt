-- ===== src/Tests/Strip.antt =====
-- A strip of `/z/home`, which holds one data object.
use irods_go_drs.Base.{ℕ, ◌≡◌, ◌≢◌, refl, subst, true, Option, none, some}
use irods_go_drs.Base.{List, [], ◌∷◌, arith, if◌then◌else◌, inl, inr, Bool-cases}
use irods_go_drs.Base.Exec.{Result, ok}
use irods_go_drs.Text.{Text, codes, ◌==◌, trim_space, is_space}
use irods_go_drs.Model.{Avu, Entry, Attribute}
use irods_go_drs.Irods.Interface.{ClientError}
use irods_go_drs.Irods.Deletion.{delete_matching}
use irods_go_drs.Irods.Stored.{avu_eq}
use irods_go_drs.Metadata.Attributes.{is_drs_metadata, attribute_of, has_drs_unit}
use irods_go_drs.Metadata.Render.{drs_avu}
use irods_go_drs.Strip.{
  StripDrsResult, strip_drs_semantics_recursive, strip_children, count_removed,
}
use irods_go_drs.Strip.Effect.{
  OnlyStripped, IsStripped, AfterSuccess, strip_drs_semantics_recursive_lem,
}
use irods_go_drs.Irods.Depth.{AllBelow, IsDepth}
use irods_go_drs.Strip.Ends.{strip_drs_semantics_recursive_total}
use irods_go_drs.Tests.Memory.{Rows, memory, memory-IsLawful, children, rows_of, remove_row}

abbrev own : Avu
own = record { name = codes "note"; value = codes "mine"; units = [] }

abbrev decorated : Rows
decorated =
    (codes "/z/home", drs_avu Attribute.id (codes "c"))
    ∷ (codes "/z/home/a.txt", own)
    ∷ (codes "/z/home/a.txt", drs_avu Attribute.id (codes "x"))
    ∷ []

abbrev start : StripDrsResult
start = record {
  root_path = codes "/z/home";
  paths_visited = 0;
  paths_with_drs_metadata = 0;
  avus_removed = 0;
}

strip_example :
    strip_drs_semantics_recursive memory 2 (codes "/z/home") true start decorated
    ≡ some (
      ok (record start { paths_visited = 2; paths_with_drs_metadata = 2; avus_removed = 2 }),
      (codes "/z/home/a.txt", own) ∷ [],
    )
unfolding strip_drs_semantics_recursive strip_children count_removed delete_matching children
    rows_of remove_row ◌==◌ avu_eq is_drs_metadata attribute_of has_drs_unit trim_space is_space
strip_example = refl

strip_drs_semantics_recursive_lem_example :
    AfterSuccess memory memory-IsLawful
      (λ t.
        OnlyStripped memory memory-IsLawful decorated t
        × IsStripped memory memory-IsLawful (codes "/z/home") t)
      (strip_drs_semantics_recursive memory 2 (codes "/z/home") true start decorated)
strip_drs_semantics_recursive_lem_example =
    strip_drs_semantics_recursive_lem memory memory-IsLawful 2 (codes "/z/home") true start
      decorated

abbrev pub depth : Text → ℕ
depth p = if p == codes "/z/home" then 1 else 0

children-AllBelow : (p : Text) → AllBelow depth (depth p) (children p)
unfolding children ◌==◌
children-AllBelow p = elim (Bool-cases (p == codes "/z/home")) [
  | inl home ↦ rw home (omega arith, tt)
  | inr other ↦ rw other tt
]

ok_injective :
    (r : Result ClientError (List (Option Entry))) (a b : List (Option Entry))
    → r ≡ ok a
    → r ≡ ok b
    → a ≡ b
ok_injective r a b e f = ground arith

pub depth-IsDepth : IsDepth memory depth
depth-IsDepth p s found l =
    subst (AllBelow depth (depth p)) (ok_injective (memory.list p s) (children p) found refl l)
      (children-AllBelow p)

strip_drs_semantics_recursive_total_example :
    strip_drs_semantics_recursive memory 2 (codes "/z/home") true start decorated ≢ none
unfolding ◌==◌
strip_drs_semantics_recursive_total_example =
    strip_drs_semantics_recursive_total memory depth depth-IsDepth 2 (codes "/z/home") true start
      decorated (omega arith)
