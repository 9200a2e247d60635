-- ===== src/Access/Search.antt =====
-- The search for the S3 bucket of a data object: the collections above it, from the nearest one on, until
-- one names a bucket; with it the regions of methods. The loop takes fuel; `none` means that it ran out.
use irods_go_drs.Base.{ℕ, zero, suc, Bool, ◌||◌, Option, none, some, List, [], ◌∷◌, ◌++◌}
use irods_go_drs.Base.{is_nil, length, if◌then◌else◌}
use irods_go_drs.Base.Exec.{Result, ok, err}
use irods_go_drs.Base.Sort.{sort}
use irods_go_drs.Text.{Text, codes, ◌==◌, lt, trim_space, trim_prefix}
use irods_go_drs.Text.FilePath.{clean, dir}
use irods_go_drs.Model.{Avu, InternalDrsObject}
use irods_go_drs.Irods.Interface.{Client, ClientError}
use irods_go_drs.Access.Config.{DrsConfig}
use irods_go_drs.Access.Buckets.{buckets_of_metadata}
use irods_go_drs.Access.Methods.{
  DrsAccessMethod, UrlPackage, S3BucketResolution, build_access_methods,
}

-- `SortedAccessMethodRegions`
unfoldable pub named_regions : List DrsAccessMethod → List Text
named_regions [] = []
named_regions (m ∷ methods) =
    let rest = named_regions methods in
    if is_nil (trim_space m.region) then rest else m.region ∷ rest

unfoldable pub sorted_access_method_regions : List DrsAccessMethod → List Text
sorted_access_method_regions methods = sort lt (named_regions methods)

abbrev pub is_top : Text → Bool
is_top path = is_nil path || (path == codes "." || path == codes "/")

-- `err` is the client's error, and `ok none` that no bucket was found.
abbrev pub Search : Type 0
Search = Option (Result ClientError (Option S3BucketResolution))

abbrev pub resolution_of : Text → Text → Text → List Text → Option S3BucketResolution
resolution_of path current bucket others =
    let relative = trim_prefix (trim_prefix path (current ++ codes "/")) (codes "/") in
    if is_nil relative
    then none
    else some (record {
      bucket_name = bucket;
      bucket_collection_path = current;
      relative_object_path = relative;
      candidate_bucket_count = suc (length others);
    })

module _ (C : Client) (s : C.State) (path : Text) where
  abbrev pub at_collection : Text → Result ClientError (List (Option Avu)) → Search → Search
  at_collection current (err e) above = some (err e)
  at_collection current (ok metas) above = elim (buckets_of_metadata metas) [
    | [] ↦ above
    | bucket ∷ others ↦ some (ok (resolution_of path current bucket others))
  ]

  -- The loop: a collection whose parent is itself ends it.
  unfoldable pub search_from : ℕ → Text → Search
  search_from zero current = none
  search_from (suc fuel) current =
      let parent = trim_space (clean (dir current)) in
      let above = search_from fuel parent in
      if is_top current
      then some (ok none)
      else at_collection current (C.list_metadata current s)
          (if parent == current then some (ok none) else above)

module _ (C : Client) (s : C.State) where
  unfoldable pub resolve_s3_bucket_for_data_object_path : ℕ → Text → Search
  resolve_s3_bucket_for_data_object_path fuel data_object_path =
      let path = trim_space (clean data_object_path) in
      if is_top path
      then some (ok none)
      else search_from C s path fuel (trim_space (clean (dir path)))

  -- A search that fails offers no S3 method, as one that finds nothing.
  abbrev pub methods_for :
      UrlPackage → DrsConfig → InternalDrsObject → Search → Option (List DrsAccessMethod)
  methods_for urls cfg object none = none
  methods_for urls cfg object (some (err e)) =
      some (build_access_methods urls cfg object (C.account s) none)
  methods_for urls cfg object (some (ok found)) =
      some (build_access_methods urls cfg object (C.account s) found)

  -- `BuildAccessMethodsWithFilesystem` with a filesystem.
  unfoldable pub build_access_methods_with_filesystem :
      UrlPackage → ℕ → DrsConfig → InternalDrsObject → Option (List DrsAccessMethod)
  build_access_methods_with_filesystem urls fuel cfg object =
      methods_for urls cfg object (resolve_s3_bucket_for_data_object_path fuel object.absolute_path)
