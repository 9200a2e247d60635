-- ===== src/Registry/MimeType.antt =====
-- drs-support/mime_type_support.go, and `normalizedMimeType`. The tables of Go's `mime` package are
-- those of the host, and a parameter.
use irods_go_drs.Base.{◌&&◌, not, [], ◌∷◌, is_nil, eqb, any}
use irods_go_drs.Base.{if◌then◌else◌, ◌≡◌, refl}
use irods_go_drs.Text.{Text, codes, ◌==◌, trim_space, to_lower}

-- `filepath.Ext`: from the last dot of the last element on.
unfoldable pub ext : Text → Text
ext [] = []
ext (c ∷ s) =
    let rest = ext s in
    if not (is_nil rest)
    then rest
    else if eqb c b'.' && not (any (λ d. eqb d b'/') s)
    then c ∷ s
    else []

module _ (media_type_by_extension : Text → Text) where
  -- `DeriveFromDataObjectPath`
  unfoldable pub derive_from_data_object_path : Text → Text
  unfolding ext trim_space to_lower ◌==◌
  derive_from_data_object_path path =
      let e = trim_space (ext (trim_space path)) in
      if is_nil e
      then []
      else if to_lower e == codes ".md"
      then codes "text/markdown"
      else media_type_by_extension e

  unfoldable pub normalized_mime_type : Text → Text → Text
  unfolding derive_from_data_object_path
  normalized_mime_type path mime_type =
      if is_nil (trim_space mime_type)
      then derive_from_data_object_path path
      else trim_space mime_type

ext_examples :
    (ext (codes "/z/a.tar.gz") ≡ codes ".gz")
    × (ext (codes "/z.d/a") ≡ [])
    × (derive_from_data_object_path (λ e. e) (codes "/z/README.MD ") ≡ codes "text/markdown")
unfolding ext derive_from_data_object_path
ext_examples = (refl, refl, refl)
