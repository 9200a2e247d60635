-- ===== src/Access/Buckets.antt =====
-- S3 bucket names, the buckets of a collection, and the URL and the id of an S3 access method.
pub mod Dedup
use irods_go_drs.Base.{
  ℕ, zero, suc, ◌+◌, ◌-◌, ◌*◌, Bool, true, false, ◌&&◌, ◌||◌, not, Option, none, some,
}
use irods_go_drs.Base.{
  List, [], ◌∷◌, ◌++◌, is_nil, all, length, leb, ltb, eqb, if◌then◌else◌, ◌≡◌, refl,
}
use irods_go_drs.Base.Exec.{Result, ok, err}
use irods_go_drs.Base.Sort.{sort}
use irods_go_drs.Text.{
  Text, codes, ◌==◌, lt, trim_space, to_lower, equal_fold, contains, has_suffix, trim_prefix,
  segments,
}
use irods_go_drs.Text.FilePath.{clean}
use irods_go_drs.Model.{Avu, Account}
use irods_go_drs.Irods.Interface.{ClientError}

abbrev pub s3_bucket_avu_attribute : Text
s3_bucket_avu_attribute = codes "iRODS:S3:Bucket"

unfoldable pub is_digit : ℕ → Bool
is_digit c = leb 48 c && leb c 57

-- A letter or digit of `[a-z0-9]`.
unfoldable pub is_lower_alnum : ℕ → Bool
is_lower_alnum c = leb 97 c && leb c 122 || is_digit c

-- What follows the first character of `^[a-z0-9][a-z0-9.-]{1,61}[a-z0-9]$`: characters of the middle
-- class, the last of which is of the narrow one.
unfoldable pub is_bucket_tail : Text → Bool
is_bucket_tail [] = false
is_bucket_tail (c ∷ []) = is_lower_alnum c
is_bucket_tail (c ∷ d ∷ s) =
    (is_lower_alnum c || (eqb c b'.' || eqb c b'-')) && is_bucket_tail (d ∷ s)

-- `s3BucketNamePattern.MatchString`
unfoldable pub matches_bucket_pattern : Text → Bool
matches_bucket_pattern [] = false
matches_bucket_pattern (c ∷ s) =
    is_lower_alnum c && (is_bucket_tail s && (leb 2 (length s) && leb (length s) 62))

-- The fields between dots.
dotted : Text → Text × List Text
dotted [] = ([], [])
dotted (c ∷ s) =
    let (first, others) = dotted s in
    if eqb c b'.' then ([], first ∷ others) else (c ∷ first, others)

decimal : ℕ → Text → ℕ
decimal n [] = n
decimal n (c ∷ s) = decimal (n * 10 + (c - 48)) s

-- One to three digits with no leading zero, at most 255.
is_octet : Text → Bool
is_octet [] = false
is_octet (c ∷ s) =
    all is_digit (c ∷ s)
    && (leb (length s) 2 && ((is_nil s || not (eqb c b'0')) && leb (decimal 0 (c ∷ s)) 255))

four_octets : List Text → Bool
four_octets (a ∷ b ∷ c ∷ []) = is_octet a && (is_octet b && is_octet c)
four_octets _ = false

-- `net.ParseIP` accepts the text, which has no colon.
unfoldable pub is_ipv4 : Text → Bool
unfolding dotted decimal is_octet four_octets is_digit
is_ipv4 s = let (first, others) = dotted s in is_octet first && four_octets others

unfoldable pub is_valid_s3_bucket_name : Text → Bool
is_valid_s3_bucket_name name =
    matches_bucket_pattern name
    && (not
          (contains name (codes "..") || (contains name (codes ".-") || contains name (codes "-.")))
        && not (is_ipv4 name))

-- `normalizeS3BucketName`: an invalid name becomes empty.
unfoldable pub normalize_s3_bucket_name : Text → Text
normalize_s3_bucket_name name =
    let n = trim_space (to_lower name) in if is_valid_s3_bucket_name n then n else []

-- The bucket name of one AVU, or nothing: a name that is not valid stays as it was written.
unfoldable pub bucket_of_avu : Option Avu → Text
bucket_of_avu none = []
bucket_of_avu (some avu) =
    let written = trim_space avu.value in
    let normalized = normalize_s3_bucket_name written in
    if equal_fold avu.name s3_bucket_avu_attribute
    then (if is_nil normalized then written else normalized)
    else []

unfoldable pub bucket_names : List (Option Avu) → List Text
bucket_names [] = []
bucket_names (avu ∷ metas) =
    let rest = bucket_names metas in
    if is_nil (bucket_of_avu avu) then rest else bucket_of_avu avu ∷ rest

-- The loop that keeps of each run of equal names the first, from the name that was kept last.
unfoldable pub dedup_from : Text → List Text → List Text
dedup_from last [] = []
dedup_from last (b ∷ bs) =
    let rest = dedup_from b bs in
    let same = dedup_from last bs in if last == b then same else b ∷ rest

unfoldable pub dedup_sorted : List Text → List Text
dedup_sorted [] = []
dedup_sorted (b ∷ bs) = b ∷ dedup_from b bs

-- `bucketsForPath` behind its listing.
unfoldable pub buckets_of_metadata : List (Option Avu) → List Text
buckets_of_metadata metas = dedup_sorted (sort lt (bucket_names metas))

unfoldable pub resolve_s3_bucket_access_url : Text → Text → Text → Text
resolve_s3_bucket_access_url base_url bucket_id object_key =
    let base = trim_space base_url in
    let bucket = trim_space bucket_id in
    let key = trim_prefix (trim_space object_key) (codes "/") in
    if is_nil base || (is_nil bucket || is_nil key)
    then []
    else if has_suffix base (codes "://") || has_suffix base (codes "/")
    then base ++ (bucket ++ (codes "/" ++ key))
    else base ++ (codes "/" ++ (bucket ++ (codes "/" ++ key)))

-- The user of a home path, `/<zone>/home/<user>/...`.
home_user : List Text → Text
home_user (zone ∷ home ∷ user ∷ rest) = if home == codes "home" then trim_space user else []
home_user _ = []

-- `resolveS3AccessID`
unfoldable pub resolve_s3_access_id : Option Account → Text → Text
unfolding home_user
resolve_s3_access_id account absolute_path =
    let path = trim_space (clean absolute_path) in
    let from_path =
      if is_nil path || (path == codes "." || path == codes "/")
      then []
      else home_user (segments (trim_prefix path (codes "/"))) in
    elim account [
      | none ↦ from_path
      | some a ↦ if is_nil (trim_space a.client_user) then from_path else trim_space a.client_user
    ]

bucket_examples :
    (is_valid_s3_bucket_name (codes "my-bucket.1") ≡ true)
    × (is_valid_s3_bucket_name (codes "10.0.0.1") ≡ false)
    × (is_valid_s3_bucket_name (codes "a..b") ≡ false)
    × (is_valid_s3_bucket_name (codes "ab") ≡ false)
    × (resolve_s3_access_id none (codes "/zone/home/rods/x") ≡ codes "rods")
unfolding is_valid_s3_bucket_name matches_bucket_pattern is_bucket_tail is_lower_alnum is_ipv4
    contains resolve_s3_access_id clean trim_space trim_prefix segments ◌==◌
bucket_examples = (refl, refl, refl, refl, refl)
