-- ===== src/Objects/Checksum.antt =====
-- The checksum of a replica in the service's form: a lower-case algorithm name and, where the value
-- is hexadecimal or base64, lower-case hexadecimal digits.
use irods_go_drs.Base.{Bool, not, ◌&&◌, Option, none, some, [], ◌∷◌, is_nil, eqb}
use irods_go_drs.Base.{if◌then◌else◌}
use irods_go_drs.Text.{Text, codes, trim_space, to_lower}
use irods_go_drs.Model.{
  ChecksumAlgorithm, sha1, sha256, sha512, adler32, md5, other_algorithm, IrodsChecksum,
  IrodsReplica, InternalChecksum,
}
use irods_go_drs.Objects.Encoding.{is_hex, hex_encode, base64_decode}

unfoldable pub normalize_checksum_type : ChecksumAlgorithm → Text
unfolding to_lower
normalize_checksum_type sha1 = codes "sha-1"
normalize_checksum_type sha256 = codes "sha-256"
normalize_checksum_type sha512 = codes "sha-512"
normalize_checksum_type adler32 = codes "adler32"
normalize_checksum_type md5 = codes "md5"
normalize_checksum_type (other_algorithm name) = to_lower name

-- What follows the first colon: the second part of `strings.SplitN(trimmed, ":", 2)`.
unfoldable pub after_colon : Text → Option Text
after_colon [] = none
after_colon (c ∷ s) = let rest = after_colon s in if eqb c b':' then some s else rest

-- `isHexString`
unfoldable pub is_hex_string : Text → Bool
unfolding is_hex
is_hex_string s = not (is_nil s) && is_hex s

-- The value without its algorithm prefix.
unfoldable pub checksum_part : Text → Text
unfolding after_colon
checksum_part trimmed = elim (after_colon trimmed) [ none ↦ trimmed | some part ↦ part ]

unfoldable pub normalize_part : Text → Text
unfolding is_hex_string to_lower base64_decode hex_encode
normalize_part part =
    if is_hex_string part
    then to_lower part
    else elim (base64_decode part) [ none ↦ part | some bytes ↦ hex_encode bytes ]

unfoldable pub normalize_checksum_value : Text → Text
unfolding checksum_part normalize_part trim_space
normalize_checksum_value irods_checksum =
    if is_nil (trim_space irods_checksum)
    then []
    else normalize_part (checksum_part (trim_space irods_checksum))

-- `checksumFromIRODSChecksum`
unfoldable pub checksum_from_irods_checksum : Option IrodsChecksum → Option InternalChecksum
unfolding normalize_checksum_type normalize_checksum_value
checksum_from_irods_checksum none = none
checksum_from_irods_checksum (some c) =
    if is_nil c.checksum_string
    then none
    else some (record {
      type = normalize_checksum_type c.algorithm;
      value = normalize_checksum_value c.checksum_string;
    })

unfoldable pub checksum_from_replica : Option IrodsReplica → Option InternalChecksum
unfolding checksum_from_irods_checksum
checksum_from_replica none = none
checksum_from_replica (some replica) = checksum_from_irods_checksum replica.checksum
