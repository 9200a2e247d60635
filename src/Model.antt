-- ===== src/Model.antt =====
-- The data that the parts share: iRODS entries, replicas and AVUs as the client library hands them
-- over, and the service's own DRS objects (drs-support/drs_to_irods_service.go, drs_manifest.go).
-- A Go pointer is an `Option`; a time is a number, and so is a size, which iRODS never reports as
-- negative.
use irods_go_drs.Base.{ℕ, Bool, Option, List}
use irods_go_drs.Text.{Text}

-- `irodstypes.IRODSMeta`, an attribute-value-unit triple.
pub record Avu : Type 0 where
  pub name : Text
  pub value : Text
  pub units : Text

-- `irodstypes.ChecksumAlgorithm`: the library's constants, and any other text.
pub data ChecksumAlgorithm : Type 0 where
  sha1 sha256 sha512 adler32 md5 : ChecksumAlgorithm
  other_algorithm : Text → ChecksumAlgorithm

-- `irodstypes.IRODSChecksum`
pub record IrodsChecksum : Type 0 where
  pub algorithm : ChecksumAlgorithm
  pub checksum_string : Text

-- `irodstypes.IRODSReplica`
pub record IrodsReplica : Type 0 where
  pub resource_name : Text
  pub resource_hierarchy : Text
  pub path : Text
  pub status : Text
  pub checksum : Option IrodsChecksum

-- `irodsfs.Entry`, with the replicas that its `ToDataObject` gives.
pub record Entry : Type 0 where
  pub path : Text
  pub name : Text
  pub is_dir : Bool
  pub size : ℕ
  pub create_time : ℕ
  pub modify_time : ℕ
  pub replicas : List (Option IrodsReplica)

-- `irodstypes.IRODSAccount`
pub record Account : Type 0 where
  pub host : Text
  pub port : ℕ
  pub client_user : Text
  pub client_zone : Text

pub record InternalChecksum : Type 0 where
  pub type : Text
  pub value : Text

pub record InternalReplica : Type 0 where
  pub resource_name : Text
  pub resource_hierarchy : Text
  pub path : Text
  pub status : Text

pub record DrsManifestEntry : Type 0 where
  pub id : Text
  pub name : Text
  pub role : Text

pub record InternalDrsObject : Type 0 where
  pub id : Text
  pub absolute_path : Text
  pub irods_zone : Text
  pub resource_name : Text
  pub replicas : List InternalReplica
  pub size : ℕ
  pub created_time : ℕ
  pub updated_time : ℕ
  pub version : Text
  pub mime_type : Text
  pub is_manifest : Bool
  pub checksum : Option InternalChecksum
  pub contents : List DrsManifestEntry
  pub description : Text
  pub aliases : List Text

-- `DrsMetadataField` is a text of its caller; these are the AVU attributes of the service.
pub data Attribute : Type 0 where
  id version mime_type compound_manifest alias description : Attribute
