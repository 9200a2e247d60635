-- ===== src/Irods/Interface.antt =====
-- The operations of the client, and the errors of the service.
use irods_go_drs.Base.{ℕ, Bool, Option, List}
use irods_go_drs.Base.Exec.{Result, Exec}
use irods_go_drs.Text.{Text}
use irods_go_drs.Model.{Avu, Account, Entry, IrodsChecksum}

-- What the client reports: `not_found` is what `isFileNotFoundError` recognises.
pub data ClientError : Type 0 where
  not_found : ClientError
  failed : Text → ClientError

-- The errors of the service. `client` wraps one of the client, and the paths are those of the
-- messages.
pub data Error : Type 0 where
  client : ClientError → Error
  path_required no_entry : Error
  already_drs_object not_drs_object compound_object not_collection : Text → Error
  unsupported_field alias_field drs_id_required : Error
  id_not_found id_ambiguous : Text → Error
  missing_cursor : Error
  unsupported_scope : Error
  offset_negative limit_not_positive : Error
  no_metadata_queries : Error
  missing_parent descendant_compound excluded_root : Text → Error
  ignore_is_collection ignore_exists already_compound : Text → Error
  no_query_support : Error
  -- Not an error of the source but its panic: a nil entry whose method is called.
  nil_dereference : Error

-- `extmetadata.EntryKind`
pub data EntryKind : Type 0 where
  collection_kind data_object_kind : EntryKind

-- Where a query looks: at one id, at the children of a collection, or by a `like` pattern.
pub data QueryPlace : Type 0 where
  by_drs_id : Text → QueryPlace
  children_of : EntryKind → Text → QueryPlace
  path_like : EntryKind → Text → QueryPlace

pub record EntryQuery : Type 0 where
  pub place : QueryPlace
  pub limit : ℕ
  pub cursor : Option Text

-- `extmetadata.EntryQueryResult`. The matched AVUs are those of the entry's path.
pub record EntryQueryResult : Type 0 where
  pub entries : List (Option Entry)
  pub matched_avus : Text → List Avu
  pub has_more : Bool
  pub next : Option Text

-- The ways in which `ensureDataObjectChecksum` and `entryWithAllReplicas` get an answer: a method of
-- the filesystem, the metadata connection of the library's own filesystem, or none.
pub data Capability (A : Type 0) : Type 0 where
  by_method : A → Capability A
  by_connection : A → Capability A
  unsupported : Capability A

pub record Client : Type 1 where
  pub State : Type 0
  pub stat_file : Text → State → Result ClientError (Option Entry)
  -- The method `Stat`, which `compoundStat` prefers where the filesystem has it.
  pub stat : Option (Text → State → Result ClientError (Option Entry))
  pub list : Text → State → Result ClientError (List (Option Entry))
  pub list_metadata : Text → State → Result ClientError (List (Option Avu))
  pub add_metadata : Text → Avu → Exec State ClientError (Unit {0})
  pub delete_metadata_by_avu : Text → Avu → Exec State ClientError (Unit {0})
  pub account : State → Option Account
  pub query : Option (EntryQuery → State → Result ClientError EntryQueryResult)
  pub ensure_checksum : Capability (Text → Exec State ClientError (Option IrodsChecksum))
  pub all_replicas : Capability (Text → State → Result ClientError (Option Entry))
  -- `irodsutil.GetCorrectIRODSPath` and `irodsutil.GetIRODSZone`
  pub correct_path : Text → Text
  pub path_zone : Text → Option Text
  -- `rand.Read` of 16 bytes
  pub random_bytes : Exec State ClientError (List ℕ)
  -- `mime.TypeByExtension` with `mime.ParseMediaType`, which read the tables of the host
  pub media_type_by_extension : Text → Text
