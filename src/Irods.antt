-- ===== src/Irods.antt =====
-- The iRODS client as the service sees it: the interfaces `IRODSFilesystem`, `EntryMetadataQuerier`,
-- `checksumEnsuringFilesystem` and `allReplicaStatFilesystem` of drs-support/drs_to_irods_service.go
-- over an abstract state, with the two functions of the client library's `util` package that the
-- service calls and the source of random bytes.
pub mod Interface
pub mod Stored
pub mod Actions
pub mod Deletion
pub mod Replicas
pub mod Frame
pub mod Depth
