-- ===== src/Objects.antt =====
-- DRS objects built from iRODS entries (drs-support/drs_to_irods_service.go): checksums, replicas and
-- the object itself.
pub mod Encoding
pub mod Checksum
pub mod FromEntry
pub mod Recognised
