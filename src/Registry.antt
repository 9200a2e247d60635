-- ===== src/Registry.antt =====
-- Decorating entries as DRS objects and taking the decoration off
-- (drs-support/drs_to_irods_service.go, and the helpers of drs-support/compound_create.go).
pub mod Guid
pub mod MimeType
pub mod EnsureChecksum
pub mod Create
pub mod Remove
pub mod Upsert
pub mod Complete
pub mod Spares
