-- ===== src/Metadata.antt =====
-- DRS metadata as AVUs (drs-support/drs_to_irods_service.go and the readers of
-- drs-support/compound_create.go): which AVUs belong to the service, how they are read into an
-- object, and how an object is written as AVUs.
pub mod Attributes
pub mod Apply
pub mod Render
pub mod Lookup
pub mod RoundTrip
pub mod Agreement
