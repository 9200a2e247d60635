-- ===== src/Listing.antt =====
-- Listing DRS objects (drs-support/drs_to_irods_service.go): the metadata query with its cursor, the
-- objects that its entries stand for, their order, and the pages that callers ask for.
pub mod Scope
pub mod Entries
pub mod Query
pub mod Sorting
pub mod Paging
pub mod Window
pub mod Collect
pub mod Calls
pub mod Found
pub mod Terminates
pub mod Contained
