-- ===== src/Access.antt =====
-- The access methods that the service offers for an object (drs-support/access_methods.go): the access
-- ids and their parser, the resources and hosts, the S3 bucket of a data object, and the methods.
pub mod Config
pub mod Ids
pub mod Resources
pub mod Affinity
pub mod Buckets
pub mod Methods
pub mod Search
pub mod LeadsBack
