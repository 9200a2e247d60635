-- ===== src/Compound.antt =====
-- Compound objects (drs-support/compound_create.go): the tree of a collection, the check for nested
-- compounds, the preview of a manifest, and the creation of a compound object.
pub mod Tree
pub mod Paths
pub mod Preflight
pub mod Build
pub mod Create
pub mod Preview
pub mod IgnoreFile
pub mod Runtime
pub mod Mirrors
pub mod Included
pub mod Descendants
pub mod Breadth
pub mod Agreement
