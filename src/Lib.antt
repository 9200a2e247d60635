-- ===== src/Lib.antt =====
-- A model of irods-go-drs: the Go code that lets iRODS data objects and collections appear as GA4GH DRS
-- objects. The library in drs-support/ decorates an iRODS entry with attribute-value-unit triples
-- (AVUs), reads them back into an object, finds the decorated entries of a collection by metadata
-- queries, offers access methods for an object, and previews, creates and describes compound objects,
-- which are decorated collections; a validator follows the manifests of objects. The HTTP service in
-- internal/ authenticates requests, looks objects up with the library, and answers with them; a sampler
-- keeps the service info.
--
-- Which file models what:
--   Base        Booleans, lists, sorting, results and state passing.
--   Text        the functions of the Go packages `strings` and `path` that the code uses, on lists of
--               code points.
--   Model       the shared data: AVUs, entries, replicas, DRS objects.
--   Metadata    ApplyDrsMetadata, metadataForObject, isDrsMetadata (drs-support/drs_to_irods_service.go)
--               and the readers of AVUs of drs-support/compound_create.go: Attributes, Apply, Render,
--               Lookup; their proofs are in RoundTrip and Agreement.
--   Irods       the interface of the client library (Interface), which AVUs a path carries and what a
--               client promises (Stored), the small helpers over it (Actions), the loop that deletes
--               AVUs (Deletion), entryWithAllReplicas (Replicas), actions that leave a path alone (Frame)
--               and collections that hold finitely much (Depth).
--   Objects     normalizeChecksumValue and internalDrsObjectFromEntry (drs-support/drs_to_irods_service.go).
--   Registry    CreateDrsObjectFromDataObject, RemoveSingleDrsObjectFromDataObject, newGUID,
--               ensureDataObjectChecksum, normalizedMimeType, and upsertDrsMetadata and
--               ensureDataObjectDrsCompleteness (Complete) of drs-support/compound_create.go; what they
--               leave alone is in Spares.
--   Listing     queryDrsListingEntriesBounded (Scope, Entries, Query), listDrsObjectsUnderCollectionBounded
--               (Collect), sortDrsObjects (Sorting), the pages (Paging) and the calls for a listing (Calls),
--               with proofs in Found, Terminates, Contained and Window.
--   Compound    drs-support/compound_create.go: the tree, buildCompoundTree (Build), buildPreflightNode,
--               collectIncludedNodes, failIfDescendantCompound, the paths,
--               CreateCompoundDrsObjectFromCollection (Create), BuildCompoundManifestPreflight (Preview),
--               BuildCompoundRuntimeManifest (Runtime) and AddDRSIgnoreTemplate (IgnoreFile), with proofs
--               in Breadth, Agreement, Descendants, Mirrors, Create/Spares and Create/Marked.
--   Access      drs-support/access_methods.go and the normalisation of affinities of
--               drs-support/drs-config.go; the search for a bucket is in Search.
--   Strip       StripDrsSemantics (drs-support/drs_strip.go), with proofs in Effect and Ends.
--   Summary     appendDrsDataObjectSummaryRows (drs-support/drs_object_summary.go) and the loop over the
--               pages of the catalog (Pages), with proofs in Totals, Rows, Adds,
--               Catalog and Ends.
--   Resolve     drsObjectFromEntry, GetDrsObjectByIRODSPath and GetDrsObjectByID
--               (drs-support/drs_to_irods_service.go), with proofs on the search in Matches.
--   Update      UpdateDrsObjectMetadataField and UpdateDrsObjectAliases of the same file, with proofs in
--               Effect.
--   Validator   drs-support/drs_validator.go and drs-support/drs_manifest.go, with proofs in Visits and
--               Ends.
--   Http        internal/: errors and statuses (Status), the Authorization header (Authorization),
--               auth_middleware.go, auth_support.go and service_context.go (Authenticate), and of
--               api_objects.go the URLs (Urls), access addresses (AccessUrls), the response (Response),
--               authorizations (Bulk) and the handlers (Handlers); the document and the routes of api_docs.go
--               and routers.go (Document); proofs are in Authenticate/Trusted and Bulk/Answered.
--   Sampler     internal/service_info_sampler.go, with proofs in Retries.
--   Configuration  drs-support/drs-config.go behind the decoder: secrets, paths, defaults.
--   Console     tools/drs-console/drscmd.go: scopes, targets and paths of the commands.
--   Tests       runs at concrete inputs, and a client over a list of AVUs (Tests/Memory).
--
-- How the parts correspond to the code. Names are those of the Go code in snake case. A pointer is an
-- Option, a pair of a value and an error a Result, and a call that changes iRODS takes the state and
-- returns it: an error leaves what was written before it. The error nil_dereference stands for a panic,
-- which no loop goes on after. The state of iRODS is a parameter of the client; the theorems that speak
-- of it assume that an addition or a deletion that succeeds changes the one AVU that it names, which
-- Tests/Memory shows to be possible. A text is a list of code points, so a Go string that is not valid
-- UTF-8 is outside the model; folding and lowering are exact where one side is ASCII. An int is 64 bits
-- wide: the sum in the paging code wraps around (Listing/Paging), and so do the totals of a summary
-- (Summary) and, at 32 bits, the counts of a bulk answer (Http/Bulk).
--
-- Bounds and fuel. The loop over the query's cursor takes fuel, since the client decides when its pages
-- end; Listing/Terminates gives an amount that is enough, and Strip/Ends one for the recursion of a
-- strip. The queue of collectIncludedNodes takes one unit for each node of the tree and one more, which
-- Compound/Breadth shows to be enough. Compound/Mirrors gives the fuel for a tree that is built from the
-- client, Validator/Ends that of a validation, Summary/Ends that of a summary, Resolve/Matches that of
-- the cursor of GetDrsObjectByID, and Sampler/Retries that of a start. The search for a bucket takes
-- fuel as well, and what uses it gives nothing where that runs out. The tree of a runtime manifest is as
-- deep as it has nodes at most, since a node is older than its children.
--
-- Parameters, because their code is not in the repository: the iRODS client with its path functions, the
-- random source and the table of MIME types (Irods/Interface), the ignore rules (Compound/Preflight,
-- Compound/Create), the URL package (Access/Methods, Http/Urls), JSON and MD5 (Compound/Runtime,
-- Validator), base64 of a header, the verifier of tokens and the maker of iRODS accounts
-- (Http/Authenticate), tickets (Http/AccessUrls), the clock and the summaries that a sample asks for
-- (Sampler), a file that is written (Compound/IgnoreFile), requests to the catalog (Summary/Pages),
-- files and paths of the host (Configuration) and the session of the console (Console). The resolver of
-- a validator is an interface of Go; what it means for it that the validator changes an object that it
-- gave is one of its operations (Validator). A handler is given the text that an error is formatted to,
-- since its status depends on that (Http/Handlers).
--
-- Not modelled: nil interface values, which the entry points refuse first; log messages and the texts of
-- the library's errors; reading the configuration from files and the environment; the writing of
-- responses of internal/; the ticker of the sampler and its file; ports, sizes and durations below zero;
-- the commands of the console and the certification client in tools/, and tests, deployment and
-- documentation.
pub mod Base
pub mod Text
pub mod Model
pub mod Metadata
pub mod Irods
pub mod Objects
pub mod Registry
pub mod Listing
pub mod Compound
pub mod Access
pub mod Strip
pub mod Summary
pub mod Resolve
pub mod Update
pub mod Validator
pub mod Http
pub mod Sampler
pub mod Configuration
pub mod Console
pub mod Tests
