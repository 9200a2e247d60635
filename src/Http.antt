-- ===== src/Http.antt =====
-- The HTTP API (internal/): who a request is from, the answers of the handlers, and their errors. Of Go's
-- packages for HTTP, JSON, URLs and base64, and of the libraries for tokens and tickets, what the
-- handlers use is a parameter.
pub mod Status
pub mod Authorization
pub mod Authenticate
pub mod Urls
pub mod AccessUrls
pub mod Response
pub mod Bulk
pub mod Handlers
pub mod Document
