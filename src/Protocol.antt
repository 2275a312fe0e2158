-- ===== src/Protocol.antt =====
-- crates/journal-protocol: canonical appends, cursors, pages, requests and query strings.
pub mod Canonical
pub mod Cursor
pub mod Pages
pub mod Requests
pub mod Decimal
pub mod Queries
pub mod Search
mod Examples
