-- ===== src/Journal.antt =====
-- crates/journal-service: the journal service over its database.
pub mod Schema
pub mod Tx
pub mod Access
pub mod Records
pub mod Ids
pub mod Inserts
pub mod Append
pub mod Returns
pub mod Preserves
pub mod Thread
pub mod Pages
pub mod Inbox
pub mod Lists
pub mod Principals
pub mod Credentials
pub mod Spaces
pub mod Administration
mod Examples
mod Runs
