-- ===== src/Domain.antt =====
-- crates/journal-domain/src/lib.rs: the limits, the record types, titles and request validation.
pub mod Types
pub mod Title
pub mod Titles
pub mod Validate
pub mod Spec
pub mod Examples
