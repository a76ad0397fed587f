-- ===== src/Store.antt =====
-- crates/ultramem-core/src/providers, and the filters of crates/ultramem-core/src/engine/mod.rs: the
-- vector store.
pub mod Point
pub mod Filters
pub mod Points
pub mod Isolation
pub mod Current
pub mod Deletion
