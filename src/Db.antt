-- ===== src/Db.antt =====
-- crates/ultramem-core/src/db: the relational source of truth.
pub mod Rows
pub mod Statement
pub mod Documents
pub mod Memories
pub mod Access
pub mod Mock
pub mod Journal
