-- ===== src/Chunker.antt =====
-- crates/ultramem-core/src/engine/chunker.rs: a document is cut into chunks, by paragraphs, by
-- headings, by turns of speakers or by rounds of a conversation.
pub mod Plain
pub mod Turns
pub mod Markdown
pub mod Doc
pub mod Cover
pub mod Rejoin
pub mod Within
pub mod Bounds
