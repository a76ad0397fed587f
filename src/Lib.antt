-- ===== src/Lib.antt =====
-- UltraMem: a memory engine for assistants. Documents are cut into chunks and distilled into
-- facts; chunks and facts are points of a vector store, and a relational store holds the same
-- documents, memories and their evidence as the source of truth. Every record belongs to a
-- namespace, its container tag, and a principal reads its own namespace and those granted to it.
--
-- The program's parts and the files that model them:
--   Scope               crates/ultramem-core/src/scope.rs: visible_scopes, can_read, can_promote
--   Tenant              crates/ultramem-server/src/tenant.rs: TagPolicy, AuthConfig, ct_eq
--   Store               crates/ultramem-core/src/providers/mock.rs, the in-memory vector store
--                       (Point, Points), and the filters of crates/ultramem-core/src/engine/mod.rs
--                       (Filters: tagged_filter, scope_filter, doc_delete_filter,
--                       active_facts_filter, build_filter)
--   Db                  crates/ultramem-core/src/db/mod.rs (Rows) and db/pg.rs, one operation per
--                       method of PgDb; the keys are those of crates/ultramem-core/migrations; and
--                       db/mock.rs (Mock), one function per method of MockDb
--   Entity              crates/ultramem-core/src/entity.rs: normalize, resolve (resolve_name)
--   Memory              crates/ultramem-core/src/engine/memory.rs: action_for, reconcile,
--                       parse_classifications, parse_expiry (Expiry)
--   Chunker             crates/ultramem-core/src/engine/chunker.rs, a module per strategy: chunk_text
--                       and what the strategies share (Plain), chunk_rounds and chunk_transcript
--                       (Turns), chunk_markdown (Markdown), chunk_doc (Doc)
--   Graph               crates/ultramem-core/src/engine/graph.rs: normalize_key, supersession,
--                       parse_edges (Parse), resolve (Resolve), render_block (Render)
--   Engine              crates/ultramem-core/src/engine/mod.rs, the operations of MemoryEngine:
--                       Access (acl_grant, acl_revoke, visible_scopes_for, can_promote),
--                       Forgetting (forget_memory), Deletion (delete_document,
--                       delete_document_tagged), Promotion (promote_memory), Aliases (alias_add,
--                       resolve_entity), Jobs (job_create, job_update, job_get, memories_as_of,
--                       export_tag), Listing (list_document_ids), Indexing (index_memories),
--                       Edges (index_edges, latest_edges, resolve_edges_tagged), Counting
--                       (count_event_instances_tagged) and Results (group_chunk_hits)
--   World               what the engine acts on, and the steps it takes
--   Prelude             the shared types, operators and lemmas
--
-- The state is a World: the tables, the collections of points, the cache of profiles and a count
-- of the calls made outside. An operation is an Exec: it takes a world to a result and a world, so
-- that what was written before an error stays written. Whether a call outside fails, its message,
-- the fresh ids and the clock come from an Env, as functions of the count: a theorem for every Env
-- is one for every pattern of failures. A statement of SQL (Db.Statement) fails as a whole or does
-- what its text says to the tables; the engine is the client of Db and Store through those
-- operations only. Where the source joins two calls, both are made, the first one first.
--
-- A text is its list of code points over the native numbers, a time or a count of SQL is an
-- integer, and no arithmetic of the modelled code leaves its machine range. A map is an
-- association list, a limit of SQL below zero is an error. The order that `order by learned_at
-- desc` leaves open (NewestFirst), and that in which a HashMap of memories is iterated (values),
-- are parameters; other queries give rows that tie in the order of the table. Loops are structural
-- but one: `chunks` of the standard library, the windows of n characters, runs on the length of
-- its text as fuel, which is enough for n above zero since every window takes a character at
-- least.
--
-- Parameters, for what is not part of this repository: what Unicode knows of a character, and the
-- lower case of a text (Unicode), the bytes of a text (Utf8), the answer of a language model
-- (chat), the JSON parser (from_str), the scores of neighbors with their order and threshold, the
-- embedder (embed), the vector search (search), the dates of chrono (ymd_to_unix, end_of_day,
-- date, date_str), the printing of a number (decimal), and the types of a vector, of a score and
-- of a confidence.
--
-- Not modelled: the HTTP routes, the clients of Qdrant, Jina, Mistral and the language models, the
-- extraction of files, the wording of prompts, search in the vector store, and the parts of the
-- engine on the chunks of a document, the rest of retrieval and the rebuilding of the index.
pub mod Prelude
pub mod Store
pub mod World
pub mod Db
pub mod Scope
pub mod Tenant
pub mod Entity
pub mod Memory
pub mod Chunker
pub mod Graph
pub mod Engine
pub mod Examples
