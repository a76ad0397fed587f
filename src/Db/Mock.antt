-- ===== src/Db/Mock.antt =====
-- crates/ultramem-core/src/db/mock.rs: the in-memory relational store, which takes the place of
-- PostgreSQL in tests. Its state has the tables of PgDb. A `HashMap` of rows by their ids is the list
-- of its rows in the order of their insertion, one of the orders in which `values()` may give them.
-- No operation fails.
pub mod Agrees
use ultramem.Prelude.{
  ℤ, leb_ℤ, pos, clamp_nonneg, Text, same, same_option, contains, Bool, true, false, not, ◌&&◌,
  ◌||◌, List, [], ◌∷◌, ◌++◌, any, filter, find, length, map, sort_by, take, is_some, Option, none,
  some, if◌then◌else◌,
}
use ultramem.World.{Tables}
use ultramem.Db.Rows.{
  DocumentRow, ChunkRow, MemoryRow, EvidenceRow, JobRow, AclEntry, AliasEntry, AuditEvent,
}
use ultramem.Db.Documents.{captured_before, newest_document, first_chunk}
use ultramem.Db.Memories.{after_time, newest_memory, superseded_row, is_known_at}
use ultramem.Db.Journal.{newest_event, update_job_row}
use ultramem.Db.Access.{same_grant}

-- `get(id).filter(p)`
abbrev pub keep_if : {A : Type 0} → (A → Bool) → Option A → Option A
keep_if p none = none
keep_if p (some a) = if p a then some a else none

-- `truncate(limit.max(0) as usize)` and `take(…)`.
abbrev pub capped : {A : Type 0} → ℤ → List A → List A
capped limit rows = take (clamp_nonneg limit) rows

-- `entry(id).or_insert_with(…)`, where `id` is the row's own.
unfoldable pub add_row : {A : Type 0} → (A → Text) → A → List A → List A
add_row id_of row rows =
    if any (λ r. same (id_of r) (id_of row)) rows then rows else rows ++ row ∷ []

unfoldable pub add_rows : {A : Type 0} → (A → Text) → List A → List A → List A
unfolding add_row
add_rows id_of [] rows = rows
add_rows id_of (row ∷ new) rows = add_rows id_of new (add_row id_of row rows)

unfoldable pub doc_matches : Text → Text → Option Text → DocumentRow → Bool
unfolding same_option
doc_matches container_tag content_hash canonical_url d =
    same d.container_tag container_tag
    && (same_option d.content_hash (some content_hash)
        || (is_some canonical_url && same_option d.canonical_url canonical_url))

abbrev pub id_of_found : Option DocumentRow → Option Text
id_of_found none = none
id_of_found (some d) = some d.id

-- The loop of `mark_superseded`.
unfoldable pub mark_rows :
    {F : Type 0} → List (Text × Text) → ℤ → List (MemoryRow F) → List (MemoryRow F)
mark_rows [] ts rows = rows
mark_rows ((old_id, new_id) ∷ pairs) ts rows =
    mark_rows pairs ts (map (superseded_row old_id new_id ts) rows)

-- The entry that `iter_mut().find(…)` finds is changed, or the new one is pushed.
unfoldable pub change_alias : AliasEntry → List AliasEntry → List AliasEntry
change_alias entry [] = entry ∷ []
change_alias entry (a ∷ aliases) =
    if same a.container_tag entry.container_tag && same a.alias entry.alias
    then record a { canonical = entry.canonical; created_at = entry.created_at } ∷ aliases
    else a ∷ change_alias entry aliases

-- An operation that answers nothing gives the state after it; one that only reads gives its answer.
module _ {F : Type 0} (t : Tables F) where
  unfoldable pub insert_document : DocumentRow → Tables F
  unfolding add_row
  insert_document d = record t { documents = add_row (λ r. r.id) d t.documents }

  unfoldable pub get_document : Text → Text → Option DocumentRow
  get_document id container_tag =
      keep_if (λ d. same d.container_tag container_tag) (find (λ d. same d.id id) t.documents)

  unfoldable pub upsert_chunks : List ChunkRow → Tables F
  unfolding add_rows
  upsert_chunks chunks = record t { chunks = add_rows (λ c. c.id) chunks t.chunks }

  unfoldable pub find_document_id : Text → Text → Option Text → Option Text
  unfolding doc_matches
  find_document_id container_tag content_hash canonical_url =
      id_of_found (find (doc_matches container_tag content_hash canonical_url) t.documents)

  unfoldable pub list_documents : Text → Option ℤ → ℤ → List DocumentRow
  list_documents container_tag before limit = capped limit (
      sort_by newest_document
        (filter (λ d. same d.container_tag container_tag && captured_before before d) t.documents))

  unfoldable pub insert_memories : List (MemoryRow F) → Tables F
  unfolding add_rows
  insert_memories memories = record t { memories = add_rows (λ m. m.id) memories t.memories }

  -- The ids are distinct, so the row that `get_mut` finds is every row of that id.
  unfoldable pub mark_superseded : List (Text × Text) → ℤ → Tables F
  unfolding mark_rows
  mark_superseded pairs ts = record t { memories = mark_rows pairs ts t.memories }

  unfoldable pub insert_evidence : List EvidenceRow → Tables F
  insert_evidence rows = record t { evidence = t.evidence ++ rows }

  unfoldable pub memories_by_statement : Text → List Text → List (MemoryRow F)
  unfolding contains
  memories_by_statement container_tag statements =
      filter
        (λ m. same m.container_tag container_tag && m.is_latest && contains statements m.statement)
        t.memories

  unfoldable pub evidence_for : List Text → List EvidenceRow
  unfolding contains
  evidence_for memory_ids = filter (λ e. contains memory_ids e.memory_id) t.evidence

  unfoldable pub insert_job : JobRow → Tables F
  unfolding add_row
  insert_job job = record t { jobs = add_row (λ j. j.id) job t.jobs }

  unfoldable pub update_job : Text → Text → ℤ → Option Text → ℤ → Tables F
  unfolding update_job_row
  update_job id state progress error updated_at = record t {
    jobs = map (update_job_row id state progress error updated_at) t.jobs;
  }

  unfoldable pub get_job : Text → Text → Option JobRow
  unfolding same_option
  get_job id container_tag =
      keep_if (λ j. same_option j.container_tag (some container_tag))
        (find (λ j. same j.id id) t.jobs)

  unfoldable pub insert_audit : AuditEvent → Tables F
  insert_audit event = record t { audits = t.audits ++ event ∷ [] }

  unfoldable pub audit_count : Text → ℤ
  unfolding same_option
  audit_count container_tag =
      pos (length (filter (λ e. same_option e.container_tag (some container_tag)) t.audits))

  unfoldable pub audit_list : Text → ℤ → List AuditEvent
  unfolding same_option
  audit_list container_tag limit = capped limit (
      sort_by newest_event
        (filter (λ e. same_option e.container_tag (some container_tag)) t.audits))

  unfoldable pub chunks_for_document : Text → List ChunkRow
  chunks_for_document document_id =
      sort_by first_chunk (filter (λ c. same c.document_id document_id) t.chunks)

  unfoldable pub memories_for_tag : Text → ℤ → List (MemoryRow F)
  memories_for_tag container_tag cap =
      capped cap (filter (λ m. same m.container_tag container_tag) t.memories)

  -- `values` is the iteration of the `HashMap`, in an order that the standard library leaves open.
  unfoldable pub memories_as_of :
      (List (MemoryRow F) → List (MemoryRow F)) → Text → ℤ → ℤ → List (MemoryRow F)
  memories_as_of values container_tag time cap = capped cap (
      sort_by newest_memory (
        filter
          (λ m.
            same m.container_tag container_tag
            && not m.needs_review
            && leb_ℤ m.learned_at time
            && after_time time m.superseded_at
            && after_time time m.valid_until)
          (values t.memories)))

  unfoldable pub get_memory : Text → Text → Option (MemoryRow F)
  get_memory id container_tag =
      keep_if (λ m. same m.container_tag container_tag) (find (λ m. same m.id id) t.memories)

  unfoldable pub delete_memory : Text → Text → Bool × Tables F
  delete_memory id container_tag =
      if is_some
        (keep_if (λ m. same m.container_tag container_tag) (find (λ m. same m.id id) t.memories))
      then (
        true,
        record t {
          memories = filter (λ m. not (same m.id id)) t.memories;
          evidence = filter (λ e. not (same e.memory_id id)) t.evidence;
        },
      )
      else (false, t)

  unfoldable pub add_alias : AliasEntry → Tables F
  unfolding change_alias
  add_alias entry = record t { aliases = change_alias entry t.aliases }

  unfoldable pub aliases_for_tag : Text → List AliasEntry
  aliases_for_tag container_tag = filter (λ a. same a.container_tag container_tag) t.aliases

  unfoldable pub grant_acl : AclEntry → Tables F
  unfolding same_grant
  grant_acl entry = record t {
    acls = if any (same_grant entry) t.acls then t.acls else t.acls ++ entry ∷ [];
  }

  unfoldable pub revoke_acl : AclEntry → Tables F
  unfolding same_grant
  revoke_acl entry = record t { acls = filter (λ a. not (same_grant entry a)) t.acls }

  unfoldable pub acls_for_principal : Text → List AclEntry
  acls_for_principal principal = filter (λ a. same a.principal principal) t.acls

  unfoldable pub acls_for_scope : Text → List AclEntry
  acls_for_scope scope = filter (λ a. same a.scope scope) t.acls
