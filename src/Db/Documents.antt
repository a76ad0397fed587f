-- ===== src/Db/Documents.antt =====
-- crates/ultramem-core/src/db/pg.rs: documents and their chunks, under the constraints of
-- crates/ultramem-core/migrations/0001_init.sql.
use ultramem.Prelude.{
  ℤ, leb_ℤ, ltb_ℤ, Text, codes, same, Bool, true, false, ◌&&◌, ◌||◌, List, [], ◌∷◌, ◌++◌, any,
  filter, find, sort_by, Option, none, some, if◌then◌else◌,
}
use ultramem.Prelude.Result.{Result, ok, err}
use ultramem.Db.Rows.{DocumentRow, ChunkRow}
use ultramem.Db.Statement.{
  statement, query, limited, unique_violation, foreign_key_violation, and_tables, with_tables,
}
use ultramem.World.{Env, Exec, pure, ◌>>◌}

-- The unique indexes on (container_tag, canonical_url) and (container_tag, content_hash), where a
-- null equals nothing.
abbrev pub same_key : Option Text → Option Text → Bool
same_key (some a) (some b) = same a b
same_key _ _ = false

unfoldable pub collides : DocumentRow → DocumentRow → Bool
collides d r =
    same r.container_tag d.container_tag
    && (same_key r.canonical_url d.canonical_url || same_key r.content_hash d.content_hash)

unfoldable pub insert_document_row : DocumentRow → List DocumentRow → Result (List DocumentRow)
insert_document_row d rows =
    if any (λ r. same r.id d.id) rows
    then ok rows
    else if any (collides d) rows
    then err unique_violation
    else ok (rows ++ d ∷ [])

unfoldable pub is_duplicate : Text → Text → Option Text → DocumentRow → Bool
is_duplicate container_tag content_hash canonical_url d =
    same d.container_tag container_tag
    && (same_key d.content_hash (some content_hash) || same_key d.canonical_url canonical_url)

unfoldable pub find_document : Text → Text → Option Text → List DocumentRow → Option DocumentRow
find_document container_tag content_hash canonical_url rows =
    find (is_duplicate container_tag content_hash canonical_url) rows

abbrev pub captured_before : Option ℤ → DocumentRow → Bool
captured_before none d = true
captured_before (some b) d = ltb_ℤ d.captured_at b

abbrev pub newest_document : DocumentRow → DocumentRow → Bool
newest_document a b = leb_ℤ b.captured_at a.captured_at

unfoldable pub listed : Text → Option ℤ → List DocumentRow → List DocumentRow
listed container_tag before rows =
    sort_by newest_document
      (filter (λ d. same d.container_tag container_tag && captured_before before d) rows)

unfoldable pub insert_chunk_row :
    ChunkRow → List DocumentRow → List ChunkRow → Result (List ChunkRow)
insert_chunk_row c documents rows =
    if any (λ r. same r.id c.id) rows
    then ok rows
    else if any (λ d. same d.id c.document_id) documents
    then ok (rows ++ c ∷ [])
    else err foreign_key_violation

abbrev pub first_chunk : ChunkRow → ChunkRow → Bool
first_chunk a b = leb_ℤ a.chunk_index b.chunk_index

unfoldable pub document_chunks : Text → List ChunkRow → List ChunkRow
document_chunks document_id rows =
    sort_by first_chunk (filter (λ c. same c.document_id document_id) rows)

abbrev pub id_of : Option DocumentRow → Option Text
id_of none = none
id_of (some d) = some d.id

module _ {F V : Type 0} (env : Env) where
  unfoldable pub insert_document : DocumentRow → Exec F V (Unit {0})
  insert_document d =
      statement env (codes "insert_document") (λ t.
        and_tables (λ rows. record t { documents = rows }) (insert_document_row d t.documents))

  unfoldable pub get_document : Text → Text → Exec F V (Option DocumentRow)
  get_document id container_tag =
      query env (codes "get_document")
        (λ t. find (λ d. same d.id id && same d.container_tag container_tag) t.documents)

  unfoldable pub upsert_chunks : List ChunkRow → Exec F V (Unit {0})
  upsert_chunks [] = pure tt
  upsert_chunks (c ∷ chunks) = do
    statement env (codes "upsert_chunks") (λ t.
        and_tables (λ rows. record t { chunks = rows }) (insert_chunk_row c t.documents t.chunks))
    upsert_chunks chunks

  unfoldable pub find_document_id : Text → Text → Option Text → Exec F V (Option Text)
  find_document_id container_tag content_hash canonical_url =
      query env (codes "find_document_id")
        (λ t. id_of (find_document container_tag content_hash canonical_url t.documents))

  unfoldable pub list_documents : Text → Option ℤ → ℤ → Exec F V (List DocumentRow)
  list_documents container_tag before limit =
      statement env (codes "list_documents")
        (λ t. with_tables t (limited limit (listed container_tag before t.documents)))

  unfoldable pub chunks_for_document : Text → Exec F V (List ChunkRow)
  chunks_for_document document_id =
      query env (codes "chunks_for_document") (λ t. document_chunks document_id t.chunks)
