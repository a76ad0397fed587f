-- ===== src/Db/Memories.antt =====
-- crates/ultramem-core/src/db/pg.rs: the distilled memories and their evidence.
pub mod History
pub mod Reads
pub mod Marks
pub mod Erasure
use ultramem.Prelude.{
  ℤ, leb_ℤ, ltb_ℤ, pos, Text, codes, same, contains, Bool, true, false, not, ◌&&◌, List, [], ◌∷◌,
  ◌++◌, any, filter, find, length, map, IsSorted, Memᴰ, ◌↔◌, Option, none, some, if◌then◌else◌,
}
use ultramem.Prelude.Result.{Result, ok, err}
use ultramem.Db.Rows.{DocumentRow, MemoryRow, EvidenceRow}
use ultramem.Db.Statement.{
  statement, query, limited, foreign_key_violation, and_tables, with_tables,
}
use ultramem.World.{Tables, Env, Exec, pure, ◌>>=◌, ◌>>◌}

abbrev pub after_time : ℤ → Option ℤ → Bool
after_time t none = true
after_time t (some s) = ltb_ℤ t s

module _ {F : Type 0} where
  unfoldable pub insert_memory_row :
      MemoryRow F → List DocumentRow → List (MemoryRow F) → Result (List (MemoryRow F))
  insert_memory_row m documents rows =
      if any (λ r. same r.id m.id) rows
      then ok rows
      else if any (λ d. same d.id m.document_id) documents
      then ok (rows ++ m ∷ [])
      else err foreign_key_violation

  -- `update memories set is_latest = false, superseded_by = $2, superseded_at = $3 where id = $1`
  abbrev pub superseded_row : Text → Text → ℤ → MemoryRow F → MemoryRow F
  superseded_row old_id new_id ts m =
      if same m.id old_id
      then record m { is_latest = false; superseded_by = some new_id; superseded_at = some ts }
      else m

  unfoldable pub supersede : Text → Text → ℤ → List (MemoryRow F) → List (MemoryRow F)
  supersede old_id new_id ts rows = map (superseded_row old_id new_id ts) rows

  unfoldable pub is_known_at : Text → ℤ → MemoryRow F → Bool
  is_known_at container_tag t m =
      same m.container_tag container_tag
      && not m.needs_review
      && leb_ℤ m.learned_at t
      && after_time t m.superseded_at
      && after_time t m.valid_until

  abbrev pub newest_memory : MemoryRow F → MemoryRow F → Bool
  newest_memory a b = leb_ℤ b.learned_at a.learned_at

  -- The rows that the `where` of the read admits.
  unfoldable pub known_at : Text → ℤ → List (MemoryRow F) → List (MemoryRow F)
  known_at container_tag t rows = filter (is_known_at container_tag t) rows

  unfoldable pub owned : Text → Text → MemoryRow F → Bool
  owned id container_tag m = same m.id id && same m.container_tag container_tag

  unfoldable pub stated : Text → List Text → MemoryRow F → Bool
  stated container_tag statements m =
      same m.container_tag container_tag && m.is_latest && contains statements m.statement

  unfoldable pub insert_evidence_row :
      EvidenceRow
      → List DocumentRow
      → List (MemoryRow F)
      → List EvidenceRow
      → Result (List EvidenceRow)
  insert_evidence_row e documents memories rows =
      if any (λ r. same r.id e.id) rows
      then ok rows
      else if any (λ m. same m.id e.memory_id) memories
          && any (λ d. same d.id e.document_id) documents
      then ok (rows ++ e ∷ [])
      else err foreign_key_violation

  -- `delete from memory_evidence where memory_id = $1 and exists (…)`
  unfoldable pub delete_evidence_rows :
      Text → Text → List (MemoryRow F) → List EvidenceRow → List EvidenceRow
  unfolding owned
  delete_evidence_rows id container_tag memories rows =
      filter (λ e. not (same e.memory_id id && any (owned id container_tag) memories)) rows

  unfoldable pub delete_memory_rows : Text → Text → List (MemoryRow F) → List (MemoryRow F)
  unfolding owned
  delete_memory_rows id container_tag rows = filter (λ m. not (owned id container_tag m)) rows

-- `order by learned_at desc`: PostgreSQL gives the rows in an order of its choice among those that
-- this allows.
pub record NewestFirst (F : Type 0) : Type 0 where
  pub order : List (MemoryRow F) → List (MemoryRow F)
  pub order-Mem : (rows : List (MemoryRow F)) (m : MemoryRow F) → Memᴰ m (order rows) ↔ Memᴰ m rows
  pub order-IsSorted : (rows : List (MemoryRow F)) → IsSorted newest_memory (order rows)

module _ {F V : Type 0} (env : Env) where
  abbrev pub insert_one : MemoryRow F → Exec F V (Unit {0})
  insert_one m = statement env (codes "insert_memories") (λ t.
      and_tables (λ rows. record t { memories = rows })
        (insert_memory_row m t.documents t.memories))

  unfoldable pub insert_memories : List (MemoryRow F) → Exec F V (Unit {0})
  insert_memories [] = pure tt
  insert_memories (m ∷ memories) = do insert_one m; insert_memories memories

  abbrev pub mark_one : Text → Text → ℤ → Exec F V (Unit {0})
  mark_one old_id new_id ts =
      statement env (codes "mark_superseded")
        (λ t. ok (tt, record t { memories = supersede old_id new_id ts t.memories }))

  unfoldable pub mark_superseded : List (Text × Text) → ℤ → Exec F V (Unit {0})
  mark_superseded [] ts = pure tt
  mark_superseded ((old_id, new_id) ∷ pairs) ts = do
    mark_one old_id new_id ts
    mark_superseded pairs ts

  abbrev pub insert_quote : EvidenceRow → Exec F V (Unit {0})
  insert_quote e = statement env (codes "insert_evidence") (λ t.
      and_tables (λ evidence. record t { evidence = evidence })
        (insert_evidence_row e t.documents t.memories t.evidence))

  unfoldable pub insert_evidence : List EvidenceRow → Exec F V (Unit {0})
  insert_evidence [] = pure tt
  insert_evidence (e ∷ rows) = do insert_quote e; insert_evidence rows

  unfoldable pub memories_by_statement : Text → List Text → Exec F V (List (MemoryRow F))
  unfolding stated
  memories_by_statement container_tag statements =
      query env (codes "memories_by_statement")
        (λ t. filter (stated container_tag statements) t.memories)

  unfoldable pub evidence_for : List Text → Exec F V (List EvidenceRow)
  evidence_for memory_ids =
      query env (codes "evidence_for")
        (λ t. filter (λ e. contains memory_ids e.memory_id) t.evidence)

  unfoldable pub memories_for_tag : Text → ℤ → Exec F V (List (MemoryRow F))
  memories_for_tag container_tag cap = statement env (codes "memories_for_tag") (λ t.
      with_tables t (limited cap (filter (λ m. same m.container_tag container_tag) t.memories)))

  unfoldable pub memories_as_of : NewestFirst F → Text → ℤ → ℤ → Exec F V (List (MemoryRow F))
  unfolding known_at is_known_at
  memories_as_of newest container_tag t cap = statement env (codes "memories_as_of") (λ tables.
      with_tables tables (limited cap (newest.order (known_at container_tag t tables.memories))))

  unfoldable pub get_memory : Text → Text → Exec F V (Option (MemoryRow F))
  unfolding owned
  get_memory id container_tag =
      query env (codes "get_memory") (λ t. find (owned id container_tag) t.memories)

  -- The evidence rows go first; `rows_affected() > 0` of the second statement is the answer. The
  -- foreign key of the evidence table cascades.
  unfoldable pub delete_memory : Text → Text → Exec F V Bool
  unfolding owned delete_evidence_rows delete_memory_rows
  delete_memory id container_tag = do
    statement env (codes "delete_memory (evidence)") (λ t.
        ok (
          (
            tt,
            record t { evidence = delete_evidence_rows id container_tag t.memories t.evidence },
          )))
    statement env (codes "delete_memory") (λ t. ok (
        (
          any (owned id container_tag) t.memories,
          record t {
            memories = delete_memory_rows id container_tag t.memories;
            evidence = delete_evidence_rows id container_tag t.memories t.evidence;
          },
        )))
