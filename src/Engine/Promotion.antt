-- ===== src/Engine/Promotion.antt =====
-- crates/ultramem-core/src/engine/mod.rs: the promotion of a memory into a shared scope. The
-- embedder (`embed`) is a parameter.
pub mod Shared
use ultramem.Prelude.{
  ℤ, Text, codes, Bool, true, false, List, [], ◌∷◌, Option, none, some, ◌≡◌, refl, if◌then◌else◌,
}
use ultramem.Prelude.Result.{Result, ok, err}
use ultramem.World.{Collections, Env, Exec, pure, attempt, new_uuid, read_clock, ◌>>=◌, ◌>>◌}
use ultramem.Store.Point.{Value, null, bool, int, str, as_i64, Point}
use ultramem.Store.Points.{upsert}
use ultramem.Db.Rows.{MemoryRow}
use ultramem.Db.Memories.{get_memory, insert_memories}
use ultramem.Engine.{Engine, require_db, store_write, audit}
use ultramem.Engine.Deletion.{pass}

abbrev pub no_promotion_store : Text
no_promotion_store = codes "promotion requires a relational store (set ULTRAMEM_PG_URL)"

abbrev pub json_time : Option ℤ → Value
json_time none = null
json_time (some t) = int t

pub as_i64-json_time : (t : Option ℤ) → as_i64 (some (json_time t)) ≡ t
as_i64-json_time none = refl
as_i64-json_time (some t) = refl

module _ {F V : Type 0} where
  abbrev pub promoted_point : Text → Text → Text → MemoryRow F → V → Point V
  promoted_point new_id from_tag to_scope src vec = record {
    id = new_id;
    vector = vec;
    payload =
        (codes "doc_id", str src.document_id)
        ∷ (codes "fact", str src.statement)
        ∷ (codes "kind", str src.kind)
        ∷ (codes "is_latest", bool true)
        ∷ (codes "needs_review", bool false)
        ∷ (codes "supersedes", null)
        ∷ (codes "extends", str src.id)
        ∷ (codes "valid_until", json_time src.valid_until)
        ∷ (codes "container_tag", str to_scope)
        ∷ (codes "promoted_from", str src.id)
        ∷ (codes "promoted_from_scope", str from_tag)
        ∷ [];
  }

module _ {F : Type 0} where
  abbrev pub promoted_row : Text → ℤ → Text → MemoryRow F → MemoryRow F
  promoted_row new_id now to_scope src = record src {
    id = new_id;
    container_tag = to_scope;
    is_latest = true;
    needs_review = false;
    supersedes = none;
    superseded_by = none;
    superseded_at = none;
    extends = some src.id;
    learned_at = now;
    created_at = now;
  }

module _ {V : Type 0} where
  abbrev pub first_vector : List V → Result V
  first_vector [] = err (codes "no embedding for promoted fact")
  first_vector (vec ∷ vecs) = ok vec

  abbrev pub add_fact : Point V → Collections V → Collections V
  add_fact p c = record c { fact_points = upsert (p ∷ []) c.fact_points }

module _ {F V : Type 0} (env : Env) (engine : Engine) (embed : List Text → Result (List V)) where
  -- What follows the point: the row, where a failure is not fatal, and the audit.
  abbrev pub record_promotion : Text → ℤ → Text → MemoryRow F → Exec F V (Option Text)
  record_promotion new_id now to_scope src = do
    attempt (insert_memories env (promoted_row new_id now to_scope src ∷ []))
    audit env engine to_scope (codes "promote") (some new_id)
    pure (some new_id)

  abbrev pub share : Text → Text → MemoryRow F → Text → ℤ → V → Exec F V (Option Text)
  share from_tag to_scope src new_id now vec = do
    store_write env (add_fact (promoted_point new_id from_tag to_scope src vec))
    record_promotion new_id now to_scope src

  abbrev pub embed_and_share : Text → Text → MemoryRow F → Text → ℤ → Exec F V (Option Text)
  embed_and_share from_tag to_scope src new_id now = do
    vecs ← pass (embed (src.statement ∷ []))
    vec ← pass (first_vector vecs)
    share from_tag to_scope src new_id now vec

  abbrev pub promote_found : Text → Text → Option (MemoryRow F) → Exec F V (Option Text)
  promote_found from_tag to_scope none = pure none
  promote_found from_tag to_scope (some src) = do
    new_id ← new_uuid env
    now ← read_clock env
    embed_and_share from_tag to_scope src new_id now

  unfoldable pub promote_memory : Text → Text → Text → Exec F V (Option Text)
  promote_memory from_tag memory_id to_scope =
      require_db engine no_promotion_store
        (do found ← get_memory env memory_id from_tag; promote_found from_tag to_scope found)
