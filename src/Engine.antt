-- ===== src/Engine.antt =====
-- crates/ultramem-core/src/engine/mod.rs: what the operations of the engine share. An operation is
-- the sequence of its calls of the vector store and the relational store; where the source joins two
-- calls, both are made, the first one first.
pub mod Access
pub mod Counting
pub mod Deletion
pub mod Edges
pub mod Forgetting
pub mod Aliases
pub mod Indexing
pub mod Jobs
pub mod Listing
pub mod Promotion
pub mod Results
pub mod Steps
use ultramem.Prelude.{Text, Bool, Option, none, some, if◌then◌else◌, List}
use ultramem.Prelude.Result.{Result, ok}
use ultramem.World.{
  Collections, World, Env, Exec, pure, fail, attempt, outside, ◌>>=◌, ◌>>◌, read_clock,
}
use ultramem.Db.Journal.{insert_audit}

-- Whether a relational store is attached, and the switches of the configuration.
pub record Engine : Type 0 where
  pub db : Bool
  pub temporal_graph : Bool
  pub memory_graph : Bool

module _ {F V A : Type 0} where
  -- `let Some(db) = &self.db else { return Err(…) }`
  abbrev pub require_db : Engine → Text → Exec F V A → Exec F V A
  require_db engine message m = if engine.db then m else fail message

module _ {F V : Type 0} (env : Env) where
  -- A call of the vector store that writes.
  unfoldable pub store_write : (Collections V → Collections V) → Exec F V (Unit {0})
  store_write f = outside env (λ w. (ok tt, record w { collections = f w.collections }))

  -- A call of the vector store that reads.
  unfoldable pub store_read : {A : Type 0} → (Collections V → A) → Exec F V A
  store_read f = outside env (λ w. (ok (f w.collections), w))

  unfoldable pub audit : Engine → Text → Text → Option Text → Exec F V (Unit {0})
  audit engine tag action target_id =
      if engine.db
      then (do
        ts ← read_clock env
        attempt (
            insert_audit env (record {
              actor = tag;
              container_tag = some tag;
              action = action;
              target_id = target_id;
              request_id = none;
              ts = ts;
            }))
        pure tt)
      else pure tt
