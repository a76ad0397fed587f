-- ===== src/Engine/Forgetting.antt =====
-- crates/ultramem-core/src/engine/mod.rs: the erasure of one memory.
pub mod Reads
pub mod Erased
use ultramem.Prelude.{
  Text, codes, Bool, true, false, List, [], ◌∷◌, Option, some, is_none, if◌then◌else◌,
}
use ultramem.World.{Collections, Env, Exec, pure, ◌>>=◌, ◌>>◌}
use ultramem.Store.Points.{delete_by_ids}
use ultramem.Db.Memories.{get_memory, delete_memory}
use ultramem.Engine.{Engine, require_db, store_write, audit}

abbrev pub no_forget_store : Text
no_forget_store = codes "fact-level forget requires a relational store (set ULTRAMEM_PG_URL)"

abbrev pub erase_point : {V : Type 0} → Text → Collections V → Collections V
erase_point memory_id c = record c { fact_points = delete_by_ids (memory_id ∷ []) c.fact_points }

module _ {F V : Type 0} (env : Env) (engine : Engine) where
  -- What follows the ownership gate.
  abbrev pub erase : Text → Text → Exec F V Bool
  erase tag memory_id = do
    store_write env (erase_point memory_id)
    delete_memory env memory_id tag
    audit env engine tag (codes "forget") (some memory_id)
    pure true

  unfoldable pub forget_memory : Text → Text → Exec F V Bool
  forget_memory tag memory_id = require_db engine no_forget_store (do
    found ← get_memory env memory_id tag
    if is_none found then pure false else erase tag memory_id)
