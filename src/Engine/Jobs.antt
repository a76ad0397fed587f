-- ===== src/Engine/Jobs.antt =====
-- crates/ultramem-core/src/engine/mod.rs: background jobs, point-in-time reads and the export.
pub mod Tracked
use ultramem.Prelude.{ℤ, pos, Text, codes, Bool, List, [], Option, none, some, if◌then◌else◌}
use ultramem.Prelude.Result.{Result, ok, err, or_default}
use ultramem.World.{Env, Exec, pure, attempt, new_uuid, read_clock, ◌>>=◌, ◌>>◌}
use ultramem.Db.Rows.{DocumentRow, MemoryRow, JobRow}
use ultramem.Db.Journal.{insert_job, update_job, get_job}
use ultramem.Db.Documents.{list_documents}
use ultramem.Db.Memories as Stored
use ultramem.Engine.{Engine, require_db}

abbrev pub queued_job : Text → Text → ℤ → ℤ → Text → JobRow
queued_job tag kind total now id = record {
  id = id;
  container_tag = some tag;
  kind = kind;
  state = codes "queued";
  progress = pos 0;
  total = some total;
  error = none;
  created_at = now;
  updated_at = now;
}

abbrev pub created : Text → Result (Unit {0}) → Option Text
created id (ok _) = some id
created id (err _) = none

abbrev pub export_cap : ℤ
export_cap = pos 100000

module _ {F V : Type 0} (env : Env) (engine : Engine) where
  unfoldable pub job_create : Text → Text → ℤ → Exec F V (Option Text)
  job_create tag kind total =
      if engine.db
      then (do
        now ← read_clock env
        id ← new_uuid env
        r ← attempt (insert_job env (queued_job tag kind total now id))
        pure (created id r))
      else pure none

  unfoldable pub job_update : Text → Text → ℤ → Option Text → Exec F V (Unit {0})
  job_update id state progress error =
      if engine.db
      then (do now ← read_clock env; attempt (update_job env id state progress error now); pure tt)
      else pure tt

  -- `.ok().flatten()`
  unfoldable pub job_get : Text → Text → Exec F V (Option JobRow)
  job_get id tag =
      if engine.db
      then (do r ← attempt (get_job env id tag); pure (or_default r none))
      else pure none

  unfoldable pub memories_as_of :
      Stored.NewestFirst F → Text → ℤ → ℤ → Exec F V (List (MemoryRow F))
  memories_as_of newest tag t limit =
      if engine.db
      then (do r ← attempt (Stored.memories_as_of env newest tag t limit); pure (or_default r []))
      else pure []

  unfoldable pub export_tag : Text → Exec F V (List DocumentRow × List (MemoryRow F))
  export_tag tag =
      require_db engine (codes "export requires a relational store (set ULTRAMEM_PG_URL)") (do
        documents ← list_documents env tag none export_cap
        memories ← Stored.memories_for_tag env tag export_cap
        pure (documents, memories))
