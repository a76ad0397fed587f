-- ===== src/Engine/Aliases.antt =====
-- crates/ultramem-core/src/engine/mod.rs: entity aliases at the engine.
pub mod Roundtrip
use ultramem.Prelude.{Text, codes, Unicode, trim, is_empty, Bool, List, [], if◌then◌else◌}
use ultramem.Prelude.Result.{or_default}
use ultramem.World.{Env, Exec, pure, fail, attempt, read_clock, ◌>>=◌}
use ultramem.Db.Access.{add_alias, aliases_for_tag}
use ultramem.Entity.{normalize, resolve_name}
use ultramem.Engine.{Engine, require_db}

abbrev pub no_alias_store : Text
no_alias_store = codes "entity aliases require a relational store (set ULTRAMEM_PG_URL)"

module _ {F V : Type 0} (u : Unicode) (env : Env) (engine : Engine) where
  unfoldable pub alias_add : Text → Text → Text → Exec F V (Unit {0})
  alias_add tag alias canonical =
      if is_empty (normalize u alias)
      then fail (codes "alias is empty after normalization")
      else if is_empty (trim u canonical)
      then fail (codes "canonical is empty")
      else require_db engine no_alias_store (do
        now ← read_clock env
        add_alias env (record {
          container_tag = tag;
          alias = normalize u alias;
          canonical = trim u canonical;
          created_at = now;
        }))

  unfoldable pub resolve_entity : Text → Text → Exec F V Text
  resolve_entity tag name =
      if engine.db
      then (do
        aliases ← attempt (aliases_for_tag env tag)
        pure (resolve_name u name (or_default aliases [])))
      else pure (trim u name)
