-- ===== src/Engine/Access.antt =====
-- crates/ultramem-core/src/engine/mod.rs: access grants at the engine.
pub mod Closed
use ultramem.Prelude.{Text, pos, codes, ◌++◌, Bool, false, not, List, [], ◌∷◌, if◌then◌else◌}
use ultramem.Prelude.Result.{or_default}
use ultramem.World.{Env, Exec, pure, fail, attempt, ◌>>=◌, read_clock}
use ultramem.Db.Rows.{AclEntry}
use ultramem.Db.Access.{grant_acl, revoke_acl, acls_for_principal}
use ultramem.Db.Access as Rows
use ultramem.Scope.{is_valid_capability, visible_scopes}
use ultramem.Scope as Rules
use ultramem.Engine.{Engine, require_db}

abbrev pub no_acl_store : Text
no_acl_store = codes "ACLs require a relational store (set ULTRAMEM_PG_URL)"

module _ {F V : Type 0} (env : Env) (engine : Engine) where
  unfoldable pub visible_scopes_for : Text → Exec F V (List Text)
  visible_scopes_for tag =
      if engine.db
      then (do
        acls ← attempt (acls_for_principal env tag)
        pure (visible_scopes tag (or_default acls [])))
      else pure (tag ∷ [])

  unfoldable pub acl_grant : Text → Text → Text → Exec F V (Unit {0})
  acl_grant principal scope capability =
      if not (is_valid_capability capability)
      then fail (codes "unknown capability: " ++ capability)
      else require_db engine no_acl_store (do
        now ← read_clock env
        grant_acl env (record {
          principal = principal;
          scope = scope;
          capability = capability;
          created_at = now;
        }))

  unfoldable pub acl_revoke : Text → Text → Text → Exec F V (Unit {0})
  acl_revoke principal scope capability = require_db engine no_acl_store (
      revoke_acl env (record {
        principal = principal;
        scope = scope;
        capability = capability;
        created_at = pos 0;
      }))

  unfoldable pub acls_for_scope : Text → Exec F V (List AclEntry)
  acls_for_scope scope = require_db engine no_acl_store (Rows.acls_for_scope env scope)

  unfoldable pub can_promote : Text → Text → Exec F V Bool
  can_promote principal to_scope =
      if engine.db
      then (do
        acls ← attempt (acls_for_principal env principal)
        pure (Rules.can_promote principal to_scope (or_default acls [])))
      else pure false
