-- ===== src/Db/Access.antt =====
-- crates/ultramem-core/src/db/pg.rs: access grants and entity aliases.
pub mod Grants
use ultramem.Prelude.{
  Text, codes, same, Bool, not, ◌&&◌, List, [], ◌∷◌, ◌++◌, any, filter, if◌then◌else◌,
}
use ultramem.Prelude.Result.{ok}
use ultramem.Db.Rows.{AclEntry, AliasEntry}
use ultramem.Db.Statement.{statement, query}
use ultramem.World.{Env, Exec}

unfoldable pub same_grant : AclEntry → AclEntry → Bool
same_grant e a =
    same a.principal e.principal && same a.scope e.scope && same a.capability e.capability

-- `on conflict (principal, scope, capability) do nothing`
unfoldable pub insert_grant : AclEntry → List AclEntry → List AclEntry
unfolding same_grant
insert_grant e acls = if any (same_grant e) acls then acls else acls ++ e ∷ []

unfoldable pub delete_grant : AclEntry → List AclEntry → List AclEntry
unfolding same_grant
delete_grant e acls = filter (λ a. not (same_grant e a)) acls

unfoldable pub same_alias : AliasEntry → AliasEntry → Bool
same_alias e a = same a.container_tag e.container_tag && same a.alias e.alias

-- `on conflict (container_tag, alias) do update`
unfoldable pub upsert_alias : AliasEntry → List AliasEntry → List AliasEntry
unfolding same_alias
upsert_alias e [] = e ∷ []
upsert_alias e (a ∷ aliases) =
    if same_alias e a
    then record a { canonical = e.canonical; created_at = e.created_at } ∷ aliases
    else a ∷ upsert_alias e aliases

module _ {F V : Type 0} (env : Env) where
  unfoldable pub grant_acl : AclEntry → Exec F V (Unit {0})
  grant_acl e =
      statement env (codes "grant_acl") (λ t. ok (tt, record t { acls = insert_grant e t.acls }))

  unfoldable pub revoke_acl : AclEntry → Exec F V (Unit {0})
  revoke_acl e =
      statement env (codes "revoke_acl") (λ t. ok (tt, record t { acls = delete_grant e t.acls }))

  unfoldable pub acls_for_principal : Text → Exec F V (List AclEntry)
  acls_for_principal principal =
      query env (codes "acls_for_principal") (λ t. filter (λ a. same a.principal principal) t.acls)

  unfoldable pub acls_for_scope : Text → Exec F V (List AclEntry)
  acls_for_scope scope =
      query env (codes "acls_for_scope") (λ t. filter (λ a. same a.scope scope) t.acls)

  unfoldable pub add_alias : AliasEntry → Exec F V (Unit {0})
  add_alias e =
      statement env (codes "add_alias")
        (λ t. ok (tt, record t { aliases = upsert_alias e t.aliases }))

  unfoldable pub aliases_for_tag : Text → Exec F V (List AliasEntry)
  aliases_for_tag container_tag =
      query env (codes "aliases_for_tag")
        (λ t. filter (λ a. same a.container_tag container_tag) t.aliases)
