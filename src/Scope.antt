-- ===== src/Scope.antt =====
-- crates/ultramem-core/src/scope.rs: which scopes a principal may read, and into which it may
-- promote, from its access grants.
pub mod Visible
use ultramem.Prelude.{
  Text, codes, same, contains, Bool, ◌&&◌, ◌||◌, List, [], ◌∷◌, ◌++◌, any, not, if◌then◌else◌,
}
use ultramem.Db.Rows.{AclEntry}

abbrev pub capabilities : List Text
capabilities = codes "read" ∷ codes "write" ∷ codes "promote" ∷ codes "admin" ∷ []

unfoldable pub is_valid_capability : Text → Bool
is_valid_capability capability = contains capabilities capability

unfoldable pub grants_read : Text → Bool
grants_read capability =
    same capability (codes "read")
    || same capability (codes "write")
    || same capability (codes "promote")
    || same capability (codes "admin")

-- `AclEntry::principal_reads_here`
unfoldable pub principal_reads_here : AclEntry → Bool
unfolding grants_read
principal_reads_here a = grants_read a.capability

-- The loop of `visible_scopes` over the grants left, with the scopes found so far.
unfoldable pub visible_from : List Text → List AclEntry → List Text
visible_from out [] = out
visible_from out (a ∷ acls) =
    visible_from
      (if principal_reads_here a && not (contains out a.scope) then out ++ a.scope ∷ [] else out)
      acls

unfoldable pub visible_scopes : Text → List AclEntry → List Text
unfolding visible_from
visible_scopes own_scope acls = visible_from (own_scope ∷ []) acls

unfoldable pub can_read : Text → Text → List AclEntry → Bool
unfolding visible_scopes
can_read principal_own scope acls = any (λ s. same s scope) (visible_scopes principal_own acls)

abbrev pub confers_promote : Text → Text → AclEntry → Bool
confers_promote principal scope a =
    same a.principal principal
    && same a.scope scope
    && (same a.capability (codes "promote") || same a.capability (codes "admin"))

unfoldable pub can_promote : Text → Text → List AclEntry → Bool
can_promote principal scope acls = any (confers_promote principal scope) acls
