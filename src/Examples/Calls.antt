-- ===== src/Examples/Calls.antt =====
-- Calls of the engine at concrete inputs.
use ultramem.Prelude.{
  ℕ, ◌↔◌, pos, Text, codes, same, contains, true, false, any, head?, List, [], ◌∷◌, some, ◌≡◌, ◌≢◌,
  refl, ◌↔◌, ◌⊎◌, inr, Memᴰ,
}
use ultramem.Prelude.Table.{lookup}
use ultramem.Prelude.Result.{ok}
use ultramem.World.{outside, read_clock}
use ultramem.Store.Point.{filter_matches, cond_matches}
use ultramem.Store.Filters.{doc_delete_filter}
use ultramem.Store.Points.{scroll_all, delete_by_filter, delete_by_ids}
use ultramem.Store.Deletion.{IsOfDoc}
use ultramem.Store.Point.{Point}
use ultramem.Db.Memories.Erasure.{Owns, IsOwned}
use ultramem.Db.Rows.{MemoryRow, EvidenceRow, AclEntry}
use ultramem.Db.Statement.{statement}
use ultramem.Db.Memories.{owned, delete_memory_rows, delete_evidence_rows}
use ultramem.Db.Access.{acls_for_principal}
use ultramem.Db.Access.Grants.{HasGrant}
use ultramem.Scope.{visible_scopes, is_valid_capability}
use ultramem.Scope.Visible.{Grants}
use ultramem.Engine.{store_write, store_read, audit}
use ultramem.Engine.Access.{visible_scopes_for, acl_grant, acl_revoke}
use ultramem.Engine.Access.Closed.{
  acls_to, visible_scopes_for-closed, acl_grant-visible, acl_revoke-HasGrant,
}
use ultramem.Engine.Forgetting.{forget_memory}
use ultramem.Engine.Forgetting.Erased.{
  forget_memory-not_owned, forget_memory-point_first, forget_memory-erases,
}
use ultramem.Engine.Deletion.{delete_document_tagged}
use ultramem.Engine.Deletion.Isolated.{Spares, delete_document_tagged-isolated}
use ultramem.Engine.Deletion.Complete.{delete_document_tagged_complete}
use ultramem.Examples.{alice, team, reader, first_memory, point, of_doc, world, calm, engine}

visible_scopes_for-closed_example :
    (scopes : List Text) × ((visible_scopes_for calm engine alice world).0 ≡ ok scopes)
    × (head? scopes ≡ some alice)
    × ((scope : Text)
        → Memᴰ scope scopes
        → (scope ≡ alice) ⊎ Grants scope (acls_to calm alice world))
visible_scopes_for-closed_example = visible_scopes_for-closed calm engine alice world

abbrev bob : Text
bob = codes "bob"

granted : (acl_grant calm engine bob team (codes "read") world).0 ≡ ok tt
unfolding acl_grant is_valid_capability contains same read_clock ultramem.Db.Access.grant_acl
    statement outside
granted = refl

abbrev bobs : AclEntry
bobs = record { principal = bob; scope = team; capability = codes "read"; created_at = pos 9 }

looked_up :
    (acls_for_principal calm bob (acl_grant calm engine bob team (codes "read") world).1).0
    ≡ ok (bobs ∷ [])
unfolding acls_for_principal ultramem.Db.Statement.query outside acl_grant is_valid_capability
    contains same read_clock ultramem.Db.Access.grant_acl ultramem.Db.Access.insert_grant
looked_up = refl

acl_grant-visible_example : Memᴰ team (visible_scopes bob (bobs ∷ []))
acl_grant-visible_example =
    acl_grant-visible calm engine bob team (codes "read") world (bobs ∷ []) granted looked_up

revoked : (acl_revoke calm engine alice team (codes "promote") world).0 ≡ ok tt
unfolding acl_revoke ultramem.Db.Access.revoke_acl statement outside
revoked = refl

acl_revoke-HasGrant_example :
    HasGrant reader (acl_revoke calm engine alice team (codes "promote") world).1.tables.acls ↔ (
      HasGrant reader world.tables.acls
      × (¬ ((alice ≡ alice) × (team ≡ team) × (codes "promote" ≡ codes "promote"))))
acl_revoke-HasGrant_example =
    acl_revoke-HasGrant calm engine reader alice team (codes "promote") world revoked

not_bobs : any (owned (codes "m1") bob) world.tables.memories ≡ false
unfolding owned same
not_bobs = refl

forget_memory-not_owned_example :
    ((forget_memory calm engine bob (codes "m1") world).0 ≢ ok true)
    × ((forget_memory calm engine bob (codes "m1") world).1.tables ≡ world.tables)
    × ((forget_memory calm engine bob (codes "m1") world).1.collections ≡ world.collections)
forget_memory-not_owned_example =
    forget_memory-not_owned calm engine bob (codes "m1") world not_bobs

gone : ¬ Memᴰ first_memory (forget_memory calm engine alice (codes "m1") world).1.tables.memories
unfolding forget_memory ultramem.Db.Memories.get_memory ultramem.Db.Statement.query outside same
    store_write ultramem.Db.Memories.delete_memory audit read_clock ultramem.Db.Journal.insert_audit
gone m = elim m [ ]

kept :
    Memᴰ
      (point (codes "m2") team)
      (forget_memory calm engine alice (codes "m1") world).1.collections.fact_points
unfolding forget_memory ultramem.Db.Memories.get_memory ultramem.Db.Statement.query outside same
    store_write ultramem.Db.Memories.delete_memory audit read_clock ultramem.Db.Journal.insert_audit
    delete_by_ids contains
kept = Memᴰ.head refl

forget_memory-point_first_example : codes "m2" ≢ codes "m1"
forget_memory-point_first_example =
    forget_memory-point_first calm engine alice (codes "m1") world first_memory
      (point (codes "m2") team) (Memᴰ.head refl) gone kept

forgotten : (forget_memory calm engine alice (codes "m1") world).0 ≡ ok true
unfolding forget_memory ultramem.Db.Memories.get_memory ultramem.Db.Statement.query outside same
    store_write ultramem.Db.Memories.delete_memory audit read_clock
forgotten = refl

forget_memory-erases_example :
    Owns (codes "m1") alice world.tables.memories
    × ((m : MemoryRow ℕ)
        → Memᴰ m (forget_memory calm engine alice (codes "m1") world).1.tables.memories
          ↔ (Memᴰ m world.tables.memories × (¬ IsOwned (codes "m1") alice m)))
    × ((e : EvidenceRow)
        → Memᴰ e (forget_memory calm engine alice (codes "m1") world).1.tables.evidence
          ↔ (Memᴰ e world.tables.evidence × (e.memory_id ≢ codes "m1")))
    × ((p : Point ℕ)
        → Memᴰ p (forget_memory calm engine alice (codes "m1") world).1.collections.fact_points
          ↔ (Memᴰ p world.collections.fact_points × (p.id ≢ codes "m1")))
forget_memory-erases_example = forget_memory-erases calm engine alice (codes "m1") world forgotten

delete_document_tagged-isolated_example :
    Spares
      (codes "d1")
      alice
      world.collections
      (delete_document_tagged calm engine (codes "d1") alice world).1.collections
delete_document_tagged-isolated_example =
    delete_document_tagged-isolated calm engine (codes "d1") alice world

removed : (delete_document_tagged calm engine (codes "d1") alice world).0 ≡ ok true
unfolding delete_document_tagged store_read outside scroll_all filter_matches doc_delete_filter same
    cond_matches lookup store_write
removed = refl

spared_point :
    Memᴰ
      (point (codes "m2") team)
      (delete_document_tagged calm engine (codes "d1") alice world).1.collections.fact_points
unfolding delete_document_tagged store_read outside scroll_all filter_matches doc_delete_filter same
    cond_matches lookup store_write delete_by_filter
spared_point = Memᴰ.head refl

delete_document_tagged_complete_example : ¬ IsOfDoc (codes "d1") alice (of_doc team)
delete_document_tagged_complete_example =
    delete_document_tagged_complete calm engine (codes "d1") alice world (point (codes "m2") team)
      removed (inr spared_point)
