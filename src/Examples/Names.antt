-- ===== src/Examples/Names.antt =====
-- Jobs, aliases, promotions and the registry at concrete inputs.
use ultramem.Prelude.{
  Distinct, map, ℕ, pos, Text, codes, ascii, trim, List, [], ◌∷◌, none, some, ◌≡◌, refl, Memᴰ,
}
use ultramem.Prelude.Result.{Result, ok}
use ultramem.World.{World}
use ultramem.Db.Rows.{MemoryRow, JobRow, AliasEntry}
use ultramem.Db.Access.{aliases_for_tag}
use ultramem.Entity.{normalize, resolve_name}
use ultramem.Engine.Jobs.{queued_job, job_get}
use ultramem.Engine.Aliases.{alias_add}
use ultramem.Engine.Aliases.Roundtrip.{alias_add-resolve}
use ultramem.Engine.Promotion.{promote_memory}
use ultramem.Engine.Promotion.Shared.{Copied, promote_memory-Copied}
use ultramem.Store.Point.{Point}
use ultramem.Examples.{point, alice, team, world, calm, engine}

abbrev job : JobRow
job = queued_job alice (codes "backfill") (pos 3) (pos 9) (codes "j1")

abbrev busy : World ℕ ℕ
busy = record world { tables = record world.tables { jobs = job ∷ [] } }

read_back : (job_get calm engine (codes "j1") alice busy).0 ≡ ok (some job)
unfolding job_get ultramem.Db.Journal.get_job ultramem.Db.Statement.query ultramem.World.outside
    ultramem.Db.Journal.job_of ultramem.Prelude.same ultramem.Prelude.same_option
read_back = refl

abbrev jane : AliasEntry
jane = record {
  container_tag = alice;
  alias = codes "j. smith";
  canonical = codes "Jane";
  created_at = pos 9;
}

added : (alias_add ascii calm engine alice (codes " J.  Smith ") (codes "Jane ") world).0 ≡ ok tt
unfolding alias_add normalize ascii ultramem.World.read_clock ultramem.Db.Access.add_alias
    ultramem.Db.Statement.statement ultramem.World.outside
added = refl

aliases_there :
    (aliases_for_tag calm alice
      (alias_add ascii calm engine alice (codes " J.  Smith ") (codes "Jane ") world).1).0
    ≡ ok (jane ∷ [])
unfolding aliases_for_tag ultramem.Db.Statement.query ultramem.World.outside alias_add normalize
    ascii ultramem.World.read_clock ultramem.Db.Access.add_alias ultramem.Db.Access.upsert_alias
    ultramem.Prelude.same
aliases_there = refl

same_form : normalize ascii (codes "j. SMITH") ≡ normalize ascii (codes " J.  Smith ")
unfolding normalize ascii
same_form = refl

alias_add-resolve_example :
    resolve_name ascii (codes "j. SMITH") (jane ∷ []) ≡ trim ascii (codes "Jane ")
alias_add-resolve_example =
    alias_add-resolve ascii calm engine alice (codes " J.  Smith ") (codes "Jane ")
      (codes "j. SMITH") world (jane ∷ []) added aliases_there same_form

abbrev embed : List Text → Result (List ℕ)
embed texts = ok (5 ∷ [])

promoted :
    (promote_memory calm engine embed alice (codes "m1") team world).0 ≡ ok (some (codes "u"))
unfolding promote_memory ultramem.Db.Memories.get_memory ultramem.Db.Statement.query
    ultramem.World.outside ultramem.Prelude.same ultramem.World.new_uuid ultramem.World.read_clock
    ultramem.Engine.store_write ultramem.Engine.audit
promoted = refl

promote_memory-Copied_example :
    (src : MemoryRow ℕ) × Memᴰ src world.tables.memories
    × (src.id ≡ codes "m1")
    × (src.container_tag ≡ alice)
    × Copied calm engine embed alice team src
        (codes "u")
        world.collections
        (promote_memory calm engine embed alice (codes "m1") team world).1.collections
promote_memory-Copied_example =
    promote_memory-Copied calm engine embed alice (codes "m1") team (codes "u") world promoted

abbrev two_chunks : List (Point ℕ)
two_chunks = point (codes "c1") alice ∷ point (codes "c2") alice ∷ []
