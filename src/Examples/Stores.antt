-- ===== src/Examples/Stores.antt =====
-- The two relational stores at concrete inputs.
use ultramem.Db.Memories.History.{newest_memory-IsOrder}
use ultramem.Db.Memories.Reads.{IsReadAt, memories_as_of-IsReadAt}
use ultramem.Prelude.{
  ℕ, sort_by, sort_by-Mem, sort_by-Mem_intro, sort_by-IsSorted, pos, codes, Bool, true, List, [],
  ◌∷◌, ◌≡◌, refl,
}
use mathlib.Core.List.Memᴰ as Mem
use ultramem.Prelude.Result.{ok}
use ultramem.Db.Memories as Pg
use ultramem.Db.Mock as Mock
use ultramem.Db.Mock.Agrees.{delete_memory-agrees, memories_as_of-agrees}
use ultramem.Examples.{alice, first_memory, world, calm}

deleted : (Pg.delete_memory calm (codes "m1") alice world).0 ≡ ok true
unfolding Pg.delete_memory ultramem.Db.Statement.statement ultramem.World.outside
    ultramem.Prelude.same
deleted = refl

delete_memory-agrees_example :
    (true, (Pg.delete_memory calm (codes "m1") alice world).1.tables)
    ≡ Mock.delete_memory world.tables (codes "m1") alice
delete_memory-agrees_example =
    delete_memory-agrees calm (codes "m1") alice world (Mem.not-nil, tt) deleted

-- The rows in one order that PostgreSQL may give them.
abbrev newest : Pg.NewestFirst ℕ
newest = record {
  order = sort_by Pg.newest_memory;
  order-Mem =
      λ rows m. (sort_by-Mem Pg.newest_memory rows, sort_by-Mem_intro Pg.newest_memory rows);
  order-IsSorted = sort_by-IsSorted Pg.newest_memory newest_memory-IsOrder;
}

read : (Pg.memories_as_of calm newest alice (pos 5) (pos 10) world).0 ≡ ok (first_memory ∷ [])
unfolding Pg.memories_as_of ultramem.Db.Statement.statement ultramem.World.outside Pg.known_at
    sort_by Pg.is_known_at ultramem.Prelude.same ultramem.Prelude.insert_sorted
read = refl

memories_as_of-IsReadAt_example :
    IsReadAt alice (pos 5) 10 world.tables.memories (first_memory ∷ [])
memories_as_of-IsReadAt_example =
    memories_as_of-IsReadAt calm newest alice (pos 5) (pos 10) world read

memories_as_of-agrees_example :
    IsReadAt alice
      (pos 5)
      10
      world.tables.memories
      (Mock.memories_as_of world.tables (λ rows. rows) alice (pos 5) (pos 10))
memories_as_of-agrees_example =
    memories_as_of-agrees (λ rows. rows) (λ rows m. ((λ k. k), λ k. k)) world.tables alice (pos 5)
      (pos 10)
