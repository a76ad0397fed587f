-- ===== src/Examples/Rows.antt =====
-- The tables at concrete inputs.
use ultramem.Prelude.{ℕ, pos, Text, codes, same, true, List, [], ◌∷◌, none, ◌≡◌, refl, Memᴰ, arith}
use ultramem.Prelude.Result.{ok}
use ultramem.World.{outside}
use ultramem.Db.Rows.{MemoryRow, AliasEntry}
use ultramem.Db.Statement.{statement}
use ultramem.Db.Memories.{known_at, mark_superseded, delete_memory}
use ultramem.Db.Memories.History.{WereCurrent, supersede_all, known_at-supersede_all}
use ultramem.Db.Memories.Marks.{AllMarked, mark_superseded-AllMarked}
use ultramem.Examples.{alice, memory, first_memory, world, calm}

abbrev rows : List (MemoryRow ℕ)
rows = first_memory ∷ memory (codes "m2") none ∷ []

abbrev pairs : List (Text × Text)
pairs = (codes "m1", codes "m2") ∷ []

were_current : WereCurrent pairs (pos 3) rows
were_current m (Memᴰ.head e) k s h = cc
were_current m (Memᴰ.tail (Memᴰ.head e)) k s h = cc
were_current m (Memᴰ.tail (Memᴰ.tail j)) k s h = elim j [ ]

abbrev second_memory : MemoryRow ℕ
second_memory = memory (codes "m2") none

marked : (mark_superseded calm pairs (pos 7) world).0 ≡ ok tt
unfolding mark_superseded statement outside
marked = refl

mark_superseded-AllMarked_example :
    AllMarked pairs
      (pos 7)
      world.tables.memories
      (mark_superseded calm pairs (pos 7) world).1.tables.memories
    × ((mark_superseded calm pairs (pos 7) world).1.tables ≡ record world.tables {
      memories = (mark_superseded calm pairs (pos 7) world).1.tables.memories;
    })
mark_superseded-AllMarked_example = mark_superseded-AllMarked calm pairs (pos 7) world marked

known_at-supersede_all_example :
    known_at alice (pos 3) (supersede_all pairs (pos 7) rows)
    ≡ supersede_all pairs (pos 7) (known_at alice (pos 3) rows)
known_at-supersede_all_example =
    known_at-supersede_all alice pairs (pos 7) (pos 3) rows (omega arith) were_current

deleted : (delete_memory calm (codes "m1") alice world).0 ≡ ok true
unfolding delete_memory statement outside same
deleted = refl

abbrev alias : Text → AliasEntry
alias name = record {
  container_tag = alice;
  alias = codes "j. smith";
  canonical = name;
  created_at = pos 1;
}
