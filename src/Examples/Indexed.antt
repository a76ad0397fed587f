-- ===== src/Examples/Indexed.antt =====
-- The storing of a document's facts at concrete inputs.
use ultramem.Prelude.{
  ℕ, pos, ◌+◌, ◌<◌, Text, codes, ascii, true, false, [], ◌∷◌, none, some, ◌≡◌, ◌↔◌, refl, leb,
}
use ultramem.Prelude.Result.{ok}
use ultramem.Engine.Indexing.{Services, index_memories}
use ultramem.Engine.Indexing.Planning.{IngestDoc, DistilledFact, Plan, no_plan}
use ultramem.Engine.Indexing.Writes.{flip, write_superseding}
use ultramem.Engine.Indexing.Flip.{IsFlipped, flip-succeeds, write_superseding-IsFlipped}
use ultramem.Engine.Indexing.Adds.{IsKept}
use ultramem.Engine.Indexing.Kept.{index_memories-IsKept}
use ultramem.Examples.{point, alice, world, calm, engine}

abbrev decimal : ℕ → Text
decimal n = []

abbrev newer : Plan ℕ ℕ
newer = record no_plan {
  superseded = codes "m1" ∷ [];
  supersede_points = point (codes "m9") alice ∷ [];
}

write_superseding-IsFlipped_example :
    IsFlipped newer world (write_superseding calm decimal newer world)
write_superseding-IsFlipped_example = write_superseding-IsFlipped calm decimal newer world refl

flip-succeeds_example :
    ((flip calm 3 (codes "m1" ∷ []) [] world).0 ≡ ok (ok tt))
    ↔ ((i : ℕ) × (i < 3) × (calm.fails (world.calls + i) ≡ false))
flip-succeeds_example = flip-succeeds calm 3 (codes "m1" ∷ []) [] world

abbrev services : Services ℕ ℕ
services = record {
  end_of_day = λ d. none;
  embed = λ texts. ok (1 ∷ []);
  decimal = decimal;
  search = λ vec f points. record { id = some (codes "m1"); payload = []; score = 9 } ∷ [];
  reaches = λ n. leb 7 n;
  total_cmp = leb;
  from_str = λ s. none;
  is_ready = true;
  chat = λ cs. ok (codes "[]");
}

abbrev doc : IngestDoc
doc = record {
  source = codes "web";
  title = codes "Tea";
  captured_at = pos 3;
  container_tag = alice;
}

abbrev distilled : DistilledFact ℕ
distilled = record {
  statement = codes "likes green tea";
  kind = codes "fact";
  confidence = 1;
  evidence = codes "I like green tea";
}

index_memories-IsKept_example :
    IsKept world
      (index_memories calm engine ascii services doc
        (codes "d2")
        (distilled ∷ [])
        ((codes "c1", codes "I like green tea") ∷ [])
        world).1
index_memories-IsKept_example =
    index_memories-IsKept calm engine ascii services doc (codes "d2") (distilled ∷ [])
      ((codes "c1", codes "I like green tea") ∷ []) world
