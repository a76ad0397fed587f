-- ===== src/Examples.antt =====
-- Concrete inputs, and the theorems applied to them.
mod Rules
mod Rows
mod Calls
mod Names
mod Pieces
mod Edges
mod Indexed
mod Merged
mod Found
mod Counted
mod Stores
use ultramem.Prelude.{ℕ, ℤ, pos, Text, codes, Bool, true, false, List, [], ◌∷◌, Option, none, some}
use ultramem.Store.Point.{Payload, Point, str, bool}
use ultramem.World.{Tables, Collections, World, Env}
use ultramem.Db.Rows.{MemoryRow, EvidenceRow, AclEntry, AliasEntry}
use ultramem.Engine.{Engine}

abbrev pub alice : Text
alice = codes "alice"

abbrev pub team : Text
team = codes "team"

abbrev pub reader : AclEntry
reader = record {
  principal = alice;
  scope = team;
  capability = codes "promote";
  created_at = pos 1;
}

abbrev pub memory : Text → Option ℤ → MemoryRow ℕ
memory id superseded_at = record {
  id = id;
  container_tag = alice;
  kind = codes "fact";
  statement = codes "likes tea";
  confidence = none;
  is_latest = true;
  needs_review = false;
  supersedes = none;
  superseded_by = none;
  superseded_at = superseded_at;
  extends = none;
  event_from = none;
  valid_until = none;
  learned_at = pos 1;
  document_id = codes "d1";
  created_at = pos 1;
}

abbrev pub first_memory : MemoryRow ℕ
first_memory = memory (codes "m1") none

abbrev pub evidence : EvidenceRow
evidence = record {
  id = codes "e1";
  memory_id = codes "m1";
  document_id = codes "d1";
  chunk_id = none;
  char_start = none;
  char_end = none;
  quote = codes "tea";
  extractor = codes "distill";
}

abbrev pub of_doc : Text → Payload
of_doc tag = (codes "doc_id", str (codes "d1")) ∷ (codes "container_tag", str tag) ∷ []

abbrev pub point : Text → Text → Point ℕ
point id tag = record { id = id; vector = 0; payload = of_doc tag }

-- One memory of alice with its evidence and its point, and a point of the team's.
abbrev pub world : World ℕ ℕ
world = record {
  tables = record {
    documents = [];
    chunks = [];
    memories = first_memory ∷ [];
    evidence = evidence ∷ [];
    jobs = [];
    audits = [];
    acls = reader ∷ [];
    aliases = [];
  };
  collections = record {
    chunk_points = [];
    fact_points = point (codes "m1") alice ∷ point (codes "m2") team ∷ [];
    graph_points = [];
  };
  profiles = [];
  calls = 0;
}

-- No call fails.
abbrev pub calm : Env
calm = record { fails = λ n. false; failure = λ n. []; uuid = λ n. codes "u"; now = λ n. pos 9 }

abbrev pub engine : Engine
engine = record { db = true; temporal_graph = true; memory_graph = true }
