-- ===== src/Engine/Indexing.antt =====
-- crates/ultramem-core/src/engine/mod.rs: index_memories, which stores the distilled facts of a
-- document. What lies outside of the program is the record Services, a parameter.
pub mod Planning
pub mod Writes
pub mod Building
pub mod Flip
pub mod Adds
pub mod Kept
use ultramem.Prelude.{
  ℕ, zero, suc, ℤ, Text, codes, Unicode, trim, Bool, true, false, List, [], ◌∷◌, ◌++◌, map, length,
  is_empty, Option, none, some, unwrap_or, if◌then◌else◌,
}
use ultramem.Prelude.Result.{Result, ok, err}
use ultramem.Prelude.Table.{lookup}
use ultramem.World.{
  Collections, World, Env, Exec, pure, fail, attempt, new_uuid, read_clock, ◌>>=◌, ◌>>◌,
}
use ultramem.Store.Point.{Payload, Point, Filter, bool, as_str}
use ultramem.Store.Points.{upsert, set_payload}
use ultramem.Store.Filters.{tagged_filter, active_facts_filter}
use ultramem.Db.Memories.{insert_memories, mark_superseded, insert_evidence}
use ultramem.Memory.{Relation, duplicate, Action, Neighbor, plain_new, Verdict, reconcile}
use ultramem.Memory.Expiry.{parse_expiry}
use ultramem.Engine.{Engine, store_write, store_read}
use ultramem.Engine.Deletion.{pass}
use ultramem.Engine.Indexing.Planning.{
  IngestDoc, tag_of, DistilledFact, find_evidence_span, collect, Meta, meta_of, flatten_time, Plan,
  no_plan, fact_point, fact_row, evidence_row, place, Span,
}
use ultramem.Engine.Indexing.Writes.{write_superseding, add_facts, mirror}
use ultramem.Engine.Indexing.Building.{build_plan}

-- A result of the search. Of the hits, those that have an id become neighbors.
pub record Hit (S : Type 0) : Type 0 where
  pub id : Option Text
  pub payload : Payload
  pub score : S

abbrev pub neighbors_of : {S : Type 0} → List (Hit S) → List (Neighbor S)
neighbors_of [] = []
neighbors_of (h ∷ hits) = elim h.id [
  | none ↦ neighbors_of hits
  | some id ↦
      record {
        memory_id = id;
        fact = unwrap_or (as_str (lookup (codes "fact") h.payload)) [];
        score = h.score;
      }
      ∷ neighbors_of hits
]

-- `unwrap_or_default`.
abbrev pub hits_or_none : {S : Type 0} → Result (List (Hit S)) → List (Hit S)
hits_or_none (ok hits) = hits
hits_or_none (err e) = []

-- What lies outside: the end of a day (chrono), the embedder, the printing of a number, the search
-- with the number and the threshold of the reconciliation, and the parameters of Memory.reconcile.
pub record Services (V S : Type 0) : Type 0 where
  pub end_of_day : Text → Option ℤ
  pub embed : List Text → Result (List V)
  pub decimal : ℕ → Text
  pub search : V → Filter → List (Point V) → List (Hit S)
  pub reaches : S → Bool
  pub total_cmp : S → S → Bool
  pub from_str : Text → Option (List Verdict)
  pub is_ready : Bool
  pub chat : List (Text × List (Neighbor S)) → Result Text

module _ {V S : Type 0} (s : Services V S) where
  abbrev pub nearest : Text → V → ℤ → Collections V → List (Hit S)
  nearest tag vec now c =
      s.search vec (tagged_filter (some (active_facts_filter none now)) tag) c.fact_points

  abbrev pub reconciled : List (Text × List (Neighbor S)) → List Action
  reconciled = reconcile s.reaches s.total_cmp s.from_str s.is_ready s.chat

module _ {F V S : Type 0} (env : Env) (engine : Engine) (u : Unicode) (s : Services V S) where
  abbrev pub hits_near : Text → V → ℤ → Exec F V (List (Hit S))
  hits_near tag vec now = do
    hits ← attempt (store_read env (nearest s tag vec now))
    pure (hits_or_none hits)

  abbrev pub near : Text → V → Exec F V (List (Hit S))
  near tag vec = do now ← read_clock env; hits_near tag vec now

  -- The loop that finds the neighbors of each fact.
  unfoldable pub with_neighbors :
      Text → List Text → List V → Exec F V (List (Text × List (Neighbor S)))
  unfolding tagged_filter active_facts_filter
  with_neighbors tag (fact ∷ facts) (vec ∷ vecs) = do
    hits ← near tag vec
    rest ← with_neighbors tag facts vecs
    pure ((fact, neighbors_of hits) ∷ rest)
  with_neighbors tag _ _ = pure []

  unfoldable pub actions_for : Text → List Text → List V → Exec F V (List Action)
  unfolding with_neighbors reconcile
  actions_for tag facts vecs =
      if engine.memory_graph
      then (do neighbors ← with_neighbors tag facts vecs; pure (reconciled s neighbors))
      else pure (map plain_new facts)

  -- What follows the plan.
  unfoldable pub write_plan : ℤ → Plan F V → Exec F V (Unit {0})
  unfolding write_superseding mirror
  write_plan now plan = do
    store_write env (add_facts plan.plain_points)
    write_superseding env s.decimal plan
    mirror env engine plan now

  module _ (doc : IngestDoc) (doc_id : Text) (typed : List (DistilledFact F))
      (chunks : List (Text × Text)) where
    abbrev pub parsed_facts : List (Text × Option ℤ)
    parsed_facts = map (λ f. parse_expiry u s.end_of_day f.statement) typed

    abbrev pub fact_texts : List Text
    fact_texts = map (λ p. p.0) parsed_facts

    abbrev pub plan_at : List V → List Action → ℤ → Exec F V (Plan F V)
    plan_at fvecs actions now =
        build_plan env engine u doc doc_id chunks now (collect [] fact_texts fvecs)
          (collect [] fact_texts (map (λ p. p.1) parsed_facts)) (collect [] fact_texts typed)
          actions no_plan

    abbrev pub index_at : List V → List Action → ℤ → Exec F V (Unit {0})
    index_at fvecs actions now = do plan ← plan_at fvecs actions now; write_plan now plan

    abbrev pub index_actions : List V → List Action → Exec F V (Unit {0})
    index_actions fvecs actions = do now ← read_clock env; index_at fvecs actions now

    abbrev pub index_embedded : List V → Exec F V (Unit {0})
    index_embedded fvecs = do
      actions ← actions_for (tag_of doc) fact_texts fvecs
      index_actions fvecs actions

    unfoldable pub index_memories : Exec F V (Unit {0})
    unfolding write_plan actions_for build_plan collect parse_expiry
    index_memories = do fvecs ← pass (s.embed fact_texts); index_embedded fvecs
