-- ===== src/Engine/Indexing/Building.antt =====
-- crates/ultramem-core/src/engine/mod.rs: the loop of index_memories that turns actions into a plan.
use ultramem.Prelude.{
  ℤ, Text, Unicode, trim, Bool, true, false, List, [], ◌∷◌, ◌++◌, Option, none, some, if◌then◌else◌,
}
use ultramem.Prelude.Table.{lookup}
use ultramem.World.{Env, Exec, pure, new_uuid, ◌>>=◌}
use ultramem.Memory.{Relation, duplicate, Action}
use ultramem.Engine.{Engine}
use ultramem.Engine.Indexing.Planning.{
  IngestDoc, DistilledFact, find_evidence_span, meta_of, flatten_time, Plan, fact_point, fact_row,
  evidence_row, place, Span,
}

abbrev pub repeats_memory : Relation → Bool
repeats_memory duplicate = true
repeats_memory _ = false

module _ {F V : Type 0} (env : Env) (engine : Engine) where
  module _ (u : Unicode) (doc : IngestDoc) (doc_id : Text) (chunks : List (Text × Text)) (now : ℤ)
      (fact_vec : List (Text × V)) (expiry : List (Text × Option ℤ))
      (metas : List (Text × DistilledFact F)) where
    abbrev pub with_evidence : Text → Text → Span → Plan F V → Text → Plan F V
    with_evidence mem_id quote span plan id = record plan {
      evidence_rows = plan.evidence_rows ++ evidence_row doc_id id mem_id (trim u quote) span ∷ [];
    }

    -- The evidence of a memory, if its quote is in a chunk.
    abbrev pub add_evidence : Text → Text → Option Span → Plan F V → Exec F V (Plan F V)
    add_evidence mem_id quote none plan = pure plan
    add_evidence mem_id quote (some span) plan = do
      id ← new_uuid env
      pure (with_evidence mem_id quote span plan id)

    abbrev pub evidence_of : Action → Text → Plan F V → Exec F V (Plan F V)
    evidence_of action mem_id plan =
        let evidence = (meta_of (lookup action.fact metas)).evidence in
        if engine.db
        then add_evidence mem_id evidence (find_evidence_span u evidence chunks) plan
        else pure plan

    -- The row and the point of a memory.
    abbrev pub with_fact : Action → V → Text → Plan F V → Plan F V
    with_fact action vec mem_id plan =
        let valid_until = flatten_time (lookup action.fact expiry) in
        let meta = meta_of (lookup action.fact metas) in
        place engine.db mem_id action.supersedes
          (fact_point doc doc_id mem_id vec action meta valid_until)
          (if engine.db
            then record plan {
              mem_rows =
                  plan.mem_rows ++ fact_row doc doc_id mem_id now action meta valid_until ∷ [];
            }
            else plan)

    abbrev pub take_up : Action → V → Plan F V → Text → Exec F V (Plan F V)
    take_up action vec plan mem_id = do
      p ← evidence_of action mem_id plan
      pure (with_fact action vec mem_id p)

    -- One turn of the loop over the actions, past the duplicates.
    unfoldable pub consider : Action → Option V → Plan F V → Exec F V (Plan F V)
    unfolding find_evidence_span
    consider action none plan = pure plan
    consider action (some vec) plan = do mem_id ← new_uuid env; take_up action vec plan mem_id

    unfoldable pub build_plan : List Action → Plan F V → Exec F V (Plan F V)
    unfolding consider
    build_plan [] plan = pure plan
    build_plan (action ∷ actions) plan =
        if repeats_memory action.relation
        then build_plan actions plan
        else (do p ← consider action (lookup action.fact fact_vec) plan; build_plan actions p)
