-- ===== src/Engine/Indexing/Kept.antt =====
-- crates/ultramem-core/src/engine/mod.rs: index_memories removes no point, however it ends.
use ultramem.Prelude.{
  ℤ, Text, Bool, true, false, List, [], ◌∷◌, map, Option, some, none, refl, inl, inr, Bool-cases,
  Unicode, if◌then◌else◌,
}
use ultramem.Prelude.Table.{lookup}
use ultramem.Prelude.Result.{Result}
use ultramem.World.{World, Env, Exec, Tables, pure, attempt, ◌>>◌, read_clock, new_uuid}
use ultramem.Db.Statement.{statement, statement-collections}
use ultramem.Db.Rows.{MemoryRow, EvidenceRow}
use ultramem.Db.Memories.{
  insert_one, mark_one, insert_quote, insert_memories, mark_superseded, insert_evidence,
}
use ultramem.Memory.{Action, plain_new}
use ultramem.Engine.{Engine, store_write, store_read}
use ultramem.Engine.Steps.{store_read-collections}
use ultramem.Engine.Indexing.{
  Services, nearest, hits_near, near, hits_or_none, neighbors_of, reconciled, actions_for,
  fact_texts, plan_at, index_at, index_actions, index_embedded, with_neighbors, write_plan,
  index_memories,
}
use ultramem.Engine.Indexing.Writes.{
  add_facts, write_superseding, mirror, mirror_rows, mirror_pairs, mirror_evidence, unless_empty,
}
use ultramem.Engine.Indexing.Building.{
  add_evidence, with_evidence, evidence_of, with_fact, take_up, consider, build_plan,
  repeats_memory,
}
use ultramem.Engine.Indexing.Planning.{Plan, tag_of, IngestDoc, DistilledFact, Span}
use ultramem.Engine.Deletion.{pass}
use ultramem.Engine.Indexing.Adds.{
  IsKept, IsKept-same, Adds, bind-Adds, add_facts-Adds, write_superseding-Adds,
}

module _ {F V : Type 0} where
  pure-Adds : {A : Type 0} (a : A) → Adds {F = F} {V = V} (pure a)
  pure-Adds a w = IsKept-same w w refl

  either-Adds :
      {A : Type 0} (b : Bool) (m n : Exec F V A) → Adds m → Adds n → Adds (if b then m else n)
  either-Adds true m n h k = h
  either-Adds false m n h k = k

module _ {F V : Type 0} (env : Env) where
  statement-Adds :
      {A : Type 0} (name : Text) (f : Tables F → Result (A × Tables F))
      → Adds {V = V} (statement env name f)
  statement-Adds name f w = IsKept-same w _ (statement-collections env name f w)

  insert_memories-Adds : (rows : List (MemoryRow F)) → Adds {V = V} (insert_memories env rows)
  unfolding insert_memories
  insert_memories-Adds [] = pure-Adds tt
  insert_memories-Adds (m ∷ rows) =
      bind-Adds (insert_one env m) (λ _. insert_memories env rows) (statement-Adds _ _)
        (λ _. insert_memories-Adds rows)

  mark_superseded-Adds :
      (pairs : List (Text × Text)) (ts : ℤ) → Adds {F = F} {V = V} (mark_superseded env pairs ts)
  unfolding mark_superseded
  mark_superseded-Adds [] ts = pure-Adds tt
  mark_superseded-Adds ((old, new) ∷ pairs) ts =
      bind-Adds (mark_one env old new ts) (λ _. mark_superseded env pairs ts) (statement-Adds _ _)
        (λ _. mark_superseded-Adds pairs ts)

  insert_evidence-Adds : (rows : List EvidenceRow) → Adds {F = F} {V = V} (insert_evidence env rows)
  unfolding insert_evidence
  insert_evidence-Adds [] = pure-Adds tt
  insert_evidence-Adds (e ∷ rows) =
      bind-Adds (insert_quote env e) (λ _. insert_evidence env rows) (statement-Adds _ _)
        (λ _. insert_evidence-Adds rows)

  unless_empty-Adds :
      {A : Type 0} (xs : List A) (m : Exec F V (Unit {0})) → Adds m → Adds (unless_empty xs m)
  unless_empty-Adds [] m h = pure-Adds tt
  unless_empty-Adds (x ∷ xs) m h = bind-Adds (attempt m) (λ _. pure tt) h (λ _. pure-Adds tt)

  mirror-Adds : (engine : Engine) (plan : Plan F V) (now : ℤ) → Adds (mirror env engine plan now)
  unfolding mirror
  mirror-Adds engine plan now =
      let rows =
        unless_empty-Adds plan.mem_rows (insert_memories env plan.mem_rows)
          (insert_memories-Adds plan.mem_rows) in
      let pairs =
        unless_empty-Adds plan.supersede_pairs (mark_superseded env plan.supersede_pairs now)
          (mark_superseded-Adds plan.supersede_pairs now) in
      let quotes =
        unless_empty-Adds plan.evidence_rows (insert_evidence env plan.evidence_rows)
          (insert_evidence-Adds plan.evidence_rows) in
      elim (Bool-cases engine.db) [
        | inr e ↦ rw e (pure-Adds tt)
        | inl e ↦ rw e (
            bind-Adds (mirror_rows env engine plan)
              (λ _. mirror_pairs env engine plan now >> mirror_evidence env engine plan) rows
              (λ _.
                bind-Adds (mirror_pairs env engine plan now) (λ _. mirror_evidence env engine plan)
                  pairs (λ _. quotes)))
      ]

  read_clock-Adds : Adds {F = F} {V = V} (read_clock env)
  unfolding read_clock
  read_clock-Adds w = IsKept-same w _ refl

  new_uuid-Adds : Adds {F = F} {V = V} (new_uuid env)
  unfolding new_uuid
  new_uuid-Adds w = IsKept-same w _ refl

  module _ (engine : Engine) (u : Unicode) (doc : IngestDoc) (doc_id : Text)
      (chunks : List (Text × Text)) (now : ℤ) (fact_vec : List (Text × V))
      (expiry : List (Text × Option ℤ)) (metas : List (Text × DistilledFact F)) where
    add_evidence-Adds :
        (mem_id quote : Text) (span : Option Span) (plan : Plan F V)
        → Adds (
            add_evidence env engine u doc doc_id chunks now fact_vec expiry metas mem_id quote span
              plan)
    add_evidence-Adds mem_id quote none plan = pure-Adds plan
    add_evidence-Adds mem_id quote (some span) plan =
        let with =
          with_evidence env engine u doc doc_id chunks now fact_vec expiry metas mem_id quote span
            plan in
        bind-Adds (new_uuid env) (λ id. pure (with id)) new_uuid-Adds (λ id. pure-Adds (with id))

    evidence_of-Adds :
        (action : Action) (mem_id : Text) (plan : Plan F V)
        → Adds (
            evidence_of env engine u doc doc_id chunks now fact_vec expiry metas action mem_id plan)
    evidence_of-Adds action mem_id plan = elim (Bool-cases engine.db) [
      | inl e ↦ rw e (add_evidence-Adds mem_id _ _ plan)
      | inr e ↦ rw e (pure-Adds plan)
    ]

    take_up-Adds :
        (action : Action) (vec : V) (plan : Plan F V) (mem_id : Text)
        → Adds (
            take_up env engine u doc doc_id chunks now fact_vec expiry metas action vec plan mem_id)
    take_up-Adds action vec plan mem_id =
        let add =
          with_fact env engine u doc doc_id chunks now fact_vec expiry metas action vec mem_id in
        bind-Adds
          (evidence_of env engine u doc doc_id chunks now fact_vec expiry metas action mem_id plan)
          (λ p. pure (add p)) (evidence_of-Adds action mem_id plan) (λ p. pure-Adds (add p))

    consider-Adds :
        (action : Action) (vec : Option V) (plan : Plan F V)
        → Adds (consider env engine u doc doc_id chunks now fact_vec expiry metas action vec plan)
    unfolding consider
    consider-Adds action none plan = pure-Adds plan
    consider-Adds action (some vec) plan =
        bind-Adds (new_uuid env)
          (take_up env engine u doc doc_id chunks now fact_vec expiry metas action vec plan)
          new_uuid-Adds (take_up-Adds action vec plan)

    build_plan-Adds :
        (actions : List Action) (plan : Plan F V)
        → Adds (build_plan env engine u doc doc_id chunks now fact_vec expiry metas actions plan)
    unfolding build_plan
    build_plan-Adds [] plan = pure-Adds plan
    build_plan-Adds (a ∷ actions) plan = elim (Bool-cases (repeats_memory a.relation)) [
      | inl e ↦ rw e (build_plan-Adds actions plan)
      | inr e ↦ rw e (
          bind-Adds
            (consider env engine u doc doc_id chunks now fact_vec expiry metas a
              (lookup a.fact fact_vec) plan)
            (build_plan env engine u doc doc_id chunks now fact_vec expiry metas actions)
            (consider-Adds a (lookup a.fact fact_vec) plan) (build_plan-Adds actions))
    ]

module _ {F V S : Type 0} (env : Env) (engine : Engine) (u : Unicode) (s : Services V S) where
  near-Adds : (tag : Text) (vec : V) → Adds {F = F} (near env engine u s tag vec)
  near-Adds tag vec =
      bind-Adds (read_clock env) (hits_near env engine u s tag vec) (read_clock-Adds env) (λ now.
        bind-Adds (attempt (store_read env (nearest s tag vec now)))
          (λ hits. pure (hits_or_none hits))
          (λ w. IsKept-same w _ (store_read-collections env (nearest s tag vec now) w))
          (λ hits. pure-Adds (hits_or_none hits)))

  with_neighbors-Adds :
      (tag : Text) (facts : List Text) (vecs : List V)
      → Adds {F = F} (with_neighbors env engine u s tag facts vecs)
  unfolding with_neighbors
  with_neighbors-Adds tag [] vecs = λ w. IsKept-same w w refl
  with_neighbors-Adds tag (fact ∷ facts) [] = λ w. IsKept-same w w refl
  with_neighbors-Adds tag (fact ∷ facts) (vec ∷ vecs) =
      bind-Adds (near env engine u s tag vec) _ (near-Adds tag vec) (λ hits.
        bind-Adds (with_neighbors env engine u s tag facts vecs)
          (λ rest. pure ((fact, neighbors_of hits) ∷ rest)) (with_neighbors-Adds tag facts vecs)
          (λ rest. pure-Adds ((fact, neighbors_of hits) ∷ rest)))

  actions_for-Adds :
      (tag : Text) (facts : List Text) (vecs : List V)
      → Adds {F = F} (actions_for env engine u s tag facts vecs)
  unfolding actions_for
  actions_for-Adds tag facts vecs =
      either-Adds engine.memory_graph _ _
        (bind-Adds (with_neighbors env engine u s tag facts vecs) (λ n. pure (reconciled s n))
          (with_neighbors-Adds tag facts vecs) (λ n. pure-Adds (reconciled s n)))
        (pure-Adds (map plain_new facts))

  write_plan-Adds : (now : ℤ) (plan : Plan F V) → Adds (write_plan env engine u s now plan)
  unfolding write_plan
  write_plan-Adds now plan =
      bind-Adds (store_write env (add_facts plan.plain_points)) _
        (add_facts-Adds env plan.plain_points)
        (λ _.
          bind-Adds (write_superseding env s.decimal plan) (λ _. mirror env engine plan now)
            (write_superseding-Adds env s.decimal plan) (λ _. mirror-Adds env engine plan now))

  -- However index_memories ends, every point that there was is there still, in its place and with
  -- its id, and only points of facts are added.
  pub index_memories-IsKept :
      (doc : IngestDoc) (doc_id : Text) (typed : List (DistilledFact F))
      (chunks : List (Text × Text)) (w : World F V)
      → IsKept w (index_memories env engine u s doc doc_id typed chunks w).1
  unfolding index_memories
  index_memories-IsKept doc doc_id typed chunks =
      let texts = fact_texts env engine u s doc doc_id typed chunks in
      bind-Adds (pass (s.embed texts)) (index_embedded env engine u s doc doc_id typed chunks)
        (λ w. IsKept-same w w refl)
        (λ fvecs.
          bind-Adds (actions_for env engine u s (tag_of doc) texts fvecs)
            (index_actions env engine u s doc doc_id typed chunks fvecs)
            (actions_for-Adds (tag_of doc) texts fvecs)
            (λ actions.
              bind-Adds (read_clock env)
                (index_at env engine u s doc doc_id typed chunks fvecs actions)
                (read_clock-Adds env)
                (λ now.
                  bind-Adds (plan_at env engine u s doc doc_id typed chunks fvecs actions now)
                    (write_plan env engine u s now)
                    (build_plan-Adds env engine u doc doc_id chunks now _ _ _ actions _)
                    (write_plan-Adds now))))
