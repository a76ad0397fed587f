-- ===== src/Engine/Indexing/Writes.antt =====
-- crates/ultramem-core/src/engine/mod.rs: the writes of index_memories, to the vector store and to the
-- relational store. The printing of numbers (`decimal`) is a parameter.
use ultramem.Prelude.{
  ℕ, zero, suc, ℤ, Text, codes, false, List, [], ◌∷◌, ◌++◌, length, is_empty, if◌then◌else◌,
}
use ultramem.Prelude.Result.{Result, ok, err}
use ultramem.World.{Collections, Env, Exec, pure, fail, attempt, ◌>>=◌, ◌>>◌}
use ultramem.Store.Point.{Payload, Point, bool}
use ultramem.Store.Points.{upsert, set_payload}
use ultramem.Db.Memories.{insert_memories, mark_superseded, insert_evidence}
use ultramem.Engine.{Engine, store_write}
use ultramem.Engine.Indexing.Planning.{Plan}

abbrev pub not_latest : Payload
not_latest = (codes "is_latest", bool false) ∷ []

module _ {V : Type 0} where
  abbrev pub add_facts : List (Point V) → Collections V → Collections V
  add_facts points c = record c { fact_points = upsert points c.fact_points }

  abbrev pub demote_facts : List Text → Collections V → Collections V
  demote_facts ids c = record c { fact_points = set_payload ids not_latest c.fact_points }

module _ {F V : Type 0} where
  -- `break` after a success, another attempt after an error.
  abbrev pub or_again :
      Result (Unit {0}) → (Text → Exec F V (Result (Unit {0}))) → Exec F V (Result (Unit {0}))
  or_again (ok a) again = pure (ok tt)
  or_again (err e) again = again e

module _ {F V : Type 0} (env : Env) where
  -- The loop of three attempts, with `last_err` its variable; the result is whether one succeeded.
  unfoldable pub flip : ℕ → List Text → Text → Exec F V (Result (Unit {0}))
  flip zero superseded last_err = pure (err last_err)
  flip (suc attempts) superseded last_err = do
    r ← attempt (store_write env (demote_facts superseded))
    or_again r (flip attempts superseded)

module _ (decimal : ℕ → Text) where
  abbrev pub flip_failed : ℕ → ℕ → Text → Text
  flip_failed memories facts last_err =
      codes "supersession flip failed for "
      ++ (decimal memories
          ++ (codes " memories ("
              ++ (last_err
                  ++ (codes "); "
                      ++ (decimal facts
                          ++ codes
                              " superseding fact(s) not written to avoid serving stale+current together — retry via reindex")))))

module _ {F V : Type 0} (env : Env) (decimal : ℕ → Text) where
  abbrev pub after_flip : Plan F V → Result (Unit {0}) → Exec F V (Unit {0})
  after_flip plan (ok a) = store_write env (add_facts plan.supersede_points)
  after_flip plan (err last_err) =
      fail (flip_failed decimal (length plan.superseded) (length plan.supersede_points) last_err)

  -- The superseding facts, after the old memories are demoted.
  unfoldable pub write_superseding : Plan F V → Exec F V (Unit {0})
  unfolding flip
  write_superseding plan =
      if is_empty plan.superseded
      then pure tt
      else (do flipped ← flip env 3 plan.superseded []; after_flip plan flipped)

module _ {F V : Type 0} where
  abbrev pub unless_empty : {A : Type 0} → List A → Exec F V (Unit {0}) → Exec F V (Unit {0})
  unless_empty xs m = if is_empty xs then pure tt else (do attempt m; pure tt)

module _ {F V : Type 0} (env : Env) (engine : Engine) where
  abbrev pub mirror_rows : Plan F V → Exec F V (Unit {0})
  mirror_rows plan = unless_empty plan.mem_rows (insert_memories env plan.mem_rows)

  abbrev pub mirror_pairs : Plan F V → ℤ → Exec F V (Unit {0})
  mirror_pairs plan now =
      unless_empty plan.supersede_pairs (mark_superseded env plan.supersede_pairs now)

  abbrev pub mirror_evidence : Plan F V → Exec F V (Unit {0})
  mirror_evidence plan = unless_empty plan.evidence_rows (insert_evidence env plan.evidence_rows)

  -- The rows of the relational store; no failure is fatal.
  unfoldable pub mirror : Plan F V → ℤ → Exec F V (Unit {0})
  mirror plan now =
      if engine.db
      then (do mirror_rows plan; mirror_pairs plan now; mirror_evidence plan)
      else pure tt
