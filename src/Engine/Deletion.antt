-- ===== src/Engine/Deletion.antt =====
-- crates/ultramem-core/src/engine/mod.rs: the deletion of a document.
pub mod Isolated
pub mod Complete
use ultramem.Prelude.{
  ℕ, Text, Bool, true, false, not, ◌||◌, List, [], Option, some, is_empty, filter, same,
  if◌then◌else◌,
}
use ultramem.Prelude.Result.{Result, ok, err, or_default}
use ultramem.World.{Collections, Env, Exec, pure, attempt, ◌>>=◌, ◌>>◌}
use ultramem.Store.Point.{Point, Filter}
use ultramem.Store.Points.{scroll_all, delete_by_filter, delete_by_doc}
use ultramem.Store.Filters.{doc_delete_filter}
use ultramem.Engine.{Engine, store_write, store_read}

module _ {F V : Type 0} where
  -- `profile_cache.remove(tag)`
  abbrev pub invalidate_profile : Text → Exec F V (Unit {0})
  invalidate_profile tag w =
      (ok tt, record w { profiles = filter (λ p. not (same p.0 tag)) w.profiles })

  -- `a?` for a result at hand.
  abbrev pub pass : {A : Type 0} → Result A → Exec F V A
  pass r w = (r, w)

module _ {V : Type 0} where
  abbrev pub chunks_left : Filter → Collections V → List (Point V)
  chunks_left f c = scroll_all (some f) 1 c.chunk_points

  abbrev pub facts_left : Filter → Collections V → List (Point V)
  facts_left f c = scroll_all (some f) 1 c.fact_points

  abbrev pub has_points : Result (List (Point V)) → Result (List (Point V)) → Bool
  has_points c d = not (is_empty (or_default c [])) || not (is_empty (or_default d []))

  abbrev pub without_chunks : Filter → Collections V → Collections V
  without_chunks f c = record c { chunk_points = delete_by_filter f c.chunk_points }

  abbrev pub without_facts : Filter → Collections V → Collections V
  without_facts f c = record c { fact_points = delete_by_filter f c.fact_points }

  abbrev pub without_edges : Filter → Collections V → Collections V
  without_edges f c = record c { graph_points = delete_by_filter f c.graph_points }

module _ {F V : Type 0} (env : Env) (engine : Engine) where
  unfoldable pub delete_document : Text → Exec F V (Unit {0})
  delete_document doc_id = do
    a ←
        attempt
          (store_write env (λ c. record c { chunk_points = delete_by_doc doc_id c.chunk_points }))
    b ←
        attempt
          (store_write env (λ c. record c { fact_points = delete_by_doc doc_id c.fact_points }))
    pass a
    pass b

  -- What follows the removal of the chunks and the facts.
  abbrev pub remove_edges : Filter → Text → Exec F V Bool
  remove_edges f tag = do
    if engine.temporal_graph then store_write env (without_edges f) else pure tt
    invalidate_profile tag
    pure true

  abbrev pub pass_both : Filter → Text → Result (Unit {0}) → Result (Unit {0}) → Exec F V Bool
  pass_both f tag a b = do pass a; pass b; remove_edges f tag

  -- What follows the test that the namespace has the document.
  unfoldable pub remove_document : Filter → Text → Exec F V Bool
  remove_document f tag = do
    a ← attempt (store_write env (without_chunks f))
    b ← attempt (store_write env (without_facts f))
    pass_both f tag a b

  unfoldable pub delete_document_tagged : Text → Text → Exec F V Bool
  unfolding remove_document
  delete_document_tagged doc_id tag =
      let f = doc_delete_filter doc_id tag in
      do
        c ← attempt (store_read env (chunks_left f))
        d ← attempt (store_read env (facts_left f))
        if has_points c d then remove_document f tag else pure false
