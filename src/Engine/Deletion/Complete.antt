-- ===== src/Engine/Deletion/Complete.antt =====
-- `delete_document_tagged`: the points that it removes.
use ultramem.Prelude.{
  Text, Bool, true, false, ◌≡◌, refl, sym, ap, subst, ◌∙◌, Memᴰ, Bool-cases, inl, inr, ◌⊎◌,
  true-false, refl, if◌then◌else◌,
}
use ultramem.Prelude.Result.{ok, ok_inj}
use ultramem.World.{Collections, World, Env, pure, bind-ok, bind-Keeps, Keeps, ◌>>=◌}
use ultramem.Store.Point.{Point, Filter}
use ultramem.Store.Points.{delete_by_filter}
use ultramem.Store.Filters.{doc_delete_filter}
use ultramem.Store.Deletion.{IsOfDoc, delete_by_filter-Mem}
use ultramem.Engine.{Engine, store_write, store_read}
use ultramem.Engine.Steps.{store_write-ok, store_write-cases}
use ultramem.Engine.Deletion.{
  invalidate_profile, pass, chunks_left, facts_left, has_points, remove_edges, without_chunks,
  without_facts, without_edges, remove_document, delete_document_tagged,
}

module _ {F V : Type 0} (env : Env) (engine : Engine) (doc_id tag : Text) where
  edges-points :
      {X : Type 0} (g : Collections V → X)
      → ((c : Collections V) (f : Filter) → g (without_edges f c) ≡ g c)
      → Keeps
          (λ w. g w.collections)
          (remove_edges {F = F} env engine (doc_delete_filter doc_id tag) tag)
  edges-points g h =
      bind-Keeps (λ w. g w.collections)
        (if engine.temporal_graph
          then store_write env (without_edges (doc_delete_filter doc_id tag))
          else pure tt)
        (λ _. invalidate_profile tag >>= λ _. pure true)
        (λ w. elim (Bool-cases engine.temporal_graph) [
          | inl e ↦
              rw e (elim (store_write-cases env (without_edges (doc_delete_filter doc_id tag)) w) [
                | inl k ↦ ap g k
                | inr k ↦ ap g k ∙ h w.collections (doc_delete_filter doc_id tag)
              ])
          | inr e ↦ rw e
        ])
        (λ _ w. refl)

  -- When both removals succeeded and the call goes on, the chunks and the facts of the document are
  -- gone.
  remove_document-points :
      (w : World F V)
      → (remove_document env engine (doc_delete_filter doc_id tag) tag w).0 ≡ ok true
      → let d = (remove_document env engine (doc_delete_filter doc_id tag) tag w).1.collections in
        (d.chunk_points
          ≡ delete_by_filter (doc_delete_filter doc_id tag) w.collections.chunk_points)
        × (d.fact_points
            ≡ delete_by_filter (doc_delete_filter doc_id tag) w.collections.fact_points)
  unfolding remove_document
  remove_document-points w h =
      let f = doc_delete_filter doc_id tag in
      let m = store_write env (without_chunks f) in
      let n = store_write env (without_facts f) in
      let u = (m w).1 in
      let v = (n u).1 in
      let (_, a, k) =
        bind-ok (pass (m w).0) (λ _. pass (n u).0 >>= λ _. remove_edges env engine f tag) v h in
      let (_, b, j) =
        bind-ok (pass (n u).0) (λ _. remove_edges env engine f tag) v (sym (ap (λ x. x.0) k) ∙ h) in
      let c = store_write-ok env (without_chunks f) w a in
      let d = store_write-ok env (without_facts f) u b in
      (
        ap (λ x. x.1.collections.chunk_points) (k ∙ j)
            ∙ edges-points (λ c. c.chunk_points) (λ c f. refl) v
            ∙ ap (λ (x : Collections V). x.chunk_points) d
            ∙ ap (λ (x : Collections V). x.chunk_points) c,
        ap (λ x. x.1.collections.fact_points) (k ∙ j)
            ∙ edges-points (λ c. c.fact_points) (λ c f. refl) v
            ∙ ap (λ (x : Collections V). x.fact_points) d
            ∙ ap (λ (x : Collections V). delete_by_filter f x.fact_points) c,
      )

  gate-points :
      (b : Bool) (w : World F V)
      → let r =
          (if b then remove_document env engine (doc_delete_filter doc_id tag) tag else pure false)
            w in
        r.0 ≡ ok true
        → (p : Point V) → Memᴰ p r.1.collections.chunk_points ⊎ Memᴰ p r.1.collections.fact_points
        → ¬ IsOfDoc doc_id tag p.payload
  gate-points false w h p m = absurd (true-false refl (sym (ok_inj h)))
  gate-points true w h p (inl m) =
      ((delete_by_filter-Mem doc_id tag w.collections.chunk_points p).0
        (subst (Memᴰ p) (remove_document-points w h).0 m)).1
  gate-points true w h p (inr m) =
      ((delete_by_filter-Mem doc_id tag w.collections.fact_points p).0
        (subst (Memᴰ p) (remove_document-points w h).1 m)).1

  -- When the call reports the deletion, no chunk and no fact of the document within the namespace is
  -- left.
  pub delete_document_tagged_complete :
      (w : World F V) (p : Point V)
      → let r = delete_document_tagged env engine doc_id tag w in
        r.0 ≡ ok true
        → Memᴰ p r.1.collections.chunk_points ⊎ Memᴰ p r.1.collections.fact_points
        → ¬ IsOfDoc doc_id tag p.payload
  unfolding delete_document_tagged
  delete_document_tagged_complete w p h m =
      let f = doc_delete_filter doc_id tag in
      let r = store_read env (chunks_left f) w in
      let q = store_read env (facts_left f) r.1 in gate-points (has_points r.0 q.0) q.1 h p m
