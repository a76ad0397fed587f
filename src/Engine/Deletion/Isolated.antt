-- ===== src/Engine/Deletion/Isolated.antt =====
-- `delete_document_tagged`: the points that it spares.
use ultramem.Prelude.{
  Text, Bool, true, false, List, refl, sym, subst, Memᴰ, Bool-cases, inl, inr, if◌then◌else◌,
}
use ultramem.Prelude.Result.{Result}
use ultramem.World.{Collections, World, Env, Exec, pure, attempt, bind-Relates, Keeps, ◌>>=◌}
use ultramem.Store.Point.{Point}
use ultramem.Store.Points.{delete_by_filter}
use ultramem.Store.Filters.{doc_delete_filter}
use ultramem.Store.Deletion.{IsOfDoc, delete_by_filter-Mem}
use ultramem.Engine.{Engine, store_write, store_read}
use ultramem.Engine.Steps.{store_write-cases, store_read-collections}
use ultramem.Engine.Deletion.{
  invalidate_profile, pass, chunks_left, facts_left, has_points, remove_edges, pass_both,
  without_chunks, without_facts, without_edges, remove_document, delete_document_tagged,
}

module _ {V : Type 0} (doc_id tag : Text) where
  abbrev Within : List (Point V) → List (Point V) → Type 0
  Within pts qts = (p : Point V) → Memᴰ p pts → ¬ IsOfDoc doc_id tag p.payload → Memᴰ p qts

  -- Every point that is not of the document within the namespace is still there.
  pub record Spares (c d : Collections V) : Type 0 where
    pub chunks : Within c.chunk_points d.chunk_points
    pub facts : Within c.fact_points d.fact_points
    pub edges : Within c.graph_points d.graph_points

  Spares-refl : (c : Collections V) → Spares c c
  Spares-refl c = record { chunks = λ p m n. m; facts = λ p m n. m; edges = λ p m n. m }

  Spares-trans : (a b c : Collections V) → Spares a b → Spares b c → Spares a c
  Spares-trans a b c h k = record {
    chunks = λ p m n. k.chunks p (h.chunks p m n) n;
    facts = λ p m n. k.facts p (h.facts p m n) n;
    edges = λ p m n. k.edges p (h.edges p m n) n;
  }

  spared : (pts : List (Point V)) → Within pts (delete_by_filter (doc_delete_filter doc_id tag) pts)
  spared pts p m n = (delete_by_filter-Mem doc_id tag pts p).1 (m, n)

  Spares-chunks : (c : Collections V) → Spares c (without_chunks (doc_delete_filter doc_id tag) c)
  Spares-chunks c = record {
    chunks = spared c.chunk_points;
    facts = λ p m n. m;
    edges = λ p m n. m;
  }

  Spares-facts : (c : Collections V) → Spares c (without_facts (doc_delete_filter doc_id tag) c)
  Spares-facts c = record { chunks = λ p m n. m; facts = spared c.fact_points; edges = λ p m n. m }

  Spares-edges : (c : Collections V) → Spares c (without_edges (doc_delete_filter doc_id tag) c)
  Spares-edges c = record { chunks = λ p m n. m; facts = λ p m n. m; edges = spared c.graph_points }

module _ {F V : Type 0} (env : Env) (engine : Engine) (doc_id tag : Text) where
  SparesIn : World F V → World F V → Type 0
  SparesIn u v = Spares doc_id tag u.collections v.collections

  then_spares :
      {A B : Type 0} (m : Exec F V A) (f : A → Exec F V B)
      → ((w : World F V) → SparesIn w (m w).1)
      → ((a : A) (w : World F V) → SparesIn w (f a w).1)
      → (w : World F V) → SparesIn w ((m >>= f) w).1
  unfolding SparesIn
  then_spares =
      bind-Relates SparesIn
        (λ u v w. Spares-trans doc_id tag u.collections v.collections w.collections)

  write-Spares :
      (f : Collections V → Collections V)
      → ((c : Collections V) → Spares doc_id tag c (f c))
      → (w : World F V) → SparesIn w (store_write env f w).1
  unfolding SparesIn
  write-Spares f h w = elim (store_write-cases env f w) [
    | inl e ↦ subst (Spares doc_id tag w.collections) (sym e) (Spares-refl doc_id tag w.collections)
    | inr e ↦ subst (Spares doc_id tag w.collections) (sym e) (h w.collections)
  ]

  read-spares :
      {A : Type 0} (f : Collections V → A) (w : World F V) → SparesIn w (store_read env f w).1
  unfolding SparesIn
  read-spares f w =
      subst (Spares doc_id tag w.collections) (sym (store_read-collections env f w))
        (Spares-refl doc_id tag w.collections)

  edges-spares :
      (w : World F V)
      → SparesIn w
          ((if engine.temporal_graph
              then store_write env (without_edges (doc_delete_filter doc_id tag))
              else pure tt)
            w).1
  unfolding SparesIn
  edges-spares w = elim (Bool-cases engine.temporal_graph) [
    | inl e ↦
        rw e
          (write-Spares (without_edges (doc_delete_filter doc_id tag)) (Spares-edges doc_id tag) w)
    | inr e ↦ rw e (Spares-refl doc_id tag w.collections)
  ]

  same_spares :
      {A : Type 0} (m : Exec F V A)
      → Keeps (λ w. w.collections) m
      → (w : World F V) → SparesIn w (m w).1
  unfolding SparesIn
  same_spares m h w =
      subst (Spares doc_id tag w.collections) (sym (h w)) (Spares-refl doc_id tag w.collections)

  remove_edges-spares :
      (w : World F V) → SparesIn w (remove_edges env engine (doc_delete_filter doc_id tag) tag w).1
  remove_edges-spares =
      then_spares
        (if engine.temporal_graph
          then store_write env (without_edges (doc_delete_filter doc_id tag))
          else pure tt)
        (λ _. invalidate_profile tag >>= λ _. pure true) edges-spares
        (λ _. same_spares (invalidate_profile tag >>= λ _. pure true) (λ w. refl))

  pass_both-spares :
      (a b : Result (Unit {0})) (w : World F V)
      → SparesIn w (pass_both env engine (doc_delete_filter doc_id tag) tag a b w).1
  pass_both-spares a b =
      then_spares (pass a)
        (λ _. pass b >>= λ _. remove_edges env engine (doc_delete_filter doc_id tag) tag)
        (same_spares (pass a) (λ w. refl))
        (λ _.
          then_spares (pass b) (λ _. remove_edges env engine (doc_delete_filter doc_id tag) tag)
            (same_spares (pass b) (λ w. refl)) (λ _. remove_edges-spares))

  remove_document-spares :
      (w : World F V)
      → SparesIn w (remove_document env engine (doc_delete_filter doc_id tag) tag w).1
  unfolding remove_document
  remove_document-spares =
      then_spares (attempt (store_write env (without_chunks (doc_delete_filter doc_id tag))))
        (λ a.
          attempt (store_write env (without_facts (doc_delete_filter doc_id tag)))
          >>= pass_both env engine (doc_delete_filter doc_id tag) tag a)
        (write-Spares (without_chunks (doc_delete_filter doc_id tag)) (Spares-chunks doc_id tag))
        (λ a.
          then_spares (attempt (store_write env (without_facts (doc_delete_filter doc_id tag))))
            (pass_both env engine (doc_delete_filter doc_id tag) tag a)
            (write-Spares (without_facts (doc_delete_filter doc_id tag)) (Spares-facts doc_id tag))
            (pass_both-spares a))

  gate-spares :
      (b : Bool) (w : World F V)
      → SparesIn w
          ((if b then remove_document env engine (doc_delete_filter doc_id tag) tag else pure false)
            w).1
  gate-spares true = remove_document-spares
  gate-spares false = same_spares (pure false) (λ w. refl)

  -- However the call ends, every point of another document or another namespace is still in its
  -- collection.
  pub delete_document_tagged-isolated :
      (w : World F V)
      → Spares doc_id tag w.collections
          (delete_document_tagged env engine doc_id tag w).1.collections
  unfolding delete_document_tagged SparesIn
  delete_document_tagged-isolated =
      then_spares (attempt (store_read env (chunks_left (doc_delete_filter doc_id tag))))
        (λ c. attempt (store_read env (facts_left (doc_delete_filter doc_id tag))) >>= λ d.
          if has_points c d
          then remove_document env engine (doc_delete_filter doc_id tag) tag
          else pure false)
        (read-spares (chunks_left (doc_delete_filter doc_id tag)))
        (λ c.
          then_spares (attempt (store_read env (facts_left (doc_delete_filter doc_id tag))))
            (λ d.
              if has_points c d
              then remove_document env engine (doc_delete_filter doc_id tag) tag
              else pure false)
            (read-spares (facts_left (doc_delete_filter doc_id tag)))
            (λ d. gate-spares (has_points c d)))
