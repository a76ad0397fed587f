-- ===== src/Engine/Indexing/Adds.antt =====
-- crates/ultramem-core/src/engine/mod.rs: index_memories only adds points: the steps that write to the
-- vector store.
use ultramem.Prelude.{
  ℕ, zero, suc, Text, contains, List, [], ◌∷◌, ◌++◌, append_assoc, append-nil, map, is_empty, ◌≡◌,
  refl, sym, ap, ◌∙◌, inl, inr, Bool-cases,
}
use ultramem.Prelude.Result.{Result, ok, err}
use ultramem.World.{World, Env, Exec, bind-Relates, Keeps, attempt, ◌>>=◌}
use ultramem.Store.Point.{Payload, Point}
use ultramem.Store.Points.{set_payload, upsert}
use ultramem.Engine.{store_write}
use ultramem.Engine.Steps.{store_write-cases}
use ultramem.Engine.Indexing.Writes.{
  not_latest, add_facts, demote_facts, or_again, flip, after_flip, write_superseding,
}
use ultramem.Engine.Indexing.Planning.{Plan}

abbrev pub point_ids : {V : Type 0} → List (Point V) → List Text
point_ids = map (λ p. p.id)

-- The points of facts are those that there were, with others behind them; their payloads may
-- change. The other points are the same.
pub record IsKept {F V : Type 0} (before after : World F V) : Type 0 where
  pub added : List Text
  pub facts :
      point_ids after.collections.fact_points ≡ point_ids before.collections.fact_points ++ added
  pub chunks : after.collections.chunk_points ≡ before.collections.chunk_points
  pub edges : after.collections.graph_points ≡ before.collections.graph_points

module _ {F V : Type 0} where
  pub IsKept-same : (u v : World F V) → v.collections ≡ u.collections → IsKept u v
  IsKept-same u v e = record {
    added = [];
    facts =
        ap (λ c. point_ids c.fact_points) e
        ∙ sym (append-nil (point_ids u.collections.fact_points));
    chunks = ap (λ c. c.chunk_points) e;
    edges = ap (λ c. c.graph_points) e;
  }

  pub IsKept-trans : (u v w : World F V) → IsKept u v → IsKept v w → IsKept u w
  IsKept-trans u v w h k = record {
    added = h.added ++ k.added;
    facts =
        k.facts
        ∙ (ap (λ x. x ++ k.added) h.facts
            ∙ append_assoc (point_ids u.collections.fact_points) h.added k.added);
    chunks = k.chunks ∙ h.chunks;
    edges = k.edges ∙ h.edges;
  }

  -- The action removes no point.
  abbrev pub Adds : {A : Type 0} → Exec F V A → Type 0
  Adds m = (w : World F V) → IsKept w (m w).1

  pub bind-Adds :
      {A B : Type 0} (m : Exec F V A) (f : A → Exec F V B)
      → Adds m
      → ((a : A) → Adds (f a))
      → Adds (m >>= f)
  bind-Adds m f h k = bind-Relates IsKept IsKept-trans m f h k

  pub Keeps-Adds : {A : Type 0} (m : Exec F V A) → Keeps (λ w. w.collections) m → Adds m
  Keeps-Adds m h w = IsKept-same w (m w).1 (h w)

module _ {V : Type 0} where
  point_ids-upsert :
      (new points : List (Point V))
      → point_ids (upsert new points) ≡ point_ids points ++ point_ids new
  unfolding upsert
  point_ids-upsert new [] = refl
  point_ids-upsert new (p ∷ points) = ap (◌∷◌ p.id) (point_ids-upsert new points)

  point_ids-set_payload :
      (which : List Text) (payload : Payload) (points : List (Point V))
      → point_ids (set_payload which payload points) ≡ point_ids points
  unfolding set_payload
  point_ids-set_payload which payload [] = refl
  point_ids-set_payload which payload (p ∷ points) = elim (Bool-cases (contains which p.id)) [
    | inl e ↦ rw e (ap (◌∷◌ p.id) (point_ids-set_payload which payload points))
    | inr e ↦ rw e (ap (◌∷◌ p.id) (point_ids-set_payload which payload points))
  ]

module _ {F V : Type 0} (env : Env) where
  pub add_facts-Adds : (new : List (Point V)) → Adds {F = F} (store_write env (add_facts new))
  add_facts-Adds new w = elim (store_write-cases env (add_facts new) w) [
    | inl e ↦ IsKept-same w _ e
    | inr e ↦ record {
      added = point_ids new;
      facts = ap (λ c. point_ids c.fact_points) e ∙ point_ids-upsert new w.collections.fact_points;
      chunks = ap (λ c. c.chunk_points) e;
      edges = ap (λ c. c.graph_points) e;
    }
  ]

  demote_facts-Adds :
      (which : List Text) → Adds {F = F} {V = V} (store_write env (demote_facts which))
  demote_facts-Adds which w = elim (store_write-cases env (demote_facts which) w) [
    | inl e ↦ IsKept-same w _ e
    | inr e ↦ record {
      added = [];
      facts =
          ap (λ c. point_ids c.fact_points) e
          ∙ (point_ids-set_payload which not_latest w.collections.fact_points
              ∙ sym (append-nil (point_ids w.collections.fact_points)));
      chunks = ap (λ c. c.chunk_points) e;
      edges = ap (λ c. c.graph_points) e;
    }
  ]

  or_again-Adds :
      (r : Result (Unit {0})) (again : Text → Exec F V (Result (Unit {0})))
      → ((e : Text) → Adds (again e))
      → Adds (or_again r again)
  or_again-Adds (ok a) again h = λ w. IsKept-same w w refl
  or_again-Adds (err e) again h = h e

  flip-Adds :
      (n : ℕ) (which : List Text) (last_err : Text)
      → Adds {F = F} {V = V} (flip env n which last_err)
  unfolding flip
  flip-Adds zero which last_err = λ w. IsKept-same w w refl
  flip-Adds (suc n) which last_err =
      bind-Adds (attempt (store_write env (demote_facts which)))
        (λ r. or_again r (flip env n which)) (demote_facts-Adds which)
        (λ r. or_again-Adds r (flip env n which) (flip-Adds n which))

  after_flip-Adds :
      (decimal : ℕ → Text) (plan : Plan F V) (r : Result (Unit {0}))
      → Adds (after_flip env decimal plan r)
  after_flip-Adds decimal plan (ok a) = add_facts-Adds plan.supersede_points
  after_flip-Adds decimal plan (err e) = λ w. IsKept-same w w refl

  pub write_superseding-Adds :
      (decimal : ℕ → Text) (plan : Plan F V) → Adds (write_superseding env decimal plan)
  unfolding write_superseding
  write_superseding-Adds decimal plan = elim (Bool-cases (is_empty plan.superseded)) [
    | inl e ↦ rw e (λ w. IsKept-same w w refl)
    | inr e ↦ rw e (
        bind-Adds (flip env 3 plan.superseded []) (after_flip env decimal plan)
          (flip-Adds 3 plan.superseded []) (after_flip-Adds decimal plan))
  ]
