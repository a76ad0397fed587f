-- ===== src/Engine/Edges/Spared.antt =====
-- crates/ultramem-core/src/engine/mod.rs: the writes of index_edges spare the points that it does not supersede.
use ultramem.Prelude.{
  Text, not-contains_intro, same, List, [], ◌∷◌, is_empty, sort_by, sort_by-Mem, ◌≡◌, refl, sym, ap,
  subst, ◌∙◌, inl, inr, Bool-cases, Memᴰ,
}
use mathlib.Core.List.Memᴰ as Mem
use ultramem.World.{World, Env, Exec, pure, attempt, bind-Relates, ◌>>=◌}
use ultramem.Store.Point.{Payload, Point}
use ultramem.Store.Points.{upsert, set_payload}
use ultramem.Engine.{store_write}
use ultramem.Engine.Steps.{store_write-cases}
use ultramem.Engine.Indexing.Writes.{not_latest}
use ultramem.Engine.Edges.{
  EdgePlan, dedup, text_le, add_edges, demote_edges, flag_superseded, write_edges,
}

dedup-Mem : {a : Text} (xs : List Text) → Memᴰ a (dedup xs) → Memᴰ a xs
unfolding dedup
dedup-Mem [] m = m
dedup-Mem (x ∷ []) m = m
dedup-Mem (x ∷ y ∷ xs) m = elim (Bool-cases (same x y)) [
  | inl e ↦ Memᴰ.tail (dedup-Mem (y ∷ xs) (rw e at m))
  | inr e ↦ elim (Mem.cases_cons (rw e at m)) [
    | inl q ↦ Memᴰ.head q
    | inr k ↦ Memᴰ.tail (dedup-Mem (y ∷ xs) k)
  ]
]

module _ {V : Type 0} where
  set_payload-retains :
      (ids : List Text) (payload : Payload) (p : Point V) (points : List (Point V))
      → ¬ Memᴰ p.id ids
      → Memᴰ p points
      → Memᴰ p (set_payload ids payload points)
  unfolding set_payload
  set_payload-retains ids payload p [] n m = absurd (Mem.not-nil m)
  set_payload-retains ids payload p (q ∷ points) n (Memᴰ.head e) =
      Memᴰ.head (rw (sym e) (rw (not-contains_intro ids p.id n)))
  set_payload-retains ids payload p (q ∷ points) n (Memᴰ.tail m) =
      Memᴰ.tail (set_payload-retains ids payload p points n m)

-- The points of edges that the new ones do not replace are there, with the payload they had; the
-- other collections and the tables are the same.
pub record IsRetained {F V : Type 0} (spared : Text → Type 0) (before after : World F V)
    : Type 0 where
  pub edges :
      (p : Point V)
      → spared p.id
      → Memᴰ p before.collections.graph_points
      → Memᴰ p after.collections.graph_points
  pub facts : after.collections.fact_points ≡ before.collections.fact_points
  pub chunks : after.collections.chunk_points ≡ before.collections.chunk_points

module _ {F V : Type 0} (spared : Text → Type 0) where
  pub IsRetained-same : (u v : World F V) → v.collections ≡ u.collections → IsRetained spared u v
  IsRetained-same u v e = record {
    edges = λ p n m. subst (λ c. Memᴰ p c.graph_points) (sym e) m;
    facts = ap (λ c. c.fact_points) e;
    chunks = ap (λ c. c.chunk_points) e;
  }

  pub IsRetained-trans :
      (u v w : World F V) → IsRetained spared u v → IsRetained spared v w → IsRetained spared u w
  IsRetained-trans u v w h k = record {
    edges = λ p n m. k.edges p n (h.edges p n m);
    facts = k.facts ∙ h.facts;
    chunks = k.chunks ∙ h.chunks;
  }

  abbrev pub Retains : {A : Type 0} → Exec F V A → Type 0
  Retains m = (w : World F V) → IsRetained spared w (m w).1

  pub bind-Retains :
      {A B : Type 0} (m : Exec F V A) (f : A → Exec F V B)
      → Retains m
      → ((a : A) → Retains (f a))
      → Retains (m >>= f)
  bind-Retains m f h k = bind-Relates (IsRetained spared) IsRetained-trans m f h k

  module _ (env : Env) where
    add_edges-Retains : (points : List (Point V)) → Retains (store_write env (add_edges points))
    unfolding upsert
    add_edges-Retains points w = elim (store_write-cases env (add_edges points) w) [
      | inl e ↦ IsRetained-same w _ e
      | inr e ↦ record {
        edges = λ p n m. subst (λ c. Memᴰ p c.graph_points) (sym e) (Mem.append_left _ m);
        facts = ap (λ c. c.fact_points) e;
        chunks = ap (λ c. c.chunk_points) e;
      }
    ]

    demote_edges-Retains :
        (ids : List Text)
        → ((id : Text) → spared id → ¬ Memᴰ id ids)
        → Retains (store_write env (demote_edges ids))
    demote_edges-Retains ids h w = elim (store_write-cases env (demote_edges ids) w) [
      | inl e ↦ IsRetained-same w _ e
      | inr e ↦ record {
        edges = λ p n m.
            subst (λ c. Memᴰ p c.graph_points) (sym e)
              (set_payload-retains ids not_latest p w.collections.graph_points (h p.id n) m);
        facts = ap (λ c. c.fact_points) e;
        chunks = ap (λ c. c.chunk_points) e;
      }
    ]

    flag_superseded-Retains :
        (ids : List Text)
        → ((id : Text) → spared id → ¬ Memᴰ id ids)
        → Retains (flag_superseded env ids)
    flag_superseded-Retains ids h = elim (Bool-cases (is_empty ids)) [
      | inl e ↦ rw e (λ w. IsRetained-same w w refl)
      | inr e ↦ rw e (
          bind-Retains (attempt (store_write env (demote_edges (dedup (sort_by text_le ids)))))
            (λ r. pure tt)
            (demote_edges-Retains (dedup (sort_by text_le ids))
              (λ id n m. h id n (sort_by-Mem text_le ids (dedup-Mem _ m))))
            (λ r w. IsRetained-same w w refl))
    ]

    pub write_edges-Retains :
        (plan : EdgePlan V)
        → ((id : Text) → spared id → ¬ Memᴰ id plan.superseded)
        → Retains (write_edges env plan)
    write_edges-Retains plan h =
        bind-Retains (store_write env (add_edges plan.points))
          (λ _. flag_superseded env plan.superseded) (add_edges-Retains plan.points)
          (λ _. flag_superseded-Retains plan.superseded h)
