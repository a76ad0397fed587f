-- ===== src/Engine/Edges/Retained.antt =====
-- crates/ultramem-core/src/engine/mod.rs: index_edges changes only the points of edges that it supersedes.
use ultramem.Prelude.{
  true, suc, Text, List, [], ◌∷◌, map, is_empty, ◌≡◌, refl, sym, ap, subst, ◌⊎◌, inl, inr,
  Bool-cases, Memᴰ,
}
use mathlib.Core.List.Memᴰ as Mem
use ultramem.Prelude.Result.{Result, ok, ok_inj, Result-cases}
use ultramem.World.{World, Env, bind-cases, continue, outside, ◌>>=◌, new_uuid}
use ultramem.Store.Point.{Point}
use ultramem.Graph.{Edge, StoredEdge, supersession}
use ultramem.Graph.Superseding.{IsOutdated, supersession-IsOutdated}
use ultramem.Graph.Resolve.{group_key, members_of, group_edges}
use ultramem.Graph.Groups.{members_of-Mem}
use ultramem.Engine.{store_read}
use ultramem.Engine.Steps.{store_read-collections}
use ultramem.Engine.Indexing.Planning.{IngestDoc, tag_of}
use ultramem.Engine.Edges.{
  edge_statement, EdgeServices, EdgePlan, no_edges, take_edge, build_edges, stored_edges,
  latest_points, latest_edges, write_edges, index_latest, index_vectors, index_edges,
}
use ultramem.Engine.Edges.Spared.{
  IsRetained, IsRetained-same, IsRetained-trans, Retains, write_edges-Retains,
}

-- A new state outdates a stored edge of its group that has the id.
abbrev pub IsReplaced : List Edge → List StoredEdge → Text → Type 0
IsReplaced edges latest id =
    (new : Edge) × (ex : StoredEdge) × Memᴰ new edges
    × Memᴰ ex latest
    × (new.singular ≡ true)
    × (group_key new ≡ group_key ex.edge)
    × IsOutdated new ex
    × (id ≡ ex.id)

supersession-Mem :
    (new : Edge) (existing : List StoredEdge) (id : Text)
    → Memᴰ id (supersession new existing).0
    → (new.singular ≡ true)
      × ((ex : StoredEdge) × Memᴰ ex existing × IsOutdated new ex × (id ≡ ex.id))
unfolding supersession
supersession-Mem new existing id m = elim (Bool-cases new.singular) [
  | inl e ↦ (e, ((supersession-IsOutdated new existing e).0 id).0 m)
  | inr e ↦ absurd (Mem.not-nil (rw e at m))
]

-- No new edge replaces one of the latest edges in the namespace of the document that has the id.
abbrev pub IsSpared : {F V : Type 0} → IngestDoc → List Edge → World F V → Text → Type 0
IsSpared doc edges w id =
    ¬ IsReplaced edges (stored_edges (latest_points (tag_of doc) w.collections)) id

module _ {F V S : Type 0} (env : Env) (s : EdgeServices V S) (doc : IngestDoc) (doc_id : Text) where
  -- The loop over the edges ends well, writes nothing, and takes up ids of replaced edges only.
  record IsBuilt (edges : List Edge) (latest : List StoredEdge) (plan : EdgePlan V) (w : World F V)
      (r : Result (EdgePlan V) × World F V) : Type 0 where
    built : EdgePlan V
    is_ok : r.0 ≡ ok built
    writes_nothing : r.1.collections ≡ w.collections
    replaced :
        (id : Text)
        → Memᴰ id built.superseded
        → Memᴰ id plan.superseded ⊎ IsReplaced edges latest id

  build_edges-IsBuilt :
      (latest : List StoredEdge) (edges : List Edge) (vecs : List V) (plan : EdgePlan V)
      (w : World F V)
      → IsBuilt edges latest plan w
          (build_edges env s doc doc_id (group_edges [] latest) edges vecs plan w)
  unfolding build_edges new_uuid
  build_edges-IsBuilt latest [] vecs plan w = record {
    built = plan;
    is_ok = refl;
    writes_nothing = refl;
    replaced = λ id m. inl m;
  }
  build_edges-IsBuilt latest (edge ∷ edges) [] plan w = record {
    built = plan;
    is_ok = refl;
    writes_nothing = refl;
    replaced = λ id m. inl m;
  }
  build_edges-IsBuilt latest (edge ∷ edges) (vec ∷ vecs) plan w =
      let by_group = group_edges [] latest in
      let group = members_of (group_key edge) by_group in
      let rest =
        build_edges-IsBuilt latest edges vecs
          (take_edge s doc doc_id by_group edge vec plan (env.uuid w.calls))
          (record w { calls = suc w.calls }) in
      record {
        built = rest.built;
        is_ok = rest.is_ok;
        writes_nothing = rest.writes_nothing;
        replaced = λ id m. elim (rest.replaced id m) [
          | inr (new, ex, k, j, b, g, o, e) ↦ inr (new, ex, Memᴰ.tail k, j, b, g, o, e)
          | inl n ↦ elim (Mem.append_cases plan.superseded n) [
            | inl k ↦ inl k
            | inr k ↦
                let (b, (ex, j, o, q)) = supersession-Mem edge group id k in
                let (there, same_key) = members_of-Mem latest (group_key edge) ex j in
                inr (edge, ex, Memᴰ.head refl, there, b, same_key, o, q)
          ]
        ];
      }

  latest_edges-Mem :
      (tag : Text) (w : World F V) {latest : List StoredEdge}
      → (latest_edges env tag w).0 ≡ ok latest
      → (e : StoredEdge) → Memᴰ e latest
      → Memᴰ e (stored_edges (latest_points tag w.collections))
  unfolding latest_edges store_read outside
  latest_edges-Mem tag w h e m = elim (Bool-cases (env.fails w.calls)) [
    | inl f ↦ absurd (Mem.not-nil (subst (Memᴰ e) (sym (ok_inj (rw f at h))) m))
    | inr f ↦ subst (Memᴰ e) (sym (ok_inj (rw f at h))) m
  ]

  latest_edges-collections :
      (tag : Text) (w : World F V) → (latest_edges env tag w).1.collections ≡ w.collections
  unfolding latest_edges
  latest_edges-collections tag w = store_read-collections env (latest_points tag) w

  index_latest-Retains :
      (spared : Text → Type 0) (edges : List Edge) (vecs : List V) (latest : List StoredEdge)
      → ((id : Text) → spared id → ¬ IsReplaced edges latest id)
      → Retains {F = F} spared (index_latest env s doc doc_id edges vecs latest)
  index_latest-Retains spared edges vecs latest h w =
      let m = build_edges env s doc doc_id (group_edges [] latest) edges vecs no_edges in
      let b = build_edges-IsBuilt latest edges vecs no_edges w in
      let wrote =
        write_edges-Retains spared env b.built
          (λ id n k. elim (b.replaced id k) [ inl j ↦ Mem.not-nil j | inr r ↦ h id n r ]) in
      let same_end : (m >>= write_edges env) w ≡ write_edges env b.built (m w).1 =
        ap (λ r. continue r (write_edges env) (m w).1) b.is_ok in
      subst (λ x. IsRetained spared w x.1) (sym same_end)
        (IsRetained-trans spared w (m w).1 _ (IsRetained-same spared w (m w).1 b.writes_nothing)
          (wrote (m w).1))

  index_vectors-IsRetained :
      (edges : List Edge) (vecs : List V) (w : World F V)
      → IsRetained (IsSpared doc edges w) w (index_vectors env s doc doc_id edges vecs w).1
  index_vectors-IsRetained edges vecs w =
      let m = latest_edges env (tag_of doc) in
      let read =
        IsRetained-same (IsSpared doc edges w) w (m w).1
          (latest_edges-collections (tag_of doc) w) in
      elim (bind-cases m (index_latest env s doc doc_id edges vecs) w) [
        | inl (e, d, q) ↦ subst (λ x. IsRetained (IsSpared doc edges w) w x.1) (sym q) read
        | inr (latest, d, q) ↦
            subst (λ x. IsRetained (IsSpared doc edges w) w x.1) (sym q)
              (IsRetained-trans (IsSpared doc edges w) w (m w).1 _ read (
                index_latest-Retains (IsSpared doc edges w) edges vecs latest
                  (λ id n r.
                    let (new, ex, k, j, b, g, o, e) = r in
                    n ((new, ex, k, latest_edges-Mem (tag_of doc) w d ex j, b, g, o, e)))
                  (m w).1))
      ]

  index_edges-IsRetained :
      (edges : List Edge) (w : World F V)
      → IsRetained (IsSpared doc edges w) w (index_edges env s doc doc_id edges w).1
  unfolding index_edges
  index_edges-IsRetained edges w = elim (Bool-cases (is_empty edges)) [
    | inl e ↦ rw e (IsRetained-same (IsSpared doc edges w) w w refl)
    | inr e ↦ rw e (elim (Result-cases (s.embed (map (edge_statement s.date_str) edges))) [
      | inl (vecs, q) ↦ rw q (index_vectors-IsRetained edges vecs w)
      | inr (x, q) ↦ rw q (IsRetained-same (IsSpared doc edges w) w w refl)
    ])
  ]

  -- However index_edges ends, a point of the graph stays there as it is, its flag included, where no
  -- new state outdates the edge with its id in the same group and namespace.
  pub index_edges-Mem :
      (edges : List Edge) (w : World F V) (p : Point V)
      → Memᴰ p w.collections.graph_points
      → IsSpared doc edges w p.id
      → Memᴰ p (index_edges env s doc doc_id edges w).1.collections.graph_points
  index_edges-Mem edges w p m n = (index_edges-IsRetained edges w).edges p n m
