-- ===== src/Engine/Edges/Flagged.antt =====
-- crates/ultramem-core/src/engine/mod.rs: what index_edges does to the flags of the edges that it supersedes.
use ultramem.Prelude.{
  ℕ, suc, Text, codes, contains, contains_intro, same, same_iff, true, false, List, [], ◌∷◌, map,
  is_empty, length, sort_by, sort_by-Mem_intro, some, ◌≡◌, refl, ap, subst, ◌∙◌, ◌⊎◌, inl, inr,
  Bool-cases, true-false, Memᴰ, arith,
}
use mathlib.Core.List.Memᴰ as Mem
use ultramem.Prelude.Result.{Result, ok}
use ultramem.Prelude.Table.{lookup, lookup-insert}
use ultramem.World.{Collections, World, Env, continue, outside, new_uuid}
use ultramem.Store.Point.{Point, bool}
use ultramem.Store.Points.{merge, set_payload}
use ultramem.Graph.{Edge, StoredEdge, supersession}
use ultramem.Graph.Superseding.{IsOutdated, supersession-IsOutdated}
use ultramem.Graph.Resolve.{group_key, members_of, group_edges}
use ultramem.Graph.Groups.{members_of-Mem_intro}
use ultramem.Engine.{store_write, store_read}
use ultramem.Engine.Indexing.Planning.{IngestDoc, tag_of}
use ultramem.Engine.Indexing.Writes.{not_latest}
use ultramem.Engine.Edges.{
  EdgeServices, edge_statement, EdgePlan, no_edges, take_edge, build_edges, dedup, text_le,
  stored_edges, latest_points, latest_edges, add_edges, demote_edges, flag_superseded, write_edges,
  index_latest, index_vectors, index_edges,
}
use ultramem.Engine.Edges.Retained.{IsReplaced}

dedup-Mem_intro : {a : Text} (xs : List Text) → Memᴰ a xs → Memᴰ a (dedup xs)
unfolding dedup
dedup-Mem_intro [] m = m
dedup-Mem_intro (x ∷ []) m = m
dedup-Mem_intro (x ∷ y ∷ xs) m = elim (Mem.cases_cons m) [
  | inl q ↦ elim (Bool-cases (same x y)) [
    | inl e ↦ rw e (dedup-Mem_intro (y ∷ xs) (Memᴰ.head (q ∙ (same_iff x y).0 e)))
    | inr e ↦ rw e (Memᴰ.head q)
  ]
  | inr k ↦ elim (Bool-cases (same x y)) [
    | inl e ↦ rw e (dedup-Mem_intro (y ∷ xs) k)
    | inr e ↦ rw e (Memᴰ.tail (dedup-Mem_intro (y ∷ xs) k))
  ]
]

not_empty : (xs : List Text) {a : Text} → is_empty xs ≡ true → ¬ Memᴰ a xs
not_empty [] h = Mem.not-nil
not_empty (x ∷ xs) h = cc

module _ {V : Type 0} where
  -- A point among those whose ids are given is flagged.
  set_payload-flags :
      (ids : List Text) (p : Point V) (points : List (Point V))
      → Memᴰ p (set_payload ids not_latest points)
      → Memᴰ p.id ids
      → lookup (codes "is_latest") p.payload ≡ some (bool false)
  unfolding set_payload merge same
  set_payload-flags ids p [] m n = absurd (Mem.not-nil m)
  set_payload-flags ids p (q ∷ points) m n = elim (Mem.cases_cons m) [
    | inr k ↦ set_payload-flags ids p points k n
    | inl e ↦ elim (Bool-cases (contains ids q.id)) [
      | inl c ↦
          let flagged : p ≡ record q { payload = merge q.payload not_latest } = rw c at e in
          ap (λ (x : Point V). lookup (codes "is_latest") x.payload) flagged
          ∙ lookup-insert (codes "is_latest") (codes "is_latest") (bool false) q.payload
      | inr c ↦
          let plain : p ≡ q = rw c at e in
          absurd
            (true-false (contains_intro ids (subst (λ (x : Point V). Memᴰ x.id ids) plain n)) c)
    ]
  ]

module _ {F V : Type 0} (env : Env) (calm : (n : ℕ) → env.fails n ≡ false) where
  -- Without failures a write is done and a read is answered.
  store_write-runs :
      (f : Collections V → Collections V) (w : World F V)
      → ((store_write env f w).0 ≡ ok tt) × ((store_write env f w).1.collections ≡ f w.collections)
  unfolding store_write outside
  store_write-runs f w = rw (calm w.calls) (refl, refl)

  latest_edges-runs :
      (tag : Text) (w : World F V)
      → ((latest_edges env tag w).0 ≡ ok (stored_edges (latest_points tag w.collections)))
        × ((latest_edges env tag w).1.collections ≡ w.collections)
  unfolding latest_edges store_read outside
  latest_edges-runs tag w = rw (calm w.calls) (refl, refl)

  write_edges-flags :
      (plan : EdgePlan V) (w : World F V) (p : Point V)
      → Memᴰ p (write_edges env plan w).1.collections.graph_points
      → Memᴰ p.id plan.superseded
      → lookup (codes "is_latest") p.payload ≡ some (bool false)
  write_edges-flags plan w p m n =
      let (done, after) = store_write-runs (add_edges plan.points) w in
      let v = (store_write env (add_edges plan.points) w).1 in
      let ids = dedup (sort_by text_le plan.superseded) in
      let rest : Memᴰ p (flag_superseded env plan.superseded v).1.collections.graph_points =
        subst
          (λ r.
            Memᴰ p
              (continue r (λ _. flag_superseded env plan.superseded) v).1.collections.graph_points)
          done m in
      elim (Bool-cases (is_empty plan.superseded)) [
        | inl e ↦ absurd (not_empty plan.superseded e n)
        | inr e ↦
            set_payload-flags ids p v.collections.graph_points
              (subst (λ (c : Collections V). Memᴰ p c.graph_points)
                (store_write-runs (demote_edges ids) v).1 (rw e at rest))
              (dedup-Mem_intro _ (sort_by-Mem_intro text_le plan.superseded n))
      ]

-- The new edge outdates the edge with the id.
abbrev IsWeighed : Edge → List StoredEdge → Text → Type 0
IsWeighed new latest id =
    (ex : StoredEdge) × Memᴰ ex latest
    × (new.singular ≡ true)
    × (group_key new ≡ group_key ex.edge)
    × IsOutdated new ex
    × (id ≡ ex.id)

weighed :
    (new : Edge) (latest : List StoredEdge) (id : Text)
    → IsWeighed new latest id
    → Memᴰ id (supersession new (members_of (group_key new) (group_edges [] latest))).0
weighed new latest id (ex, j, b, g, o, e) =
    ((supersession-IsOutdated new (members_of (group_key new) (group_edges [] latest)) b).0 id).1
      (ex, members_of-Mem_intro latest (group_key new) ex j g, o, e)

module _ {F V S : Type 0} (env : Env) (s : EdgeServices V S) (doc : IngestDoc) (doc_id : Text) where
  -- The loop over the edges takes up the ids of all replaced edges.
  record IsTakenUp (edges : List Edge) (latest : List StoredEdge) (plan : EdgePlan V)
      (w : World F V) (r : Result (EdgePlan V) × World F V) : Type 0 where
    built : EdgePlan V
    is_ok : r.0 ≡ ok built
    writes_nothing : r.1.collections ≡ w.collections
    all :
        (id : Text)
        → Memᴰ id plan.superseded ⊎ IsReplaced edges latest id
        → Memᴰ id built.superseded

  build_edges-IsTakenUp :
      (latest : List StoredEdge) (edges : List Edge) (vecs : List V) (plan : EdgePlan V)
      (w : World F V)
      → length vecs ≡ length edges
      → IsTakenUp edges latest plan w
          (build_edges env s doc doc_id (group_edges [] latest) edges vecs plan w)
  unfolding build_edges new_uuid
  build_edges-IsTakenUp latest [] [] plan w h = record {
    built = plan;
    is_ok = refl;
    writes_nothing = refl;
    all = λ id c. elim c [
      | inl m ↦ m
      | inr r ↦ let (new, ex, k, j, b, g, o, e) = r in absurd (Mem.not-nil k)
    ];
  }
  build_edges-IsTakenUp latest [] (vec ∷ vecs) plan w h = absurd (omega (arith, h))
  build_edges-IsTakenUp latest (edge ∷ edges) [] plan w h = absurd (omega (arith, h))
  build_edges-IsTakenUp latest (edge ∷ edges) (vec ∷ vecs) plan w h =
      let by_group = group_edges [] latest in
      let group = members_of (group_key edge) by_group in
      let rest =
        build_edges-IsTakenUp latest edges vecs
          (take_edge s doc doc_id by_group edge vec plan (env.uuid w.calls))
          (record w { calls = suc w.calls }) (omega (arith, h)) in
      record {
        built = rest.built;
        is_ok = rest.is_ok;
        writes_nothing = rest.writes_nothing;
        all = λ id c. elim c [
          | inl m ↦ rest.all id (inl (Mem.append_left _ m))
          | inr r ↦
              let (new, ex, k, j, b, g, o, e) = r in
              elim (Mem.cases_cons k) [
                | inr i ↦ rest.all id (inr (new, ex, i, j, b, g, o, e))
                | inl q ↦
                    let r' = subst (λ x. IsWeighed x latest id) q (ex, j, b, g, o, e) in
                    rest.all id (inl (Mem.append_right plan.superseded (weighed edge latest id r')))
              ]
        ];
      }

  -- Where no call fails and the embedder gives a vector for each edge, every point with the id of an
  -- edge that latest_edges reads, and that a new state of its group outdates, is flagged as not the
  -- latest after index_edges.
  pub index_edges-flags :
      (edges : List Edge) (vecs : List V) (w : World F V) (p : Point V)
      → ((n : ℕ) → env.fails n ≡ false)
      → s.embed (map (edge_statement s.date_str) edges) ≡ ok vecs
      → length vecs ≡ length edges
      → Memᴰ p (index_edges env s doc doc_id edges w).1.collections.graph_points
      → IsReplaced edges (stored_edges (latest_points (tag_of doc) w.collections)) p.id
      → lookup (codes "is_latest") p.payload ≡ some (bool false)
  unfolding index_edges
  index_edges-flags [] vecs w p calm v h m r =
      let (new, ex, k, j, b, g, o, e) = r in absurd (Mem.not-nil k)
  index_edges-flags (edge ∷ edges) vecs w p calm v h m r =
      let all_edges = edge ∷ edges in
      let latest = stored_edges (latest_points (tag_of doc) w.collections) in
      let (read, same_there) = latest_edges-runs env calm (tag_of doc) w in
      let u = (latest_edges env (tag_of doc) w).1 in
      let taken = build_edges-IsTakenUp latest all_edges vecs no_edges u h in
      let build = build_edges env s doc doc_id (group_edges [] latest) all_edges vecs no_edges in
      let after_embed : Memᴰ p
          (index_vectors env s doc doc_id all_edges vecs w).1.collections.graph_points =
        subst
          (λ x.
            Memᴰ p
              (continue x (index_vectors env s doc doc_id all_edges) w).1.collections.graph_points)
          v m in
      let after_read : Memᴰ p
          (index_latest env s doc doc_id all_edges vecs latest u).1.collections.graph_points =
        subst
          (λ x.
            Memᴰ p
              (continue x (index_latest env s doc doc_id all_edges vecs)
                u).1.collections.graph_points)
          read after_embed in
      let after_build : Memᴰ p
          (write_edges env taken.built (build u).1).1.collections.graph_points =
        subst (λ x. Memᴰ p (continue x (write_edges env) (build u).1).1.collections.graph_points)
          taken.is_ok after_read in
      write_edges-flags env calm taken.built (build u).1 p after_build (taken.all p.id (inr r))
