-- ===== src/Engine/Edges.antt =====
-- crates/ultramem-core/src/engine/mod.rs: index_edges and resolve_edges_tagged, the edges of the
-- knowledge graph as points of the vector store. What lies outside is the record EdgeServices, a parameter.
pub mod Decoded
pub mod Spared
pub mod Retained
pub mod Flagged
use ultramem.Prelude.{
  ℕ, ℤ, pos, ◌==◌, Text, codes, same, Bool, true, false, not, List, [], ◌∷◌, ◌++◌, map, filter, any,
  is_empty, sort_by, Option, none, some, unwrap_or, if◌then◌else◌,
}
use ultramem.Prelude.Result.{Result, ok, err, or_default}
use ultramem.Prelude.Table.{lookup}
use ultramem.World.{Collections, Env, Exec, pure, attempt, new_uuid, ◌>>=◌, ◌>>◌}
use ultramem.Store.Point.{
  Payload, Point, Filter, match_value, bool, int, str, as_str, as_i64, as_bool,
}
use ultramem.Store.Points.{upsert, set_payload, scroll_all}
use ultramem.Store.Filters.{empty_filter, tagged_filter}
use ultramem.Graph.{Edge, StoredEdge, Weighing, supersession}
use ultramem.Graph.Resolve.{
  GroupKey, Groups, group_key, same_group_key, lt_text, members_of, group_edges, resolve,
}
use ultramem.Graph.Render.{render_block}
use ultramem.Engine.{Engine, store_write, store_read}
use ultramem.Engine.Deletion.{pass}
use ultramem.Engine.Promotion.{json_time}
use ultramem.Engine.Indexing.{Hit, hits_or_none}
use ultramem.Engine.Indexing.Planning.{IngestDoc, tag_of}
use ultramem.Engine.Indexing.Writes.{not_latest}

-- What lies outside: the embedder, the search with its threshold, and the dates of chrono (`date_str`
-- and the closure of render_block).
pub record EdgeServices (V S : Type 0) : Type 0 where
  pub embed : List Text → Result (List V)
  pub embed_query : Text → Result (List V)
  pub search : V → ℕ → Filter → List (Point V) → List (Hit S)
  pub date_str : ℤ → Text
  pub date : ℤ → Text

module _ (date_str : ℤ → Text) where
  -- "{} {}: {} ({})", with `replace('_', " ")`.
  abbrev pub edge_statement : Edge → Text
  edge_statement e =
      e.subject
      ++ (codes " "
          ++ (map (λ c. if c == b'_' then b' ' else c) e.predicate
              ++ (codes ": "
                  ++ (e.object ++ (codes " (" ++ (date_str e.valid_from ++ codes ")"))))))

-- The `payload` of the point of an edge, and back.
abbrev pub edge_payload : IngestDoc → Text → Edge → Bool → Text → Payload
edge_payload doc doc_id edge is_latest statement =
    (codes "kind", str (codes "edge"))
    ∷ (codes "subject", str edge.subject)
    ∷ (codes "predicate", str edge.predicate)
    ∷ (codes "object", str edge.object)
    ∷ (codes "valid_from", int edge.valid_from)
    ∷ (codes "valid_to", json_time edge.valid_to)
    ∷ (codes "singular", bool edge.singular)
    ∷ (codes "is_latest", bool is_latest)
    ∷ (codes "captured_at", int doc.captured_at)
    ∷ (codes "doc_id", str doc_id)
    ∷ (codes "statement", str statement)
    ∷ (codes "container_tag", str (tag_of doc))
    ∷ []

abbrev pub edge_read : Text → Payload → Text → Text → Text → StoredEdge
edge_read id pl subject predicate object = record {
  id = id;
  edge = record {
    subject = subject;
    predicate = predicate;
    object = object;
    valid_from = unwrap_or (as_i64 (lookup (codes "valid_from") pl)) (pos 0);
    valid_to = as_i64 (lookup (codes "valid_to") pl);
    singular = unwrap_or (as_bool (lookup (codes "singular") pl)) true;
  };
  captured_at = unwrap_or (as_i64 (lookup (codes "captured_at") pl)) (pos 0);
  is_latest = unwrap_or (as_bool (lookup (codes "is_latest") pl)) true;
}

abbrev pub read_edge_with :
    Text → Payload → Option Text → Option Text → Option Text → Option StoredEdge
read_edge_with id pl (some s) (some p) (some o) = some (edge_read id pl s p o)
read_edge_with id pl _ _ _ = none

-- The ids of the points here are texts.
unfoldable pub stored_edge_from_payload : {V : Type 0} → Point V → Option StoredEdge
unfolding lookup
stored_edge_from_payload p =
    let pl = p.payload in
    read_edge_with p.id pl (as_str (lookup (codes "subject") pl))
      (as_str (lookup (codes "predicate") pl)) (as_str (lookup (codes "object") pl))

-- `filter_map(stored_edge_from_payload)`.
unfoldable pub stored_edges : {V : Type 0} → List (Point V) → List StoredEdge
unfolding stored_edge_from_payload
stored_edges [] = []
stored_edges (p ∷ points) = elim (stored_edge_from_payload p) [
  | none ↦ stored_edges points
  | some e ↦ e ∷ stored_edges points
]

abbrev pub latest_filter : Text → Filter
latest_filter tag =
    tagged_filter
      (some (record empty_filter { must_not = match_value (codes "is_latest") (bool false) ∷ [] }))
      tag

module _ {V : Type 0} where
  abbrev pub latest_points : Text → Collections V → List (Point V)
  latest_points tag c = scroll_all (some (latest_filter tag)) 2000 c.graph_points

  abbrev pub all_points : Text → Collections V → List (Point V)
  all_points tag c = scroll_all (some (tagged_filter none tag)) 4000 c.graph_points

  abbrev pub add_edges : List (Point V) → Collections V → Collections V
  add_edges points c = record c { graph_points = upsert points c.graph_points }

  abbrev pub demote_edges : List Text → Collections V → Collections V
  demote_edges ids c = record c { graph_points = set_payload ids not_latest c.graph_points }

module _ {F V : Type 0} (env : Env) where
  -- `unwrap_or_default` of the scroll.
  unfoldable pub latest_edges : Text → Exec F V (List StoredEdge)
  unfolding stored_edges scroll_all tagged_filter
  latest_edges tag = do
    r ← attempt (store_read env (latest_points tag))
    pure (stored_edges (or_default r []))

-- `points` and `superseded`.
pub record EdgePlan (V : Type 0) : Type 0 where
  pub points : List (Point V)
  pub superseded : List Text

abbrev pub no_edges : {V : Type 0} → EdgePlan V
no_edges = record { points = []; superseded = [] }

-- `sort` and `dedup`.
abbrev pub text_le : Text → Text → Bool
text_le a b = not (lt_text b a)

unfoldable pub dedup : List Text → List Text
dedup [] = []
dedup (a ∷ []) = a ∷ []
dedup (a ∷ b ∷ xs) = let rest = dedup (b ∷ xs) in if same a b then rest else a ∷ rest

module _ {V S : Type 0} (s : EdgeServices V S) (doc : IngestDoc) (doc_id : Text) where
  abbrev pub edge_point : Text → V → Edge → Bool → Point V
  edge_point id vec edge is_latest = record {
    id = id;
    vector = vec;
    payload = edge_payload doc doc_id edge is_latest (edge_statement s.date_str edge);
  }

  abbrev pub take_edge : Groups → Edge → V → EdgePlan V → Text → EdgePlan V
  take_edge by_group edge vec plan id =
      let (sup, is_latest) = supersession edge (members_of (group_key edge) by_group) in
      record {
        points = plan.points ++ edge_point id vec edge is_latest ∷ [];
        superseded = plan.superseded ++ sup;
      }

module _ {F V : Type 0} (env : Env) where
  -- The flags of the superseded edges; a failure is not fatal.
  abbrev pub flag_superseded : List Text → Exec F V (Unit {0})
  flag_superseded superseded = if is_empty superseded then pure tt else (do
    attempt (store_write env (demote_edges (dedup (sort_by text_le superseded))))
    pure tt)

  abbrev pub write_edges : EdgePlan V → Exec F V (Unit {0})
  write_edges plan = do store_write env (add_edges plan.points); flag_superseded plan.superseded

module _ {F V S : Type 0} (env : Env) (s : EdgeServices V S) (doc : IngestDoc) (doc_id : Text) where
  -- The loop over the edges and their vectors.
  unfoldable pub build_edges : Groups → List Edge → List V → EdgePlan V → Exec F V (EdgePlan V)
  unfolding supersession members_of
  build_edges by_group (edge ∷ edges) (vec ∷ vecs) plan = do
    id ← new_uuid env
    build_edges by_group edges vecs (take_edge s doc doc_id by_group edge vec plan id)
  build_edges by_group _ _ plan = pure plan

  -- `by_group`: its loop is the one that groups the edges of resolve, into a HashMap that is only read
  -- by key.
  abbrev pub index_latest : List Edge → List V → List StoredEdge → Exec F V (Unit {0})
  index_latest edges vecs latest = do
    plan ← build_edges (group_edges [] latest) edges vecs no_edges
    write_edges env plan

  abbrev pub index_vectors : List Edge → List V → Exec F V (Unit {0})
  index_vectors edges vecs = do
    latest ← latest_edges env (tag_of doc)
    index_latest edges vecs latest

  unfoldable pub index_edges : List Edge → Exec F V (Unit {0})
  unfolding build_edges latest_edges group_edges dedup sort_by
  index_edges edges = if is_empty edges then pure tt else (do
    vecs ← pass (s.embed (map (edge_statement s.date_str) edges))
    index_vectors edges vecs)

-- The key of a hit, of those that have one.
abbrev pub keys_with : Option Text → Option Text → List GroupKey → List GroupKey
keys_with (some subject) (some predicate) rest = (subject, predicate) ∷ rest
keys_with _ _ rest = rest

abbrev pub in_groups : List GroupKey → StoredEdge → Bool
in_groups keys se = any (same_group_key (group_key se.edge)) keys

module _ {S : Type 0} where
  unfoldable pub relevant : List (Hit S) → List GroupKey
  unfolding lookup
  relevant [] = []
  relevant (h ∷ hits) =
      keys_with (as_str (lookup (codes "subject") h.payload))
        (as_str (lookup (codes "predicate") h.payload)) (relevant hits)

module _ (date : ℤ → Text) where
  abbrev pub render_edges : ℤ → List StoredEdge → Text
  render_edges as_of edges = if is_empty edges then [] else render_block date (resolve edges as_of)

module _ {F V S : Type 0} (env : Env) (engine : Engine) (s : EdgeServices V S) where
  abbrev pub resolve_hits : Text → ℤ → List (Hit S) → Exec F V Text
  resolve_hits tag as_of hits = if is_empty hits then pure [] else (do
    r ← attempt (store_read env (all_points tag))
    pure (
        render_edges s.date as_of
          (filter (in_groups (relevant hits)) (stored_edges (or_default r [])))))

  abbrev pub resolve_near : Text → ℤ → ℕ → Result (List V) → Exec F V Text
  resolve_near tag as_of limit (ok (qvec ∷ rest)) = do
    hits ←
        attempt (store_read env (λ c. s.search qvec limit (tagged_filter none tag) c.graph_points))
    resolve_hits tag as_of (hits_or_none hits)
  resolve_near tag as_of limit _ = pure []

  unfoldable pub resolve_edges_tagged : Text → Text → ℤ → ℕ → Exec F V Text
  unfolding relevant stored_edges resolve render_block same_group_key
  resolve_edges_tagged tag query as_of limit =
      if not engine.temporal_graph
      then pure []
      else resolve_near tag as_of limit (s.embed_query query)
