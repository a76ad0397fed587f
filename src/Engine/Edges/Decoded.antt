-- ===== src/Engine/Edges/Decoded.antt =====
-- crates/ultramem-core/src/engine/mod.rs: the point of an edge is read back as that edge.
use ultramem.Prelude.{ℤ, same, Text, Bool, Option, none, some, ◌≡◌, refl}
use ultramem.Graph.{Edge, StoredEdge}
use ultramem.Engine.Promotion.{as_i64-json_time}
use ultramem.Engine.Indexing.Planning.{IngestDoc}
use ultramem.Engine.Edges.{EdgeServices, edge_point, stored_edge_from_payload}

abbrev pub as_stored : IngestDoc → Text → Edge → Bool → StoredEdge
as_stored doc id edge is_latest = record {
  id = id;
  edge = edge;
  captured_at = doc.captured_at;
  is_latest = is_latest;
}

module _ {V S : Type 0} (s : EdgeServices V S) (doc : IngestDoc) (doc_id : Text) where
  -- The point that index_edges writes for an edge is read back by stored_edge_from_payload as that
  -- edge, with its flag and the time of the document.
  pub stored_edge_from_payload-edge_point :
      (id : Text) (vec : V) (edge : Edge) (is_latest : Bool)
      → stored_edge_from_payload (edge_point s doc doc_id id vec edge is_latest)
        ≡ some (as_stored doc id edge is_latest)
  unfolding stored_edge_from_payload ultramem.Prelude.Table.lookup same
  stored_edge_from_payload-edge_point id vec edge is_latest =
      rw (as_i64-json_time edge.valid_to) refl
