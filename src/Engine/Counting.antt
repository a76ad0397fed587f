-- ===== src/Engine/Counting.antt =====
-- crates/ultramem-core/src/engine/mod.rs: count_event_instances_tagged, the dated instances of the
-- event that fits a question best.
pub mod Once
use ultramem.Prelude.{
  ℕ, ℤ, Text, codes, contains, to_lower, Unicode, Bool, false, not, ◌&&◌, List, [], ◌∷◌, is_empty,
  Option, none, some, if◌then◌else◌,
}
use ultramem.Prelude.Result.{Result, ok, or_default}
use ultramem.Prelude.Table.{lookup}
use ultramem.World.{Env, Exec, pure, attempt, ◌>>=◌}
use ultramem.Store.Point.{Payload, as_str, as_bool}
use ultramem.Store.Filters.{tagged_filter}
use ultramem.Graph.{StoredEdge}
use ultramem.Graph.Resolve.{GroupKey, group_key, same_group_key}
use ultramem.Engine.{Engine, store_read}
use ultramem.Engine.Indexing.{Hit, hits_or_none}
use ultramem.Engine.Edges.{EdgeServices, all_points, stored_edges}

-- The key of a hit whose edge is an event.
abbrev pub event_key : Option Bool → Option Text → Option Text → Option GroupKey
event_key (some false) (some subject) (some predicate) = some (subject, predicate)
event_key _ _ _ = none

abbrev pub event_of : Payload → Option GroupKey
event_of p =
    event_key (as_bool (lookup (codes "singular") p)) (as_str (lookup (codes "subject") p))
      (as_str (lookup (codes "predicate") p))

-- `find_map`
unfoldable pub best_event : {S : Type 0} → List (Hit S) → Option GroupKey
unfolding lookup
best_event [] = none
best_event (h ∷ hits) = elim (event_of h.payload) [ none ↦ best_event hits | some key ↦ some key ]

module _ (u : Unicode) where
  -- The loop over the edges, with `seen`.
  unfoldable pub event_instances : GroupKey → List Text → List StoredEdge → List (Text × ℤ)
  unfolding same_group_key contains
  event_instances key seen [] = []
  event_instances key seen (se ∷ edges) =
      let object = to_lower u se.edge.object in
      if same_group_key (group_key se.edge) key && not (contains seen object)
      then (se.edge.object, se.edge.valid_from) ∷ event_instances key (object ∷ seen) edges
      else event_instances key seen edges

module _ {F V S : Type 0} (env : Env) (engine : Engine) (u : Unicode) (s : EdgeServices V S) where
  abbrev pub instances_of : Text → Option GroupKey → Exec F V (List (Text × ℤ))
  instances_of tag none = pure []
  instances_of tag (some key) = do
    r ← attempt (store_read env (all_points tag))
    pure (event_instances u key [] (stored_edges (or_default r [])))

  -- The threshold of this search is another one than that of resolve_edges_tagged.
  abbrev pub count_near : Text → ℕ → Result (List V) → Exec F V (List (Text × ℤ))
  count_near tag limit (ok (qvec ∷ rest)) = do
    hits ←
        attempt (store_read env (λ c. s.search qvec limit (tagged_filter none tag) c.graph_points))
    instances_of tag (best_event (hits_or_none hits))
  count_near tag limit _ = pure []

  unfoldable pub count_event_instances_tagged : Text → Text → ℕ → Exec F V (List (Text × ℤ))
  unfolding best_event event_instances stored_edges tagged_filter
  count_event_instances_tagged tag query limit =
      if not engine.temporal_graph then pure [] else count_near tag limit (s.embed_query query)
