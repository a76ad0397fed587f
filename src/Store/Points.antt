-- ===== src/Store/Points.antt =====
-- crates/ultramem-core/src/providers/mock.rs: the in-memory vector store's operations on the points
-- of one collection. A vector is kept as it is; `upsert` appends, also where an id is taken.
use ultramem.Prelude.{
  ℕ, Text, codes, contains, same_option, Bool, not, List, [], ◌∷◌, ◌++◌, map, filter, take, Option,
  none, some, if◌then◌else◌,
}
use ultramem.Prelude.Table.{lookup, insert}
use ultramem.Store.Point.{Payload, Point, Filter, as_str, filter_matches}

-- `dst.insert(k, v)` for the entries of the other object.
unfoldable pub merge : Payload → Payload → Payload
merge dst [] = dst
merge dst ((k, v) ∷ src) = merge (insert k v dst) src

module _ {V : Type 0} where
  unfoldable pub upsert : List (Point V) → List (Point V) → List (Point V)
  upsert points pts = pts ++ points

  unfoldable pub set_payload : List Text → Payload → List (Point V) → List (Point V)
  unfolding merge
  set_payload point_ids payload pts =
      map
        (λ p. if contains point_ids p.id then record p { payload = merge p.payload payload } else p)
        pts

  unfoldable pub set_payload_by_filter : Filter → Payload → List (Point V) → List (Point V)
  unfolding merge
  set_payload_by_filter f payload pts =
      map
        (λ p.
          if filter_matches p.payload f then record p { payload = merge p.payload payload } else p)
        pts

  abbrev pub filter_admits : Option Filter → Point V → Bool
  filter_admits none p = Bool.true
  filter_admits (some f) p = filter_matches p.payload f

  unfoldable pub scroll_all : Option Filter → ℕ → List (Point V) → List (Point V)
  scroll_all f cap pts = take cap (filter (filter_admits f) pts)

  unfoldable pub delete_by_filter : Filter → List (Point V) → List (Point V)
  delete_by_filter f pts = filter (λ p. not (filter_matches p.payload f)) pts

  unfoldable pub delete_by_doc : Text → List (Point V) → List (Point V)
  delete_by_doc doc_id pts =
      filter (λ p. not (same_option (as_str (lookup (codes "doc_id") p.payload)) (some doc_id))) pts

  unfoldable pub delete_by_ids : List Text → List (Point V) → List (Point V)
  delete_by_ids ids pts = filter (λ p. not (contains ids p.id)) pts
