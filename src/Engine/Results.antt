-- ===== src/Engine/Results.antt =====
-- crates/ultramem-core/src/engine/mod.rs: group_chunk_hits, the results of a retrieval by document.
pub mod Distinct
use ultramem.Prelude.{
  ℕ, Text, codes, same, contains, Bool, false, not, ◌&&◌, List, [], ◌∷◌, ◌++◌, is_empty, take,
  Option, none, some, is_some, unwrap_or, if◌then◌else◌,
}
use ultramem.Prelude.Table.{lookup, insert}
use ultramem.Store.Point.{Value, null, Payload, as_str}
use ultramem.Engine.Indexing.{Hit}

pub record SearchChunk (S : Type 0) : Type 0 where
  pub content : Text
  pub score : S

-- The object `metadata` has the four values of a payload; a key that it lacks reads as null.
pub record SearchResult (S : Type 0) : Type 0 where
  pub document_id : Text
  pub title : Option Text
  pub source : Value
  pub reference : Value
  pub app : Value
  pub captured_at : Value
  pub chunks : List (SearchChunk S)

-- The variables of the loop: `map` is `results` here.
pub record Grouping (S : Type 0) : Type 0 where
  pub order : List Text
  pub results : List (Text × SearchResult S)
  pub seen_refs : List Text

abbrev pub ungrouped : {S : Type 0} → Grouping S
ungrouped = record { order = []; results = []; seen_refs = [] }

-- `remove` of a map.
unfoldable pub remove {ℓ} : {A : Type ℓ} → Text → List (Text × A) → List (Text × A)
unfolding same
remove k [] = []
remove k ((j, v) ∷ m) = let rest = remove k m in if same j k then rest else (j, v) ∷ rest

-- `filter(|r| !r.is_empty())`
abbrev pub filled : Option Text → Option Text
filled none = none
filled (some r) = if is_empty r then none else some r

-- The URL stands for a better hit of another document already.
abbrev pub is_repeated : Option Text → Bool → List Text → Bool
is_repeated none known seen = false
is_repeated (some r) known seen = not known && contains seen r

abbrev pub see_ref : Option Text → Bool → List Text → List Text
see_ref none known seen = seen
see_ref (some r) known seen = if known then seen else r ∷ seen

abbrev pub doc_id_of : Payload → Text
doc_id_of payload = unwrap_or (as_str (lookup (codes "doc_id") payload)) []

abbrev pub reference_of : Payload → Option Text
reference_of payload = filled (as_str (lookup (codes "reference") payload))

abbrev pub value_of : Text → Payload → Value
value_of key payload = unwrap_or (lookup key payload) null

module _ {S : Type 0} where
  abbrev pub result_of : Text → Payload → SearchResult S
  result_of doc_id payload = record {
    document_id = doc_id;
    title = as_str (lookup (codes "title") payload);
    source = value_of (codes "source") payload;
    reference = value_of (codes "reference") payload;
    app = value_of (codes "app") payload;
    captured_at = value_of (codes "captured_at") payload;
    chunks = [];
  }

  abbrev pub push_chunk : Hit S → SearchResult S → SearchResult S
  push_chunk hit r = record r {
    chunks =
        r.chunks
        ++ record {
          content = unwrap_or (as_str (lookup (codes "content") hit.payload)) [];
          score = hit.score;
        }
          ∷ [];
  }

  -- `entry(doc_id).or_insert_with(…)`, and the chunk of the hit pushed to its result.
  abbrev pub add_to_result : Text → Hit S → Grouping S → Grouping S
  add_to_result doc_id hit g =
      let known = is_some (lookup doc_id g.results) in
      record {
        order = if known then g.order else g.order ++ doc_id ∷ [];
        results =
            insert doc_id
              (push_chunk hit (unwrap_or (lookup doc_id g.results) (result_of doc_id hit.payload)))
              g.results;
        seen_refs = see_ref (reference_of hit.payload) known g.seen_refs;
      }

  -- One turn of the loop. Every hit has a score.
  unfoldable pub group_hit : Hit S → Grouping S → Grouping S
  unfolding lookup insert contains
  group_hit hit g =
      let doc_id = doc_id_of hit.payload in
      if is_empty doc_id
      then g
      else if is_repeated (reference_of hit.payload) (is_some (lookup doc_id g.results)) g.seen_refs
      then g
      else add_to_result doc_id hit g

  unfoldable pub group_hits : List (Hit S) → Grouping S → Grouping S
  unfolding group_hit
  group_hits [] g = g
  group_hits (hit ∷ hits) g = group_hits hits (group_hit hit g)

  -- `filter_map(|id| map.remove(&id))`
  unfoldable pub take_results : List Text → List (Text × SearchResult S) → List (SearchResult S)
  unfolding lookup remove
  take_results [] results = []
  take_results (id ∷ ids) results = elim (lookup id results) [
    | none ↦ take_results ids results
    | some r ↦ r ∷ take_results ids (remove id results)
  ]

  unfoldable pub group_chunk_hits : List (Hit S) → ℕ → List (SearchResult S)
  unfolding group_hits take_results
  group_chunk_hits hits limit =
      let g = group_hits hits ungrouped in take_results (take limit g.order) g.results
