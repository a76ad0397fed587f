-- ===== src/Examples/Merged.antt =====
-- The storing of a document's edges at concrete inputs.
use ultramem.Prelude.{
  arith, false, pos, ℕ, Text, codes, true, List, [], ◌∷◌, none, some, ◌≡◌, refl, sym, ap, ◌∙◌, inl,
  inr, Memᴰ, contains, same, same_iff, true-false,
}
use mathlib.Core.List.Memᴰ as Mem
use ultramem.Prelude.Result.{ok}
use ultramem.World.{World}
use ultramem.Prelude.Table.{lookup}
use ultramem.Store.Points.{merge, scroll_all}
use ultramem.Engine.Indexing.Writes.{not_latest}
use ultramem.Engine.Edges.Flagged.{index_edges-flags}
use ultramem.Store.Point.{bool, Point}
use ultramem.Graph.{Edge}
use ultramem.Engine.Indexing.Planning.{IngestDoc, tag_of}
use ultramem.Engine.Edges.{
  EdgeServices, edge_point, stored_edge_from_payload, index_edges, stored_edges, latest_points,
}
use ultramem.Engine.Edges.Decoded.{as_stored, stored_edge_from_payload-edge_point}
use ultramem.Engine.Edges.Retained.{IsReplaced, IsSpared, index_edges-Mem}
use ultramem.Examples.{alice, world, calm}

abbrev doc : IngestDoc
doc = record {
  source = codes "web";
  title = codes "Job";
  captured_at = pos 6;
  container_tag = alice;
}

abbrev services : EdgeServices ℕ ℕ
services = record {
  embed = λ texts. ok (1 ∷ []);
  embed_query = λ q. ok (1 ∷ []);
  search = λ vec n f points. [];
  date_str = λ t. [];
  date = λ t. [];
}

abbrev held : Text → Text → Edge
held predicate object = record {
  subject = codes "user";
  predicate = predicate;
  object = object;
  valid_from = pos 5;
  valid_to = none;
  singular = true;
}

abbrev stored : Text → Text → Text → Point ℕ
stored id predicate object = edge_point services doc (codes "d1") id 1 (held predicate object) true

abbrev city : Point ℕ
city = stored (codes "e2") (codes "home_city") (codes "Oslo")

abbrev with_edges : World ℕ ℕ
with_edges = record world {
  collections = record world.collections {
    graph_points = stored (codes "e1") (codes "job_title") (codes "engineer") ∷ city ∷ [];
  };
}

abbrev promoted : List Edge
promoted = held (codes "job_title") (codes "manager") ∷ []

stored_edge_from_payload-edge_point_example :
    stored_edge_from_payload city
    ≡ some (as_stored doc (codes "e2") (held (codes "home_city") (codes "Oslo")) true)
stored_edge_from_payload-edge_point_example =
    stored_edge_from_payload-edge_point services doc (codes "d1") (codes "e2") 1
      (held (codes "home_city") (codes "Oslo")) true

city-IsSpared : IsSpared doc promoted with_edges city.id
unfolding stored_edges ultramem.Store.Points.scroll_all ultramem.Store.Filters.tagged_filter
    ultramem.Store.Point.filter_matches same contains ultramem.Store.Point.cond_matches
city-IsSpared = λ r.
    let (new, ex, k, j, b, g, o, e) = r in
    elim (Mem.cases_cons j) [
      | inl q ↦
          absurd (true-false ((same_iff (codes "e2") (codes "e1")).1 (e ∙ ap (λ x. x.id) q)) refl)
      | inr n ↦ absurd (
          true-false
            ((same_iff (codes "job_title") (codes "home_city")).1 (
              sym (ap (λ x. x.predicate) (Mem.eq_of_singleton k))
              ∙ ap (λ x. x.1) g
              ∙ ap (λ x. x.edge.predicate) (Mem.eq_of_singleton n)))
            refl)
    ]

index_edges-Mem_example :
    Memᴰ city
      (index_edges calm services doc (codes "d2") promoted with_edges).1.collections.graph_points
index_edges-Mem_example =
    index_edges-Mem calm services doc (codes "d2") promoted with_edges city
      (Memᴰ.tail (Memᴰ.head refl)) city-IsSpared

abbrev title : Point ℕ
title = stored (codes "e1") (codes "job_title") (codes "engineer")

abbrev flagged : Point ℕ
flagged = record title { payload = merge title.payload not_latest }

job_IsReplaced :
    IsReplaced promoted
      (stored_edges (latest_points (tag_of doc) with_edges.collections))
      flagged.id
unfolding stored_edges scroll_all ultramem.Store.Filters.tagged_filter
    ultramem.Store.Point.filter_matches same contains ultramem.Store.Point.cond_matches
    ultramem.Graph.eq_ignore_ascii_case
job_IsReplaced = (
  held (codes "job_title") (codes "manager"),
  as_stored doc (codes "e1") (held (codes "job_title") (codes "engineer")) true,
  Memᴰ.head refl,
  Memᴰ.head refl,
  refl,
  refl,
  (refl, refl, ground arith),
  refl,
)

flagged_there :
    Memᴰ flagged
      (index_edges calm services doc (codes "d2") promoted with_edges).1.collections.graph_points
unfolding index_edges ultramem.World.new_uuid ultramem.Engine.store_write ultramem.World.outside
    ultramem.Engine.store_read ultramem.Store.Point.filter_matches ultramem.Store.Point.cond_matches
    ultramem.Store.Points.set_payload ultramem.Store.Points.upsert contains
    ultramem.Prelude.insert_sorted
flagged_there = Memᴰ.head refl

index_edges-flags_example : lookup (codes "is_latest") flagged.payload ≡ some (bool false)
index_edges-flags_example =
    index_edges-flags calm services doc (codes "d2") promoted (1 ∷ []) with_edges flagged
      (λ n. refl) refl refl flagged_there job_IsReplaced
