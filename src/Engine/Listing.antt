-- ===== src/Engine/Listing.antt =====
-- crates/ultramem-core/src/engine/mod.rs: the registry of documents.
pub mod Once
use ultramem.Prelude.{
  ℕ, ℤ, pos, leb_ℤ, ltb_ℤ, Text, codes, same, contains, Bool, true, false, List, [], ◌∷◌, map,
  filter, take, sort_by, Option, none, some, unwrap_or, if◌then◌else◌,
}
use ultramem.Prelude.Table.{lookup, insert}
use ultramem.Prelude.Result.{Result, ok, or_default}
use ultramem.World.{World, Profile, Env, Exec, pure, read_clock, ◌>>=◌, ◌>>◌}
use ultramem.Store.Point.{Point, Payload, as_str, as_i64}
use ultramem.Store.Points.{scroll_all}
use ultramem.Store.Filters.{tagged_filter}
use ultramem.Db.Rows.{DocumentRow}
use ultramem.Db.Documents.{list_documents}
use ultramem.Engine.{Engine, store_read}

pub record Listed : Type 0 where
  pub doc_id : Text
  pub title : Text
  pub source : Text
  pub reference : Text
  pub captured_at : ℤ

abbrev pub of_row : DocumentRow → Listed
of_row d = record {
  doc_id = d.id;
  title = d.title;
  source = d.source;
  reference = d.reference;
  captured_at = d.captured_at;
}

abbrev text_at : Text → Payload → Text
text_at key payload = unwrap_or (as_str (lookup key payload)) []

abbrev time_of : Payload → ℤ
time_of payload = unwrap_or (as_i64 (lookup (codes "captured_at") payload)) (pos 0)

abbrev too_late : Option ℤ → ℤ → Bool
too_late none t = false
too_late (some b) t = leb_ℤ b t

abbrev of_payload : Text → Payload → Listed
of_payload doc_id payload = record {
  doc_id = doc_id;
  title = text_at (codes "title") payload;
  source = text_at (codes "source") payload;
  reference = text_at (codes "reference") payload;
  captured_at = time_of payload;
}

-- The loop over the points, with the documents seen so far.
unfoldable pub registry : {V : Type 0} → Option ℤ → List Text → List (Point V) → List Listed
registry before seen [] = []
registry before seen (p ∷ points) = elim (as_str (lookup (codes "doc_id") p.payload)) [
  | none ↦ registry before seen points
  | some doc_id ↦
      if contains seen doc_id
      then registry before seen points
      else if too_late before (time_of p.payload)
      then registry before (doc_id ∷ seen) points
      else of_payload doc_id p.payload ∷ registry before (doc_id ∷ seen) points
]

abbrev newest : Listed → Listed → Bool
newest a b = leb_ℤ b.captured_at a.captured_at

module _ {F V : Type 0} (env : Env) (engine : Engine) where
  unfoldable pub list_document_ids : Text → Option ℤ → ℕ → Exec F V (List Listed)
  unfolding registry sort_by
  list_document_ids tag before limit =
      if engine.db
      then (do docs ← list_documents env tag before (pos limit); pure (map of_row docs))
      else (do
        points ←
            store_read env (λ c. scroll_all (some (tagged_filter none tag)) 50000 c.chunk_points)
        pure (take limit (sort_by newest (registry before [] points))))
