-- ===== src/Examples/Found.antt =====
-- The grouping of hits at concrete inputs.
use ultramem.Prelude.{ℕ, ◌≤◌, Text, codes, Distinct, List, [], ◌∷◌, none, length, ◌≡◌, refl}
use ultramem.Store.Point.{str}
use ultramem.Engine.Indexing.{Hit}
use ultramem.Engine.Results.{group_chunk_hits}
use ultramem.Engine.Results.Distinct.{document_ids, group_chunk_hits-Distinct}

abbrev hit_at : Text → Text → ℕ → Hit ℕ
hit_at doc_id reference score = record {
  id = none;
  payload = (codes "doc_id", str doc_id) ∷ (codes "reference", str reference) ∷ [];
  score = score;
}

-- The third hit has the URL of the first, and is of another document.
abbrev found : List (Hit ℕ)
found =
    hit_at (codes "d1") (codes "u1") 9
    ∷ hit_at (codes "d2") [] 8
    ∷ hit_at (codes "d3") (codes "u1") 7
    ∷ hit_at (codes "d1") (codes "u1") 6
    ∷ []

found_documents : document_ids (group_chunk_hits found 5) ≡ codes "d1" ∷ codes "d2" ∷ []
unfolding group_chunk_hits
found_documents = refl

group_chunk_hits-Distinct_example :
    Distinct (document_ids (group_chunk_hits found 1)) × (length (group_chunk_hits found 1) ≤ 1)
group_chunk_hits-Distinct_example = group_chunk_hits-Distinct found 1
