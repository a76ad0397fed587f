-- ===== src/Examples/Edges.antt =====
-- The knowledge graph at concrete inputs.
use ultramem.Prelude.{
  join, ℕ, ℤ, pos, ◌≤◌, Text, codes, ascii, Bool, true, false, List, [], ◌∷◌, length, Option, none,
  some, ◌≡◌, ◌↔◌, refl, arith, All, Memᴰ,
}
use ultramem.Store.Point.{bool}
use ultramem.Graph.{Edge, StoredEdge, Resolved, supersession, normalize_key}
use ultramem.Graph.Superseding.{IsOutdated, supersession-IsOutdated}
use ultramem.Graph.Parse.{EdgeRow, parse_edges}
use ultramem.Graph.Words.{words, normalize_key_normal}
use ultramem.Graph.Tidy.{IsTidy, parse_edges-IsTidy}
use ultramem.Graph.Resolve.{resolve, group_key}
use ultramem.Graph.Groups.{edges_with}
use ultramem.Graph.Current.{IsValueAt, resolve-IsValueAt, resolve-covers}

abbrev title : Text → ℤ → Edge
title object valid_from = record {
  subject = codes "user";
  predicate = codes "job_title";
  object = object;
  valid_from = valid_from;
  valid_to = none;
  singular = true;
}

abbrev stored : Text → Edge → StoredEdge
stored id edge = record { id = id; edge = edge; captured_at = pos 1; is_latest = true }

abbrev engineer : StoredEdge
engineer = stored (codes "e1") (title (codes "engineer") (pos 1))

abbrev manager : StoredEdge
manager = stored (codes "e2") (title (codes "manager") (pos 5))

supersession-IsOutdated_example :
    ((id : Text)
      → Memᴰ id (supersession manager.edge (engineer ∷ [])).0
        ↔ ((ex : StoredEdge) × Memᴰ ex (engineer ∷ []) × IsOutdated manager.edge ex × (id ≡ ex.id)))
    × (((supersession manager.edge (engineer ∷ [])).1 ≡ true) ↔ (
        (ex : StoredEdge)
        → Memᴰ ex (engineer ∷ [])
        → ex.is_latest ≡ true
        → IsOutdated manager.edge ex))
supersession-IsOutdated_example = supersession-IsOutdated manager.edge (engineer ∷ []) refl

normalize_key_normal_example :
    (normalize_key ascii (codes " Job  Title! ") ≡ join (codes "_") (words (codes " Job  Title! ")))
    × (normalize_key ascii (normalize_key ascii (codes " Job  Title! "))
        ≡ normalize_key ascii (codes " Job  Title! "))
normalize_key_normal_example = normalize_key_normal ascii (codes " Job  Title! ")

job_title : words (codes " Job  Title! ") ≡ codes "job" ∷ codes "title" ∷ []
unfolding ultramem.Graph.Words.words_after ultramem.Prelude.is_ascii_alphanumeric
    ultramem.Prelude.ascii_lowercase
job_title = refl

abbrev row : EdgeRow
row = record {
  subject = none;
  predicate = some (codes "Job Title");
  object = some (codes " engineer ");
  date = some (codes "2026-01-02");
  singular = some (bool true);
}

parse_edges-IsTidy_example :
    All
      (IsTidy ascii)
      (parse_edges ascii (λ s. some (row ∷ [])) (λ s. some (pos 5)) (codes "ok: [{}]") [])
parse_edges-IsTidy_example =
    parse_edges-IsTidy ascii (λ s. some (row ∷ [])) (λ s. some (pos 5)) (codes "ok: [{}]") []

abbrev history : List StoredEdge
history = manager ∷ engineer ∷ []

abbrev at_four : Resolved
at_four = record {
  subject = codes "user";
  predicate = codes "job_title";
  timeline = (codes "engineer", pos 1) ∷ (codes "manager", pos 5) ∷ [];
  current = codes "engineer";
  current_from = pos 1;
  singular = true;
}

resolved_there : Memᴰ at_four (resolve history (pos 4))
unfolding resolve ultramem.Prelude.insert_sorted
resolved_there = Memᴰ.head refl

resolve-IsValueAt_example :
    (e : StoredEdge) × (e.edge.object ≡ codes "engineer")
    × (e.edge.valid_from ≡ pos 1)
    × IsValueAt (pos 4) (edges_with (codes "user", codes "job_title") history) e
resolve-IsValueAt_example = resolve-IsValueAt (pos 4) history at_four resolved_there

resolve-covers_example :
    (r : Resolved) × Memᴰ r (resolve history (pos 4))
    × ((r.subject, r.predicate) ≡ group_key manager.edge)
resolve-covers_example = resolve-covers (pos 4) history manager (Memᴰ.head refl)
