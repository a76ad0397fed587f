-- ===== src/Engine/Indexing/Planning.antt =====
-- crates/ultramem-core/src/engine/mod.rs: what index_memories is about to write, built from the
-- actions of the reconciliation.
use ultramem.Prelude.{
  ℕ, ℤ, pos, ◌+◌, ltb, Text, codes, find_text, trim, Unicode, Bool, true, false, List, [], ◌∷◌,
  ◌++◌, length, is_empty, Option, none, some, if◌then◌else◌,
}
use ultramem.Prelude.Table.{insert}
use ultramem.Store.Point.{Value, null, bool, int, str, Point}
use ultramem.Store.Filters.{default_tag}
use ultramem.Db.Rows.{MemoryRow, EvidenceRow}
use ultramem.Memory.{Relation, needs_review, Action}
use ultramem.Engine.Promotion.{json_time}

-- `IngestDoc`, without what `index_memories` does not read.
pub record IngestDoc : Type 0 where
  pub source : Text
  pub title : Text
  pub captured_at : ℤ
  pub container_tag : Text

abbrev pub tag_of : IngestDoc → Text
tag_of doc = if is_empty doc.container_tag then default_tag else doc.container_tag

-- `DistilledFact` of crates/ultramem-core/src/engine/distill.rs; `F` is the type of a confidence.
pub record DistilledFact (F : Type 0) : Type 0 where
  pub statement : Text
  pub kind : Text
  pub confidence : F
  pub evidence : Text

-- A quote's chunk, with the positions of its first character and of the one after its last.
abbrev pub Span : Type 0
Span = Text × ℤ × ℤ

abbrev pub span_at : Text → Text → Option ℕ → Option Span → Option Span
span_at id ev none rest = rest
span_at id ev (some start) rest = some (id, pos start, pos (start + length ev))

-- The loop over the chunks.
unfoldable pub find_span : Text → List (Text × Text) → Option Span
unfolding find_text
find_span ev [] = none
find_span ev ((id, text) ∷ chunks) = span_at id ev (find_text ev text) (find_span ev chunks)

unfoldable pub find_evidence_span : Unicode → Text → List (Text × Text) → Option Span
unfolding find_span
find_evidence_span u evidence chunks =
    let ev = trim u evidence in if ltb (length ev) 8 then none else find_span ev chunks

-- `zip` and `collect` into a `HashMap`: the last value of a key stays.
unfoldable pub collect {ℓ} : {A : Type ℓ} → List (Text × A) → List Text → List A → List (Text × A)
unfolding insert
collect m (k ∷ ks) (v ∷ vs) = collect (insert k v m) ks vs
collect m _ _ = m

-- The kind, the confidence and the evidence of a fact.
pub record Meta (F : Type 0) : Type 0 where
  pub kind : Text
  pub confidence : Option F
  pub evidence : Text

abbrev pub meta_of : {F : Type 0} → Option (DistilledFact F) → Meta F
meta_of none = record { kind = codes "unknown"; confidence = none; evidence = [] }
meta_of (some f) = record { kind = f.kind; confidence = some f.confidence; evidence = f.evidence }

abbrev pub flatten_time : Option (Option ℤ) → Option ℤ
flatten_time none = none
flatten_time (some t) = t

-- The variables of the loop over the actions.
pub record Plan (F V : Type 0) : Type 0 where
  pub plain_points : List (Point V)
  pub supersede_points : List (Point V)
  pub superseded : List Text
  pub mem_rows : List (MemoryRow F)
  pub supersede_pairs : List (Text × Text)
  pub evidence_rows : List EvidenceRow

abbrev pub no_plan : {F V : Type 0} → Plan F V
no_plan = record {
  plain_points = [];
  supersede_points = [];
  superseded = [];
  mem_rows = [];
  supersede_pairs = [];
  evidence_rows = [];
}

abbrev pub json_text : Option Text → Value
json_text none = null
json_text (some t) = str t

abbrev pub is_review : Relation → Bool
is_review needs_review = true
is_review _ = false

module _ {F V : Type 0} (doc : IngestDoc) (doc_id : Text) where
  abbrev pub fact_point : Text → V → Action → Meta F → Option ℤ → Point V
  fact_point mem_id vec action meta valid_until = record {
    id = mem_id;
    vector = vec;
    payload =
        (codes "doc_id", str doc_id)
        ∷ (codes "fact", str action.fact)
        ∷ (codes "title", str doc.title)
        ∷ (codes "source", str doc.source)
        ∷ (codes "captured_at", int doc.captured_at)
        ∷ (codes "is_latest", bool true)
        ∷ (codes "needs_review", bool (is_review action.relation))
        ∷ (codes "kind", str meta.kind)
        ∷ (codes "supersedes", json_text action.supersedes)
        ∷ (codes "extends", json_text action.extends)
        ∷ (codes "valid_until", json_time valid_until)
        ∷ (codes "container_tag", str (tag_of doc))
        ∷ [];
  }

module _ {F : Type 0} (doc : IngestDoc) (doc_id : Text) where
  abbrev pub fact_row : Text → ℤ → Action → Meta F → Option ℤ → MemoryRow F
  fact_row mem_id now action meta valid_until = record {
    id = mem_id;
    container_tag = tag_of doc;
    kind = meta.kind;
    statement = action.fact;
    confidence = meta.confidence;
    is_latest = true;
    needs_review = is_review action.relation;
    supersedes = action.supersedes;
    superseded_by = none;
    superseded_at = none;
    extends = action.extends;
    event_from = none;
    valid_until = valid_until;
    learned_at = now;
    document_id = doc_id;
    created_at = now;
  }

module _ (doc_id : Text) where
  abbrev pub evidence_row : Text → Text → Text → Span → EvidenceRow
  evidence_row id mem_id quote (chunk_id, start, end) = record {
    id = id;
    memory_id = mem_id;
    document_id = doc_id;
    chunk_id = some chunk_id;
    char_start = some start;
    char_end = some end;
    quote = quote;
    extractor = codes "distill";
  }

module _ {F V : Type 0} where
  -- The point goes to the plain ones, or, with the old memory, to those that supersede one.
  abbrev pub place : Bool → Text → Option Text → Point V → Plan F V → Plan F V
  place db mem_id none point plan = record plan { plain_points = plan.plain_points ++ point ∷ [] }
  place db mem_id (some old) point plan = record plan {
    superseded = plan.superseded ++ old ∷ [];
    supersede_pairs =
        if db then plan.supersede_pairs ++ (old, mem_id) ∷ [] else plan.supersede_pairs;
    supersede_points = plan.supersede_points ++ point ∷ [];
  }
