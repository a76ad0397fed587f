-- ===== src/Graph/Tidy.antt =====
-- crates/ultramem-core/src/engine/graph.rs: what every edge of parse_edges has.
use ultramem.Prelude.{
  ℕ, ℤ, Text, codes, trim, trim_idem, Unicode, Bool, true, false, ◌||◌, List, [], ◌∷◌, is_empty,
  leb, Option, none, some, ◌≡◌, refl, inl, inr, Bool-cases, Option-cases, if◌then◌else◌, All,
  unwrap_or, arith,
}
use ultramem.Memory.{find_char, rfind_char}
use ultramem.Graph.{Edge, normalize_key}
use ultramem.Graph.Parse.{EdgeRow, edge_of, edges_of, rows_edges, between, parse_edges}
use ultramem.Graph.Normal.{is_joined, is_key_char, normalize_key-is_joined}

-- Neither the subject nor the predicate nor the object is empty, the first two are normal keys, the
-- object is trimmed, and the edge is open.
pub record IsTidy (u : Unicode) (e : Edge) : Type 0 where
  pub subject_is_key : is_joined false e.subject ≡ true
  pub subject_given : is_empty e.subject ≡ false
  pub predicate_is_key : is_joined false e.predicate ≡ true
  pub predicate_given : is_empty e.predicate ≡ false
  pub object_is_trimmed : trim u e.object ≡ e.object
  pub object_given : is_empty e.object ≡ false
  pub is_open : e.valid_to ≡ none

user_is_key : is_joined false (codes "user") ≡ true
unfolding is_joined is_key_char ultramem.Prelude.is_ascii_digit
user_is_key = refl

module _ (u : Unicode) (from_str : Text → Option (List EdgeRow))
    (ymd_to_unix : Text → Option ℤ) where
  or_user :
      (s : Text)
      → is_joined false s ≡ true
      → (is_joined false (if is_empty s then codes "user" else s) ≡ true)
        × (is_empty (if is_empty s then codes "user" else s) ≡ false)
  or_user [] h = (user_is_key, refl)
  or_user (c ∷ s) h = (h, refl)

  edge_of-IsTidy :
      (fallback : Option ℤ) (v : EdgeRow)
      → is_empty (edge_of u from_str ymd_to_unix fallback v).predicate
          || is_empty (edge_of u from_str ymd_to_unix fallback v).object
        ≡ false
      → IsTidy u (edge_of u from_str ymd_to_unix fallback v)
  unfolding edge_of
  edge_of-IsTidy fallback v h =
      let (k, g) =
        or_user (normalize_key u (unwrap_or v.subject (codes "user")))
          (normalize_key-is_joined u (unwrap_or v.subject (codes "user"))) in
      record {
        subject_is_key = k;
        subject_given = g;
        predicate_is_key = normalize_key-is_joined u (unwrap_or v.predicate []);
        predicate_given = ground arith;
        object_is_trimmed = trim_idem u.is_whitespace (unwrap_or v.object []);
        object_given = ground arith;
        is_open = refl;
      }

  edges_of-IsTidy :
      (fallback : Option ℤ) (rows : List EdgeRow)
      → All (IsTidy u) (edges_of u from_str ymd_to_unix fallback rows)
  unfolding edges_of
  edges_of-IsTidy fallback [] = tt
  edges_of-IsTidy fallback (v ∷ rows) =
      let e = edge_of u from_str ymd_to_unix fallback v in
      elim (Bool-cases (is_empty e.predicate || is_empty e.object)) [
        | inl h ↦ rw h (edges_of-IsTidy fallback rows)
        | inr h ↦ rw h (edge_of-IsTidy fallback v h, edges_of-IsTidy fallback rows)
      ]

  rows_edges-IsTidy :
      (fallback : Option ℤ) (rows : Option (List EdgeRow))
      → All (IsTidy u) (rows_edges u from_str ymd_to_unix fallback rows)
  rows_edges-IsTidy fallback none = tt
  rows_edges-IsTidy fallback (some rows) = edges_of-IsTidy fallback rows

  between-IsTidy :
      (raw doc_date : Text) (start end : Option ℕ)
      → All (IsTidy u) (between u from_str ymd_to_unix raw doc_date start end)
  between-IsTidy raw doc_date none end = tt
  between-IsTidy raw doc_date (some start) none = tt
  between-IsTidy raw doc_date (some start) (some end) = elim (Bool-cases (leb end start)) [
    | inl g ↦ rw g tt
    | inr g ↦ rw g (rows_edges-IsTidy (ymd_to_unix doc_date) _)
  ]

  -- Whatever the model answers, every edge that parse_edges makes of it is well formed.
  pub parse_edges-IsTidy :
      (raw doc_date : Text) → All (IsTidy u) (parse_edges u from_str ymd_to_unix raw doc_date)
  unfolding parse_edges
  parse_edges-IsTidy raw doc_date =
      between-IsTidy raw doc_date (find_char b'[' raw) (rfind_char b']' raw)
