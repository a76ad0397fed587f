-- ===== src/Graph/Parse.antt =====
-- crates/ultramem-core/src/engine/graph.rs: parse_edges, the answer of the model turned into edges.
use ultramem.Prelude.{
  ℕ, ℤ, pos, suc, ◌-◌, leb, Text, codes, trim, Unicode, Bool, true, not, ◌||◌, List, [], ◌∷◌, take,
  drop, is_empty, Option, none, some, unwrap_or, if◌then◌else◌,
}
use ultramem.Store.Point.{Value, bool, str}
use ultramem.Memory.{find_char, rfind_char}
use ultramem.Graph.{Edge, normalize_key, eq_ignore_ascii_case}

-- One object of the array: `as_str` of its members, and the value of `singular`.
pub record EdgeRow : Type 0 where
  pub subject : Option Text
  pub predicate : Option Text
  pub object : Option Text
  pub date : Option Text
  pub singular : Option Value

abbrev pub is_singular : Option Value → Bool
is_singular (some (bool b)) = b
is_singular (some (str s)) = not (eq_ignore_ascii_case s (codes "false"))
is_singular _ = true

-- `a.or(b)`.
abbrev pub or_else : Option ℤ → Option ℤ → Option ℤ
or_else none b = b
or_else (some a) b = some a

-- `from_str` is the JSON parser and `ymd_to_unix` the parser of a date, of chrono.
module _ (u : Unicode) (from_str : Text → Option (List EdgeRow))
    (ymd_to_unix : Text → Option ℤ) where
  abbrev date_of : Option Text → Option ℤ
  date_of none = none
  date_of (some d) = ymd_to_unix d

  -- One turn of the loop, without its `continue`.
  unfoldable pub edge_of : Option ℤ → EdgeRow → Edge
  unfolding normalize_key eq_ignore_ascii_case
  edge_of fallback v =
      let subject = normalize_key u (unwrap_or v.subject (codes "user")) in
      record {
        subject = if is_empty subject then codes "user" else subject;
        predicate = normalize_key u (unwrap_or v.predicate []);
        object = trim u (unwrap_or v.object []);
        valid_from = unwrap_or (or_else (date_of v.date) fallback) (pos 0);
        valid_to = none;
        singular = is_singular v.singular;
      }

  unfoldable pub edges_of : Option ℤ → List EdgeRow → List Edge
  unfolding edge_of
  edges_of fallback [] = []
  edges_of fallback (v ∷ rows) =
      let rest = edges_of fallback rows in
      let e = edge_of fallback v in
      if is_empty e.predicate || is_empty e.object then rest else e ∷ rest

  abbrev pub rows_edges : Option ℤ → Option (List EdgeRow) → List Edge
  rows_edges fallback none = []
  rows_edges fallback (some arr) = edges_of fallback arr

  abbrev pub between : Text → Text → Option ℕ → Option ℕ → List Edge
  between raw doc_date (some start) (some end) =
      if leb end start
      then []
      else rows_edges (ymd_to_unix doc_date) (from_str (take (suc end - start) (drop start raw)))
  between raw doc_date _ _ = []

  unfoldable pub parse_edges : Text → Text → List Edge
  unfolding edges_of find_char rfind_char
  parse_edges raw doc_date = between raw doc_date (find_char b'[' raw) (rfind_char b']' raw)
