-- ===== src/Graph.antt =====
-- crates/ultramem-core/src/engine/graph.rs: the edges of the knowledge graph, dated by when they
-- were true, the keys they are grouped by, and which of them a new one supersedes.
pub mod Superseding
pub mod Parse
pub mod Normal
pub mod Words
pub mod Tidy
pub mod Resolve
pub mod Order
pub mod Groups
pub mod Current
pub mod Render
use ultramem.Prelude.{
  ℕ, ℤ, leb_ℤ, ◌==◌, Text, same, is_ascii_alphanumeric, ascii_lowercase, trim, trim_matches,
  Unicode, Bool, true, false, not, ◌&&◌, List, [], ◌∷◌, ◌++◌, map, Option, if◌then◌else◌,
}

pub record Edge : Type 0 where
  pub subject : Text
  pub predicate : Text
  pub object : Text
  pub valid_from : ℤ
  pub valid_to : Option ℤ
  pub singular : Bool

pub record StoredEdge : Type 0 where
  pub id : Text
  pub edge : Edge
  pub captured_at : ℤ
  pub is_latest : Bool

pub record Resolved : Type 0 where
  pub subject : Text
  pub predicate : Text
  pub timeline : List (Text × ℤ)
  pub current : Text
  pub current_from : ℤ
  pub singular : Bool

-- The loop of `normalize_key`, with `out` and `prev_us` its variables; of an ASCII letter
-- `to_lowercase` is the one letter.
unfoldable pub key_chars : Text → Bool → Text → Text
unfolding is_ascii_alphanumeric ascii_lowercase
key_chars out prev_us [] = out
key_chars out prev_us (c ∷ s) =
    if is_ascii_alphanumeric c
    then key_chars (out ++ ascii_lowercase c ∷ []) false s
    else if not prev_us
    then key_chars (out ++ b'_' ∷ []) true s
    else key_chars out prev_us s

unfoldable pub normalize_key : Unicode → Text → Text
unfolding key_chars trim_matches
normalize_key u s = trim_matches (λ c. c == b'_') (key_chars [] false (trim u s))

unfoldable pub eq_ignore_ascii_case : Text → Text → Bool
unfolding same ascii_lowercase
eq_ignore_ascii_case a b = same (map ascii_lowercase a) (map ascii_lowercase b)

-- The existing edges that are superseded so far, and whether the new one is the latest so far.
abbrev pub Weighing : Type 0
Weighing = List Text × Bool

-- One turn of the loop of `supersession`.
unfoldable pub weigh : Edge → StoredEdge → Weighing → Weighing
unfolding eq_ignore_ascii_case
weigh new ex (superseded, new_is_latest) =
    if not ex.is_latest
    then (superseded, new_is_latest)
    else if eq_ignore_ascii_case ex.edge.object new.object
    then (superseded, false)
    else if leb_ℤ ex.edge.valid_from new.valid_from
    then (superseded ++ ex.id ∷ [], new_is_latest)
    else (superseded, false)

unfoldable pub weigh_all : Edge → List StoredEdge → Weighing → Weighing
unfolding weigh
weigh_all new [] weighing = weighing
weigh_all new (ex ∷ existing) weighing = weigh_all new existing (weigh new ex weighing)

unfoldable pub supersession : Edge → List StoredEdge → Weighing
unfolding weigh_all
supersession new existing_same_group =
    if not new.singular then ([], true) else weigh_all new existing_same_group ([], true)
