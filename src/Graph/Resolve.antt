-- ===== src/Graph/Resolve.antt =====
-- crates/ultramem-core/src/engine/graph.rs: resolve, the timelines of the stored edges and what
-- holds at a time.
use ultramem.Prelude.{
  ℤ, leb_ℤ, ltb, ◌==◌, Text, same, Bool, true, false, ◌&&◌, ◌||◌, List, [], ◌∷◌, ◌++◌, any, sort_by,
  Option, none, some, if◌then◌else◌,
}
use ultramem.Graph.{Edge, StoredEdge, Resolved, eq_ignore_ascii_case}

-- `a < b` on strings: by their bytes, which for UTF-8 is by their characters.
unfoldable pub lt_text : Text → Text → Bool
lt_text [] [] = false
lt_text [] (d ∷ t) = true
lt_text (c ∷ s) [] = false
lt_text (c ∷ s) (d ∷ t) = ltb c d || ((c == d) && lt_text s t)

abbrev pub GroupKey : Type 0
GroupKey = Text × Text

abbrev pub group_key : Edge → GroupKey
group_key e = (e.subject, e.predicate)

unfoldable pub same_group_key : GroupKey → GroupKey → Bool
unfolding same
same_group_key a b = same a.0 b.0 && same a.1 b.1

unfoldable pub lt_key : GroupKey → GroupKey → Bool
unfolding lt_text same
lt_key a b = lt_text a.0 b.0 || (same a.0 b.0 && lt_text a.1 b.1)

-- The `BTreeMap`, its entries in the order of the keys.
abbrev pub Groups : Type 0
Groups = List (GroupKey × List StoredEdge)

-- `get(key)` of index_edges, and no edge where there is no group.
unfoldable pub members_of : GroupKey → Groups → List StoredEdge
unfolding same_group_key
members_of key [] = []
members_of key ((k, ms) ∷ gs) = if same_group_key key k then ms else members_of key gs

-- `groups.entry(key).or_default().push(e)`.
unfoldable pub push_member : GroupKey → StoredEdge → Groups → Groups
unfolding same_group_key lt_key
push_member key e [] = (key, e ∷ []) ∷ []
push_member key e ((k, members) ∷ groups) =
    let rest = push_member key e groups in
    if same_group_key key k
    then (k, members ++ e ∷ []) ∷ groups
    else if lt_key key k
    then (key, e ∷ []) ∷ (k, members) ∷ groups
    else (k, members) ∷ rest

-- The first loop.
unfoldable pub group_edges : Groups → List StoredEdge → Groups
unfolding push_member
group_edges groups [] = groups
group_edges groups (e ∷ edges) = group_edges (push_member (group_key e.edge) e groups) edges

abbrev pub last? : List (Text × ℤ) → Option (Text × ℤ)
last? [] = none
last? (x ∷ []) = some x
last? (x ∷ y ∷ xs) = last? (y ∷ xs)

abbrev pub repeats : Option (Text × ℤ) → Text → Bool
repeats none object = false
repeats (some (o, t)) object = eq_ignore_ascii_case o object

-- The loop over the members that builds `timeline`.
unfoldable pub timeline_from : List (Text × ℤ) → List StoredEdge → List (Text × ℤ)
unfolding eq_ignore_ascii_case
timeline_from timeline [] = timeline
timeline_from timeline (m ∷ members) =
    timeline_from
      (if repeats (last? timeline) m.edge.object
        then timeline
        else timeline ++ (m.edge.object, m.edge.valid_from) ∷ [])
      members

-- `iter().rfind(…)`.
unfoldable pub rfind : (StoredEdge → Bool) → List StoredEdge → Option StoredEdge
rfind p [] = none
rfind p (e ∷ es) = elim (rfind p es) [ some x ↦ some x | none ↦ if p e then some e else none ]

abbrev pub by_valid_from : StoredEdge → StoredEdge → Bool
by_valid_from a b = leb_ℤ a.edge.valid_from b.edge.valid_from

-- `rfind(…).or_else(|| members.first())`, and `unwrap`, of the members `first ∷ rest`.
abbrev pub or_first : Option StoredEdge → StoredEdge → StoredEdge
or_first none first = first
or_first (some e) first = e

-- The members in the order of their time; no group is without a member.
abbrev pub resolved_of : GroupKey → ℤ → List StoredEdge → List Resolved
resolved_of key as_of [] = []
resolved_of key as_of (first ∷ members) =
    let current_member =
      or_first (rfind (λ e. leb_ℤ e.edge.valid_from as_of) (first ∷ members)) first in
    record {
      subject = key.0;
      predicate = key.1;
      timeline = timeline_from [] (first ∷ members);
      current = current_member.edge.object;
      current_from = current_member.edge.valid_from;
      singular = any (λ e. e.edge.singular) (first ∷ members);
    }
    ∷ []

-- The second loop.
unfoldable pub resolve_groups : ℤ → Groups → List Resolved
unfolding timeline_from rfind sort_by
resolve_groups as_of [] = []
resolve_groups as_of ((key, members) ∷ groups) =
    resolved_of key as_of (sort_by by_valid_from members) ++ resolve_groups as_of groups

unfoldable pub resolve : List StoredEdge → ℤ → List Resolved
unfolding group_edges resolve_groups
resolve edges as_of = resolve_groups as_of (group_edges [] edges)
