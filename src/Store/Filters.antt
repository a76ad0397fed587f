-- ===== src/Store/Filters.antt =====
-- crates/ultramem-core/src/engine/mod.rs: the payload filters of searches and deletions.
use ultramem.Prelude.{
  ℤ, Text, codes, same, Bool, true, false, List, [], ◌∷◌, ◌++◌, Option, none, some, is_some, ◌||◌,
  if◌then◌else◌,
}
use ultramem.Store.Point.{bool, str, Bounds, Condition, match_value, range, is_empty_key, Filter}

abbrev pub default_tag : Text
default_tag = codes "default"

abbrev pub empty_filter : Filter
empty_filter = record { must = []; should = []; must_not = [] }

abbrev pub or_empty : Option Filter → Filter
or_empty none = empty_filter
or_empty (some f) = f

abbrev pub has_tag : Text → Condition
has_tag tag = match_value (codes "container_tag") (str tag)

abbrev pub untagged : Condition
untagged = is_empty_key (codes "container_tag")

unfoldable pub tagged_filter : Option Filter → Text → Filter
tagged_filter base tag =
    let f = or_empty base in
    if same tag default_tag
    then record f { should = f.should ++ has_tag default_tag ∷ untagged ∷ [] }
    else record f { must = f.must ++ has_tag tag ∷ [] }

-- The loop of `scope_filter` over several scopes.
unfoldable pub scope_conditions : List Text → List Condition
scope_conditions [] = []
scope_conditions (s ∷ scopes) =
    let rest = scope_conditions scopes in
    if same s default_tag then has_tag s ∷ untagged ∷ rest else has_tag s ∷ rest

unfoldable pub scope_filter : Option Filter → List Text → Filter
unfolding tagged_filter scope_conditions
scope_filter base [] = tagged_filter base default_tag
scope_filter base (one ∷ []) = tagged_filter base one
scope_filter base (one ∷ two ∷ many) =
    let f = or_empty base in record f { should = f.should ++ scope_conditions (one ∷ two ∷ many) }

unfoldable pub doc_delete_filter : Text → Text → Filter
unfolding tagged_filter
doc_delete_filter doc_id tag =
    tagged_filter
      (some (record empty_filter { must = match_value (codes "doc_id") (str doc_id) ∷ [] })) tag

abbrev pub below : ℤ → Bounds
below now = record { lt = some now; lte = none; gt = none; gte = none }

unfoldable pub active_facts_filter : Option Filter → ℤ → Filter
active_facts_filter base now =
    let f = or_empty base in
    record f {
      must_not =
          f.must_not
          ++ match_value (codes "is_latest") (bool false)
            ∷ range (codes "valid_until") (below now)
            ∷ match_value (codes "needs_review") (bool true)
            ∷ [];
    }

-- crates/ultramem-core/src/engine/rewrite.rs
pub record SearchPlan : Type 0 where
  pub query : Text
  pub source : Option Text
  pub after : Option ℤ
  pub before : Option ℤ
  pub listy : Bool

abbrev pub source_condition : Option Text → List Condition
source_condition none = []
source_condition (some src) = match_value (codes "source") (str src) ∷ []

abbrev pub time_condition : Option ℤ → Option ℤ → List Condition
time_condition after before =
    if is_some after || is_some before
    then range (codes "captured_at") (record { lt = none; lte = before; gt = none; gte = after })
      ∷ []
    else []

abbrev pub filter_of_must : List Condition → Option Filter
filter_of_must [] = none
filter_of_must (c ∷ cs) = some (record { must = c ∷ cs; should = []; must_not = [] })

unfoldable pub build_filter : SearchPlan → Option Filter
build_filter plan =
    filter_of_must (source_condition plan.source ++ time_condition plan.after plan.before)
