-- ===== src/Store/Isolation.antt =====
-- crates/ultramem-core/src/engine/mod.rs: which namespaces a filter lets through.
use ultramem.Prelude.{
  Text, codes, same, same_iff, same_refl, Bool, true, false, not, ◌&&◌, ◌||◌, List, [], ◌∷◌, all,
  any, any-Mem, any_intro, all-append, is_empty, Option, none, some, ◌≡◌, refl, sym, ap, ◌∙◌, ◌⊎◌,
  inl, inr, ◌↔◌, Memᴰ, Bool-cases, &&_split, &&_intro, ||_split, arith,
}
use ultramem.Prelude.Table.{lookup}
use ultramem.Store.Point.{
  Value, null, bool, int, str, Payload, same_value, Filter, holds_value, is_null, cond_matches,
  filter_matches,
}
use ultramem.Store.Filters.{
  default_tag, or_empty, tagged_filter, scope_conditions, scope_filter, SearchPlan, build_filter,
}
use ultramem.Db.Rows.{AclEntry}
use ultramem.Scope.{visible_scopes, can_read}
use ultramem.Scope.Visible.{can_read-Mem, visible_scopes-cons}

-- The namespace of a payload: its tag, or the default one if it has none (legacy data). A tag that
-- is neither a text nor missing belongs to no namespace.
abbrev pub InTag : Payload → Text → Type 0
InTag payload tag =
    (lookup (codes "container_tag") payload ≡ some (str tag))
    ⊎ ((tag ≡ default_tag) × (is_null (lookup (codes "container_tag") payload) ≡ true))

pub holds_str : (o : Option Value) (s : Text) → holds_value o (str s) ≡ true → o ≡ some (str s)
unfolding same_value
holds_str none s h = cc
holds_str (some null) s h = cc
holds_str (some (bool true)) s h = cc
holds_str (some (bool false)) s h = cc
holds_str (some (int n)) s h = cc
holds_str (some (str t)) s h = ap (λ x. some (str x)) ((same_iff t s).0 h)

pub holds_str_intro :
    (o : Option Value) (s : Text) → o ≡ some (str s) → holds_value o (str s) ≡ true
unfolding same_value
holds_str_intro o s h = rw h (same_refl s)

-- Matching is: every `must`, no `must_not`, and one `should` if there is any.
pub filter_matches-eq :
    (payload : Payload) (f : Filter)
    → filter_matches payload f ≡ (
        all (cond_matches payload) f.must
        && not (any (cond_matches payload) f.must_not)
        && (is_empty f.should || any (cond_matches payload) f.should))
unfolding filter_matches
filter_matches-eq payload f = ground arith

-- The test that the conditions on one tag make.
abbrev pub tag_test : Payload → Text → Bool
tag_test payload tag =
    holds_value (lookup (codes "container_tag") payload) (str tag)
    || (same tag default_tag && is_null (lookup (codes "container_tag") payload))

pub tag_test_iff :
    (payload : Payload) (tag : Text) → (tag_test payload tag ≡ true) ↔ InTag payload tag
tag_test_iff payload tag = (sound, complete)
  where
    held : Option Value
    held = lookup (codes "container_tag") payload

    sound : tag_test payload tag ≡ true → InTag payload tag
    sound h = elim (||_split (holds_value held (str tag)) _ h) [
      | inl e ↦ inl (holds_str held tag e)
      | inr e ↦
          let (d, n) = &&_split (same tag default_tag) (is_null held) e in
          inr (((same_iff tag default_tag).0 d, n))
    ]

    complete : InTag payload tag → tag_test payload tag ≡ true
    complete (inl e) = rw (holds_str_intro held tag e)
    complete (inr (d, n)) = ground (arith, (same_iff tag default_tag).1 d, n)

any-scope_conditions :
    (payload : Payload) (scopes : List Text)
    → any (cond_matches payload) (scope_conditions scopes) ≡ any (tag_test payload) scopes
unfolding scope_conditions cond_matches
any-scope_conditions payload [] = refl
any-scope_conditions payload (s ∷ scopes) = ground (arith, any-scope_conditions payload scopes)

scope_conditions-nonempty :
    (s : Text) (scopes : List Text) → is_empty (scope_conditions (s ∷ scopes)) ≡ false
unfolding scope_conditions
scope_conditions-nonempty s scopes = ground arith

-- The base constraint stays, and the tag is one more.
pub tagged_filter-eq :
    (payload : Payload) (base : Option Filter) (tag : Text)
    → (or_empty base).should ≡ []
    → filter_matches payload (tagged_filter base tag)
      ≡ (filter_matches payload (or_empty base) && tag_test payload tag)
unfolding tagged_filter cond_matches
tagged_filter-eq payload base tag h = elim (Bool-cases (same tag default_tag)) [
  | inl e ↦ rw (e, (same_iff tag default_tag).0 e) (simp (filter_matches-eq, h) (ground arith))
  | inr e ↦ rw e (simp (filter_matches-eq, h, all-append) (ground arith))
]

-- The same of one or more scopes: one of the tags fits.
scope_filter-eq :
    (payload : Payload) (base : Option Filter) (s : Text) (scopes : List Text)
    → (or_empty base).should ≡ []
    → filter_matches payload (scope_filter base (s ∷ scopes))
      ≡ (filter_matches payload (or_empty base) && any (tag_test payload) (s ∷ scopes))
unfolding scope_filter
scope_filter-eq payload base s [] h = tagged_filter-eq payload base s h ∙ ground arith
scope_filter-eq payload base s (t ∷ scopes) h =
    simp (filter_matches-eq, h, any-scope_conditions, scope_conditions-nonempty) (ground arith)

any-tag_test_iff :
    (payload : Payload) (scopes : List Text)
    → (any (tag_test payload) scopes ≡ true)
      ↔ ((scope : Text) × Memᴰ scope scopes × InTag payload scope)
any-tag_test_iff payload scopes = (
  λ h. let (t, m, e) = any-Mem (tag_test payload) scopes h in (t, m, (tag_test_iff payload t).0 e),
  λ r. any_intro (tag_test payload) scopes r.1 ((tag_test_iff payload r.0).1 r.2),
)

-- The plan's filter has no `should`, so the namespace conditions are alone in theirs.
build_filter-should : (plan : SearchPlan) → (or_empty (build_filter plan)).should ≡ []
unfolding build_filter
build_filter-should plan = ground arith

visible_filter-eq :
    (own : Text) (acls : List AclEntry) (plan : SearchPlan) (payload : Payload)
    → filter_matches payload (scope_filter (build_filter plan) (visible_scopes own acls)) ≡ (
        filter_matches payload (or_empty (build_filter plan))
        && any (tag_test payload) (visible_scopes own acls))
visible_filter-eq own acls plan payload =
    let (rest, e) = visible_scopes-cons own acls in
    rw e (scope_filter-eq payload (build_filter plan) own rest (build_filter-should plan))

-- A read on behalf of a principal, filtered by a search plan, lets a payload through exactly if the
-- payload meets the plan's own constraints and belongs to a namespace that the principal may read.
pub read_isolation_iff :
    (own : Text) (acls : List AclEntry) (plan : SearchPlan) (payload : Payload)
    → (filter_matches payload (scope_filter (build_filter plan) (visible_scopes own acls)) ≡ true)
      ↔ ((filter_matches payload (or_empty (build_filter plan)) ≡ true)
          × ((scope : Text) × (can_read own scope acls ≡ true) × InTag payload scope))
read_isolation_iff own acls plan payload = (sound, complete)
  where
    sound :
        filter_matches payload (scope_filter (build_filter plan) (visible_scopes own acls)) ≡ true
        → (filter_matches payload (or_empty (build_filter plan)) ≡ true)
          × ((scope : Text) × (can_read own scope acls ≡ true) × InTag payload scope)
    sound h =
        let (b, t) = &&_split _ _ (sym (visible_filter-eq own acls plan payload) ∙ h) in
        let (s, m, i) = (any-tag_test_iff payload (visible_scopes own acls)).0 t in
        (b, (s, (can_read-Mem own s acls).1 m, i))

    complete :
        (filter_matches payload (or_empty (build_filter plan)) ≡ true)
          × ((scope : Text) × (can_read own scope acls ≡ true) × InTag payload scope)
        → filter_matches payload (scope_filter (build_filter plan) (visible_scopes own acls)) ≡ true
    complete (b, (s, r, i)) =
        visible_filter-eq own acls plan payload
        ∙ &&_intro _ _ b (
            (any-tag_test_iff payload (visible_scopes own acls)).1
              ((s, (can_read-Mem own s acls).0 r, i)))
