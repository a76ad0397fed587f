-- ===== src/Tenant.antt =====
-- crates/ultramem-server/src/tenant.rs: which namespaces a credential may touch. A text's bytes
-- (`as_bytes`) are a parameter of `resolve`.
pub mod Bytes
pub mod Policy
pub mod Config
use ultramem.Prelude.{
  ℕ, ◌==◌, Text, codes, same, contains, split, split_once, Unicode, trim, filter, is_empty, not,
  Bool, true, false, ◌&&◌, List, [], ◌∷◌, map, any, length, Option, none, some, if◌then◌else◌,
}
use ultramem.Prelude.Table.{lookup, insert, or_insert}
use ultramem.Tenant.Bytes.{ct_eq}

abbrev pub default_tag : Text
default_tag = codes "default"

pub data TagPolicy : Type 0 where
  any_tag : TagPolicy
  only : List Text → TagPolicy

-- What `TagPolicy::resolve` comes to; indexing an empty list panics.
pub data Resolution : Type 0 where
  ok : Text → Resolution
  tag_denied : Resolution
  panic : Resolution

abbrev pub first_tag : List Text → Resolution
first_tag [] = panic
first_tag (t ∷ tags) = ok t

-- `requested.as_deref().map(str::trim).filter(|s| !s.is_empty())`
abbrev pub asked_tag : Unicode → Option Text → Option Text
asked_tag u none = none
asked_tag u (some s) = if is_empty (trim u s) then none else some (trim u s)

abbrev pub resolve_asked : TagPolicy → Option Text → Resolution
resolve_asked any_tag none = ok default_tag
resolve_asked any_tag (some t) = ok t
resolve_asked (only tags) none = first_tag tags
resolve_asked (only tags) (some t) = if contains tags t then ok t else tag_denied

unfoldable pub resolve_tag : Unicode → TagPolicy → Option Text → Resolution
resolve_tag u policy requested = resolve_asked policy (asked_tag u requested)

pub record AuthConfig : Type 0 where
  pub keys : List (Text × TagPolicy)
  pub dev : Bool

-- The tags of an entry, and its policy: none for an entry with no tags.
unfoldable pub entry_tags : Unicode → Text → List Text
entry_tags u tags = filter (λ t. not (is_empty t)) (map (trim u) (split (λ c. c == b',') tags))

abbrev pub entry_policy : List Text → Option TagPolicy
entry_policy tags =
    if any (λ t. same t (codes "*")) tags
    then some any_tag
    else if is_empty tags
    then none
    else some (only tags)

-- One entry `key=tag1,tag2` of the specification; `none` where the loop goes on.
unfoldable pub parse_entry : Unicode → Text → Option (Text × TagPolicy)
unfolding entry_tags
parse_entry u entry = elim (split_once b'=' (trim u entry)) [
  | none ↦ none
  | some (key, tags) ↦
      if is_empty (trim u key) then none else elim (entry_policy (entry_tags u tags)) [
        | none ↦ none
        | some policy ↦ some (trim u key, policy)
      ]
]

unfoldable pub build_keys : Unicode → List Text → List (Text × TagPolicy) → List (Text × TagPolicy)
build_keys u [] keys = keys
build_keys u (entry ∷ entries) keys =
    build_keys u entries
      (elim (parse_entry u entry) [ none ↦ keys | some (key, policy) ↦ insert key policy keys ])

abbrev pub spec_entries : Option Text → List Text
spec_entries none = []
spec_entries (some spec) = split (λ c. if c == 10 then true else c == b';') spec

abbrev pub add_api_key : Option Text → List (Text × TagPolicy) → List (Text × TagPolicy)
add_api_key none keys = keys
add_api_key (some k) keys = or_insert k any_tag keys

unfoldable pub build : Unicode → Option Text → Option Text → Bool → AuthConfig
unfolding build_keys
build u tenants api_key dev = record {
  keys = add_api_key (asked_tag u api_key) (build_keys u (spec_entries tenants) []);
  dev = dev;
}

unfoldable pub is_open : AuthConfig → Bool
is_open cfg = is_empty cfg.keys

unfoldable pub is_misconfigured : AuthConfig → Bool
is_misconfigured cfg = is_empty cfg.keys && not cfg.dev

-- `AuthConfig::resolve`: the loop over the keys.
unfoldable pub resolve_token : (Text → List ℕ) → List (Text × TagPolicy) → Text → Option TagPolicy
resolve_token as_bytes [] token = none
resolve_token as_bytes ((key, policy) ∷ keys) token =
    if ct_eq (as_bytes key) (as_bytes token) then some policy else resolve_token as_bytes keys token

unfoldable pub resolve : (Text → List ℕ) → AuthConfig → Option Text → Option TagPolicy
unfolding resolve_token
resolve as_bytes cfg none = none
resolve as_bytes cfg (some token) = resolve_token as_bytes cfg.keys token
