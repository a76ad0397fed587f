-- ===== src/Tenant/Config.antt =====
-- crates/ultramem-server/src/tenant.rs: which credentials a configuration registers, and with what
-- policy; the lookup of a bearer token.
use ultramem.Prelude.{
  ℕ, Text, codes, same, same_iff, split_once, Unicode, trim, any, any-Mem, Bool, List, [], ◌∷◌,
  Option, none, some, some_inj, ap₂, ◌≡◌, ◌≢◌, refl, ap, subst, sym, ◌∙◌, ◌⊎◌, inl, inr, Memᴰ,
  Bool-cases, Option-cases, arith,
}
use ultramem.Prelude.Table.{lookup, insert, lookup-insert, lookup-or_insert}
use ultramem.Tenant.Bytes.{ct_eq, ct_eq_iff, AreBytes}
use ultramem.Tenant.Policy.{IsWellFormed}
use ultramem.Tenant.{
  TagPolicy, any_tag, AuthConfig, asked_tag, entry_tags, entry_policy, parse_entry, build_keys,
  spec_entries, add_api_key, build, resolve_token, resolve,
}

-- An entry of the specification that gives the key this policy.
abbrev pub FromEntry : Unicode → List Text → Text → TagPolicy → Type 0
FromEntry u entries k p = (entry : Text) × Memᴰ entry entries × (parse_entry u entry ≡ some (k, p))

nothing : (k : Text) (p : TagPolicy) → lookup {V = TagPolicy} k [] ≢ some p
unfolding lookup
nothing k p h = cc

none-some : {p : TagPolicy} → none ≢ some p
none-some h = cc

module _ (u : Unicode) where
  later :
      (entry : Text) (entries : List Text) (k : Text) (p : TagPolicy)
      → FromEntry u entries k p
      → FromEntry u (entry ∷ entries) k p
  later entry entries k p (e, m, h) = (e, Memᴰ.tail m, h)

  registered :
      (entry key : Text) (policy : TagPolicy) (k : Text) (p : TagPolicy)
      → parse_entry u entry ≡ some (key, policy)
      → key ≡ k
      → policy ≡ p
      → parse_entry u entry ≡ some (k, p)
  registered entry key policy k p h e q = h ∙ ap₂ (λ a b. some (a, b)) e q

  -- Every registered policy was there before the loop, or comes from an entry.
  build_keys-FromEntry :
      (entries : List Text) (keys : List (Text × TagPolicy)) (k : Text) (p : TagPolicy)
      → lookup k (build_keys u entries keys) ≡ some p
      → (lookup k keys ≡ some p) ⊎ FromEntry u entries k p
  unfolding build_keys
  build_keys-FromEntry [] keys k p h = inl h
  build_keys-FromEntry (entry ∷ entries) keys k p h = elim (Option-cases (parse_entry u entry)) [
    | inl e ↦ elim (build_keys-FromEntry entries keys k p (rw e at h)) [
      | inl old ↦ inl old
      | inr new ↦ inr (later entry entries k p new)
    ]
    | inr ((key, policy), e) ↦
        elim (build_keys-FromEntry entries (insert key policy keys) k p (rw e at h)) [
          | inl found ↦
              let old = rw lookup-insert at found in
              elim (Bool-cases (same key k)) [
                | inl hit ↦ inr (
                    (
                      entry,
                      Memᴰ.head refl,
                      registered entry key policy k p e ((same_iff key k).0 hit)
                          (some_inj (rw hit at old)),
                    ))
                | inr miss ↦ inl (rw miss at old)
              ]
          | inr new ↦ inr (later entry entries k p new)
        ]
  ]

  add_api_key-FromEntry :
      (entries : List Text) (api_key : Option Text) (k : Text) (p : TagPolicy)
      → lookup k (add_api_key api_key (build_keys u entries [])) ≡ some p
      → ((api_key ≡ some k) × (p ≡ any_tag)) ⊎ FromEntry u entries k p
  add_api_key-FromEntry entries none k p h = elim (build_keys-FromEntry entries [] k p h) [
    | inl e ↦ absurd (nothing k p e)
    | inr f ↦ inr f
  ]
  add_api_key-FromEntry entries (some key) k p h =
      elim (Option-cases (lookup k (build_keys u entries []))) [
        | inl e ↦ elim (Bool-cases (same key k)) [
          | inl hit ↦ inl (
              (
                ap some ((same_iff key k).0 hit),
                sym (some_inj (rw hit at (rw e at (rw lookup-or_insert at h)))),
              ))
          | inr miss ↦ absurd (none-some (rw miss at (rw e at (rw lookup-or_insert at h))))
        ]
        | inr (q, e) ↦
            elim (build_keys-FromEntry entries [] k p (e ∙ (rw e at (rw lookup-or_insert at h)))) [
              | inl e' ↦ absurd (nothing k p e')
              | inr f ↦ inr f
            ]
      ]

-- Every policy that a configuration registers comes from an entry of the specification or is the
-- wildcard of the API key.
build-FromEntry :
    (u : Unicode) (tenants api_key : Option Text) (dev : Bool) (k : Text) (p : TagPolicy)
    → lookup k (build u tenants api_key dev).keys ≡ some p
    → ((asked_tag u api_key ≡ some k) × (p ≡ any_tag)) ⊎ FromEntry u (spec_entries tenants) k p
unfolding build
build-FromEntry u tenants api_key dev k p h =
    add_api_key-FromEntry u (spec_entries tenants) (asked_tag u api_key) k p h

-- An entry's policy is well formed, and is the wildcard only if `*` is one of its tags.
entry_policy-IsWellFormed :
    (tags : List Text) (p : TagPolicy) → entry_policy tags ≡ some p → IsWellFormed p
entry_policy-IsWellFormed [] p h = cc
entry_policy-IsWellFormed (t ∷ tags) p h =
    elim (Bool-cases (any (λ s. same s (codes "*")) (t ∷ tags))) [
      | inl e ↦ subst IsWellFormed (some_inj (rw e at h)) tt
      | inr e ↦ subst IsWellFormed (some_inj (rw e at h)) (omega arith)
    ]

entry_policy-any_tag : (tags : List Text) → entry_policy tags ≡ some any_tag → Memᴰ (codes "*") tags
entry_policy-any_tag tags h = elim (Bool-cases (any (λ s. same s (codes "*")) tags)) [
  | inl e ↦
      let (t, m, q) = any-Mem (λ s. same s (codes "*")) tags e in
      subst (λ x. Memᴰ x tags) ((same_iff t (codes "*")).0 q) m
  | inr e ↦ ground (arith, rw e at h)
]

-- What an accepted entry is made of.
parse_entry_inv :
    (u : Unicode) (entry k : Text) (p : TagPolicy)
    → parse_entry u entry ≡ some (k, p)
    → (key : Text) × (tags : Text) × (split_once b'=' (trim u entry) ≡ some (key, tags))
      × (trim u key ≡ k)
      × (entry_policy (entry_tags u tags) ≡ some p)
unfolding parse_entry
parse_entry_inv u entry k p h = elim (Option-cases (split_once b'=' (trim u entry))) [
  | inl e ↦ cc (rw (e, parse_entry) at h)
  | inr ((key, tags), e) ↦
      let made = rw (e, parse_entry) at h in
      (key, tags, e, ground (arith, made), ground (arith, made))
]

-- A configuration registers only well-formed policies: no credential has an empty list of tags.
pub build-IsWellFormed :
    (u : Unicode) (tenants api_key : Option Text) (dev : Bool) (k : Text) (p : TagPolicy)
    → lookup k (build u tenants api_key dev).keys ≡ some p
    → IsWellFormed p
build-IsWellFormed u tenants api_key dev k p h =
    elim (build-FromEntry u tenants api_key dev k p h) [
      | inl (_, e) ↦ subst IsWellFormed (sym e) tt
      | inr (entry, _, parsed) ↦
          let (_, tags, _, _, made) = parse_entry_inv u entry k p parsed in
          entry_policy-IsWellFormed (entry_tags u tags) p made
    ]

-- A credential has the wildcard policy only if it is the API key, or an entry of the specification
-- names it and has `*` among its tags.
pub build_wildcard :
    (u : Unicode) (tenants api_key : Option Text) (dev : Bool) (k : Text)
    → lookup k (build u tenants api_key dev).keys ≡ some any_tag
    → (asked_tag u api_key ≡ some k)
      ⊎ ((entry : Text) × (key : Text) × (tags : Text) × Memᴰ entry (spec_entries tenants)
          × (split_once b'=' (trim u entry) ≡ some (key, tags))
          × (trim u key ≡ k)
          × Memᴰ (codes "*") (entry_tags u tags))
build_wildcard u tenants api_key dev k h =
    elim (build-FromEntry u tenants api_key dev k any_tag h) [
      | inl (e, _) ↦ inl e
      | inr (entry, m, parsed) ↦
          let (key, tags, e, named, made) = parse_entry_inv u entry k any_tag parsed in
          inr ((entry, key, tags, m, e, named, entry_policy-any_tag (entry_tags u tags) made))
    ]

-- The bytes of a text: distinct texts have distinct bytes.
pub record Utf8 : Type 0 where
  pub as_bytes : Text → List ℕ
  pub bytes : (s : Text) → AreBytes (as_bytes s)
  pub injective : (s t : Text) → as_bytes s ≡ as_bytes t → s ≡ t

module _ (b : Utf8) where
  ct_eq-same : (k t : Text) → ct_eq (b.as_bytes k) (b.as_bytes t) ≡ same k t
  ct_eq-same k t = elim (Bool-cases (same k t)) [
    | inl e ↦
        rw (e, (same_iff k t).0 e)
          ((ct_eq_iff (b.as_bytes t) (b.as_bytes t) (b.bytes t) (b.bytes t)).1 refl)
    | inr e ↦ elim (Bool-cases (ct_eq (b.as_bytes k) (b.as_bytes t))) [
      | inl h ↦
          let q : k ≡ t =
            b.injective k t
              ((ct_eq_iff (b.as_bytes k) (b.as_bytes t) (b.bytes k) (b.bytes t)).0 h) in
          cc (e, (same_iff k t).1 q)
      | inr h ↦ h ∙ sym e
    ]
  ]

  resolve_token-lookup :
      (keys : List (Text × TagPolicy)) (token : Text)
      → resolve_token b.as_bytes keys token ≡ lookup token keys
  unfolding resolve_token lookup
  resolve_token-lookup [] token = refl
  resolve_token-lookup ((key, policy) ∷ keys) token =
      rw (ct_eq-same key token, resolve_token-lookup keys token)

-- Resolving a bearer token by the constant-time scan is the lookup of the token among the keys, and
-- a request without a token resolves to nothing.
pub resolve-lookup :
    (b : Utf8) (cfg : AuthConfig)
    → ((token : Text) → resolve b.as_bytes cfg (some token) ≡ lookup token cfg.keys)
      × (resolve b.as_bytes cfg none ≡ none)
unfolding resolve
resolve-lookup b cfg = (resolve_token-lookup b cfg.keys, refl)
