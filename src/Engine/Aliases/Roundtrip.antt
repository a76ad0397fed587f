-- ===== src/Engine/Aliases/Roundtrip.antt =====
-- Registering an alias and resolving a name by it.
use ultramem.Prelude.{
  suc, Text, codes, Unicode, trim, is_empty, same, same_refl, &&_intro, List, [], ◌∷◌, find, filter,
  some, some_inj, ◌≡◌, sym, ap, ◌∙◌, Bool-cases, inl, inr, if◌then◌else◌,
}
use ultramem.Prelude.Result.{ok, err≢ok, ok_inj}
use ultramem.World.{World, Env, read_clock}
use ultramem.Db.Rows.{AliasEntry}
use ultramem.Db.Statement.{statement-ok, query-ok}
use ultramem.Db.Access.{same_alias, upsert_alias, add_alias, aliases_for_tag}
use ultramem.Db.Access.Grants.{canonical_of, canonical_of-upsert_alias}
use ultramem.Entity.{normalize, canonical_or, resolve_name}
use ultramem.Engine.{Engine}
use ultramem.Engine.Aliases.{alias_add}

-- The first entry of the namespace with the alias is the one that gives its canonical name.
found_canonical :
    (d : Text) (q : AliasEntry) (aliases : List AliasEntry) (canonical : Text)
    → canonical_of q aliases ≡ some canonical
    → canonical_or d (
        find
          (λ (a : AliasEntry). same a.alias q.alias)
          (filter (λ (a : AliasEntry). same a.container_tag q.container_tag) aliases))
      ≡ canonical
unfolding canonical_of same_alias
found_canonical d q [] canonical h = cc
found_canonical d q (a ∷ aliases) canonical h =
    elim (Bool-cases (same a.container_tag q.container_tag)) [
      | inl t ↦ elim (Bool-cases (same a.alias q.alias)) [
        | inl n ↦ rw (t, n) (some_inj (rw (t, n) at h))
        | inr n ↦ rw (t, n) (found_canonical d q aliases canonical (rw (t, n) at h))
      ]
      | inr t ↦ rw t (found_canonical d q aliases canonical (rw t at h))
    ]

registered :
    (e : AliasEntry) (aliases : List AliasEntry)
    → canonical_of e (upsert_alias e aliases) ≡ some e.canonical
unfolding same_alias
registered e aliases =
    canonical_of-upsert_alias e e aliases
    ∙ ap (λ b. if b then some e.canonical else canonical_of e aliases)
        (&&_intro _ _ (same_refl e.container_tag) (same_refl e.alias))

resolve_registered :
    (u : Unicode) (name : Text) (e : AliasEntry) (old aliases : List AliasEntry)
    → normalize u name ≡ e.alias
    → aliases
      ≡ filter (λ (a : AliasEntry). same a.container_tag e.container_tag) (upsert_alias e old)
    → resolve_name u name aliases ≡ e.canonical
unfolding resolve_name
resolve_registered u name e old aliases n q =
    ap (λ x. canonical_or (trim u name) (find (λ (a : AliasEntry). same a.alias x) aliases)) n
    ∙ ap (λ xs. canonical_or (trim u name) (find (λ (a : AliasEntry). same a.alias e.alias) xs)) q
    ∙ found_canonical (trim u name) e (upsert_alias e old) e.canonical (registered e old)

module _ {F V : Type 0} (u : Unicode) (env : Env) where
  -- After an alias was registered, a lookup of the namespace's aliases resolves every name with the
  -- same normal form to the canonical name, trimmed.
  pub alias_add-resolve :
      (engine : Engine) (tag alias canonical name : Text) (w : World F V)
      (aliases : List AliasEntry)
      → (alias_add u env engine tag alias canonical w).0 ≡ ok tt
      → (aliases_for_tag env tag (alias_add u env engine tag alias canonical w).1).0 ≡ ok aliases
      → normalize u name ≡ normalize u alias
      → resolve_name u name aliases ≡ trim u canonical
  unfolding alias_add add_alias aliases_for_tag read_clock
  alias_add-resolve engine tag alias canonical name w aliases h k n =
      let e : AliasEntry = record {
        container_tag = tag;
        alias = normalize u alias;
        canonical = trim u canonical;
        created_at = env.now w.calls;
      } in
      elim (Bool-cases (is_empty (normalize u alias))) [
        | inl blank ↦ absurd (err≢ok (rw blank at h))
        | inr named ↦ elim (Bool-cases (is_empty (trim u canonical))) [
          | inl blank ↦ absurd (err≢ok (rw (named, blank) at h))
          | inr given ↦ elim (Bool-cases engine.db) [
            | inr none_there ↦ absurd (err≢ok (rw (named, given, none_there) at h))
            | inl db ↦
                let done =
                  statement-ok env (codes "add_alias")
                    (λ t. ok (tt, record t { aliases = upsert_alias e t.aliases }))
                    (record w { calls = suc w.calls }) (rw (named, given, db) at h) in
                resolve_registered u name e w.tables.aliases aliases n (
                  query-ok env (codes "aliases_for_tag")
                    (λ t. filter (λ (a : AliasEntry). same a.container_tag tag) t.aliases)
                    (alias_add u env engine tag alias canonical w).1 k
                  ∙ rw (named, given, db)
                      (ap (λ x. filter (λ (a : AliasEntry). same a.container_tag tag) x.1.aliases)
                        (sym (ok_inj done))))
          ]
        ]
      ]
